-- ===== src/Agent.antt =====
-- The agent runtime of crates/aios-agent/src/lib.rs: one task at a time, driven by a model through the
-- two gates. The clock and the random identifiers are the record `Supply`, read in order; `tick` counts
-- what was read. The loop of `drive` runs on fuel; without it there is no result.
pub mod Decision
pub mod Loop
pub mod Methods
pub mod Termination
pub mod Outcomes
mod Witnesses
use ai_os.Prelude.{
  ℕ, zero, suc, ◌+◌, Bool, true, false, not, ◌||◌, List, [], ◌∷◌, Option, none, some, ltb, leb,
  nat_beq, if◌then◌else◌, keep_if, Result, ok, err, Outcome, returns, fails,
}
use ai_os.Core.State.{is_terminal}
use ai_os.Core.Error.{ErrorCode}
use ai_os.Core.Error
use ai_os.Core.Task.{NetworkDestination}
use ai_os.Core.Policy.{DenialReason}
use ai_os.Runtime.Event.{TaskId, ApprovalId, OperationId, EventStore}
use ai_os.Runtime.Approval.{Instant, Duration, ApprovalRequest}
use ai_os.Runtime.Supervisor.{TaskSupervisor, SupervisorError}
use ai_os.Runtime.Supervisor.Tasks.{
  execution_context, remaining_wall_time, wall_time_exceeded, fail, fail_budget_exceeded, succeed,
  start_execution, get_task,
}
use ai_os.Runtime.Execution.{
  Adapter, ExecutionGate, ExecutionError, supervisor_error, adapter_error, operation_not_found,
  ExecutionOutcome, executed, denied_for, approval_needed, Executed, Guarded, is_over,
  approve_and_execute,
}
use ai_os.Runtime.Execution
use ai_os.Adapters.Tool.{
  ToolOperation, ToolOutput, ToolAdapterError, ToolCatalog, ToolAdapter, ToolHandler,
  ToolExecutionGate, prepare, route_names_for_tools, tool_adapter,
}
use ai_os.Adapters.Tool
use ai_os.Adapters.Network.{
  TcpExchangeOperation, TcpExchangeResponse, NetworkAdapterError, prepare_tcp_exchange,
}
use ai_os.Adapters.Network
use ai_os.Agent.Decision.{
  AgentOutput, ModelDecision, finish_with, call_tool_with, tcp_exchange_with, Model,
  default_max_model_steps, max_model_steps, default_approval_ttl, max_approval_ttl, one_millisecond,
}

pub record AgentConfig : Type 0 where
  pub max_steps : ℕ
  pub approval_ttl : Duration

pub data AgentError : Type 0 where
  invalid_config capacity_exceeded invalid_state invalid_decision step_limit_exceeded model_failed
        tool_failed network_failed budget_exceeded :
      AgentError
  supervisor_failed : SupervisorError → AgentError

-- `AgentError::code`
unfoldable pub code : AgentError → Option ErrorCode
code budget_exceeded = some Error.budget_exceeded
code _ = none

pub data AgentRunOutcome : Type 0 where
  completed : AgentOutput → AgentRunOutcome
  waiting_approval : ApprovalRequest → AgentRunOutcome
  denied : DenialReason → AgentRunOutcome

-- `AgentConfig::new`
unfoldable pub new_config : ℕ → Duration → Result AgentError AgentConfig
new_config max_steps approval_ttl =
    if nat_beq max_steps 0
      || ltb max_model_steps max_steps
      || ltb approval_ttl one_millisecond
      || ltb max_approval_ttl approval_ttl
    then err invalid_config
    else ok (record { max_steps = max_steps; approval_ttl = approval_ttl })

-- `AgentConfig::default`
abbrev pub default_config : AgentConfig
default_config = record { max_steps = default_max_model_steps; approval_ttl = default_approval_ttl }

pub data PendingAdapter : Type 0 where
  tool_adapter_pending network_adapter_pending : PendingAdapter

pub record PendingApproval : Type 0 where
  pub approval_id : ApprovalId
  pub adapter : PendingAdapter

pub record ActiveSession (Sess : Type 0) : Type 0 where
  pub task_id : TaskId
  pub model : Sess
  pub next_step : ℕ
  pub previous_operation_output : Option (List ℕ)
  pub pending_approval : Option PendingApproval

-- `AgentNetwork` is its gate: the catalog is stateless. `A` is the network adapter.
pub record AgentRuntime (M Sess H A : Type 0) : Type 0 where
  pub model_adapter : M
  pub tool_catalog : ToolCatalog
  pub tool_gate : ToolExecutionGate H
  pub network : Option (ExecutionGate A TcpExchangeOperation)
  pub config : AgentConfig
  pub active : Option (ActiveSession Sess)

-- What the methods change.
pub record Driven (St M Sess H A : Type 0) : Type 0 where
  pub runtime : AgentRuntime M Sess H A
  pub supervisor : TaskSupervisor St
  pub tick : ℕ

-- The readings of the clock and the new identifiers.
pub record Supply : Type 0 where
  pub clock : ℕ → Instant
  pub identifier : ℕ → ℕ

-- One turn of the loop in `drive`: it returns, or goes on.
pub data Turn (D : Type 0) : Type 0 where
  done : Outcome D AgentError AgentRunOutcome → Turn D
  next : D → Turn D

module _ {M Sess H A : Type 0} where
  unfoldable pub new : M → ToolCatalog → ToolExecutionGate H → AgentConfig → AgentRuntime M Sess H A
  new model_adapter tool_catalog tool_gate config = record {
    model_adapter = model_adapter;
    tool_catalog = tool_catalog;
    tool_gate = tool_gate;
    network = none;
    config = config;
    active = none;
  }

  unfoldable pub with_network_gate :
      AgentRuntime M Sess H A → ExecutionGate A TcpExchangeOperation → AgentRuntime M Sess H A
  with_network_gate runtime gate = record runtime { network = some gate }

  unfoldable pub active_task : AgentRuntime M Sess H A → Option TaskId
  active_task runtime = elim runtime.active [ none ↦ none | some active ↦ some active.task_id ]

  unfoldable pub require_pending :
      AgentRuntime M Sess H A → ApprovalId → Result AgentError (TaskId × PendingAdapter)
  require_pending runtime approval_id = elim runtime.active [
    | none ↦ err invalid_state
    | some active ↦ elim active.pending_approval [
      | none ↦ err invalid_state
      | some pending ↦
          if not (nat_beq pending.approval_id approval_id)
          then err invalid_state
          else ok (active.task_id, pending.adapter)
    ]
  ]

  -- `pending_adapter().unwrap_or(PendingAdapter::Tool)`
  unfoldable pub pending_adapter : AgentRuntime M Sess H A → PendingAdapter
  pending_adapter runtime = elim runtime.active [
    | none ↦ tool_adapter_pending
    | some active ↦ elim active.pending_approval [
      | none ↦ tool_adapter_pending
      | some pending ↦ pending.adapter
    ]
  ]

abbrev pub tool_error_of : ToolAdapterError → AgentError
tool_error_of Tool.budget_exceeded = budget_exceeded
tool_error_of _ = tool_failed

abbrev pub network_error_of : NetworkAdapterError → AgentError
network_error_of Network.budget_exceeded = budget_exceeded
network_error_of _ = network_failed

-- `map_tool_error`
unfoldable pub map_tool_error : ExecutionError ToolAdapterError → AgentError
map_tool_error (supervisor_error e) = supervisor_failed e
map_tool_error (adapter_error e) = tool_error_of e
map_tool_error operation_not_found = tool_failed

-- `map_network_error`
unfoldable pub map_network_error : ExecutionError NetworkAdapterError → AgentError
map_network_error (supervisor_error e) = supervisor_failed e
map_network_error (adapter_error e) = network_error_of e
map_network_error operation_not_found = network_failed
