-- ===== src/Agent/Loop.antt =====
-- `AgentRuntime::drive` of crates/aios-agent/src/lib.rs: the turns of the loop, and how a gate's reply is
-- settled, which the code does in the same way for the two adapters.
use ai_os.Prelude.{
  ℕ, zero, suc, ◌+◌, Bool, true, false, List, Option, none, some, ltb, nat_beq, if◌then◌else◌, ok,
  err, Outcome, returns, fails,
}
use ai_os.Runtime.Event.{TaskId, EventStore}
use ai_os.Runtime.Supervisor.{TaskSupervisor, Answer}
use ai_os.Runtime.Supervisor.Tasks.{
  execution_context, remaining_wall_time, fail, fail_budget_exceeded, succeed,
}
use ai_os.Runtime.Execution.{
  Adapter, ExecutionGate, ExecutionError, supervisor_error, adapter_error, operation_not_found,
  ExecutionOutcome, executed, denied_for, approval_needed, Guarded,
}
use ai_os.Adapters.Tool.{
  ToolOperation, ToolOutput, ToolAdapterError, ToolAdapter, ToolHandler, prepare,
}
use ai_os.Adapters.Tool
use ai_os.Adapters.Network.{
  TcpExchangeOperation, TcpExchangeResponse, NetworkAdapterError, prepare_tcp_exchange,
}
use ai_os.Adapters.Network
use ai_os.Agent.Decision.{ModelDecision, finish_with, call_tool_with, tcp_exchange_with, Model}
use ai_os.Agent.{
  AgentError, invalid_state, invalid_decision, step_limit_exceeded, model_failed, tool_failed,
  network_failed, budget_exceeded, supervisor_failed, AgentRunOutcome, completed, waiting_approval,
  denied, PendingAdapter, tool_adapter_pending, network_adapter_pending, ActiveSession, Driven,
  Supply, Turn, done, next,
}

abbrev pub Method : Type 0 → Type 0 → Type 0
Method D X = Outcome D AgentError X

module _ {St M Sess H A : Type 0} where
  abbrev pub set_active : Option (ActiveSession Sess) → Driven St M Sess H A → Driven St M Sess H A
  set_active active d = record d { runtime = record d.runtime { active = active } }

  abbrev pub put_supervisor : TaskSupervisor St → Driven St M Sess H A → Driven St M Sess H A
  put_supervisor sup d = record d { supervisor = sup }

  abbrev pub advance : ℕ → Driven St M Sess H A → Driven St M Sess H A
  advance n d = record d { tick = d.tick + n }

  -- `self.active = None; supervisor.method(task_id)?`, and what follows.
  abbrev pub stop_with :
      {X : Type 0}
      → Answer St (Unit {0})
      → Driven St M Sess H A
      → (Driven St M Sess H A → Method (Driven St M Sess H A) X)
      → Method (Driven St M Sess H A) X
  stop_with (fails e sup) d continue =
      fails (supervisor_failed e) (put_supervisor sup (set_active none d))
  stop_with (returns _ sup) d continue = continue (put_supervisor sup (set_active none d))

  -- A gate's reply, with the gate and the supervisor put back.
  abbrev pub put_tool_reply :
      {X : Type 0}
      → Outcome (Guarded St (ToolAdapter H) ToolOperation) (ExecutionError ToolAdapterError) X
      → Driven St M Sess H A
      → Outcome (Driven St M Sess H A) (ExecutionError ToolAdapterError) X
  put_tool_reply (returns x g) d =
      returns x
        (record d { runtime = record d.runtime { tool_gate = g.gate }; supervisor = g.supervisor })
  put_tool_reply (fails e g) d =
      fails e
        (record d { runtime = record d.runtime { tool_gate = g.gate }; supervisor = g.supervisor })

  abbrev pub put_network_reply :
      {X : Type 0}
      → Outcome (Guarded St A TcpExchangeOperation) (ExecutionError NetworkAdapterError) X
      → Driven St M Sess H A
      → Outcome (Driven St M Sess H A) (ExecutionError NetworkAdapterError) X
  put_network_reply (returns x g) d =
      returns x (record d {
        runtime = record d.runtime { network = some g.gate };
        supervisor = g.supervisor;
      })
  put_network_reply (fails e g) d =
      fails e (record d {
        runtime = record d.runtime { network = some g.gate };
        supervisor = g.supervisor;
      })

abbrev pub is_tool_budget : ToolAdapterError → Bool
is_tool_budget Tool.budget_exceeded = true
is_tool_budget _ = false

abbrev pub is_network_budget : NetworkAdapterError → Bool
is_network_budget Network.budget_exceeded = true
is_network_budget _ = false

module _ {St M Sess H A : Type 0} (S : EventStore St) where
  unfoldable pub fail_active :
      {X : Type 0}
      → Driven St M Sess H A
      → TaskId
      → (Driven St M Sess H A → Method (Driven St M Sess H A) X)
      → Method (Driven St M Sess H A) X
  fail_active d task_id = stop_with (fail S d.supervisor task_id) d

  unfoldable pub fail_budget_active :
      {X : Type 0}
      → Driven St M Sess H A
      → TaskId
      → (Driven St M Sess H A → Method (Driven St M Sess H A) X)
      → Method (Driven St M Sess H A) X
  fail_budget_active d task_id = stop_with (fail_budget_exceeded S d.supervisor task_id) d

  -- What an error of the adapter, or a missing operation, ends in.
  unfoldable pub fail_adapter :
      {X : Type 0}
      → Bool
      → AgentError
      → Driven St M Sess H A
      → TaskId
      → Method (Driven St M Sess H A) X
  unfolding fail_active fail_budget_active
  fail_adapter true failure d task_id = fail_budget_active d task_id (fails budget_exceeded)
  fail_adapter false failure d task_id = fail_active d task_id (fails failure)

  -- The match on the outcome of a gate's `request`.
  unfoldable pub settle :
      {Output Err : Type 0}
      → PendingAdapter
      → (Err → Bool)
      → AgentError
      → (Output → List ℕ)
      → ActiveSession Sess
      → Outcome (Driven St M Sess H A) (ExecutionError Err) (ExecutionOutcome Output)
      → Turn (Driven St M Sess H A)
  unfolding fail_adapter fail_active
  settle adapter is_budget failure bytes_of active (returns (executed run) d) = next (
      set_active (some (record active { previous_operation_output = some (bytes_of run.output) }))
        d)
  settle adapter is_budget failure bytes_of active (returns (denied_for reason) d) =
      done (fail_active d active.task_id (returns (denied reason)))
  settle adapter is_budget failure bytes_of active (returns (approval_needed request) d) = done (
      returns (waiting_approval request) (
        set_active
          (some (record active {
            pending_approval =
                some (record { approval_id = request.approval_id; adapter = adapter });
          }))
          d))
  settle adapter is_budget failure bytes_of active (fails (supervisor_error e) d) =
      done (fails (supervisor_failed e) (set_active none d))
  settle adapter is_budget failure bytes_of active (fails (adapter_error e) d) =
      done (fail_adapter (is_budget e) failure d active.task_id)
  settle adapter is_budget failure bytes_of active (fails operation_not_found d) =
      done (fail_adapter false failure d active.task_id)

module _ {St M Sess H A : Type 0} (S : EventStore St) (P : Model M Sess) (T : ToolHandler H)
    (N : Adapter A TcpExchangeOperation TcpExchangeResponse NetworkAdapterError) (E : Supply) where
  -- `supervisor.execution_context(task_id)?.remaining_wall_time().is_zero()`, and what follows.
  unfoldable pub with_budget :
      Driven St M Sess H A
      → TaskId
      → (Driven St M Sess H A → Turn (Driven St M Sess H A))
      → Turn (Driven St M Sess H A)
  unfolding fail_budget_active
  with_budget d task_id continue = elim (execution_context d.supervisor task_id) [
    | err e ↦ done (fails (supervisor_failed e) d)
    | ok context ↦
        if nat_beq (remaining_wall_time context (E.clock d.tick)) 0
        then done (fail_budget_active S (advance 1 d) task_id (fails budget_exceeded))
        else continue (advance 1 d)
  ]

  unfoldable pub request_tool :
      Driven St M Sess H A → ActiveSession Sess → ToolOperation → Turn (Driven St M Sess H A)
  unfolding settle
  request_tool d active operation =
      settle S tool_adapter_pending is_tool_budget tool_failed (λ output. output.bytes) active
        (put_tool_reply
          (Tool.request T S (record { gate = d.runtime.tool_gate; supervisor = d.supervisor })
            (E.clock d.tick) (E.clock (d.tick + 1)) (E.clock (d.tick + 2)) (E.identifier d.tick)
            (E.identifier (d.tick + 1)) active.task_id operation d.runtime.config.approval_ttl)
          (advance 3 d))

  unfoldable pub request_network :
      Driven St M Sess H A
      → ActiveSession Sess
      → ExecutionGate A TcpExchangeOperation
      → TcpExchangeOperation
      → Turn (Driven St M Sess H A)
  unfolding settle
  request_network d active gate operation =
      settle S network_adapter_pending is_network_budget network_failed (λ response. response.bytes)
        active
        (put_network_reply
          (Network.request S N (record { gate = gate; supervisor = d.supervisor }) (E.clock d.tick)
            (E.clock (d.tick + 1)) (E.identifier d.tick) (E.identifier (d.tick + 1)) active.task_id
            operation d.runtime.config.approval_ttl)
          (advance 2 d))

  -- The match on the decision; `active` is the session with its step counted.
  unfoldable pub act :
      Driven St M Sess H A → ActiveSession Sess → ModelDecision → Turn (Driven St M Sess H A)
  unfolding request_tool request_network fail_active
  act d active (finish_with output) =
      done (stop_with (succeed S d.supervisor active.task_id) d (returns (completed output)))
  act d active (call_tool_with route arguments) =
      elim (prepare d.runtime.tool_catalog route arguments) [
        | err _ ↦ done (fail_active S d active.task_id (fails invalid_decision))
        | ok operation ↦ request_tool d active operation
      ]
  act d active (tcp_exchange_with host port request) = elim d.runtime.network [
    | none ↦ done (fail_active S d active.task_id (fails invalid_decision))
    | some gate ↦ elim (prepare_tcp_exchange host port request) [
      | err _ ↦ done (fail_active S d active.task_id (fails invalid_decision))
      | ok operation ↦ request_network d active gate operation
    ]
  ]

  -- The step is counted, then the decision followed.
  unfoldable pub follow :
      Driven St M Sess H A → ActiveSession Sess → ModelDecision → Turn (Driven St M Sess H A)
  unfolding act
  follow d active decision =
      let counted : ActiveSession Sess = record active { next_step = active.next_step + 1 } in
      act (set_active (some counted) d) counted decision

  -- The model's turn.
  unfoldable pub decide : Driven St M Sess H A → ActiveSession Sess → Turn (Driven St M Sess H A)
  unfolding with_budget follow fail_active
  decide d active = elim (P.decide active.model active.next_step active.previous_operation_output) [
    | fails _ model ↦ done (fail_active S d active.task_id (fails model_failed))
    | returns decision model ↦
        let told : ActiveSession Sess = record active { model = model } in
        with_budget (set_active (some told) d) active.task_id λ d'. follow d' told decision
  ]

  -- The step limit, then the model's turn.
  unfoldable pub within_steps :
      Driven St M Sess H A → ActiveSession Sess → Turn (Driven St M Sess H A)
  unfolding decide fail_active
  within_steps d active =
      if ltb d.runtime.config.max_steps active.next_step
      then done (fail_active S d active.task_id (fails step_limit_exceeded))
      else decide d active

  -- The body of the loop.
  unfoldable pub turn : Driven St M Sess H A → Turn (Driven St M Sess H A)
  unfolding with_budget within_steps
  turn d = elim d.runtime.active [
    | none ↦ done (fails invalid_state d)
    | some active ↦ with_budget d active.task_id λ d'. within_steps d' active
  ]

  unfoldable pub drive_on :
      ℕ → Driven St M Sess H A → Option (Method (Driven St M Sess H A) AgentRunOutcome)
  unfolding turn
  drive_on zero d = none
  drive_on (suc fuel) d = elim (turn d) [ done outcome ↦ some outcome | next d' ↦ drive_on fuel d' ]

  unfoldable pub drive :
      Driven St M Sess H A → Option (Method (Driven St M Sess H A) AgentRunOutcome)
  unfolding drive_on
  drive d = drive_on (d.runtime.config.max_steps + 2) d
