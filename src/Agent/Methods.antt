-- ===== src/Agent/Methods.antt =====
-- The public methods of `AgentRuntime` in crates/aios-agent/src/lib.rs. `start` and
-- `approve_and_resume` end in the loop, so they have no result where its fuel runs out.
use ai_os.Prelude.{
  ℕ, ◌+◌, Bool, true, false, not, List, [], Option, none, some, nat_beq, if◌then◌else◌, keep_if, ok,
  err, Outcome, returns, fails,
}
use ai_os.Core.Task.{NetworkDestination}
use ai_os.Runtime.Event.{TaskId, ApprovalId, EventStore}
use ai_os.Runtime.Supervisor.Tasks.{TaskExecutionInput, wall_time_exceeded, fail, start_execution}
use ai_os.Runtime.Execution.{
  Adapter, ExecutionGate, ExecutionError, supervisor_error, adapter_error, operation_not_found,
  Executed, Guarded, is_over,
}
use ai_os.Runtime.Execution
use ai_os.Adapters.Tool.{
  ToolAdapterError, ToolOutput, ToolHandler, route_names_for_tools, tool_adapter,
}
use ai_os.Adapters.Network.{
  TcpExchangeOperation, TcpExchangeResponse, NetworkAdapterError, prepare_tcp_exchange,
}
use ai_os.Agent.Decision.{Model}
use ai_os.Agent.{
  AgentError, capacity_exceeded, invalid_state, model_failed, tool_failed, network_failed,
  budget_exceeded, supervisor_failed, AgentRunOutcome, PendingAdapter, tool_adapter_pending,
  network_adapter_pending, Driven, Supply, require_pending, pending_adapter, map_tool_error,
  map_network_error,
}
use ai_os.Agent.Loop.{
  Method, set_active, put_supervisor, advance, put_tool_reply, put_network_reply, is_tool_budget,
  is_network_budget, fail_budget_active, fail_adapter, drive,
}

-- The granted destinations that an exchange can reach.
unfoldable pub reachable : List NetworkDestination → List NetworkDestination
reachable = keep_if (λ destination.
    elim (prepare_tcp_exchange destination.host destination.port []) [
      | ok _ ↦ true
      | err _ ↦ false
    ])

module _ {St M Sess H A : Type 0} where
  -- `call.map_err(convert)?`, and what follows.
  abbrev pub ask_gate :
      {Err X Y : Type 0}
      → (Err → AgentError)
      → Outcome (Driven St M Sess H A) Err X
      → (X → Driven St M Sess H A → Method (Driven St M Sess H A) Y)
      → Method (Driven St M Sess H A) Y
  ask_gate convert (returns x d) continue = continue x d
  ask_gate convert (fails e d) continue = fails (convert e) d

  abbrev pub with_network :
      {X : Type 0}
      → Driven St M Sess H A
      → (ExecutionGate A TcpExchangeOperation → Method (Driven St M Sess H A) X)
      → Method (Driven St M Sess H A) X
  with_network d continue = elim d.runtime.network [
    | none ↦ fails invalid_state d
    | some gate ↦ continue gate
  ]

  -- The session that `start` makes.
  abbrev pub with_session : Driven St M Sess H A → TaskId → Sess → M → Driven St M Sess H A
  with_session d task_id model adapter = record d {
    runtime = record d.runtime {
      model_adapter = adapter;
      active = some (record {
        task_id = task_id;
        model = model;
        next_step = 1;
        previous_operation_output = none;
        pending_approval = none;
      });
    };
  }

  -- The session is dropped when its task is over.
  unfoldable pub drop_over : Driven St M Sess H A → Driven St M Sess H A
  unfolding is_over
  drop_over d = elim d.runtime.active [
    | none ↦ d
    | some active ↦ if is_over d.supervisor active.task_id then set_active none d else d
  ]

module _ {St M Sess H A : Type 0} (S : EventStore St) (P : Model M Sess) (T : ToolHandler H)
    (N : Adapter A TcpExchangeOperation TcpExchangeResponse NetworkAdapterError) (E : Supply) where
  -- What follows the call of the model adapter.
  unfoldable pub begin :
      Driven St M Sess H A
      → TaskId
      → Outcome M (Unit {0}) Sess
      → Option (Method (Driven St M Sess H A) AgentRunOutcome)
  unfolding drive
  begin d task_id (fails _ adapter) = elim (fail S d.supervisor task_id) [
    | fails e sup ↦ some (
        fails (supervisor_failed e)
          (record d { runtime = record d.runtime { model_adapter = adapter }; supervisor = sup }))
    | returns _ sup ↦ some (
        fails model_failed
          (record d { runtime = record d.runtime { model_adapter = adapter }; supervisor = sup }))
  ]
  begin d task_id (returns model adapter) = drive S P T N E (with_session d task_id model adapter)

  -- What follows `start_execution`.
  unfoldable pub start_model :
      Driven St M Sess H A
      → TaskId
      → TaskExecutionInput
      → Option (Method (Driven St M Sess H A) AgentRunOutcome)
  unfolding begin reachable
  start_model d task_id input =
      let routes = route_names_for_tools d.runtime.tool_catalog input.capability_tools in
      let destinations : List NetworkDestination = elim d.runtime.network [
        | none ↦ []
        | some _ ↦ reachable input.network_destinations
      ] in
      begin d task_id (P.start_session d.runtime.model_adapter input.goal routes destinations)

  unfoldable pub start :
      Driven St M Sess H A → TaskId → Option (Method (Driven St M Sess H A) AgentRunOutcome)
  unfolding start_model
  start d task_id = elim d.runtime.active [
    | some _ ↦ some (fails capacity_exceeded d)
    | none ↦ elim (start_execution S d.supervisor (E.clock d.tick) task_id) [
      | fails e sup ↦ some (fails (supervisor_failed e) (put_supervisor sup (advance 1 d)))
      | returns input sup ↦ start_model (put_supervisor sup (advance 1 d)) task_id input
    ]
  ]

  unfoldable pub resume_with_output :
      Driven St M Sess H A → List ℕ → Option (Method (Driven St M Sess H A) AgentRunOutcome)
  unfolding drive
  resume_with_output d output = elim d.runtime.active [
    | none ↦ some (fails invalid_state d)
    | some active ↦ drive S P T N E (
        set_active
          (some
            (record active { pending_approval = none; previous_operation_output = some output }))
          d)
  ]

  -- The match on the result of a gate's `approve_and_execute`.
  unfoldable pub resume :
      {Output Err : Type 0}
      → (Err → Bool)
      → AgentError
      → (Output → List ℕ)
      → TaskId
      → Outcome (Driven St M Sess H A) (ExecutionError Err) (Executed Output)
      → Option (Method (Driven St M Sess H A) AgentRunOutcome)
  unfolding resume_with_output fail_adapter
  resume is_budget failure bytes_of task_id (returns run d) =
      resume_with_output d (bytes_of run.output)
  resume is_budget failure bytes_of task_id (fails (supervisor_error e) d) =
      some (fails (supervisor_failed e) d)
  resume is_budget failure bytes_of task_id (fails (adapter_error e) d) =
      some (fail_adapter S (is_budget e) failure d task_id)
  resume is_budget failure bytes_of task_id (fails operation_not_found d) =
      some (fail_adapter S false failure d task_id)

  -- `approve_and_execute` of the tool gate and of the network gate.
  abbrev pub tool_approval :
      Driven St M Sess H A
      → ApprovalId
      → Outcome (Driven St M Sess H A) (ExecutionError ToolAdapterError) (Executed ToolOutput)
  tool_approval d approval_id =
      put_tool_reply
        (Execution.approve_and_execute S (tool_adapter T (E.clock (d.tick + 3)))
          (record { gate = d.runtime.tool_gate; supervisor = d.supervisor }) (E.clock d.tick)
          (E.clock (d.tick + 1)) (E.clock (d.tick + 2)) approval_id)
        (advance 4 d)

  abbrev pub network_approval :
      Driven St M Sess H A
      → ExecutionGate A TcpExchangeOperation
      → ApprovalId
      → Outcome
          (Driven St M Sess H A)
          (ExecutionError NetworkAdapterError)
          (Executed TcpExchangeResponse)
  network_approval d gate approval_id =
      put_network_reply
        (Execution.approve_and_execute S N (record { gate = gate; supervisor = d.supervisor })
          (E.clock d.tick) (E.clock (d.tick + 1)) (E.clock (d.tick + 2)) approval_id)
        (advance 3 d)

  -- The two arms of `approve_and_resume`.
  unfoldable pub approve_with :
      Driven St M Sess H A
      → ApprovalId
      → TaskId
      → PendingAdapter
      → Option (Method (Driven St M Sess H A) AgentRunOutcome)
  unfolding resume
  approve_with d approval_id task_id tool_adapter_pending =
      resume is_tool_budget tool_failed (λ output. output.bytes) task_id
        (tool_approval d approval_id)
  approve_with d approval_id task_id network_adapter_pending = elim d.runtime.network [
    | none ↦ some (fails invalid_state d)
    | some gate ↦
        resume is_network_budget network_failed (λ response. response.bytes) task_id
          (network_approval d gate approval_id)
  ]

  unfoldable pub approve_and_resume :
      Driven St M Sess H A → ApprovalId → Option (Method (Driven St M Sess H A) AgentRunOutcome)
  unfolding approve_with require_pending
  approve_and_resume d approval_id = elim (require_pending d.runtime approval_id) [
    | err e ↦ some (fails e d)
    | ok (task_id, adapter) ↦ approve_with d approval_id task_id adapter
  ]

  unfoldable pub deny : Driven St M Sess H A → ApprovalId → Method (Driven St M Sess H A) (Unit {0})
  unfolding require_pending map_tool_error map_network_error
  deny d approval_id = elim (require_pending d.runtime approval_id) [
    | err e ↦ fails e d
    | ok (task_id, adapter) ↦ elim adapter [
      | tool_adapter_pending ↦
          ask_gate map_tool_error
            (put_tool_reply
              (Execution.deny S (tool_adapter T 0)
                (record { gate = d.runtime.tool_gate; supervisor = d.supervisor }) (E.clock d.tick)
                approval_id)
              (advance 1 d))
            λ _ d'. returns tt (set_active none d')
      | network_adapter_pending ↦ with_network d λ gate.
          ask_gate map_network_error
            (put_network_reply
              (Execution.deny S N (record { gate = gate; supervisor = d.supervisor })
                (E.clock d.tick) approval_id)
              (advance 1 d))
            λ _ d'. returns tt (set_active none d')
    ]
  ]

  unfoldable pub expire_adapter :
      Driven St M Sess H A → PendingAdapter → Method (Driven St M Sess H A) ℕ
  unfolding map_tool_error map_network_error
  expire_adapter d tool_adapter_pending =
      ask_gate map_tool_error
        (put_tool_reply
          (Execution.expire S (tool_adapter T 0)
            (record { gate = d.runtime.tool_gate; supervisor = d.supervisor }) (E.clock d.tick))
          (advance 1 d))
        returns
  expire_adapter d network_adapter_pending = with_network d λ gate.
      ask_gate map_network_error
        (put_network_reply
          (Execution.expire S N (record { gate = gate; supervisor = d.supervisor })
            (E.clock d.tick))
          (advance 1 d))
        returns

  -- `expire` where no wall time is used up.
  unfoldable pub expire_pending : Driven St M Sess H A → Method (Driven St M Sess H A) ℕ
  unfolding expire_adapter drop_over pending_adapter
  expire_pending d =
      ask_gate (λ (e : AgentError). e) (expire_adapter d (pending_adapter d.runtime))
        λ expired d'. returns expired (drop_over d')

  unfoldable pub expire : Driven St M Sess H A → Method (Driven St M Sess H A) ℕ
  unfolding expire_pending fail_budget_active
  expire d = elim d.runtime.active [
    | none ↦ expire_pending d
    | some active ↦ elim (wall_time_exceeded d.supervisor (E.clock d.tick) active.task_id) [
      | err e ↦ fails (supervisor_failed e) (advance 1 d)
      | ok true ↦
          let adapter = pending_adapter d.runtime in
          fail_budget_active S (advance 1 d) active.task_id λ d'.
            ask_gate (λ (e : AgentError). e) (expire_adapter d' adapter)
              λ _ d''. fails budget_exceeded d''
      | ok false ↦ expire_pending (advance 1 d)
    ]
  ]

  -- `cancel` where the active session, if any, is of the task.
  unfoldable pub cancel_adapter :
      Driven St M Sess H A → TaskId → PendingAdapter → Method (Driven St M Sess H A) Bool
  unfolding map_tool_error map_network_error
  cancel_adapter d task_id tool_adapter_pending =
      ask_gate map_tool_error
        (put_tool_reply
          (Execution.cancel S (tool_adapter T 0)
            (record { gate = d.runtime.tool_gate; supervisor = d.supervisor }) task_id)
          d)
        λ changed d'. returns changed (set_active none d')
  cancel_adapter d task_id network_adapter_pending = with_network d λ gate.
      ask_gate map_network_error
        (put_network_reply
          (Execution.cancel S N (record { gate = gate; supervisor = d.supervisor }) task_id) d)
        λ changed d'. returns changed (set_active none d')

  unfoldable pub cancel : Driven St M Sess H A → TaskId → Method (Driven St M Sess H A) Bool
  unfolding cancel_adapter pending_adapter
  cancel d task_id = elim d.runtime.active [
    | none ↦ cancel_adapter d task_id tool_adapter_pending
    | some active ↦
        if not (nat_beq active.task_id task_id)
        then fails invalid_state d
        else cancel_adapter d task_id (pending_adapter d.runtime)
  ]
