-- ===== src/Agent/Outcomes.antt =====
-- What the results of the agent runtime in crates/aios-agent/src/lib.rs say of the task and the session.
use ai_os.Prelude.{
  ℕ, zero, suc, ◌+◌, ◌≡◌, refl, subst, inl, inr, arith, Bool, true, false, not, List, Option, none,
  some, ltb, nat_beq, ok, Outcome, returns, fails, state_of, Bool-cases, Option-cases,
  Outcome-cases, Result-cases,
}
use ai_os.Core.State.{TaskState, succeeded, failed}
use ai_os.Runtime.Event.{TaskId, ApprovalId, EventStore}
use ai_os.Runtime.Supervisor.{Answer, task_state}
use ai_os.Runtime.Supervisor.Tasks.{
  execution_context, remaining_wall_time, start_execution, TaskExecutionInput,
}
use ai_os.Runtime.Supervisor.Tasks
use ai_os.Runtime.Supervisor.Arrived.{
  Gives, IsIn, succeed-Gives, fail-Gives, fail_budget_exceeded-Gives,
}
use ai_os.Runtime.Execution.{
  Adapter, ExecutionError, ExecutionOutcome, executed, denied_for, approval_needed,
  supervisor_error, adapter_error, operation_not_found, Guarded, Executed,
}
use ai_os.Adapters.Tool.{
  ToolOutput, ToolOperation, ToolAdapterError, ToolAdapter, ToolHandler, prepare,
}
use ai_os.Adapters.Network.{
  TcpExchangeOperation, TcpExchangeResponse, NetworkAdapterError, prepare_tcp_exchange,
}
use ai_os.Agent.Decision.{ModelDecision, finish_with, call_tool_with, tcp_exchange_with, Model}
use ai_os.Agent.{
  AgentError, invalid_decision, step_limit_exceeded, model_failed, tool_failed, network_failed,
  budget_exceeded, AgentRunOutcome, completed, waiting_approval, denied, PendingAdapter,
  tool_adapter_pending, network_adapter_pending, ActiveSession, Driven, Supply, Turn, done, next,
  require_pending,
}
use ai_os.Agent.Loop.{
  Method, is_tool_budget, is_network_budget, set_active, put_supervisor, advance, stop_with,
  put_tool_reply, put_network_reply, fail_active, fail_budget_active, fail_adapter, settle,
  with_budget, request_tool, request_network, act, follow, decide, within_steps, turn, drive_on,
  drive,
}
use ai_os.Agent.Methods.{
  with_session, tool_approval, network_approval, begin, start_model, start, resume_with_output,
  resume, approve_with, approve_and_resume,
}
use ai_os.Agent.Termination.{Turn-cases}

-- The errors that end the task: the code also calls them failures of the agent.
abbrev pub ends_task : AgentError → Bool
ends_task invalid_decision = true
ends_task step_limit_exceeded = true
ends_task model_failed = true
ends_task tool_failed = true
ends_task network_failed = true
ends_task budget_exceeded = true
ends_task _ = false

module _ {St M Sess H A : Type 0} where
  -- The session is dropped and the task is in a state.
  abbrev pub IsOver : TaskId → TaskState → Driven St M Sess H A → Type 0
  IsOver task state d = (d.runtime.active ≡ none) × (task_state d.supervisor task ≡ some state)

  -- The same after an error, where it ends the task.
  abbrev pub IsOverIf : Bool → TaskId → Driven St M Sess H A → Type 0
  IsOverIf true task d = IsOver task failed d
  IsOverIf false task d = Unit {0}

  over_if :
      (b : Bool) (task : TaskId) (d : Driven St M Sess H A)
      → IsOver task failed d
      → IsOverIf b task d
  over_if true task d o = o
  over_if false task d o = tt

  -- What a result promises of the task.
  abbrev pub IsTold : TaskId → Method (Driven St M Sess H A) AgentRunOutcome → Type 0
  IsTold task (returns (completed _) d) = IsOver task succeeded d
  IsTold task (returns (denied _) d) = IsOver task failed d
  IsTold task (returns (waiting_approval request) d) =
      (adapter : PendingAdapter) × (require_pending d.runtime request.approval_id
        ≡ ok (task, adapter))
  IsTold task (fails e d) = IsOverIf (ends_task e) task d

  abbrev IsOf : TaskId → Driven St M Sess H A → Type 0
  IsOf task d = (a : ActiveSession Sess) × (d.runtime.active ≡ some a) × (a.task_id ≡ task)

  abbrev Tells : TaskId → Turn (Driven St M Sess H A) → Type 0
  Tells task (done o) = IsTold task o
  Tells task (next d) = IsOf task d

  stop_with-IsTold :
      (answer : Answer St (Unit {0})) (task : TaskId) (state : TaskState) (d : Driven St M Sess H A)
      (k : Driven St M Sess H A → Method (Driven St M Sess H A) AgentRunOutcome)
      → Gives (IsIn task state) answer
      → ((d' : Driven St M Sess H A) → IsOver task state d' → IsTold task (k d'))
      → IsTold task (stop_with answer d k)
  stop_with-IsTold (returns _ sup) task state d k g h =
      h (put_supervisor sup (set_active none d)) (refl, g)
  stop_with-IsTold (fails e sup) task state d k g h = tt

module _ {St M Sess H A : Type 0} (S : EventStore St) where
  fail_active-IsTold :
      (d : Driven St M Sess H A) (task : TaskId)
      (k : Driven St M Sess H A → Method (Driven St M Sess H A) AgentRunOutcome)
      → ((d' : Driven St M Sess H A) → IsOver task failed d' → IsTold task (k d'))
      → IsTold task (fail_active S d task k)
  unfolding fail_active
  fail_active-IsTold d task k h =
      stop_with-IsTold (Tasks.fail S d.supervisor task) task failed d k
        (fail-Gives S d.supervisor task) h

  fail_budget_active-IsTold :
      (d : Driven St M Sess H A) (task : TaskId)
      (k : Driven St M Sess H A → Method (Driven St M Sess H A) AgentRunOutcome)
      → ((d' : Driven St M Sess H A) → IsOver task failed d' → IsTold task (k d'))
      → IsTold task (fail_budget_active S d task k)
  unfolding fail_budget_active
  fail_budget_active-IsTold d task k h =
      stop_with-IsTold (Tasks.fail_budget_exceeded S d.supervisor task) task failed d k
        (fail_budget_exceeded-Gives S d.supervisor task) h

  fail_adapter-IsTold :
      (is_budget : Bool) (failure : AgentError) (d : Driven St M Sess H A) (task : TaskId)
      → IsTold task (fail_adapter S is_budget failure d task)
  unfolding fail_adapter
  fail_adapter-IsTold true failure d task =
      fail_budget_active-IsTold d task (fails budget_exceeded) (λ d' o. o)
  fail_adapter-IsTold false failure d task =
      fail_active-IsTold d task (fails failure) (over_if (ends_task failure) task)

  pending_found :
      (d : Driven St M Sess H A) (active : ActiveSession Sess) (approval : ApprovalId)
      (adapter : PendingAdapter)
      → require_pending
          (set_active
            (some (record active {
              pending_approval = some (record { approval_id = approval; adapter = adapter });
            }))
            d).runtime
          approval
        ≡ ok (active.task_id, adapter)
  unfolding require_pending
  pending_found d active approval adapter = ground arith

  settle-Tells :
      {Output Err : Type 0} (adapter : PendingAdapter) (is_budget : Err → Bool)
      (failure : AgentError) (bytes_of : Output → List ℕ) (active : ActiveSession Sess)
      (o : Outcome (Driven St M Sess H A) (ExecutionError Err) (ExecutionOutcome Output))
      → Tells active.task_id (settle S adapter is_budget failure bytes_of active o)
  unfolding settle
  settle-Tells adapter is_budget failure bytes_of active (returns (executed run) d) =
      (record active { previous_operation_output = some (bytes_of run.output) }, refl, refl)
  settle-Tells adapter is_budget failure bytes_of active (returns (denied_for reason) d) =
      fail_active-IsTold d active.task_id (returns (denied reason)) (λ d' o. o)
  settle-Tells adapter is_budget failure bytes_of active (returns (approval_needed request) d) =
      (adapter, pending_found d active request.approval_id adapter)
  settle-Tells adapter is_budget failure bytes_of active (fails (supervisor_error e) d) = tt
  settle-Tells adapter is_budget failure bytes_of active (fails (adapter_error e) d) =
      fail_adapter-IsTold (is_budget e) failure d active.task_id
  settle-Tells adapter is_budget failure bytes_of active (fails operation_not_found d) =
      fail_adapter-IsTold false failure d active.task_id

module _ {St M Sess H A : Type 0} (S : EventStore St) (P : Model M Sess) (T : ToolHandler H)
    (N : Adapter A TcpExchangeOperation TcpExchangeResponse NetworkAdapterError) (E : Supply) where
  with_budget-Tells :
      (d : Driven St M Sess H A) (task : TaskId)
      (k : Driven St M Sess H A → Turn (Driven St M Sess H A))
      → Tells task (k (advance 1 d))
      → Tells task (with_budget S P T N E d task k)
  unfolding with_budget
  with_budget-Tells d task k q = elim (Result-cases (execution_context d.supervisor task)) [
    | inr (e, c) ↦ rw (with_budget, c) tt
    | inl (context, c) ↦
        elim (Bool-cases (nat_beq (remaining_wall_time context (E.clock d.tick)) 0)) [
          | inl late ↦
              rw (with_budget, c, late)
                (fail_budget_active-IsTold S (advance 1 d) task (fails budget_exceeded) (λ d' o. o))
          | inr early ↦ rw (with_budget, c, early) q
        ]
  ]

  act-Tells :
      (d : Driven St M Sess H A) (active : ActiveSession Sess) (decision : ModelDecision)
      → Tells active.task_id (act S P T N E d active decision)
  unfolding act request_tool request_network
  act-Tells d active (finish_with output) =
      stop_with-IsTold (Tasks.succeed S d.supervisor active.task_id) active.task_id succeeded d
        (returns (completed output)) (succeed-Gives S d.supervisor active.task_id) (λ d' o. o)
  act-Tells d active (call_tool_with route arguments) =
      elim (Result-cases (prepare d.runtime.tool_catalog route arguments)) [
        | inr (e, p) ↦
            rw (act, p) (fail_active-IsTold S d active.task_id (fails invalid_decision) (λ d' o. o))
        | inl (operation, p) ↦
            rw (act, p)
              (settle-Tells S tool_adapter_pending is_tool_budget tool_failed
                (λ (o : ToolOutput). o.bytes) active _)
      ]
  act-Tells d active (tcp_exchange_with host port request) = elim (Option-cases d.runtime.network) [
    | inl n ↦
        rw (act, n) (fail_active-IsTold S d active.task_id (fails invalid_decision) (λ d' o. o))
    | inr (gate, n) ↦ elim (Result-cases (prepare_tcp_exchange host port request)) [
      | inr (e, p) ↦
          rw (act, n, p)
            (fail_active-IsTold S d active.task_id (fails invalid_decision) (λ d' o. o))
      | inl (operation, p) ↦
          rw (act, n, p)
            (settle-Tells S network_adapter_pending is_network_budget network_failed
              (λ (o : TcpExchangeResponse). o.bytes) active _)
    ]
  ]

  decide-Tells :
      (d : Driven St M Sess H A) (active : ActiveSession Sess)
      → Tells active.task_id (decide S P T N E d active)
  unfolding decide follow
  decide-Tells d active =
      elim (Outcome-cases
        (P.decide active.model active.next_step active.previous_operation_output)) [
          | inr (_, model, o) ↦
              rw (decide, o)
                (fail_active-IsTold S d active.task_id (fails model_failed) (λ d' o. o))
          | inl (decision, model, o) ↦
              let told : ActiveSession Sess = record active { model = model } in
              let counted : ActiveSession Sess = record told { next_step = active.next_step + 1 } in
              rw (decide, o)
                (with_budget-Tells (set_active (some told) d) active.task_id
                  (λ d'. follow S P T N E d' told decision)
                  (act-Tells (set_active (some counted) (advance 1 (set_active (some told) d)))
                    counted decision))
        ]

  within_steps-Tells :
      (d : Driven St M Sess H A) (active : ActiveSession Sess)
      → Tells active.task_id (within_steps S P T N E d active)
  unfolding within_steps
  within_steps-Tells d active =
      elim (Bool-cases (ltb d.runtime.config.max_steps active.next_step)) [
        | inl over ↦
            rw (within_steps, over)
              (fail_active-IsTold S d active.task_id (fails step_limit_exceeded) (λ d' o. o))
        | inr within ↦ rw (within_steps, within) (decide-Tells d active)
      ]

  turn-Tells :
      (d : Driven St M Sess H A) (task : TaskId) → IsOf task d → Tells task (turn S P T N E d)
  unfolding turn
  turn-Tells d task (a, e, t) =
      subst (λ (u : TaskId). Tells u (turn S P T N E d)) t
        (rw (turn, e)
          (with_budget-Tells d a.task_id (λ d'. within_steps S P T N E d' a)
            (within_steps-Tells (advance 1 d) a)))

  -- Whatever result there is, it is told truly.
  abbrev pub AllTold : TaskId → Option (Method (Driven St M Sess H A) AgentRunOutcome) → Type 0
  AllTold task none = Unit {0}
  AllTold task (some o) = IsTold task o

  drive_on-AllTold :
      (fuel : ℕ) (d : Driven St M Sess H A) (task : TaskId)
      → IsOf task d
      → AllTold task (drive_on S P T N E fuel d)
  unfolding drive_on
  drive_on-AllTold zero d task i = tt
  drive_on-AllTold (suc fuel) d task i = elim (Turn-cases (turn S P T N E d)) [
    | inl (o, t) ↦ rw (drive_on, t) (rw t at (turn-Tells d task i))
    | inr (d', t) ↦ rw (drive_on, t) (drive_on-AllTold fuel d' task (rw t at (turn-Tells d task i)))
  ]

  drive-AllTold :
      (d : Driven St M Sess H A) (task : TaskId) → IsOf task d → AllTold task (drive S P T N E d)
  unfolding drive
  drive-AllTold d task i = drive_on-AllTold (d.runtime.config.max_steps + 2) d task i

  begin-AllTold :
      (d : Driven St M Sess H A) (task : TaskId) (o : Outcome M (Unit {0}) Sess)
      → d.runtime.active ≡ none
      → AllTold task (begin S P T N E d task o)
  unfolding begin
  begin-AllTold d task (returns model adapter) n =
      drive-AllTold (with_session d task model adapter) task (
        record {
          task_id = task;
          model = model;
          next_step = 1;
          previous_operation_output = none;
          pending_approval = none;
        },
        refl,
        refl,
      )
  begin-AllTold d task (fails _ adapter) n = elim (Outcome-cases (Tasks.fail S d.supervisor task)) [
    | inl (_, sup, o) ↦ rw (begin, o) (n, rw o at (fail-Gives S d.supervisor task))
    | inr (e, sup, o) ↦ rw (begin, o) tt
  ]

  start_model-AllTold :
      (d : Driven St M Sess H A) (task : TaskId) (input : TaskExecutionInput)
      → d.runtime.active ≡ none
      → AllTold task (start_model S P T N E d task input)
  unfolding start_model
  start_model-AllTold d task input n = begin-AllTold d task _ n

  -- What `start` returns tells the truth about its task: completed, it has succeeded, denied, it has
  -- failed, and after an invalid decision, the step limit, a failure of the model, the tool or the
  -- network, or the end of the budget it has failed too; in all these cases no session is left. Where an
  -- approval is asked for, the session is left waiting for that approval of that task.
  pub start-AllTold :
      (d : Driven St M Sess H A) (task : TaskId) → AllTold task (start S P T N E d task)
  unfolding start
  start-AllTold d task = elim (Option-cases d.runtime.active) [
    | inr (a, e) ↦ rw (start, e) tt
    | inl e ↦ elim (Outcome-cases (start_execution S d.supervisor (E.clock d.tick) task)) [
      | inr (x, sup, o) ↦ rw (start, e, o) tt
      | inl (input, sup, o) ↦
          rw (start, e, o) (start_model-AllTold (put_supervisor sup (advance 1 d)) task input e)
    ]
  ]

  resume-AllTold :
      {Output Err : Type 0} (is_budget : Err → Bool) (failure : AgentError)
      (bytes_of : Output → List ℕ) (task : TaskId)
      (o : Outcome (Driven St M Sess H A) (ExecutionError Err) (Executed Output))
      → IsOf task (state_of o)
      → AllTold task (resume S P T N E is_budget failure bytes_of task o)
  unfolding resume resume_with_output
  resume-AllTold is_budget failure bytes_of task (returns run d) (a, e, t) =
      rw (resume, resume_with_output, e)
        (drive-AllTold
          (set_active
            (some (record a {
              pending_approval = none;
              previous_operation_output = some (bytes_of run.output);
            }))
            d)
          task
          (
            record a {
              pending_approval = none;
              previous_operation_output = some (bytes_of run.output);
            },
            refl,
            t,
          ))
  resume-AllTold is_budget failure bytes_of task (fails (supervisor_error e) d) i = tt
  resume-AllTold is_budget failure bytes_of task (fails (adapter_error e) d) i =
      fail_adapter-IsTold S (is_budget e) failure d task
  resume-AllTold is_budget failure bytes_of task (fails operation_not_found d) i =
      fail_adapter-IsTold S false failure d task

  put_tool_reply-IsOf :
      {X : Type 0} (task : TaskId)
      (r : Outcome (Guarded St (ToolAdapter H) ToolOperation) (ExecutionError ToolAdapterError) X)
      (d : Driven St M Sess H A)
      → IsOf task d
      → IsOf task (state_of (put_tool_reply r d))
  put_tool_reply-IsOf task (returns x g) d i = i
  put_tool_reply-IsOf task (fails e g) d i = i

  put_network_reply-IsOf :
      {X : Type 0} (task : TaskId)
      (r : Outcome (Guarded St A TcpExchangeOperation) (ExecutionError NetworkAdapterError) X)
      (d : Driven St M Sess H A)
      → IsOf task d
      → IsOf task (state_of (put_network_reply r d))
  put_network_reply-IsOf task (returns x g) d i = i
  put_network_reply-IsOf task (fails e g) d i = i

  approve_with-AllTold :
      (d : Driven St M Sess H A) (approval : ApprovalId) (task : TaskId) (adapter : PendingAdapter)
      → IsOf task d
      → AllTold task (approve_with S P T N E d approval task adapter)
  unfolding approve_with
  approve_with-AllTold d approval task tool_adapter_pending i =
      resume-AllTold is_tool_budget tool_failed (λ (o : ToolOutput). o.bytes) task
        (tool_approval S P T N E d approval) (put_tool_reply-IsOf task _ (advance 4 d) i)
  approve_with-AllTold d approval task network_adapter_pending i =
      elim (Option-cases d.runtime.network) [
        | inl n ↦ rw (approve_with, n) tt
        | inr (gate, n) ↦
            rw (approve_with, n)
              (resume-AllTold is_network_budget network_failed
                (λ (o : TcpExchangeResponse). o.bytes) task
                (network_approval S P T N E d gate approval)
                (put_network_reply-IsOf task _ (advance 3 d) i))
      ]

  pending-IsOf :
      (d : Driven St M Sess H A) (approval : ApprovalId) (task : TaskId) (adapter : PendingAdapter)
      → require_pending d.runtime approval ≡ ok (task, adapter)
      → IsOf task d
  unfolding require_pending
  pending-IsOf d approval task adapter r = elim (Option-cases d.runtime.active) [
    | inl n ↦ let r' = rw (n, require_pending) at r in cc
    | inr (a, e) ↦ elim (Option-cases a.pending_approval) [
      | inl n ↦ let r' = rw (e, n, require_pending) at r in cc
      | inr (p, n) ↦ elim (Bool-cases (not (nat_beq p.approval_id approval))) [
        | inl other ↦ let r' = rw (e, n, other, require_pending) at r in cc
        | inr same ↦ let r' = rw (e, n, same, require_pending) at r in (a, e, ground arith)
      ]
    ]
  ]

  -- What `approve_and_resume` returns for the pending approval of a task tells the truth about the task,
  -- as for `start`.
  pub approve_and_resume-AllTold :
      (d : Driven St M Sess H A) (approval : ApprovalId) (task : TaskId) (adapter : PendingAdapter)
      → require_pending d.runtime approval ≡ ok (task, adapter)
      → AllTold task (approve_and_resume S P T N E d approval)
  unfolding approve_and_resume
  approve_and_resume-AllTold d approval task adapter r =
      rw (approve_and_resume, r)
        (approve_with-AllTold d approval task adapter (pending-IsOf d approval task adapter r))
