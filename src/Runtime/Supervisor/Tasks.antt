-- ===== src/Runtime/Supervisor/Tasks.antt =====
-- The life of a task in crates/aios-runtime/src/supervisor.rs: construction, submission,
-- start, the ends of a task, and the queries.
use ai_os.Prelude.{
  ℕ, ◌*◌, ◌-◌, Bool, true, false, not, ◌||◌, List, [], ◌∷◌, Option, none, some, leb, nat_beq,
  nat_ord, if◌then◌else◌, ◌==◌, length, dec_beq, get, insert, Result, ok, err, returns, fails,
  saturating_add,
}
use ai_os.Core.State.{
  TaskState, submitted, validating, rejected, queued, running, waiting_approval, succeeded, failed,
  cancelled, is_terminal, task_state_eq,
}
use ai_os.Core.Error.{budget_exceeded}
use ai_os.Core.Text.{Text}
use ai_os.Core.Task.{
  TaskSpec, TaskSpec-discrete, Budget, FileCapability, NetworkDestination, NetworkPolicy, deny,
  allow, Field, validate,
}
use ai_os.Runtime.Event.{
  TaskId, TaskSnapshot, TaskEvent, TaskEventKind, EventStore, submission, state_transitioned,
  validation_failed,
}
use ai_os.Runtime.Approval.{Instant, Duration, nanos_per_second, default}
use ai_os.Runtime.Supervisor.{
  TaskSupervisor, SupervisorError, task_not_found, task_not_running, idempotency_conflict,
  capacity_exceeded, event_store_error, Answer, text_ord, task_state, propose, found, append,
  apply_transition_with_failure, transition,
}

abbrev pub default_max_tasks : ℕ
default_max_tasks = 10000

pub data SubmitResult : Type 0 where
  accepted existing : TaskSnapshot → SubmitResult
  rejected_with : TaskSnapshot → List Field → SubmitResult

pub record TaskExecutionInput : Type 0 where
  pub goal : Text
  pub capability_tools : List Text
  pub network_destinations : List NetworkDestination

pub record TaskExecutionContext : Type 0 where
  pub task_id : TaskId
  pub budget : Budget
  pub filesystem_capabilities : List FileCapability
  pub started_at : Instant

-- `saturating_sub(self.started_at.elapsed())`: the subtraction stops at 0.
unfoldable pub remaining_wall_time : TaskExecutionContext → Instant → Duration
remaining_wall_time context now =
    context.budget.wall_time_seconds * nanos_per_second - (now - context.started_at)

abbrev pub fresh : {St : Type 0} → St → ℕ → TaskSupervisor St
fresh event_store max_tasks = record {
  tasks = [];
  recovered_tasks = [];
  idempotency_index = [];
  event_store = event_store;
  approval_authority = default;
  pending_operations = [];
  approved_operations = [];
  max_tasks = max_tasks;
}

unfoldable pub new : {St : Type 0} → St → TaskSupervisor St
new event_store = fresh event_store default_max_tasks

unfoldable pub with_max_tasks : {St : Type 0} → St → ℕ → Result SupervisorError (TaskSupervisor St)
with_max_tasks event_store max_tasks =
    if nat_beq max_tasks 0 then err capacity_exceeded else ok (fresh event_store max_tasks)

abbrev pub accepted_events : List TaskEventKind
accepted_events =
    submission ∷ state_transitioned submitted validating ∷ state_transitioned validating queued ∷ []

abbrev pub rejected_events : ℕ → List TaskEventKind
rejected_events error_count =
    submission
    ∷ state_transitioned submitted validating
    ∷ validation_failed error_count
    ∷ state_transitioned validating rejected
    ∷ []

-- The state and the events of a submission, by the result of its validation.
abbrev pub verdict_state : Result (List Field) (Unit {0}) → TaskState
verdict_state (ok _) = queued
verdict_state (err _) = rejected

abbrev pub verdict_events : Result (List Field) (Unit {0}) → List TaskEventKind
verdict_events (ok _) = accepted_events
verdict_events (err errors) = rejected_events (length errors)

abbrev pub verdict_result : TaskSnapshot → Result (List Field) (Unit {0}) → SubmitResult
verdict_result task (ok _) = accepted task
verdict_result task (err errors) = rejected_with task errors

abbrev pub destinations_of : NetworkPolicy → List NetworkDestination
destinations_of deny = []
destinations_of (allow destinations) = destinations

module _ {St : Type 0} where
  abbrev pub register : TaskSupervisor St → TaskId → TaskSpec → TaskState → TaskSupervisor St
  register sup task_id spec state = record sup {
    tasks = insert task_id (record { spec = spec; state = state; started_at = none }) sup.tasks;
    idempotency_index = insert spec.idempotency_key task_id sup.idempotency_index;
  }

  unfoldable pub get_task : TaskSupervisor St → TaskId → Option TaskSnapshot
  unfolding task_state
  get_task sup task_id = elim (task_state sup task_id) [
    | none ↦ none
    | some state ↦ some (record { task_id = task_id; state = state })
  ]

  unfoldable pub execution_context :
      TaskSupervisor St → TaskId → Result SupervisorError TaskExecutionContext
  execution_context sup task_id = elim (get task_id sup.tasks) [
    | none ↦ err task_not_found
    | some task ↦
        if not (task.state == running) then err task_not_running else elim task.started_at [
          | none ↦ err task_not_running
          | some started_at ↦ ok (record {
            task_id = task_id;
            budget = task.spec.budget;
            filesystem_capabilities = task.spec.capabilities.filesystem;
            started_at = started_at;
          })
        ]
  ]

  unfoldable pub wall_time_exceeded :
      TaskSupervisor St → Instant → TaskId → Result SupervisorError Bool
  wall_time_exceeded sup now task_id = elim (get task_id sup.tasks) [
    | none ↦ err task_not_found
    | some task ↦
        if not (task.state == running || task.state == waiting_approval)
        then err task_not_running
        else elim task.started_at [
          | none ↦ err task_not_running
          | some started_at ↦
              ok (leb (task.spec.budget.wall_time_seconds * nanos_per_second) (now - started_at))
        ]
  ]

module _ {St : Type 0} (S : EventStore St) where
  -- A submission of a new key: `task_id` is the new identifier.
  unfoldable pub submit_new : TaskSupervisor St → TaskId → TaskSpec → Answer St SubmitResult
  submit_new sup task_id spec =
      if leb sup.max_tasks (saturating_add (length sup.tasks) (length sup.recovered_tasks))
      then fails capacity_exceeded sup
      else let validation = validate spec in
        append S sup task_id (verdict_events validation) λ sup'.
          returns
            (verdict_result (record { task_id = task_id; state = verdict_state validation })
              validation)
            (register sup' task_id spec (verdict_state validation))

  unfoldable pub submit : TaskSupervisor St → TaskId → TaskSpec → Answer St SubmitResult
  unfolding submit_new
  submit sup task_id spec = elim (get spec.idempotency_key sup.idempotency_index) [
    | none ↦ submit_new sup task_id spec
    | some known ↦ found sup (get known sup.tasks) task_not_found λ task.
        if not (dec_beq TaskSpec-discrete task.spec spec)
        then fails idempotency_conflict sup
        else returns (existing (record { task_id = known; state = task.state })) sup
  ]

  -- `now` is the reading of the clock after the transition.
  unfoldable pub start : TaskSupervisor St → Instant → TaskId → Answer St (Unit {0})
  unfolding transition
  start sup now task_id = elim (transition S sup task_id running) [
    | fails e sup' ↦ fails e sup'
    | returns _ sup' ↦ found sup' (get task_id sup'.tasks) task_not_found λ task.
        returns tt (record sup' {
          tasks = insert task_id (record task { started_at = some now }) sup'.tasks;
        })
  ]

  unfoldable pub start_execution :
      TaskSupervisor St → Instant → TaskId → Answer St TaskExecutionInput
  unfolding start
  start_execution sup now task_id = found sup (get task_id sup.tasks) task_not_found λ task.
      elim (start sup now task_id) [
        | fails e sup' ↦ fails e sup'
        | returns _ sup' ↦
            returns
              (record {
                goal = task.spec.goal;
                capability_tools = task.spec.capabilities.tools;
                network_destinations = destinations_of task.spec.capabilities.network;
              })
              sup'
      ]

  unfoldable pub succeed : TaskSupervisor St → TaskId → Answer St (Unit {0})
  unfolding transition
  succeed sup task_id = transition S sup task_id succeeded

  unfoldable pub fail : TaskSupervisor St → TaskId → Answer St (Unit {0})
  unfolding transition
  fail sup task_id = transition S sup task_id failed

  unfoldable pub fail_budget_exceeded : TaskSupervisor St → TaskId → Answer St (Unit {0})
  unfolding task_state apply_transition_with_failure
  fail_budget_exceeded sup task_id = found sup (task_state sup task_id) task_not_found λ current.
      propose sup current failed
        (apply_transition_with_failure S sup task_id current failed (some budget_exceeded))

  unfoldable pub cancel : TaskSupervisor St → TaskId → Answer St Bool
  unfolding task_state apply_transition_with_failure
  cancel sup task_id = found sup (task_state sup task_id) task_not_found λ current.
      if is_terminal current
      then returns false sup
      else elim (apply_transition_with_failure S sup task_id current cancelled none) [
        | fails e sup' ↦ fails e sup'
        | returns _ sup' ↦ returns true sup'
      ]

  unfoldable pub events : TaskSupervisor St → TaskId → ℕ → Result SupervisorError (List TaskEvent)
  unfolding task_state
  events sup task_id after_sequence = elim (task_state sup task_id) [
    | none ↦ err task_not_found
    | some _ ↦ elim (S.list sup.event_store task_id after_sequence) [
      | ok found_events ↦ ok found_events
      | err e ↦ err (event_store_error e)
    ]
  ]
