-- ===== src/Runtime/Supervisor/Audit/Sound.antt =====
-- The invariant of the supervisor: its log replays to its tasks, an operation is
-- pending only for a task that waits or is over, and once, approved only for a task that was
-- started, and every stored specification that was not rejected is valid.
use ai_os.Prelude.{◌≡◌, ◌⊎◌, true, All, BTreeMap, ok}
use ai_os.Core.State.{rejected}
use ai_os.Core.Task.{validate}
use ai_os.Runtime.Event.{ApprovalId, OperationId, EventStore}
use ai_os.Runtime.Supervisor.{
  TaskRecord, TaskSupervisor, PendingOperation, ApprovedOperation, state_in,
}
use ai_os.Runtime.Supervisor.Audit.Log.{IsLogged}
use ai_os.Runtime.Supervisor.Audit.Views.{View, opened, parked}
use ai_os.Runtime.Supervisor.Audit.Pending.{HasDistinctTasks}

abbrev pub IsStorable : TaskRecord → Type 0
IsStorable r = (r.state ≡ rejected) ⊎ (validate r.spec ≡ ok tt)

abbrev pub PendingParked : View → BTreeMap ApprovalId PendingOperation → Type 0
PendingParked view = All (λ e. parked (view e.1.task_id) ≡ true)

abbrev pub ApprovedOpen : View → BTreeMap OperationId ApprovedOperation → Type 0
ApprovedOpen view = All (λ e. opened (view e.1.task_id) ≡ true)

module _ {St : Type 0} (S : EventStore St) where
  pub record IsSound (sup : TaskSupervisor St) : Type 0 where
    pub logged : IsLogged S sup.event_store (state_in sup.tasks sup.recovered_tasks)
    pub pending_parked :
        PendingParked (state_in sup.tasks sup.recovered_tasks) sup.pending_operations
    pub alone : HasDistinctTasks sup.pending_operations
    pub approved_open :
        ApprovedOpen (state_in sup.tasks sup.recovered_tasks) sup.approved_operations
    pub valid : All (λ e. IsStorable e.1) sup.tasks
