-- ===== src/Runtime/Supervisor.antt =====
-- crates/aios-runtime/src/supervisor.rs: the state of the supervisor, its errors, and the transitions
-- that its methods share. Methods take the clock's readings and new identifiers as arguments.
pub mod Tasks
pub mod Operations
pub mod Restart
pub mod Audit
pub mod Guard
pub mod Restarted
pub mod Arrived
mod Witnesses
use ai_os.Prelude.{
  ℕ, ◌+◌, ◌*◌, ◌-◌, ◌≡◌, Bool, true, false, not, ◌&&◌, ◌||◌, List, [], ◌∷◌, ◌++◌, Option, none,
  some, ltb, leb, nat_beq, nat_eq, nat_ord, if◌then◌else◌, ◌==◌, list_eq, Ord, Eq, BTreeMap, get,
  insert, remove, keys_where, retain, Result, ok, err, Outcome, returns, fails,
}
use ai_os.Core.State.{TaskState, failed, StateTransitionError, is_terminal, transition_to}
use ai_os.Core.Error.{ErrorCode}
use ai_os.Core.Text.{Text}
use ai_os.Core.Task.{TaskSpec, FileAccess, NetworkTransport, Field}
use ai_os.Core.Policy.{CapabilityRequest, file, network, tool, file_action, egress_action}
use ai_os.Runtime.Event.{
  TaskId, ApprovalId, OperationId, TaskEvent, TaskEventKind, EventStoreError, EventStore,
  state_transitioned, task_failed, approval_revoked,
}
use ai_os.Runtime.Approval.{
  Instant, ApprovalAuthority, ApprovalError, ApprovalGrant, revoke, default,
}

pub record TaskRecord : Type 0 where
  pub spec : TaskSpec
  pub state : TaskState
  pub started_at : Option Instant

-- `OwnedCapabilityRequest` holds the same values as the borrowed request.
abbrev pub OwnedCapabilityRequest : Type 0
OwnedCapabilityRequest = CapabilityRequest

unfoldable pub action : OwnedCapabilityRequest → Text
action (file path access) = file_action access
action (network host transport port) = egress_action
action (tool name action_name) = action_name

pub record PendingOperation : Type 0 where
  pub task_id : TaskId
  pub operation_id : OperationId
  pub request : OwnedCapabilityRequest

pub record ApprovedOperation : Type 0 where
  pub task_id : TaskId
  pub request : OwnedCapabilityRequest
  pub grant : ApprovalGrant

-- `panicked` is a failed `expect`.
pub data SupervisorError : Type 0 where
  task_not_found task_not_running idempotency_conflict capacity_exceeded panicked : SupervisorError
  invalid_state_transition : StateTransitionError → SupervisorError
  event_store_error : EventStoreError → SupervisorError
  approval_error : ApprovalError → SupervisorError

-- The keys of `idempotency_index` are only looked up, so their order is left as it comes.
abbrev pub text_lt : Text → Text → Bool
text_lt [] [] = false
text_lt [] (d ∷ t) = true
text_lt (c ∷ s) [] = false
text_lt (c ∷ s) (d ∷ t) = ltb c d || (nat_beq c d && text_lt s t)

instance abbrev pub text_ord : Ord Text
text_ord = record { equality = list_eq; lt? = text_lt }

pub record TaskSupervisor (St : Type 0) : Type 0 where
  pub tasks : BTreeMap TaskId TaskRecord
  pub recovered_tasks : BTreeMap TaskId TaskState
  pub idempotency_index : BTreeMap Text TaskId
  pub event_store : St
  pub approval_authority : ApprovalAuthority
  pub pending_operations : BTreeMap ApprovalId PendingOperation
  pub approved_operations : BTreeMap OperationId ApprovedOperation
  pub max_tasks : ℕ

abbrev pub Answer : Type 0 → Type 0 → Type 0
Answer St A = Outcome (TaskSupervisor St) SupervisorError A

abbrev pub pending_of : TaskId → BTreeMap ApprovalId PendingOperation → List TaskEventKind
pending_of task_id [] = []
pending_of task_id ((approval_id, operation) ∷ rest) =
    if nat_beq operation.task_id task_id
    then approval_revoked approval_id operation.operation_id ∷ pending_of task_id rest
    else pending_of task_id rest

abbrev pub approved_of : TaskId → BTreeMap OperationId ApprovedOperation → List TaskEventKind
approved_of task_id [] = []
approved_of task_id ((operation_id, operation) ∷ rest) =
    if nat_beq operation.task_id task_id
    then approval_revoked operation.grant.approval_id operation_id ∷ approved_of task_id rest
    else approved_of task_id rest

-- The event of the failure code, if there is one.
abbrev pub failure_events : Option ErrorCode → List TaskEventKind
failure_events none = []
failure_events (some code) = task_failed code ∷ []

-- The tables behind `task_state`.
unfoldable pub state_in :
    BTreeMap TaskId TaskRecord → BTreeMap TaskId TaskState → TaskId → Option TaskState
state_in tasks recovered_tasks task_id = elim (get task_id tasks) [
  | some task ↦ some task.state
  | none ↦ get task_id recovered_tasks
]

module _ {St : Type 0} where
  unfoldable pub task_state : TaskSupervisor St → TaskId → Option TaskState
  task_state sup task_id = state_in sup.tasks sup.recovered_tasks task_id

  -- `proposed.transition_to(next)?`
  abbrev pub propose :
      {A : Type 0} → TaskSupervisor St → TaskState → TaskState → Answer St A → Answer St A
  propose sup current next continue = elim (transition_to current next) [
    | err e ↦ fails (invalid_state_transition e) sup
    | ok _ ↦ continue
  ]

  -- A failed lookup ends the method.
  abbrev pub found :
      {A B : Type 0}
      → TaskSupervisor St
      → Option A
      → SupervisorError
      → (A → Answer St B)
      → Answer St B
  found sup none e continue = fails e sup
  found sup (some a) e continue = continue a

  unfoldable pub revocation_events : TaskSupervisor St → TaskId → List TaskEventKind
  revocation_events sup task_id =
      pending_of task_id sup.pending_operations ++ approved_of task_id sup.approved_operations

  -- The body of the loop over the pending identifiers.
  abbrev pub drop_pending : ApprovalId → TaskSupervisor St → TaskSupervisor St
  drop_pending approval_id sup = record sup {
    approval_authority = (revoke sup.approval_authority approval_id).0;
    pending_operations = remove approval_id sup.pending_operations;
  }

  unfoldable pub drop_all : List ApprovalId → TaskSupervisor St → TaskSupervisor St
  drop_all [] sup = sup
  drop_all (approval_id ∷ ids) sup = drop_all ids (drop_pending approval_id sup)

  abbrev pub keep_others : TaskId → TaskSupervisor St → TaskSupervisor St
  keep_others task_id sup = record sup {
    approved_operations =
        retain (λ operation. not (nat_beq operation.task_id task_id)) sup.approved_operations;
  }

  unfoldable pub invalidate_approvals : TaskSupervisor St → TaskId → TaskSupervisor St
  unfolding drop_all
  invalidate_approvals sup task_id =
      let pending_ids =
        keys_where (λ operation. nat_beq operation.task_id task_id) sup.pending_operations in
      keep_others task_id (drop_all pending_ids sup)

  abbrev pub set_task : TaskId → TaskRecord → TaskState → TaskSupervisor St → TaskSupervisor St
  set_task task_id task next sup = record sup {
    tasks = insert task_id (record task { state = next }) sup.tasks;
  }

  -- The end of `apply_transition_with_failure`: the state is written where the task lives.
  unfoldable pub write_state : TaskSupervisor St → TaskId → TaskState → Answer St (Unit {0})
  write_state sup task_id next = elim (get task_id sup.tasks) [
    | some task ↦ returns tt (set_task task_id task next sup)
    | none ↦ elim (get task_id sup.recovered_tasks) [
      | some _ ↦
          returns tt (record sup { recovered_tasks = insert task_id next sup.recovered_tasks })
      | none ↦ fails task_not_found sup
    ]
  ]

module _ {St : Type 0} (S : EventStore St) where
  -- `self.event_store.append_batch(task_id, kinds)?`
  abbrev pub append :
      {A : Type 0}
      → TaskSupervisor St
      → TaskId
      → List TaskEventKind
      → (TaskSupervisor St → Answer St A)
      → Answer St A
  append sup task_id kinds continue = elim (S.append_batch sup.event_store task_id kinds) [
    | returns _ store ↦ continue (record sup { event_store = store })
    | fails e store ↦ fails (event_store_error e) (record sup { event_store = store })
  ]

  abbrev pub transition_events :
      TaskSupervisor St → TaskId → TaskState → TaskState → Option ErrorCode → List TaskEventKind
  transition_events sup task_id current next failure =
      (if is_terminal next then revocation_events sup task_id else [])
      ++ failure_events failure
      ++ state_transitioned current next ∷ []

  unfoldable pub apply_transition_with_failure :
      TaskSupervisor St → TaskId → TaskState → TaskState → Option ErrorCode → Answer St (Unit {0})
  unfolding revocation_events invalidate_approvals write_state
  apply_transition_with_failure sup task_id current next failure =
      append sup task_id (transition_events sup task_id current next failure) λ sup'.
        write_state (if is_terminal next then invalidate_approvals sup' task_id else sup') task_id
          next

  unfoldable pub transition : TaskSupervisor St → TaskId → TaskState → Answer St (Unit {0})
  unfolding task_state apply_transition_with_failure
  transition sup task_id next = found sup (task_state sup task_id) task_not_found λ current.
      propose sup current next (apply_transition_with_failure sup task_id current next none)
