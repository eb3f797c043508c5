-- ===== src/Runtime/Execution/Once.antt =====
-- What an approval leaves in the tables of the gate (crates/aios-runtime/src/execution.rs).
use ai_os.Prelude.{
  ◌≡◌, ◌∙◌, refl, ap, if◌then◌else◌, inl, inr, none, some, arith, nat_beq, nat_ord, get, get-remove,
  returns, fails, state_of, Outcome-cases,
}
use ai_os.Runtime.Event.{ApprovalId, OperationId, TaskSnapshot, EventStore}
use ai_os.Runtime.Approval.{Instant}
use ai_os.Runtime.Supervisor.{TaskSupervisor}
use ai_os.Runtime.Supervisor.Operations.{approve_operation, authorize_operation}
use ai_os.Runtime.Execution.{
  Adapter, operation_not_found, PendingExecution, ExecutionGate, Guarded, remove_pending, ask,
  run_adapter, execute_pending, approve_and_execute,
}
use ai_os.Runtime.Execution.Authorized.{accepted}

module _ {St A O Output E : Type 0} (S : EventStore St) (D : Adapter A O Output E) where
  -- Running the adapter changes no table of the gate.
  abbrev pub IsKept : ExecutionGate A O → ExecutionGate A O → Type 0
  IsKept gate gate' = (gate'.pending ≡ gate.pending) × (gate'.approval_index ≡ gate.approval_index)

  pub run_adapter-IsKept :
      {U : Type 0} (gate : ExecutionGate A O) (sup : TaskSupervisor St) (operation : O)
      (wrap : Output → U)
      → IsKept gate (state_of (run_adapter S D gate sup operation wrap)).gate
  run_adapter-IsKept gate sup operation wrap =
      elim (Outcome-cases (D.execute gate.adapter operation)) [
        | inl (output, adapter, e) ↦ rw (e, run_adapter) (refl, refl)
        | inr (x, adapter, e) ↦ rw (e, run_adapter) (refl, refl)
      ]

  pub execute_pending-IsKept :
      (gate : ExecutionGate A O) (sup : TaskSupervisor St) (now : Instant)
      (operation_id : OperationId) (pending : PendingExecution O)
      → IsKept gate (state_of (execute_pending S D gate sup now operation_id (some pending))).gate
  unfolding execute_pending
  execute_pending-IsKept gate sup now operation_id pending =
      elim (Outcome-cases (
        authorize_operation S sup now pending.task_id operation_id
          (D.capability_request pending.operation))) [
            | inr (x, sup', e) ↦ rw (e, ask) (refl, refl)
            | inl (receipt, sup', e) ↦
                rw (e, ask) (run_adapter-IsKept gate sup' pending.operation _)
          ]

  -- The gate without one entry in each table.
  abbrev pub IsWithout : ApprovalId → OperationId → ExecutionGate A O → ExecutionGate A O → Type 0
  IsWithout approval_id operation_id gate gate' =
      ((j : OperationId)
        → get j gate'.pending ≡ (if nat_beq operation_id j then none else get j gate.pending))
      × ((j : ApprovalId)
          → get j gate'.approval_index
            ≡ (if nat_beq approval_id j then none else get j gate.approval_index))

  remove_pending-IsWithout :
      (gate : ExecutionGate A O) (approval_id : ApprovalId) (operation_id : OperationId)
      → IsWithout approval_id operation_id gate (remove_pending gate approval_id operation_id).0
  unfolding remove_pending
  remove_pending-IsWithout gate approval_id operation_id = (
    (λ j. get-remove j operation_id gate.pending),
    (λ j. get-remove j approval_id gate.approval_index),
  )

  -- After an accepted approval, whether the operation was then authorized and executed or not, the gate
  -- holds the operation no longer, in neither of its tables, and holds the other operations as before;
  -- to approve it again finds nothing, and changes nothing.
  pub approve_and_execute_once :
      (g : Guarded St A O) (first now later : Instant) (approval_id : ApprovalId)
      (operation_id : OperationId) (pending : PendingExecution O) (task : TaskSnapshot)
      (sup : TaskSupervisor St) (first' now' later' : Instant)
      → get approval_id g.gate.approval_index ≡ some operation_id
      → get operation_id g.gate.pending ≡ some pending
      → approve_operation S g.supervisor first now approval_id ≡ returns task sup
      → IsWithout approval_id operation_id g.gate
          (state_of (approve_and_execute S D g first now later approval_id)).gate
        × (approve_and_execute S D
              (state_of (approve_and_execute S D g first now later approval_id))
              first'
              now'
              later'
              approval_id
            ≡ fails operation_not_found
                (state_of (approve_and_execute S D g first now later approval_id)))
  approve_and_execute_once g first now later approval_id operation_id pending task sup first' now'
        later' e f a =
      let without = emptied g first now later approval_id operation_id pending task sup e f a in
      let again = state_of (approve_and_execute S D g first now later approval_id) in
      (without, missing again (without.1 approval_id ∙ ground arith))
    where
      emptied :
          (g : Guarded St A O) (first now later : Instant) (approval_id : ApprovalId)
          (operation_id : OperationId) (pending : PendingExecution O) (task : TaskSnapshot)
          (sup : TaskSupervisor St)
          → get approval_id g.gate.approval_index ≡ some operation_id
          → get operation_id g.gate.pending ≡ some pending
          → approve_operation S g.supervisor first now approval_id ≡ returns task sup
          → IsWithout approval_id operation_id g.gate
              (state_of (approve_and_execute S D g first now later approval_id)).gate
      emptied g first now later approval_id operation_id pending task sup e f a =
          let gate = (remove_pending g.gate approval_id operation_id).0 in
          let (pending_kept, index_kept) =
            execute_pending-IsKept gate sup later operation_id pending in
          let (operations, approvals) = remove_pending-IsWithout g.gate approval_id operation_id in
          rw (accepted S D g first now later approval_id operation_id pending task sup e f a) (
            (λ j. ap (λ m. get j m) pending_kept ∙ operations j),
            (λ j. ap (λ m. get j m) index_kept ∙ approvals j),
          )

      missing :
          (g' : Guarded St A O)
          → get approval_id g'.gate.approval_index ≡ none
          → approve_and_execute S D g' first' now' later' approval_id ≡ fails operation_not_found g'
      missing g' n = unfold approve_and_execute in rw (n, approve_and_execute) refl
