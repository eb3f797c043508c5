-- ===== src/Runtime/Execution/Authorized.antt =====
-- The gate of crates/aios-runtime/src/execution.rs calls the adapter only with what the supervisor
-- has authorized, and once.
use ai_os.Prelude.{
  ◌≡◌, ◌∙◌, refl, ◌⊎◌, inl, inr, List, [], ◌∷◌, some, nat_beq, nat_ord, get, keys_where, keep_if,
  map, values, contains_key, Outcome, returns, fails, state_of, Option-cases, Outcome-cases,
}
use ai_os.Runtime.Event.{TaskId, ApprovalId, OperationId, TaskSnapshot, EventStore}
use ai_os.Runtime.Approval.{Instant, Duration, ApprovalReceipt}
use ai_os.Runtime.Supervisor.{TaskSupervisor, Answer}
use ai_os.Runtime.Supervisor.Operations.{
  allowed_operation, denied_operation, needs_approval, request_operation, approve_operation,
  authorize_operation, deny_operation, expire_approvals,
}
use ai_os.Runtime.Supervisor.Tasks
use ai_os.Runtime.Execution.{
  Adapter, ExecutionError, PendingExecution, ExecutionGate, Guarded, is_over, remove_pending,
  remove_operations, remove_task, remove_tasks, purge_terminal, ask, run_adapter, request,
  execute_pending, approve_and_execute, deny, expire, cancel,
}

module _ {A O : Type 0} where
  remove_operations-adapter :
      (ids : List OperationId) (gate : ExecutionGate A O)
      → (remove_operations ids gate).adapter ≡ gate.adapter
  unfolding remove_operations
  remove_operations-adapter [] gate = refl
  remove_operations-adapter (id ∷ ids) gate = elim (Option-cases (get id gate.pending)) [
    | inl e ↦ rw (e, remove_operations) (remove_operations-adapter ids gate)
    | inr (p, e) ↦ rw (e, remove_operations) (remove_operations-adapter ids _)
  ]

  remove_task-adapter :
      (gate : ExecutionGate A O) (task : TaskId) → (remove_task gate task).adapter ≡ gate.adapter
  unfolding remove_task
  remove_task-adapter gate task =
      remove_operations-adapter (keys_where (λ pending. nat_beq pending.task_id task) gate.pending)
        gate

  remove_tasks-adapter :
      (ids : List TaskId) (gate : ExecutionGate A O)
      → (remove_tasks ids gate).adapter ≡ gate.adapter
  unfolding remove_tasks
  remove_tasks-adapter [] gate = refl
  remove_tasks-adapter (id ∷ ids) gate =
      remove_tasks-adapter ids (remove_task gate id) ∙ remove_task-adapter gate id

  purge_terminal-adapter :
      {St : Type 0} (gate : ExecutionGate A O) (sup : TaskSupervisor St)
      → (purge_terminal gate sup).adapter ≡ gate.adapter
  unfolding purge_terminal
  purge_terminal-adapter gate sup =
      remove_tasks-adapter
        (keep_if (is_over sup) (map (λ pending. pending.task_id) (values gate.pending))) gate

module _ {St A O Output E : Type 0} (S : EventStore St) (D : Adapter A O Output E) where
  run_adapter-adapter :
      {U : Type 0} (gate : ExecutionGate A O) (sup : TaskSupervisor St) (operation : O)
      (wrap : Output → U)
      → (state_of (run_adapter S D gate sup operation wrap)).gate.adapter
        ≡ state_of (D.execute gate.adapter operation)
  run_adapter-adapter gate sup operation wrap =
      elim (Outcome-cases (D.execute gate.adapter operation)) [
        | inl (output, adapter, e) ↦ rw (e, run_adapter) refl
        | inr (x, adapter, e) ↦ rw (e, run_adapter) refl
      ]

  -- A request runs the adapter only when the supervisor allowed the operation without an approval,
  -- and then once, on that operation; otherwise the adapter is left as it was.
  pub request-adapter :
      (g : Guarded St A O) (first now : Instant) (operation_id : OperationId)
      (approval_id : ApprovalId) (task : TaskId) (operation : O) (ttl : Duration)
      → ((state_of
            (request S D g first now operation_id approval_id task operation ttl)).gate.adapter
          ≡ g.gate.adapter)
        ⊎ ((sup : TaskSupervisor St) × (request_operation S g.supervisor first now operation_id
                approval_id task
                (D.capability_request operation)
                ttl
              ≡ returns allowed_operation sup)
            × ((state_of (
                  request S D g first now operation_id approval_id task operation ttl)).gate.adapter
                ≡ state_of (D.execute g.gate.adapter operation)))
  unfolding request
  request-adapter g first now operation_id approval_id task operation ttl =
      elim (Outcome-cases (
        request_operation S g.supervisor first now operation_id approval_id task
          (D.capability_request operation) ttl)) [
            | inr (x, sup, e) ↦ inl (rw (e, request) refl)
            | inl (allowed_operation, sup, e) ↦
                inr (sup, e, rw (e, request) (run_adapter-adapter g.gate sup operation _))
            | inl (denied_operation reason, sup, e) ↦ inl (rw (e, request) refl)
            | inl (needs_approval approval, sup, e) ↦ inl (rw (e, request) refl)
          ]

  execute_pending-adapter :
      (gate : ExecutionGate A O) (sup : TaskSupervisor St) (now : Instant)
      (operation_id : OperationId) (pending : PendingExecution O)
      → ((state_of (execute_pending S D gate sup now operation_id (some pending))).gate.adapter
          ≡ gate.adapter)
        ⊎ ((receipt : ApprovalReceipt) × (sup' : TaskSupervisor St) × (authorize_operation S sup now
                pending.task_id operation_id
                (D.capability_request pending.operation)
              ≡ returns receipt sup')
            × ((state_of
                  (execute_pending S D gate sup now operation_id (some pending))).gate.adapter
                ≡ state_of (D.execute gate.adapter pending.operation)))
  unfolding execute_pending
  execute_pending-adapter gate sup now operation_id pending =
      elim (Outcome-cases (
        authorize_operation S sup now pending.task_id operation_id
          (D.capability_request pending.operation))) [
            | inr (x, sup', e) ↦ inl (rw (e, ask) refl)
            | inl (receipt, sup', e) ↦
                inr (
                  receipt,
                  sup',
                  e,
                  rw (e, ask) (run_adapter-adapter gate sup' pending.operation _),
                )
          ]

  pub accepted :
      (g : Guarded St A O) (first now later : Instant) (approval_id : ApprovalId)
      (operation_id : OperationId) (pending : PendingExecution O) (task : TaskSnapshot)
      (sup : TaskSupervisor St)
      → get approval_id g.gate.approval_index ≡ some operation_id
      → get operation_id g.gate.pending ≡ some pending
      → approve_operation S g.supervisor first now approval_id ≡ returns task sup
      → approve_and_execute S D g first now later approval_id
        ≡ execute_pending S D
            (remove_pending g.gate approval_id operation_id).0
            sup
            later
            operation_id
            (some pending)
  unfolding remove_pending approve_and_execute
  accepted g first now later approval_id operation_id pending task sup e f a =
      rw (e, approve_and_execute) (rw (f, contains_key) (rw (a, ask) refl))

  -- An approval runs the adapter only when the gate holds the operation of the approval, the
  -- supervisor accepted the approval, and it then authorized exactly this operation for its task;
  -- the adapter then runs once, on that operation. Otherwise the adapter is left as it was.
  pub approve_and_execute-adapter :
      (g : Guarded St A O) (first now later : Instant) (approval_id : ApprovalId)
      → ((state_of (approve_and_execute S D g first now later approval_id)).gate.adapter
          ≡ g.gate.adapter)
        ⊎ ((operation_id : OperationId) × (pending : PendingExecution O) × (task : TaskSnapshot)
            × (sup : TaskSupervisor St) × (receipt : ApprovalReceipt) × (sup' : TaskSupervisor St)
            × (get approval_id g.gate.approval_index ≡ some operation_id)
            × (get operation_id g.gate.pending ≡ some pending)
            × (approve_operation S g.supervisor first now approval_id ≡ returns task sup)
            × (authorize_operation S sup later pending.task_id operation_id
                  (D.capability_request pending.operation)
                ≡ returns receipt sup')
            × ((state_of (approve_and_execute S D g first now later approval_id)).gate.adapter
                ≡ state_of (D.execute g.gate.adapter pending.operation)))
  unfolding approve_and_execute
  approve_and_execute-adapter g first now later approval_id =
      elim (Option-cases (get approval_id g.gate.approval_index)) [
        | inl e ↦ inl (rw (e, approve_and_execute) refl)
        | inr (operation_id, e) ↦ elim (Option-cases (get operation_id g.gate.pending)) [
          | inl f ↦ inl (rw (e, approve_and_execute) (rw (f, contains_key) refl))
          | inr (pending, f) ↦
              elim (Outcome-cases (approve_operation S g.supervisor first now approval_id)) [
                | inr (x, sup, a) ↦
                    inl (rw (e, approve_and_execute) (rw (f, contains_key) (rw (a, ask) refl)))
                | inl (task, sup, a) ↦
                    let same =
                      accepted g first now later approval_id operation_id pending task sup e f a in
                    elim (execute_pending-adapter (remove_pending g.gate approval_id operation_id).0
                      sup later operation_id pending) [
                        | inl idle ↦ inl (rw same idle)
                        | inr (receipt, sup', b, ran) ↦ inr (
                          operation_id,
                          pending,
                          task,
                          sup,
                          receipt,
                          sup',
                          e,
                          f,
                          a,
                          b,
                          rw same ran,
                        )
                      ]
              ]
        ]
      ]

  ask-adapter :
      {T U : Type 0} (gate : ExecutionGate A O) (answer : Answer St T)
      (k : T → TaskSupervisor St → Outcome (Guarded St A O) (ExecutionError E) U)
      → ((a : T) (sup : TaskSupervisor St) → (state_of (k a sup)).gate.adapter ≡ gate.adapter)
      → (state_of (ask S D gate answer k)).gate.adapter ≡ gate.adapter
  ask-adapter gate (returns a sup) k h = h a sup
  ask-adapter gate (fails x sup) k h = refl

  -- The other methods of the gate never run the adapter.
  pub others-adapter :
      (g : Guarded St A O) (now : Instant) (approval_id : ApprovalId) (task : TaskId)
      → ((state_of (deny S D g now approval_id)).gate.adapter ≡ g.gate.adapter)
        × ((state_of (expire S D g now)).gate.adapter ≡ g.gate.adapter)
        × ((state_of (cancel S D g task)).gate.adapter ≡ g.gate.adapter)
  unfolding deny expire cancel remove_pending
  others-adapter g now approval_id task = (denying, expiring, cancelling)
    where
      denying : (state_of (deny S D g now approval_id)).gate.adapter ≡ g.gate.adapter
      denying = elim (Option-cases (get approval_id g.gate.approval_index)) [
        | inl e ↦ rw (e, deny) refl
        | inr (operation_id, e) ↦
            rw (e, deny)
              (ask-adapter g.gate (deny_operation S g.supervisor now approval_id)
                (λ task' sup. returns task' (record {
                  gate = (remove_pending g.gate approval_id operation_id).0;
                  supervisor = sup;
                }))
                (λ _ _. refl))
      ]

      expiring : (state_of (expire S D g now)).gate.adapter ≡ g.gate.adapter
      expiring =
          ask-adapter g.gate (expire_approvals S g.supervisor now)
            (λ expired sup.
              returns expired (record { gate = purge_terminal g.gate sup; supervisor = sup }))
            (λ _ sup. purge_terminal-adapter g.gate sup)

      cancelling : (state_of (cancel S D g task)).gate.adapter ≡ g.gate.adapter
      cancelling =
          ask-adapter g.gate (Tasks.cancel S g.supervisor task)
            (λ changed sup.
              returns changed (record { gate = remove_task g.gate task; supervisor = sup }))
            (λ _ _. remove_task-adapter g.gate task)
