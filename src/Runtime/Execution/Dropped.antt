-- ===== src/Runtime/Execution/Dropped.antt =====
-- What a cancellation and an expiry of the gate (crates/aios-runtime/src/execution.rs) leave of the
-- pending operations.
use ai_os.Prelude.{
  ℕ, ◌≡◌, ◌≢◌, refl, ◌⊎◌, inl, inr, Bool, false, nat_eq, nat_ord, get, IsSorted, insert-IsSorted,
  remove-IsSorted, contains_key, returns, fails, state_of, Outcome, Option-cases, Outcome-cases,
}
use ai_os.Runtime.Event.{TaskId, ApprovalId, OperationId, EventStore}
use ai_os.Runtime.Approval.{Instant, Duration}
use ai_os.Runtime.Supervisor.{TaskSupervisor, Answer}
use ai_os.Runtime.Supervisor.Tasks
use ai_os.Runtime.Supervisor.Operations.{
  allowed_operation, denied_operation, needs_approval, request_operation, approve_operation,
  deny_operation, expire_approvals,
}
use ai_os.Runtime.Execution.{
  Adapter, ExecutionError, supervisor_error, ExecutionGate, Guarded, new_gate, is_over,
  remove_pending, remove_task, purge_terminal, ask, request, approve_and_execute, deny, expire,
  cancel,
}
use ai_os.Runtime.Execution.Authorized.{accepted}
use ai_os.Runtime.Execution.Once.{run_adapter-IsKept, execute_pending-IsKept}
use ai_os.Runtime.Execution.Tables.{
  remove_task-IsSorted, purge_terminal-IsSorted, get-remove_task, get-purge_terminal, Keeps,
}

module _ {St A O Output E : Type 0} (S : EventStore St) (D : Adapter A O Output E) where
  -- The gates that the methods lead to, each call with its own supervisor, clock and identifiers.
  pub data Reached : ExecutionGate A O → Type 0 where
    on_new : (adapter : A) → Reached (new_gate adapter)
    on_request :
        (g : Guarded St A O)
        → Reached g.gate
        → (first now : Instant) (operation_id : OperationId) (approval_id : ApprovalId)
          (task : TaskId) (operation : O) (ttl : Duration)
        → Reached
            (state_of (request S D g first now operation_id approval_id task operation ttl)).gate
    on_approve :
        (g : Guarded St A O)
        → Reached g.gate
        → (first now later : Instant) (approval_id : ApprovalId)
        → Reached (state_of (approve_and_execute S D g first now later approval_id)).gate
    on_deny :
        (g : Guarded St A O)
        → Reached g.gate
        → (now : Instant) (approval_id : ApprovalId)
        → Reached (state_of (deny S D g now approval_id)).gate
    on_expire :
        (g : Guarded St A O)
        → Reached g.gate
        → (now : Instant) → Reached (state_of (expire S D g now)).gate
    on_cancel :
        (g : Guarded St A O)
        → Reached g.gate
        → (task : TaskId) → Reached (state_of (cancel S D g task)).gate

  ask-IsOrdered :
      {T U : Type 0} (gate : ExecutionGate A O) (answer : Answer St T)
      (k : T → TaskSupervisor St → Outcome (Guarded St A O) (ExecutionError E) U)
      → IsSorted gate.pending
      → ((a : T) (sup : TaskSupervisor St) → IsSorted (state_of (k a sup)).gate.pending)
      → IsSorted (state_of (ask S D gate answer k)).gate.pending
  ask-IsOrdered gate (returns a sup) k h f = f a sup
  ask-IsOrdered gate (fails x sup) k h f = h

  request-IsOrdered :
      (g : Guarded St A O) (first now : Instant) (operation_id : OperationId)
      (approval_id : ApprovalId) (task : TaskId) (operation : O) (ttl : Duration)
      → IsSorted g.gate.pending
      → IsSorted
          (state_of
            (request S D g first now operation_id approval_id task operation ttl)).gate.pending
  unfolding request
  request-IsOrdered g first now operation_id approval_id task operation ttl h =
      elim (Outcome-cases (
        request_operation S g.supervisor first now operation_id approval_id task
          (D.capability_request operation) ttl)) [
            | inr (x, sup, e) ↦ rw (e, request) h
            | inl (allowed_operation, sup, e) ↦
                rw (e, request) (rw (run_adapter-IsKept S D g.gate sup operation _).0 h)
            | inl (denied_operation reason, sup, e) ↦ rw (e, request) h
            | inl (needs_approval approval, sup, e) ↦
                rw (e, request) (insert-IsSorted approval.operation_id _ g.gate.pending h)
          ]

  approve-IsOrdered :
      (g : Guarded St A O) (first now later : Instant) (approval_id : ApprovalId)
      → IsSorted g.gate.pending
      → IsSorted (state_of (approve_and_execute S D g first now later approval_id)).gate.pending
  unfolding approve_and_execute remove_pending
  approve-IsOrdered g first now later approval_id h =
      elim (Option-cases (get approval_id g.gate.approval_index)) [
        | inl e ↦ rw (e, approve_and_execute) h
        | inr (operation_id, e) ↦ elim (Option-cases (get operation_id g.gate.pending)) [
          | inl f ↦ rw (e, approve_and_execute) (rw (f, contains_key) h)
          | inr (pending, f) ↦
              elim (Outcome-cases (approve_operation S g.supervisor first now approval_id)) [
                | inr (x, sup, a) ↦
                    rw (e, approve_and_execute) (rw (f, contains_key) (rw (a, ask) h))
                | inl (snapshot, sup, a) ↦
                    let gate = (remove_pending g.gate approval_id operation_id).0 in
                    rw
                      (accepted S D g first now later approval_id operation_id pending snapshot sup
                        e f a)
                      (rw (execute_pending-IsKept S D gate sup later operation_id pending).0
                        (remove-IsSorted operation_id g.gate.pending h))
              ]
        ]
      ]

  deny-IsOrdered :
      (g : Guarded St A O) (now : Instant) (approval_id : ApprovalId)
      → IsSorted g.gate.pending
      → IsSorted (state_of (deny S D g now approval_id)).gate.pending
  unfolding deny remove_pending
  deny-IsOrdered g now approval_id h = elim (Option-cases (get approval_id g.gate.approval_index)) [
    | inl e ↦ rw (e, deny) h
    | inr (operation_id, e) ↦
        rw (e, deny)
          (ask-IsOrdered g.gate (deny_operation S g.supervisor now approval_id) _ h
            (λ _ _. remove-IsSorted operation_id g.gate.pending h))
  ]

  Reached-IsOrdered : (gate : ExecutionGate A O) → Reached gate → IsSorted gate.pending
  unfolding new_gate expire cancel
  Reached-IsOrdered _ (on_new adapter) = tt
  Reached-IsOrdered _ (on_request g r first now operation_id approval_id task operation ttl) =
      request-IsOrdered g first now operation_id approval_id task operation ttl
        (Reached-IsOrdered g.gate r)
  Reached-IsOrdered _ (on_approve g r first now later approval_id) =
      approve-IsOrdered g first now later approval_id (Reached-IsOrdered g.gate r)
  Reached-IsOrdered _ (on_deny g r now approval_id) =
      deny-IsOrdered g now approval_id (Reached-IsOrdered g.gate r)
  Reached-IsOrdered _ (on_expire g r now) =
      let h = Reached-IsOrdered g.gate r in
      ask-IsOrdered g.gate (expire_approvals S g.supervisor now) _ h
        (λ _ sup. purge_terminal-IsSorted g.gate sup h)
  Reached-IsOrdered _ (on_cancel g r task) =
      let h = Reached-IsOrdered g.gate r in
      ask-IsOrdered g.gate (Tasks.cancel S g.supervisor task) _ h
        (λ _ _. remove_task-IsSorted g.gate task h)

  -- From any gate that the methods lead to: a cancellation that succeeds drops all operations of the
  -- task and no others, an expiry that succeeds drops those of the tasks that are over for the
  -- supervisor it leaves and no others, and one that fails leaves the gate as it was.
  pub drops_exactly :
      (g : Guarded St A O) (now : Instant) (task : TaskId)
      → Reached g.gate
      → (((changed : Bool) × (g' : Guarded St A O) × (cancel S D g task ≡ returns changed g')
            × Keeps (λ p. p.task_id ≢ task) g.gate g'.gate)
          ⊎ ((e : ExecutionError E) × (g' : Guarded St A O) × (cancel S D g task ≡ fails e g')
              × (g'.gate ≡ g.gate)))
        × (((expired : ℕ) × (g' : Guarded St A O) × (expire S D g now ≡ returns expired g')
              × Keeps (λ p. is_over g'.supervisor p.task_id ≡ false) g.gate g'.gate)
            ⊎ ((e : ExecutionError E) × (g' : Guarded St A O) × (expire S D g now ≡ fails e g')
                × (g'.gate ≡ g.gate)))
  unfolding cancel expire
  drops_exactly g now task r =
      let h = Reached-IsOrdered g.gate r in
      (
        elim (Outcome-cases (Tasks.cancel S g.supervisor task)) [
          | inl (changed, sup, e) ↦ inl (
            changed,
            record { gate = remove_task g.gate task; supervisor = sup },
            rw (e, cancel) refl,
            (λ j p. get-remove_task g.gate task j p h),
          )
          | inr (x, sup, e) ↦ inr (
            supervisor_error x,
            record { gate = g.gate; supervisor = sup },
            rw (e, cancel) refl,
            refl,
          )
        ],
        elim (Outcome-cases (expire_approvals S g.supervisor now)) [
          | inl (expired, sup, e) ↦ inl (
            expired,
            record { gate = purge_terminal g.gate sup; supervisor = sup },
            rw (e, expire) refl,
            (λ j p. get-purge_terminal g.gate sup j p h),
          )
          | inr (x, sup, e) ↦ inr (
            supervisor_error x,
            record { gate = g.gate; supervisor = sup },
            rw (e, expire) refl,
            refl,
          )
        ],
      )
