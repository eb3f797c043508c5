-- ===== src/Runtime/Supervisor/Audit/Requests.antt =====
-- `request_operation` and `authorize_operation` keep the supervisor sound, on success and on failure.
use ai_os.Prelude.{
  ◌≡◌, refl, inl, inr, true, false, not, List, [], ◌∷◌, some, arith, nat_beq, nat_beq_iff, nat_ord,
  ◌||◌, ◌==◌, All-insert, All-remove, get, insert, remove, any_value, Result, ok, err, returns,
  fails, Leaves, Bool-cases, Outcome-cases,
}
use ai_os.Core.State.{TaskState, task_state_eq, running, waiting_approval, can_transition_to}
use ai_os.Core.Policy.{CapabilityRequest, PolicyDecision, allowed, denied, approval_required}
use ai_os.Runtime.Event.{
  TaskId, ApprovalId, OperationId, TaskEvent, TaskEventKind, EventStore, state_transitioned,
  operation_allowed, operation_denied, approval_requested, approval_consumed,
}
use ai_os.Runtime.Approval
use ai_os.Runtime.Approval.{
  Instant, Duration, ApprovalAuthority, ApprovalRequest, ApprovalGrant, ApprovalError,
  ApprovalReceipt, scope_mismatch, authorize, not_found, duplicate_operation, revoke, restore,
  expired_ids,
}
use ai_os.Runtime.Supervisor.{
  TaskRecord, SupervisorError, TaskSupervisor, PendingOperation, ApprovedOperation, state_in,
  append, task_not_found, approval_error, action,
}
use ai_os.Runtime.Supervisor.Operations.{
  allowed_operation, denied_operation, request_eq, needs_approval, request_approval, request_live,
  request_operation, consume, authorize_operation, decide_request,
}
use ai_os.Runtime.Supervisor.Audit.Log.{commit}
use ai_os.Runtime.Supervisor.Audit.Views.{
  View, state_in-get, found-Leaves, propose-Leaves, append-Leaves,
}
use ai_os.Runtime.Supervisor.Audit.Pending.{HasDistinctTasks-insert, Without-of_any}
use ai_os.Runtime.Supervisor.Audit.Sound.{IsSound}
use ai_os.Runtime.Supervisor.Audit.Transitions.{IsAhead, aborted-IsSound}
use ai_os.Runtime.Supervisor.Audit.Expiry.{
  Precedes, pair_scan, requested-Precedes, running_scan, write_task-IsSound, after_expiry-IsSound,
  with_authority,
}
use ai_os.Runtime.Supervisor.Audit.Approvals.{parked_apart}

pub running_of_wait : (s : TaskState) → can_transition_to s waiting_approval ≡ true → s ≡ running
unfolding can_transition_to
running_of_wait s c = ground arith

module _ {St : Type 0} (S : EventStore St) where
  -- An event that leaves the state of its task as it is.
  noted-IsSound :
      (sup : TaskSupervisor St) (task : TaskId) (r : TaskRecord) (kind : TaskEventKind)
      (events : List TaskEvent) (store : St)
      → IsSound S sup
      → get task sup.tasks ≡ some r
      → Precedes kind r.state
      → S.append_batch sup.event_store task (kind ∷ []) ≡ returns events store
      → IsSound S (record sup { event_store = store })
  unfolding Precedes
  noted-IsSound sup task r kind events store s e p h =
      let here = state_in-get sup.tasks sup.recovered_tasks task r e in
      let view : View = state_in sup.tasks sup.recovered_tasks in
      record {
        logged =
            commit S sup.event_store store view view task (kind ∷ []) events (some r.state) h
              (rw here p) (λ u. ground (arith, here, nat_beq_iff task u)) s.logged;
        pending_parked = s.pending_parked;
        alone = s.alone;
        approved_open = s.approved_open;
        valid = s.valid;
      }

  -- The log holds the request; the tables hold the pending operation.
  requested-IsAhead :
      (sup : TaskSupervisor St) (authority : ApprovalAuthority) (id : ApprovalId) (task : TaskId)
      (operation : PendingOperation) (r : TaskRecord) (logged_id : OperationId)
      (events : List TaskEvent) (store : St)
      → IsSound S sup
      → get task sup.tasks ≡ some r
      → operation.task_id ≡ task
      → can_transition_to r.state waiting_approval ≡ true
      → any_value (λ p. nat_beq p.task_id task) sup.pending_operations ≡ false
      → S.append_batch sup.event_store task
          (approval_requested id logged_id ∷ state_transitioned r.state waiting_approval ∷ [])
        ≡ returns events store
      → IsAhead S
          (record sup {
            event_store = store;
            approval_authority = authority;
            pending_operations = insert id operation sup.pending_operations;
          })
          task
          waiting_approval
  requested-IsAhead sup authority id task operation r logged_id events store s f mine c none_yet h =
      let here = state_in-get sup.tasks sup.recovered_tasks task r f in
      let view : View = state_in sup.tasks sup.recovered_tasks in
      let before = requested-Precedes r.state id logged_id c in
      let apart = Without-of_any task sup.pending_operations none_yet in
      record {
        logged = λ view' moves.
            commit S sup.event_store store view view' task
              (approval_requested id logged_id ∷ state_transitioned r.state waiting_approval ∷ [])
              events (some waiting_approval) h
              (rw here (pair_scan _ r.state waiting_approval before c)) moves s.logged;
        pending_parked = λ view' moves.
            All-insert _ id operation sup.pending_operations
              (ground (arith, moves operation.task_id, nat_beq_iff task operation.task_id))
              (parked_apart view view' task waiting_approval sup.pending_operations moves apart
                s.pending_parked);
        alone = HasDistinctTasks-insert id operation sup.pending_operations (rw mine apart) s.alone;
        approved_open = s.approved_open;
        valid = s.valid;
        current = r.state;
        here = here;
        step = c;
      }

  request_approval-IsSound :
      (sup : TaskSupervisor St) (now : Instant) (operation_id : OperationId)
      (approval_id : ApprovalId) (task : TaskId) (r : TaskRecord) (request : CapabilityRequest)
      (ttl : Duration)
      → IsSound S sup
      → get task sup.tasks ≡ some r
      → can_transition_to r.state waiting_approval ≡ true
      → Leaves (IsSound S) (request_approval S sup now operation_id approval_id task r request ttl)
  unfolding request_approval
  request_approval-IsSound sup now operation_id approval_id task r request ttl s f c =
      elim (Bool-cases (any_value (λ p. nat_beq p.task_id task) sup.pending_operations)) [
        | inl taken ↦ rw taken s
        | inr free ↦
            rw free
              (elim (Outcome-cases (
                Approval.request sup.approval_authority now approval_id task operation_id
                  (action request) ttl)) [
                    | inr (x, authority, a) ↦ rw a (with_authority S sup authority s)
                    | inl (approval, authority, a) ↦
                        let kinds =
                          approval_requested approval.approval_id operation_id
                          ∷ state_transitioned r.state waiting_approval
                          ∷ [] in
                        rw a (elim (Outcome-cases (S.append_batch sup.event_store task kinds)) [
                          | inr (x, store, h) ↦ rw h (
                              with_authority S (record sup { event_store = store })
                                (revoke authority approval.approval_id).0
                                (aborted-IsSound S sup store task kinds x h s))
                          | inl (events, store, h) ↦ rw h (
                              write_task-IsSound S _ task waiting_approval
                                (λ sup'. returns (needs_approval approval) sup')
                                (requested-IsAhead sup authority approval.approval_id task _ r
                                  operation_id events store s f refl c free h)
                                (λ _ _ sound. sound) r f)
                        ])
                  ])
      ]

  request_live-IsSound :
      (sup : TaskSupervisor St) (now : Instant) (operation_id : OperationId)
      (approval_id : ApprovalId) (task : TaskId) (request : CapabilityRequest) (ttl : Duration)
      → IsSound S sup
      → Leaves (IsSound S) (request_live S sup now operation_id approval_id task request ttl)
  unfolding request_live
  request_live-IsSound sup now operation_id approval_id task request ttl s =
      found-Leaves (IsSound S) sup (get task sup.tasks) task_not_found _ s λ r f.
        propose-Leaves (IsSound S) sup r.state waiting_approval _ s
          λ c. cases r f c (decide_request r.spec request)
    where
      noted :
          {A : Type 0} (r : TaskRecord) (kind : TaskEventKind) (answer : A)
          → get task sup.tasks ≡ some r
          → Precedes kind r.state
          → Leaves (IsSound S) (append S sup task (kind ∷ []) λ sup'. returns answer sup')
      noted r kind answer f p =
          append-Leaves (IsSound S) S sup task (kind ∷ []) (λ sup'. returns answer sup')
            (λ x store h. aborted-IsSound S sup store task _ x h s)
            (λ events store h. noted-IsSound sup task r kind events store s f p h)

      cases :
          (r : TaskRecord)
          → get task sup.tasks ≡ some r
          → can_transition_to r.state waiting_approval ≡ true
          → (d : Result SupervisorError PolicyDecision)
          → Leaves (IsSound S) (elim d [
            | err e ↦ fails e sup
            | ok allowed ↦
                append S sup task (operation_allowed ∷ []) λ sup'. returns allowed_operation sup'
            | ok (denied reason) ↦
                append S sup task
                  (operation_denied reason ∷ [])
                  λ sup'. returns (denied_operation reason) sup'
            | ok approval_required ↦
                request_approval S sup now operation_id approval_id task r request ttl
          ])
      cases r f c (err e) = s
      cases r f c (ok allowed) =
          noted r operation_allowed allowed_operation f
            (running_scan r.state _ (inl refl) (running_of_wait r.state c))
      cases r f c (ok (denied reason)) =
          noted r (operation_denied reason) (denied_operation reason) f
            (running_scan r.state _ (inr (inl (reason, refl))) (running_of_wait r.state c))
      cases r f c (ok approval_required) =
          request_approval-IsSound sup now operation_id approval_id task r request ttl s f c

  pub request_operation-IsSound :
      (sup : TaskSupervisor St) (first now : Instant) (operation_id : OperationId)
      (approval_id : ApprovalId) (task : TaskId) (request : CapabilityRequest) (ttl : Duration)
      → IsSound S sup
      → Leaves
          (IsSound S)
          (request_operation S sup first now operation_id approval_id task request ttl)
  unfolding request_operation
  request_operation-IsSound sup first now operation_id approval_id task request ttl s =
      after_expiry-IsSound S sup first
        (λ sup'. request_live S sup' now operation_id approval_id task request ttl) s
        (λ sup' l. request_live-IsSound sup' now operation_id approval_id task request ttl l)

  taken-IsSound :
      (sup : TaskSupervisor St) (operation_id : OperationId)
      → IsSound S sup
      → IsSound S (record sup { approved_operations = remove operation_id sup.approved_operations })
  taken-IsSound sup operation_id s = record {
    logged = s.logged;
    pending_parked = s.pending_parked;
    alone = s.alone;
    approved_open = All-remove _ operation_id sup.approved_operations s.approved_open;
    valid = s.valid;
  }

  consume-IsSound :
      (sup : TaskSupervisor St) (now : Instant) (task : TaskId) (operation_id : OperationId)
      (supplied : CapabilityRequest) (r : TaskRecord) (approved : ApprovedOperation)
      → IsSound S sup
      → get task sup.tasks ≡ some r
      → r.state ≡ running
      → Leaves (IsSound S) (consume S sup now task operation_id supplied r approved)
  unfolding consume
  consume-IsSound sup now task operation_id supplied r approved s f runs =
      elim (Bool-cases
        (not (nat_beq approved.task_id task) || not (approved.request == supplied))) [
          | inl other ↦ rw other s
          | inr same ↦ rw same (cases (decide_request r.spec supplied))
        ]
    where
      authorized :
          (a : Result ApprovalError ApprovalReceipt)
          → Leaves (IsSound S) (elim a [
            | err e ↦ fails (approval_error e) sup
            | ok receipt ↦
                append S sup task
                  (approval_consumed approved.grant.approval_id operation_id ∷ [])
                  λ sup'. returns receipt sup'
          ])
      authorized (err e) = s
      authorized (ok receipt) =
          append-Leaves (IsSound S) S sup task
            (approval_consumed approved.grant.approval_id operation_id ∷ [])
            (λ sup'. returns receipt sup') (λ x store h. aborted-IsSound S sup store task _ x h s)
            (λ events store h.
              noted-IsSound sup task r _ events store s f
                (running_scan r.state _ (inr (inr (_, _, refl))) runs) h)

      cases :
          (d : Result SupervisorError PolicyDecision)
          → Leaves (IsSound S) (elim d [
            | err e ↦ fails e sup
            | ok approval_required ↦
                elim (authorize approved.grant now task operation_id (action supplied)) [
                  | err e ↦ fails (approval_error e) sup
                  | ok receipt ↦
                      append S sup task
                        (approval_consumed approved.grant.approval_id operation_id ∷ [])
                        λ sup'. returns receipt sup'
                ]
            | ok _ ↦ fails (approval_error scope_mismatch) sup
          ])
      cases (err e) = s
      cases (ok allowed) = s
      cases (ok (denied reason)) = s
      cases (ok approval_required) =
          authorized (authorize approved.grant now task operation_id (action supplied))

  pub authorize_operation-IsSound :
      (sup : TaskSupervisor St) (now : Instant) (task : TaskId) (operation_id : OperationId)
      (supplied : CapabilityRequest)
      → IsSound S sup
      → Leaves (IsSound S) (authorize_operation S sup now task operation_id supplied)
  unfolding authorize_operation
  authorize_operation-IsSound sup now task operation_id supplied s =
      found-Leaves (IsSound S) sup (get task sup.tasks) task_not_found _ s λ r f.
        elim (Bool-cases (r.state == running)) [
          | inr idle ↦ rw idle s
          | inl runs ↦
              let e : r.state ≡ running = ground arith in
              rw runs (
                found-Leaves (IsSound S) sup (get operation_id sup.approved_operations)
                  (approval_error not_found) _ s
                  λ approved _.
                    consume-IsSound
                      (record sup {
                        approved_operations = remove operation_id sup.approved_operations;
                      })
                      now task operation_id supplied r approved (taken-IsSound sup operation_id s) f
                      e)
        ]
