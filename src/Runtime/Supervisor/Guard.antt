-- ===== src/Runtime/Supervisor/Guard.antt =====
-- What a successful `authorize_operation` of crates/aios-runtime/src/supervisor.rs has checked, and
-- what `start` does to a task that waits for an approval.
use ai_os.Prelude.{
  ◌<◌, ◌≡◌, refl, inl, inr, not, ◌||◌, ◌==◌, List, [], ◌∷◌, Option, none, some, arith, nat_beq,
  nat_beq_iff, nat_ord, get, insert, remove, get-insert, get-remove, Result, ok, err, returns,
  fails, Bool-cases, Outcome-cases,
}
use ai_os.Core.State.{running, waiting_approval, task_state_eq, transition_to, can_transition_to}
use ai_os.Core.Policy.{CapabilityRequest, PolicyDecision, allowed, denied, approval_required}
use ai_os.Runtime.Event.{
  TaskId, OperationId, TaskEvent, TaskEventKind, EventStore, approval_consumed, state_transitioned,
}
use ai_os.Runtime.Approval.{
  Instant, ApprovalReceipt, ApprovalError, not_found, scope_mismatch, authorize,
}
use ai_os.Runtime.Approval.Grants.{authorize_iff}
use ai_os.Runtime.Supervisor.{
  TaskRecord, TaskSupervisor, SupervisorError, ApprovedOperation, Answer, action, found, propose,
  append, task_not_found, approval_error, task_state, apply_transition_with_failure, transition,
  write_state, set_task,
}
use ai_os.Runtime.Supervisor.Tasks.{start}
use ai_os.Runtime.Supervisor.Audit.Views.{state_in-get}
use ai_os.Runtime.Supervisor.Operations.{decide_request, consume, authorize_operation, request_eq}

resumes : transition_to waiting_approval running ≡ ok running
unfolding transition_to can_transition_to
resumes = refl

module _ {St A : Type 0} where
  found-eq-returns :
      {B : Type 0} (sup sup' : TaskSupervisor St) (o : Option B) (e : SupervisorError)
      (k : B → Answer St A) (a : A)
      → found sup o e k ≡ returns a sup'
      → (b : B) × (o ≡ some b) × (k b ≡ returns a sup')
  found-eq-returns sup sup' none e k a h = absurd (cc h)
  found-eq-returns sup sup' (some b) e k a h = (b, refl, h)

  pub append-eq-returns :
      (S : EventStore St) (sup sup' : TaskSupervisor St) (task : TaskId)
      (kinds : List TaskEventKind) (k : TaskSupervisor St → Answer St A) (a : A)
      → append S sup task kinds k ≡ returns a sup'
      → (events : List TaskEvent) × (store : St) × (S.append_batch sup.event_store task kinds
          ≡ returns events store)
        × (k (record sup { event_store = store }) ≡ returns a sup')
  append-eq-returns S sup sup' task kinds k a h =
      elim (Outcome-cases (S.append_batch sup.event_store task kinds)) [
        | inl (events, store, e) ↦ (events, store, e, rw (e, append) at h)
        | inr (x, store, e) ↦ absurd (cc (rw (e, append) at h))
      ]

module _ {St : Type 0} (S : EventStore St) where
  -- What was logged, and the supervisor that is left.
  abbrev Consumed :
      TaskSupervisor St → TaskId → ApprovedOperation → OperationId → TaskSupervisor St → Type 0
  Consumed sup task approved operation sup' =
      (events : List TaskEvent) × (store : St) × (S.append_batch sup.event_store task
          (approval_consumed approved.grant.approval_id operation ∷ [])
        ≡ returns events store)
      × (sup' ≡ record sup { event_store = store })

  receipt-eq-returns :
      (sup sup' : TaskSupervisor St) (task : TaskId) (operation : OperationId)
      (approved : ApprovedOperation) (receipt : ApprovalReceipt)
      (a : Result ApprovalError ApprovalReceipt)
      → elim a [
        | err e ↦ fails (approval_error e) sup
        | ok receipt' ↦
            append S sup task
              (approval_consumed approved.grant.approval_id operation ∷ [])
              λ sup''. returns receipt' sup''
      ]
        ≡ returns receipt sup'
      → (a ≡ ok receipt) × Consumed sup task approved operation sup'
  receipt-eq-returns sup sup' task operation approved receipt (err e) h = absurd (cc h)
  receipt-eq-returns sup sup' task operation approved receipt (ok receipt') h =
      let (events, store, e, f) =
        append-eq-returns S sup sup' task
          (approval_consumed approved.grant.approval_id operation ∷ [])
          (λ sup''. returns receipt' sup'') receipt h in
      (cc f, (events, store, e, cc f))

  consume-eq-returns :
      (sup : TaskSupervisor St) (now : Instant) (task : TaskId) (operation : OperationId)
      (supplied : CapabilityRequest) (r : TaskRecord) (approved : ApprovedOperation)
      (receipt : ApprovalReceipt) (sup' : TaskSupervisor St)
      → consume S sup now task operation supplied r approved ≡ returns receipt sup'
      → (approved.task_id ≡ task)
        × (approved.request ≡ supplied)
        × (decide_request r.spec supplied ≡ ok approval_required)
        × (authorize approved.grant now task operation (action supplied) ≡ ok receipt)
        × Consumed sup task approved operation sup'
  unfolding consume
  consume-eq-returns sup now task operation supplied r approved receipt sup' h =
      elim (Bool-cases
        (not (nat_beq approved.task_id task) || not (approved.request == supplied))) [
          | inl other ↦ absurd (cc (rw (other, consume) at h))
          | inr same ↦
              let same_task : approved.task_id ≡ task =
                ground (arith, nat_beq_iff approved.task_id task) in
              let same_request : approved.request ≡ supplied =
                ground (arith, request_eq.beq_iff approved.request supplied) in
              let (d, a, consumed) =
                cases (decide_request r.spec supplied) (rw (same, consume) at h) in
              (same_task, same_request, d, a, consumed)
        ]
    where
      cases :
          (d : Result SupervisorError PolicyDecision)
          → elim d [
            | err e ↦ fails e sup
            | ok approval_required ↦
                elim (authorize approved.grant now task operation (action supplied)) [
                  | err e ↦ fails (approval_error e) sup
                  | ok receipt' ↦
                      append S sup task
                        (approval_consumed approved.grant.approval_id operation ∷ [])
                        λ sup''. returns receipt' sup''
                ]
            | ok _ ↦ fails (approval_error scope_mismatch) sup
          ]
            ≡ returns receipt sup'
          → (d ≡ ok approval_required)
            × (authorize approved.grant now task operation (action supplied) ≡ ok receipt)
            × Consumed sup task approved operation sup'
      cases (err e) q = absurd (cc q)
      cases (ok allowed) q = absurd (cc q)
      cases (ok (denied reason)) q = absurd (cc q)
      cases (ok approval_required) q =
          let (a, consumed) = receipt-eq-returns sup sup' task operation approved receipt _ q in
          (refl, a, consumed)

  -- A successful authorization found its task running, took out of the table an operation that was
  -- approved for this task and exactly this request, found that the policy of the task asks for an
  -- approval of the request and that the deadline of the grant had not come, and logged that the
  -- approval is consumed. Nothing else of the supervisor changed.
  pub authorize_operation-eq-returns :
      (sup sup' : TaskSupervisor St) (now : Instant) (task : TaskId) (operation : OperationId)
      (supplied : CapabilityRequest) (receipt : ApprovalReceipt)
      → authorize_operation S sup now task operation supplied ≡ returns receipt sup'
      → (r : TaskRecord) × (approved : ApprovedOperation) × (get task sup.tasks ≡ some r)
        × (r.state ≡ running)
        × (get operation sup.approved_operations ≡ some approved)
        × (approved.task_id ≡ task)
        × (approved.request ≡ supplied)
        × (decide_request r.spec supplied ≡ ok approval_required)
        × (now < approved.grant.deadline)
        × ((events : List TaskEvent) × (store : St) × (S.append_batch sup.event_store task
                (approval_consumed approved.grant.approval_id operation ∷ [])
              ≡ returns events store)
            × (sup' ≡ record sup {
              event_store = store;
              approved_operations = remove operation sup.approved_operations;
            }))
  unfolding authorize_operation
  authorize_operation-eq-returns sup sup' now task operation supplied receipt h =
      let (r, e, h1) = found-eq-returns sup sup' (get task sup.tasks) task_not_found _ receipt h in
      elim (Bool-cases (r.state == running)) [
        | inr idle ↦ absurd (cc (rw idle at h1))
        | inl runs ↦
            let (approved, f, h2) =
              found-eq-returns sup sup' (get operation sup.approved_operations)
                (approval_error not_found) _ receipt (rw runs at h1) in
            let (a, b, c, d, logged) =
              consume-eq-returns _ now task operation supplied r approved receipt sup' h2 in
            (
              r,
              approved,
              e,
              ground arith,
              f,
              a,
              b,
              c,
              ((authorize_iff approved.grant now task operation (action supplied) receipt).0 d).0,
              logged,
            )
      ]

  -- An approval is good for one authorization: after a successful one, the operation is refused as
  -- not found, for any request and at any time, as long as the supervisor is as it was left.
  pub authorize_operation_once :
      (sup sup' : TaskSupervisor St) (now later : Instant) (task : TaskId) (operation : OperationId)
      (supplied other : CapabilityRequest) (receipt : ApprovalReceipt)
      → authorize_operation S sup now task operation supplied ≡ returns receipt sup'
      → authorize_operation S sup' later task operation other
        ≡ fails (approval_error not_found) sup'
  unfolding authorize_operation
  authorize_operation_once sup sup' now later task operation supplied other receipt h =
      let (r, approved, e, runs, _, _, _, _, _, (events, store, _, left)) =
        authorize_operation-eq-returns sup sup' now task operation supplied receipt h in
      let here : get task sup'.tasks ≡ some r = ground (arith, left) in
      let gone : get operation sup'.approved_operations ≡ none =
        ground (arith, left, get-remove operation operation sup.approved_operations) in
      ground (arith, here, gone, runs)

  transition_waiting :
      (sup : TaskSupervisor St) (task : TaskId) (r : TaskRecord) (events : List TaskEvent)
      (store : St)
      → get task sup.tasks ≡ some r
      → r.state ≡ waiting_approval
      → S.append_batch sup.event_store task (state_transitioned waiting_approval running ∷ [])
        ≡ returns events store
      → transition S sup task running
        ≡ returns tt (set_task task r running (record sup { event_store = store }))
  unfolding transition task_state apply_transition_with_failure write_state
  transition_waiting sup task r events store e w h =
      let here = state_in-get sup.tasks sup.recovered_tasks task r e in
      rw (here, transition)
        (rw w (rw (resumes, propose) (rw (h, append) (rw (e, write_state) refl))))

  -- `start` does not ask whether the task is queued. A task that waits for an approval starts to run
  -- when the log takes the event: no approval is granted, its operation stays pending, and its clock
  -- starts again.
  pub start_waiting :
      (sup : TaskSupervisor St) (now : Instant) (task : TaskId) (r : TaskRecord)
      (events : List TaskEvent) (store : St)
      → get task sup.tasks ≡ some r
      → r.state ≡ waiting_approval
      → S.append_batch sup.event_store task (state_transitioned waiting_approval running ∷ [])
        ≡ returns events store
      → (sup' : TaskSupervisor St) × (start S sup now task ≡ returns tt sup')
        × (get task sup'.tasks ≡ some (record r { state = running; started_at = some now }))
        × (sup'.pending_operations ≡ sup.pending_operations)
        × (sup'.approval_authority ≡ sup.approval_authority)
  unfolding start
  start_waiting sup now task r events store e w h =
      let r' : TaskRecord = record r { state = running } in
      let there : get task (insert task r' sup.tasks) ≡ some r' =
        ground (arith, get-insert task task r' sup.tasks) in
      let again : get task
            (insert task (record r' { started_at = some now }) (insert task r' sup.tasks))
          ≡ some (record r' { started_at = some now }) =
        ground (
          arith,
          get-insert task task (record r' { started_at = some now }) (insert task r' sup.tasks),
        ) in
      (
        record sup {
          event_store = store;
          tasks = insert task (record r' { started_at = some now }) (insert task r' sup.tasks);
        },
        rw (transition_waiting sup task r events store e w h, start, there) refl,
        again,
        refl,
        refl,
      )
