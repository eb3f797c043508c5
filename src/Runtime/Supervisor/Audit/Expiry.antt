-- ===== src/Runtime/Supervisor/Audit/Expiry.antt =====
-- `expire_approvals` keeps the supervisor sound, on success and on failure, and what the methods
-- that start with it share.
use ai_os.Prelude.{
  ℕ, suc, ◌≡◌, refl, ◌⊎◌, inl, inr, Bool, true, List, [], ◌∷◌, some, arith, nat_ord, if◌then◌else◌,
  All-get, All-remove, get, ok, returns, fails, Leaves, Option-cases,
}
use ai_os.Core.State.{TaskState, running, waiting_approval, failed, can_transition_to}
use ai_os.Core.Policy.{DenialReason}
use ai_os.Runtime.Event.{
  TaskId, ApprovalId, OperationId, TaskEvent, TaskEventKind, EventStore, state_transitioned,
  operation_allowed, operation_denied, approval_requested, approval_granted, approval_denied,
  approval_expired, approval_consumed,
}
use ai_os.Storage.Recovery.{scan_kind}
use ai_os.Runtime.Approval.{Instant, ApprovalAuthority, expired_ids}
use ai_os.Runtime.Supervisor.{
  TaskRecord, TaskSupervisor, PendingOperation, Answer, state_in, found, set_task, drop_pending,
  task_not_found,
}
use ai_os.Runtime.Supervisor.Operations.{
  write_task, expire_one, expire_loop, expire_approvals, after_expiry,
}
use ai_os.Runtime.Supervisor.Audit.Log.{commit, settled, scan_kinds}
use ai_os.Runtime.Supervisor.Audit.Views.{
  parked, parked_live, state_in-get, All-Moves, found-Leaves, propose-Leaves, append-Leaves,
}
use ai_os.Runtime.Supervisor.Audit.Pending.{HasDistinctTasks-remove}
use ai_os.Runtime.Supervisor.Audit.Sound.{IsSound}
use ai_os.Runtime.Supervisor.Audit.Transitions.{
  IsAhead, set_task-IsSound, aborted-IsSound, live_of_step,
}

-- An event that the recovery accepts in a state, followed by the transition.
unfoldable pub Precedes : TaskEventKind → TaskState → Type 0
Precedes kind s = scan_kinds (settled (some s)) (kind ∷ []) ≡ ok (settled (some s))

pub pair_scan :
    (kind : TaskEventKind) (s next : TaskState)
    → Precedes kind s
    → can_transition_to s next ≡ true
    → scan_kinds (settled (some s)) (kind ∷ state_transitioned s next ∷ [])
      ≡ ok (settled (some next))
unfolding Precedes scan_kinds scan_kind can_transition_to
pair_scan kind s next p c = ground arith

expired-Precedes :
    (s : TaskState) (id operation : ℕ)
    → s ≡ waiting_approval
    → Precedes (approval_expired id operation) s
unfolding Precedes scan_kinds scan_kind
expired-Precedes s id operation e = ground arith

pub denied-Precedes :
    (s : TaskState) (id operation : ℕ)
    → s ≡ waiting_approval
    → Precedes (approval_denied id operation) s
unfolding Precedes scan_kinds scan_kind
denied-Precedes s id operation e = ground arith

pub granted-Precedes :
    (s : TaskState) (id operation : ℕ)
    → s ≡ waiting_approval
    → Precedes (approval_granted id operation) s
unfolding Precedes scan_kinds scan_kind
granted-Precedes s id operation e = ground arith

-- Only a running task can begin to wait.
pub requested-Precedes :
    (s : TaskState) (id operation : ℕ)
    → can_transition_to s waiting_approval ≡ true
    → Precedes (approval_requested id operation) s
unfolding Precedes scan_kinds scan_kind can_transition_to
requested-Precedes s id operation c = ground arith

-- An event of a running task on its own.
pub running_scan :
    (s : TaskState) (kind : TaskEventKind)
    → (kind ≡ operation_allowed)
      ⊎ ((reason : DenialReason) × (kind ≡ operation_denied reason))
      ⊎ ((id : ApprovalId) × (operation : OperationId) × (kind ≡ approval_consumed id operation))
    → s ≡ running
    → Precedes kind s
unfolding Precedes scan_kinds scan_kind
running_scan s kind k e = ground arith

module _ {St : Type 0} (S : EventStore St) where
  -- The log took an event and the transition of a stored task.
  pub ahead :
      (sup : TaskSupervisor St) (task : TaskId) (r : TaskRecord) (next : TaskState)
      (kind : TaskEventKind) (events : List TaskEvent) (store : St)
      → IsSound S sup
      → get task sup.tasks ≡ some r
      → can_transition_to r.state next ≡ true
      → Precedes kind r.state
      → (parked (some r.state) ≡ true → parked (some next) ≡ true)
      → S.append_batch sup.event_store task (kind ∷ state_transitioned r.state next ∷ [])
        ≡ returns events store
      → IsAhead S (record sup { event_store = store }) task next
  ahead sup task r next kind events store s e c p keep h =
      let here = state_in-get sup.tasks sup.recovered_tasks task r e in
      record {
        logged = λ view' moves.
            commit S sup.event_store store (state_in sup.tasks sup.recovered_tasks) view' task
              (kind ∷ state_transitioned r.state next ∷ []) events (some next) h
              (rw here (pair_scan kind r.state next p c)) moves s.logged;
        pending_parked = λ view' moves.
            All-Moves parked (λ e. e.1.task_id) (state_in sup.tasks sup.recovered_tasks) view' task
              next sup.pending_operations moves (λ o. keep (rw here at o)) s.pending_parked;
        alone = s.alone;
        approved_open = s.approved_open;
        valid = s.valid;
        current = r.state;
        here = here;
        step = c;
      }

  -- The end of an expiry and of a denial: the entry goes, and its task has failed.
  dropped-IsAhead :
      (sup : TaskSupervisor St) (id : ApprovalId) (task : TaskId) (next : TaskState)
      → IsAhead S sup task next
      → IsAhead S (drop_pending id sup) task next
  dropped-IsAhead sup id task next a = record {
    logged = a.logged;
    pending_parked =
        λ view' moves. All-remove _ id sup.pending_operations (a.pending_parked view' moves);
    alone = HasDistinctTasks-remove id sup.pending_operations a.alone;
    approved_open = a.approved_open;
    valid = a.valid;
    current = a.current;
    here = a.here;
    step = a.step;
  }

  pub write_task-IsSound :
      {A : Type 0} (sup : TaskSupervisor St) (task : TaskId) (next : TaskState)
      (k : TaskSupervisor St → Answer St A)
      → IsAhead S sup task next
      → ((r : TaskRecord)
          → get task sup.tasks ≡ some r
          → IsSound S (set_task task r next sup)
          → Leaves (IsSound S) (k (set_task task r next sup)))
      → (r : TaskRecord) → get task sup.tasks ≡ some r
      → Leaves (IsSound S) (write_task sup task next k)
  write_task-IsSound sup task next k a h r e =
      rw (e, write_task, found) (h r e (set_task-IsSound S sup task r next a e))

  -- A pending operation's task waits, unless it is over.
  pub waits :
      (sup : TaskSupervisor St) (id : ApprovalId) (p : PendingOperation) (r : TaskRecord)
      (next : TaskState)
      → IsSound S sup
      → get id sup.pending_operations ≡ some p
      → get p.task_id sup.tasks ≡ some r
      → can_transition_to r.state next ≡ true
      → r.state ≡ waiting_approval
  waits sup id p r next s e f c =
      let (_, o) =
        All-get (λ e. parked (state_in sup.tasks sup.recovered_tasks e.1.task_id) ≡ true) id p
          sup.pending_operations s.pending_parked e in
      parked_live r.state (rw (state_in-get sup.tasks sup.recovered_tasks p.task_id r f) at o)
        (live_of_step r.state next c)

  pub failed_operation :
      {A : Type 0} (sup : TaskSupervisor St) (id : ApprovalId) (p : PendingOperation)
      (r : TaskRecord) (kind : TaskEventKind) (answer : A) (events : List TaskEvent) (store : St)
      → IsSound S sup
      → get id sup.pending_operations ≡ some p
      → get p.task_id sup.tasks ≡ some r
      → can_transition_to r.state failed ≡ true
      → Precedes kind r.state
      → S.append_batch sup.event_store p.task_id (kind ∷ state_transitioned r.state failed ∷ [])
        ≡ returns events store
      → Leaves (IsSound S) (
          write_task {A = A}
            (drop_pending id (record sup { event_store = store }))
            p.task_id
            failed
            (λ sup'. returns answer sup'))
  failed_operation sup id p r kind answer events store s e f c before h =
      write_task-IsSound (drop_pending id (record sup { event_store = store })) p.task_id failed
        (λ sup'. returns answer sup')
        (dropped-IsAhead (record sup { event_store = store }) id p.task_id failed
          (ahead sup p.task_id r failed kind events store s f c before (λ _. refl) h))
        (λ _ _ sound. sound) r f

  expire_one-IsSound :
      (sup : TaskSupervisor St) (id : ApprovalId)
      → IsSound S sup
      → Leaves (IsSound S) (expire_one S sup id)
  unfolding expire_one
  expire_one-IsSound sup id s = elim (Option-cases (get id sup.pending_operations)) [
    | inl e ↦ rw (e, expire_one) s
    | inr (p, e) ↦
        rw (e, expire_one)
          (found-Leaves (IsSound S) sup (get p.task_id sup.tasks) task_not_found _ s λ r f.
            propose-Leaves (IsSound S) sup r.state failed _ s λ c.
              append-Leaves (IsSound S) S sup p.task_id
                (approval_expired id p.operation_id ∷ state_transitioned r.state failed ∷ [])
                (λ sup'.
                  write_task (drop_pending id sup') p.task_id failed (λ sup''. returns true sup''))
                (λ x store h. aborted-IsSound S sup store p.task_id _ x h s)
                (λ events store h.
                  failed_operation sup id p r (approval_expired id p.operation_id) true events store
                    s e f c
                    (expired-Precedes r.state id p.operation_id (waits sup id p r failed s e f c))
                    h))
  ]

  expire_loop-IsSound :
      (sup : TaskSupervisor St) (ids : List ApprovalId) (n : ℕ)
      → IsSound S sup
      → Leaves (IsSound S) (expire_loop S sup ids n)
  unfolding expire_loop
  expire_loop-IsSound sup [] n s = s
  expire_loop-IsSound sup (id ∷ ids) n s =
      cases (λ sup' m l. expire_loop-IsSound sup' ids m l) (expire_one S sup id)
        (expire_one-IsSound sup id s)
    where
      cases :
          ((sup' : TaskSupervisor St) (m : ℕ)
            → IsSound S sup'
            → Leaves (IsSound S) (expire_loop S sup' ids m))
          → (o : Answer St Bool) → Leaves (IsSound S) o
          → Leaves (IsSound S) (elim o [
            | fails e sup' ↦ fails e sup'
            | returns changed sup' ↦ expire_loop S sup' ids (if changed then suc n else n)
          ])
      cases rest (fails e sup') l = l
      cases rest (returns changed sup') l = rest sup' (if changed then suc n else n) l

  pub expire_approvals-IsSound :
      (sup : TaskSupervisor St) (now : Instant)
      → IsSound S sup
      → Leaves (IsSound S) (expire_approvals S sup now)
  unfolding expire_approvals
  expire_approvals-IsSound sup now s =
      expire_loop-IsSound sup (expired_ids sup.approval_authority now) 0 s

  pub after_expiry-IsSound :
      {A : Type 0} (sup : TaskSupervisor St) (now : Instant) (k : TaskSupervisor St → Answer St A)
      → IsSound S sup
      → ((sup' : TaskSupervisor St) → IsSound S sup' → Leaves (IsSound S) (k sup'))
      → Leaves (IsSound S) (after_expiry S sup now k)
  after_expiry-IsSound {A} sup now k s h =
      cases (expire_approvals S sup now) (expire_approvals-IsSound sup now s)
    where
      cases :
          (o : Answer St ℕ)
          → Leaves (IsSound S) o
          → Leaves {A = A}
              (IsSound S)
              (elim o [ fails e sup' ↦ fails e sup' | returns _ sup' ↦ k sup' ])
      cases (fails e sup') l = l
      cases (returns _ sup') l = h sup' l

  -- The authority is no part of the view.
  pub with_authority :
      (sup : TaskSupervisor St) (authority : ApprovalAuthority)
      → IsSound S sup
      → IsSound S (record sup { approval_authority = authority })
  with_authority sup authority s = record {
    logged = s.logged;
    pending_parked = s.pending_parked;
    alone = s.alone;
    approved_open = s.approved_open;
    valid = s.valid;
  }
