-- ===== src/Runtime/Supervisor/Audit/Approvals.antt =====
-- `approve_operation` and `deny_operation` keep the supervisor sound, on success and on failure.
use ai_os.Prelude.{
  ◌≡◌, refl, inl, inr, true, List, [], ◌∷◌, some, arith, nat_beq_iff, nat_ord, All-insert,
  All-remove, BTreeMap, get, insert, remove, returns, Leaves, Bool-cases, Outcome-cases,
}
use ai_os.Core.State.{TaskState, running, failed, can_transition_to}
use ai_os.Runtime.Event.{
  TaskId, ApprovalId, TaskEvent, EventStore, state_transitioned, approval_granted, approval_denied,
}
use ai_os.Runtime.Approval
use ai_os.Runtime.Approval.{
  Instant, Duration, ApprovalAuthority, ApprovalRequest, ApprovalGrant, ApprovalError, not_found,
  duplicate_operation, revoke, restore, expired_ids,
}
use ai_os.Runtime.Supervisor.{
  TaskRecord, TaskSupervisor, PendingOperation, state_in, drop_pending, task_not_found,
  approval_error,
}
use ai_os.Runtime.Supervisor.Operations.{
  write_task, approve_live, approve_operation, deny_live, deny_operation,
}
use ai_os.Runtime.Supervisor.Audit.Log.{commit}
use ai_os.Runtime.Supervisor.Audit.Views.{
  View, Moves, state_in-get, found-Leaves, propose-Leaves, append-Leaves,
}
use ai_os.Runtime.Supervisor.Audit.Pending.{HasDistinctTasks-remove, Without, Without-remove}
use ai_os.Runtime.Supervisor.Audit.Sound.{PendingParked, IsSound}
use ai_os.Runtime.Supervisor.Audit.Transitions.{IsAhead, aborted-IsSound}
use ai_os.Runtime.Supervisor.Audit.Expiry.{
  pair_scan, denied-Precedes, granted-Precedes, write_task-IsSound, waits, failed_operation,
  after_expiry-IsSound, with_authority,
}

-- The entries of the other tasks stay as they were.
pub parked_apart :
    (view view' : View) (task : TaskId) (next : TaskState)
    (m : BTreeMap ApprovalId PendingOperation)
    → Moves view view' task next
    → Without task m
    → PendingParked view m
    → PendingParked view' m
parked_apart view view' task next [] moves w h = tt
parked_apart view view' task next ((k, p) ∷ m) moves w h =
    let ih = parked_apart view view' task next m moves w.1 h.1 in
    ground (arith, ih, moves p.task_id, nat_beq_iff task p.task_id, nat_beq_iff p.task_id task)

module _ {St : Type 0} (S : EventStore St) where
  deny_live-IsSound :
      (sup : TaskSupervisor St) (id : ApprovalId)
      → IsSound S sup
      → Leaves (IsSound S) (deny_live S sup id)
  unfolding deny_live
  deny_live-IsSound sup id s =
      found-Leaves (IsSound S) sup (get id sup.pending_operations) (approval_error not_found) _ s
        λ p e. elim (Bool-cases (Approval.contains sup.approval_authority id)) [
          | inr gone ↦ rw gone s
          | inl held ↦ rw held (
              found-Leaves (IsSound S) sup (get p.task_id sup.tasks) task_not_found _ s λ r f.
                propose-Leaves (IsSound S) sup r.state failed _ s λ c.
                  append-Leaves (IsSound S) S sup p.task_id
                    (approval_denied id p.operation_id ∷ state_transitioned r.state failed ∷ [])
                    (λ sup'.
                      write_task (drop_pending id sup') p.task_id failed
                        λ sup''. returns (record { task_id = p.task_id; state = failed }) sup'')
                    (λ x store h. aborted-IsSound S sup store p.task_id _ x h s)
                    (λ events store h.
                      failed_operation S sup id p r (approval_denied id p.operation_id) _ events
                        store s e f c
                        (denied-Precedes r.state id p.operation_id
                          (waits S sup id p r failed s e f c))
                        h))
        ]

  pub deny_operation-IsSound :
      (sup : TaskSupervisor St) (now : Instant) (id : ApprovalId)
      → IsSound S sup
      → Leaves (IsSound S) (deny_operation S sup now id)
  unfolding deny_operation
  deny_operation-IsSound sup now id s =
      after_expiry-IsSound S sup now (λ sup'. deny_live S sup' id) s
        (λ sup' l. deny_live-IsSound sup' id l)

  -- The log holds the grant; the tables hold the approved operation.
  granted-IsAhead :
      (sup : TaskSupervisor St) (authority : ApprovalAuthority) (id : ApprovalId)
      (p : PendingOperation) (r : TaskRecord) (grant : ApprovalGrant) (events : List TaskEvent)
      (store : St)
      → IsSound S sup
      → get id sup.pending_operations ≡ some p
      → get p.task_id sup.tasks ≡ some r
      → can_transition_to r.state running ≡ true
      → S.append_batch sup.event_store p.task_id
          (approval_granted id p.operation_id ∷ state_transitioned r.state running ∷ [])
        ≡ returns events store
      → IsAhead S
          (record sup {
            event_store = store;
            approval_authority = authority;
            pending_operations = remove id sup.pending_operations;
            approved_operations =
                insert p.operation_id
                  (record { task_id = p.task_id; request = p.request; grant = grant })
                  sup.approved_operations;
          })
          p.task_id
          running
  granted-IsAhead sup authority id p r grant events store s e f c h =
      let waiting = waits S sup id p r running s e f c in
      let here = state_in-get sup.tasks sup.recovered_tasks p.task_id r f in
      let view : View = state_in sup.tasks sup.recovered_tasks in
      let before = granted-Precedes r.state id p.operation_id waiting in
      record {
        logged = λ view' moves.
            commit S sup.event_store store view view' p.task_id
              (approval_granted id p.operation_id ∷ state_transitioned r.state running ∷ []) events
              (some running) h (rw here (pair_scan _ r.state running before c)) moves s.logged;
        pending_parked = λ view' moves.
            parked_apart view view' p.task_id running (remove id sup.pending_operations) moves
              (Without-remove id p sup.pending_operations e s.alone)
              (All-remove _ id sup.pending_operations s.pending_parked);
        alone = HasDistinctTasks-remove id sup.pending_operations s.alone;
        approved_open =
            All-insert _ p.operation_id _ sup.approved_operations (rw (here, waiting) refl)
              s.approved_open;
        valid = s.valid;
        current = r.state;
        here = here;
        step = c;
      }

  approve_live-IsSound :
      (sup : TaskSupervisor St) (now : Instant) (id : ApprovalId)
      → IsSound S sup
      → Leaves (IsSound S) (approve_live S sup now id)
  unfolding approve_live
  approve_live-IsSound sup now id s =
      found-Leaves (IsSound S) sup (get id sup.pending_operations) (approval_error not_found) _ s
        λ p e. found-Leaves (IsSound S) sup (get p.task_id sup.tasks) task_not_found _ s λ r f.
          propose-Leaves (IsSound S) sup r.state running _ s λ c.
            elim (Outcome-cases (Approval.approve sup.approval_authority now id)) [
              | inr (x, authority, a) ↦ rw a (with_authority S sup authority s)
              | inl (grant, authority, a) ↦
                  rw a
                    (elim (Outcome-cases (
                      S.append_batch sup.event_store p.task_id (
                        approval_granted id p.operation_id
                        ∷ state_transitioned r.state running
                        ∷ []))) [
                          | inr (x, store, h) ↦ rw h (
                              with_authority S (record sup { event_store = store })
                                (restore grant authority)
                                (aborted-IsSound S sup store p.task_id _ x h s))
                          | inl (events, store, h) ↦ rw h (
                              write_task-IsSound S _ p.task_id running
                                (λ sup'.
                                  returns (record { task_id = p.task_id; state = running }) sup')
                                (granted-IsAhead sup authority id p r grant events store s e f c h)
                                (λ _ _ sound. sound) r f)
                        ])
            ]

  pub approve_operation-IsSound :
      (sup : TaskSupervisor St) (first now : Instant) (id : ApprovalId)
      → IsSound S sup
      → Leaves (IsSound S) (approve_operation S sup first now id)
  unfolding approve_operation
  approve_operation-IsSound sup first now id s =
      after_expiry-IsSound S sup first (λ sup'. approve_live S sup' now id) s
        (λ sup' l. approve_live-IsSound sup' now id l)
