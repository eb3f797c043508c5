-- ===== src/Runtime/Supervisor/Audit/Transitions.antt =====
-- `apply_transition_with_failure` and the methods that end in it keep the supervisor sound.
use mathlib.Core.List.{append_assoc}
use ai_os.Prelude.{
  ◌≡◌, refl, sym, ap, ◌∙◌, subst, inl, inr, Bool, true, false, List, [], ◌∷◌, ◌++◌, Option, none,
  some, arith, nat_beq, nat_beq_iff, nat_ord, if◌then◌else◌, All, All-get, All-insert, All-retain,
  All-remove, BTreeMap, keys_where, get, insert, ok, fails, Leaves, Bool-cases, Option-cases,
}
use ai_os.Core.State.{TaskState, failed, is_terminal, can_transition_to}
use ai_os.Core.Error.{ErrorCode}
use ai_os.Runtime.Event.{
  TaskId, ApprovalId, OperationId, TaskEventKind, EventStore, state_transitioned, EventStoreError,
}
use ai_os.Storage.Recovery.{scan_kind}
use ai_os.Runtime.Supervisor.{
  TaskRecord, TaskSupervisor, PendingOperation, ApprovedOperation, state_in, pending_of,
  approved_of, revocation_events, failure_events, drop_pending, drop_all, invalidate_approvals,
  set_task, write_state, transition_events, apply_transition_with_failure,
}
use ai_os.Runtime.Supervisor.Audit.Log.{IsLogged, commit, aborted, settled, scan_kinds, scan_then}
use ai_os.Runtime.Supervisor.Audit.Views.{
  View, opened, Moves, state_in-get, state_in-none, state_in-insert, state_in-recovered,
  opened_step, opened_live, parked, parked_live, All-Moves, append-Leaves,
}
use ai_os.Runtime.Supervisor.Audit.Pending.{HasDistinctTasks, HasDistinctTasks-remove}
use ai_os.Runtime.Supervisor.Audit.Sound.{IsStorable, PendingParked, ApprovedOpen, IsSound}

-- The revocations of a live task are accepted by the recovery.
pending_of-scan :
    (view : View) (task : TaskId) (s : TaskState) (m : BTreeMap ApprovalId PendingOperation)
    → view task ≡ some s
    → is_terminal s ≡ false
    → PendingParked view m
    → scan_kinds (settled (some s)) (pending_of task m) ≡ ok (settled (some s))
unfolding scan_kinds scan_kind
pending_of-scan view task s [] v t h = refl
pending_of-scan view task s ((k, p) ∷ m) v t h =
    let ih = pending_of-scan view task s m v t h.1 in
    elim (Bool-cases (nat_beq p.task_id task)) [
      | inl same ↦
          let e = (nat_beq_iff p.task_id task).0 same in
          let o : parked (some s) ≡ true =
            subst (λ (x : Option TaskState). parked x ≡ true) (ap view e ∙ v) h.0 in
          ground (arith, ih, parked_live s o t)
      | inr other ↦ ground (arith, ih)
    ]

approved_of-scan :
    (view : View) (task : TaskId) (s : TaskState) (m : BTreeMap OperationId ApprovedOperation)
    → view task ≡ some s
    → is_terminal s ≡ false
    → ApprovedOpen view m
    → scan_kinds (settled (some s)) (approved_of task m) ≡ ok (settled (some s))
unfolding scan_kinds scan_kind
approved_of-scan view task s [] v t h = refl
approved_of-scan view task s ((k, p) ∷ m) v t h =
    let ih = approved_of-scan view task s m v t h.1 in
    elim (Bool-cases (nat_beq p.task_id task)) [
      | inl same ↦
          let e = (nat_beq_iff p.task_id task).0 same in
          let o : opened (some s) ≡ true =
            subst (λ (x : Option TaskState). opened x ≡ true) (ap view e ∙ v) h.0 in
          ground (arith, ih, opened_live s o t)
      | inr other ↦ ground (arith, ih)
    ]

-- A failure code is recorded only with a transition to `failed`.
abbrev pub Explains : Option ErrorCode → TaskState → Type 0
Explains none next = Unit {0}
Explains (some code) next = next ≡ failed

-- The step leaves no task running while an approval is pending.
abbrev pub Parks : TaskState → TaskState → Type 0
Parks current next =
    can_transition_to current next ≡ true → parked (some current) ≡ true → parked (some next) ≡ true

end_scan :
    (s next : TaskState) (failure : Option ErrorCode)
    → can_transition_to s next ≡ true
    → Explains failure next
    → scan_kinds (settled (some s)) (failure_events failure ++ state_transitioned s next ∷ [])
      ≡ ok (settled (some next))
unfolding scan_kinds scan_kind can_transition_to
end_scan s next none c x = ground arith
end_scan s next (some code) c x = ground arith

pub live_of_step : (s next : TaskState) → can_transition_to s next ≡ true → is_terminal s ≡ false
unfolding can_transition_to
live_of_step s next c = ground arith

can_step :
    (s current next : TaskState)
    → can_transition_to current next ≡ true
    → some s ≡ some current
    → can_transition_to s next ≡ true
can_step s current next c e = ground arith

IsStorable-step :
    (r : TaskRecord) (next : TaskState)
    → IsStorable r
    → can_transition_to r.state next ≡ true
    → IsStorable (record r { state = next })
unfolding can_transition_to
IsStorable-step r next (inl e) c = ground arith
IsStorable-step r next (inr v) c = inr v

module _ {St : Type 0} (S : EventStore St) where
  -- What is left of soundness when the log is ahead of the tables by one transition of `task`.
  pub record IsAhead (sup : TaskSupervisor St) (task : TaskId) (next : TaskState) : Type 0 where
    pub logged :
        (view' : View)
        → Moves (state_in sup.tasks sup.recovered_tasks) view' task next
        → IsLogged S sup.event_store view'
    pub pending_parked :
        (view' : View)
        → Moves (state_in sup.tasks sup.recovered_tasks) view' task next
        → PendingParked view' sup.pending_operations
    pub alone : HasDistinctTasks sup.pending_operations
    pub approved_open :
        ApprovedOpen (state_in sup.tasks sup.recovered_tasks) sup.approved_operations
    pub valid : All (λ e. IsStorable e.1) sup.tasks
    pub current : TaskState
    pub here : state_in sup.tasks sup.recovered_tasks task ≡ some current
    pub step : can_transition_to current next ≡ true

  drop_all-IsAhead :
      (ids : List ApprovalId) (sup : TaskSupervisor St) (task : TaskId) (next : TaskState)
      → IsAhead sup task next
      → IsAhead (drop_all ids sup) task next
  unfolding drop_all
  drop_all-IsAhead [] sup task next a = a
  drop_all-IsAhead (id ∷ ids) sup task next a =
      drop_all-IsAhead ids (drop_pending id sup) task next (record {
        logged = a.logged;
        pending_parked =
            λ view' moves. All-remove _ id sup.pending_operations (a.pending_parked view' moves);
        alone = HasDistinctTasks-remove id sup.pending_operations a.alone;
        approved_open = a.approved_open;
        valid = a.valid;
        current = a.current;
        here = a.here;
        step = a.step;
      })

  invalidate-IsAhead :
      (sup : TaskSupervisor St) (task : TaskId) (next : TaskState)
      → IsAhead sup task next
      → IsAhead (invalidate_approvals sup task) task next
  unfolding invalidate_approvals
  invalidate-IsAhead sup task next a =
      let ids =
        keys_where (λ (operation : PendingOperation). nat_beq operation.task_id task)
          sup.pending_operations in
      let b = drop_all-IsAhead ids sup task next a in
      record {
        logged = b.logged;
        pending_parked = b.pending_parked;
        alone = b.alone;
        approved_open = All-retain _ _ (drop_all ids sup).approved_operations b.approved_open;
        valid = b.valid;
        current = b.current;
        here = b.here;
        step = b.step;
      }

  -- The view has caught up with the log.
  caught_up :
      (sup : TaskSupervisor St) (task : TaskId) (next : TaskState)
      (tasks : BTreeMap TaskId TaskRecord) (recovered : BTreeMap TaskId TaskState)
      → IsAhead sup task next
      → Moves (state_in sup.tasks sup.recovered_tasks) (state_in tasks recovered) task next
      → All (λ e. IsStorable e.1) tasks
      → IsSound S (record sup { tasks = tasks; recovered_tasks = recovered })
  caught_up sup task next tasks recovered a moves valid =
      let view = state_in sup.tasks sup.recovered_tasks in
      let monotone : opened (view task) ≡ true → opened (some next) ≡ true =
        λ o. opened_step a.current next a.step (rw a.here at o) in
      record {
        logged = a.logged (state_in tasks recovered) moves;
        pending_parked = a.pending_parked (state_in tasks recovered) moves;
        alone = a.alone;
        approved_open =
            All-Moves opened (λ e. e.1.task_id) view (state_in tasks recovered) task next
              sup.approved_operations moves monotone a.approved_open;
        valid = valid;
      }

  pub set_task-IsSound :
      (sup : TaskSupervisor St) (task : TaskId) (r : TaskRecord) (next : TaskState)
      → IsAhead sup task next
      → get task sup.tasks ≡ some r
      → IsSound S (set_task task r next sup)
  set_task-IsSound sup task r next a e =
      let r' : TaskRecord = record r { state = next } in
      let same : some r.state ≡ some a.current =
        sym (state_in-get sup.tasks sup.recovered_tasks task r e) ∙ a.here in
      let (_, storable) = All-get (λ e. IsStorable e.1) task r sup.tasks a.valid e in
      caught_up sup task next (insert task r' sup.tasks) sup.recovered_tasks a
        (state_in-insert sup.tasks sup.recovered_tasks task r')
        (All-insert (λ e. IsStorable e.1) task r' sup.tasks
          (IsStorable-step r next storable (can_step r.state a.current next a.step same)) a.valid)

  write_state-IsSound :
      (sup : TaskSupervisor St) (task : TaskId) (next : TaskState)
      → IsAhead sup task next
      → Leaves (IsSound S) (write_state sup task next)
  unfolding write_state
  write_state-IsSound sup task next a = elim (Option-cases (get task sup.tasks)) [
    | inl missing ↦ elim (Option-cases (get task sup.recovered_tasks)) [
      | inl gone ↦
          absurd
            (ground (arith, a.here, state_in-none sup.tasks sup.recovered_tasks task missing gone))
      | inr (s, e) ↦
          rw (missing, e, write_state)
            (caught_up sup task next sup.tasks (insert task next sup.recovered_tasks) a
              (state_in-recovered sup.tasks sup.recovered_tasks task next missing) a.valid)
    ]
    | inr (r, e) ↦ rw (e, write_state) (set_task-IsSound sup task r next a e)
  ]

  pub aborted-IsSound :
      (sup : TaskSupervisor St) (store : St) (task : TaskId) (kinds : List TaskEventKind)
      (x : EventStoreError)
      → S.append_batch sup.event_store task kinds ≡ fails x store
      → IsSound S sup
      → IsSound S (record sup { event_store = store })
  aborted-IsSound sup store task kinds x h s = record {
    logged = aborted S sup.event_store store _ task kinds x h s.logged;
    pending_parked = s.pending_parked;
    alone = s.alone;
    approved_open = s.approved_open;
    valid = s.valid;
  }

  events_accepted :
      (sup : TaskSupervisor St) (task : TaskId) (current next : TaskState)
      (failure : Option ErrorCode)
      → IsSound S sup
      → state_in sup.tasks sup.recovered_tasks task ≡ some current
      → can_transition_to current next ≡ true
      → Explains failure next
      → scan_kinds
          (settled (state_in sup.tasks sup.recovered_tasks task))
          (transition_events S sup task current next failure)
        ≡ ok (settled (some next))
  unfolding revocation_events
  events_accepted sup task current next failure s e c x =
      let view = state_in sup.tasks sup.recovered_tasks in
      let live = live_of_step current next c in
      let p = pending_of-scan view task current sup.pending_operations e live s.pending_parked in
      let q = approved_of-scan view task current sup.approved_operations e live s.approved_open in
      let end = end_scan current next failure c x in
      rw e (elim (Bool-cases (is_terminal next)) [
        | inl terminal ↦
            let at = settled (some current) in
            let all =
              pending_of task sup.pending_operations ++ approved_of task sup.approved_operations in
            let last = state_transitioned current next ∷ [] in
            rw terminal (
              ap (scan_kinds at) (append_assoc all (failure_events failure) last)
              ∙ scan_then at at _ all (failure_events failure ++ last)
                  (scan_then at at _ (pending_of task sup.pending_operations)
                    (approved_of task sup.approved_operations) p q)
                  end)
        | inr other ↦ rw other end
      ])

  pub apply_transition-IsSound :
      (sup : TaskSupervisor St) (task : TaskId) (current next : TaskState)
      (failure : Option ErrorCode)
      → IsSound S sup
      → state_in sup.tasks sup.recovered_tasks task ≡ some current
      → can_transition_to current next ≡ true
      → Explains failure next
      → Parks current next
      → Leaves (IsSound S) (apply_transition_with_failure S sup task current next failure)
  unfolding apply_transition_with_failure
  apply_transition-IsSound sup task current next failure s e c x keep =
      append-Leaves (IsSound S) S sup task (transition_events S sup task current next failure)
        (λ sup'.
          write_state (if is_terminal next then invalidate_approvals sup' task else sup') task next)
        (λ x' store h. aborted-IsSound sup store task _ x' h s)
        (λ events store h.
          let sup' = record sup { event_store = store } in
          let a : IsAhead sup' task next = record {
            logged = λ view' moves.
                commit S sup.event_store store (state_in sup.tasks sup.recovered_tasks) view' task
                  (transition_events S sup task current next failure) events (some next) h
                  (events_accepted sup task current next failure s e c x) moves s.logged;
            pending_parked = λ view' moves.
                All-Moves parked (λ e. e.1.task_id) (state_in sup.tasks sup.recovered_tasks) view'
                  task next sup.pending_operations moves (λ o. keep c (rw e at o)) s.pending_parked;
            alone = s.alone;
            approved_open = s.approved_open;
            valid = s.valid;
            current = current;
            here = e;
            step = c;
          } in
          write_state-IsSound (if is_terminal next then invalidate_approvals sup' task else sup')
            task next (prepared (is_terminal next) sup' a))
    where
      prepared :
          (b : Bool) (sup' : TaskSupervisor St)
          → IsAhead sup' task next
          → IsAhead (if b then invalidate_approvals sup' task else sup') task next
      prepared true sup' a = invalidate-IsAhead sup' task next a
      prepared false sup' a = a
