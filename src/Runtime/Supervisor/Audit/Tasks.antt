-- ===== src/Runtime/Supervisor/Audit/Tasks.antt =====
-- The methods of Runtime/Supervisor/Tasks keep the supervisor sound, on success and on failure.
use ai_os.Prelude.{
  ◌≡◌, ◌≢◌, refl, sym, ap, ◌∙◌, inl, inr, true, false, List, none, some, arith, nat_beq,
  nat_beq_iff, nat_ord, All-get, All-insert, get, insert, Result, ok, err, returns, fails, Leaves,
  Bool-cases, Option-cases, Result-cases, length, leb, saturating_add,
}
use ai_os.Core.State.{
  TaskState, running, waiting_approval, succeeded, failed, cancelled, is_terminal,
  can_transition_to,
}
use ai_os.Core.Error.{budget_exceeded}
use ai_os.Core.Task.{TaskSpec, Field, validate}
use ai_os.Runtime.Event.{TaskId, TaskEvent, EventStore}
use ai_os.Storage.Recovery.{scan_kind}
use ai_os.Runtime.Approval.{Instant}
use ai_os.Runtime.Supervisor.{
  TaskRecord, TaskSupervisor, Answer, state_in, transition, apply_transition_with_failure, found,
  propose, task_not_found,
}
use ai_os.Runtime.Supervisor.Tasks.{
  verdict_state, verdict_events, verdict_result, register, submit, submit_new, start,
  start_execution, succeed, fail, fail_budget_exceeded, cancel,
}
use ai_os.Runtime.Supervisor.Audit.Log.{IsLogged-ext, commit, settled, scan_kinds}
use ai_os.Runtime.Supervisor.Audit.Views.{
  View, opened, parked, Moves, state_in-get, state_in-insert, All-Moves, found-Leaves,
  propose-Leaves, append-Leaves,
}
use ai_os.Runtime.Supervisor.Audit.Sound.{IsStorable, IsSound}
use ai_os.Runtime.Supervisor.Audit.Transitions.{Parks, apply_transition-IsSound, aborted-IsSound}

step_cancelled : (s : TaskState) → is_terminal s ≡ false → can_transition_to s cancelled ≡ true
unfolding can_transition_to
step_cancelled s t = ground arith

starts : (current : TaskState) → current ≢ waiting_approval → Parks current running
unfolding can_transition_to
starts current idle c p = ground (arith, idle)

verdict_accepted :
    (v : Result (List Field) (Unit {0}))
    → scan_kinds (settled none) (verdict_events v) ≡ ok (settled (some (verdict_state v)))
unfolding scan_kinds scan_kind can_transition_to
verdict_accepted (ok _) = refl
verdict_accepted (err errors) = refl

verdict-IsStorable :
    (spec : TaskSpec)
    → IsStorable (record { spec = spec; state = verdict_state (validate spec); started_at = none })
verdict-IsStorable spec = elim (Result-cases (validate spec)) [
  | inl (_, e) ↦ inr (ground arith)
  | inr (_, e) ↦ inl (ground arith)
]

unmoved :
    (view view' : View) (task : TaskId) (state : TaskState)
    → Moves view view' task state
    → view task ≡ some state
    → (u : TaskId) → view' u ≡ view u
unmoved view view' task state moves here u = elim (Bool-cases (nat_beq task u)) [
  | inl same ↦ ground (arith, moves u) ∙ sym here ∙ ap view ((nat_beq_iff task u).0 same)
  | inr other ↦ ground (arith, moves u)
]

module _ {St : Type 0} (S : EventStore St) where
  pub transition-IsSound :
      (sup : TaskSupervisor St) (task : TaskId) (next : TaskState)
      → IsSound S sup
      → ((current : TaskState)
          → state_in sup.tasks sup.recovered_tasks task ≡ some current
          → Parks current next)
      → Leaves (IsSound S) (transition S sup task next)
  unfolding transition
  transition-IsSound sup task next s keep =
      found-Leaves (IsSound S) sup (state_in sup.tasks sup.recovered_tasks task) task_not_found
        (λ current.
          propose sup current next (apply_transition_with_failure S sup task current next none))
        s
        λ current e.
          propose-Leaves (IsSound S) sup current next
            (apply_transition_with_failure S sup task current next none) s
            λ c. apply_transition-IsSound S sup task current next none s e c tt (keep current e)

  pub fail_budget_exceeded-IsSound :
      (sup : TaskSupervisor St) (task : TaskId)
      → IsSound S sup
      → Leaves (IsSound S) (fail_budget_exceeded S sup task)
  unfolding fail_budget_exceeded
  fail_budget_exceeded-IsSound sup task s =
      found-Leaves (IsSound S) sup (state_in sup.tasks sup.recovered_tasks task) task_not_found
        (λ current.
          propose sup current failed
            (apply_transition_with_failure S sup task current failed (some budget_exceeded)))
        s
        λ current e.
          propose-Leaves (IsSound S) sup current failed
            (apply_transition_with_failure S sup task current failed (some budget_exceeded)) s
            λ c.
              apply_transition-IsSound S sup task current failed (some budget_exceeded) s e c refl
                (λ _ _. refl)

  -- A method that only adds an answer to another.
  answered :
      {A B : Type 0} (o : Answer St A) (b : B)
      → Leaves (IsSound S) o
      → Leaves
          (IsSound S)
          (elim o [ fails e sup' ↦ fails e sup' | returns _ sup' ↦ returns b sup' ])
  answered (fails e sup') b l = l
  answered (returns a sup') b l = l

  pub cancel-IsSound :
      (sup : TaskSupervisor St) (task : TaskId)
      → IsSound S sup
      → Leaves (IsSound S) (cancel S sup task)
  unfolding cancel
  cancel-IsSound sup task s = elim (Option-cases (state_in sup.tasks sup.recovered_tasks task)) [
    | inl e ↦ rw (e, cancel) s
    | inr (current, e) ↦ elim (Bool-cases (is_terminal current)) [
      | inl t ↦ rw (e, cancel, t) s
      | inr t ↦
          rw (e, cancel, t)
            (answered (apply_transition_with_failure S sup task current cancelled none) true (
              apply_transition-IsSound S sup task current cancelled none s e
                (step_cancelled current t) tt (λ _ _. refl)))
    ]
  ]

  -- The start time is no part of the view.
  stamped :
      (sup : TaskSupervisor St) (task : TaskId) (r : TaskRecord) (now : Instant)
      → IsSound S sup
      → get task sup.tasks ≡ some r
      → IsSound S
          (record sup { tasks = insert task (record r { started_at = some now }) sup.tasks })
  stamped sup task r now s e =
      let r' : TaskRecord = record r { started_at = some now } in
      let view = state_in sup.tasks sup.recovered_tasks in
      let view' = state_in (insert task r' sup.tasks) sup.recovered_tasks in
      let moves = state_in-insert sup.tasks sup.recovered_tasks task r' in
      let here = state_in-get sup.tasks sup.recovered_tasks task r e in
      let monotone : opened (view task) ≡ true → opened (some r.state) ≡ true = λ o. rw here at o in
      let steady : parked (view task) ≡ true → parked (some r.state) ≡ true = λ o. rw here at o in
      let (_, storable) = All-get (λ e. IsStorable e.1) task r sup.tasks s.valid e in
      record {
        logged =
            IsLogged-ext S sup.event_store view view'
              (λ u. unmoved view view' task r.state moves here u) s.logged;
        pending_parked =
            All-Moves parked (λ e. e.1.task_id) view view' task r.state sup.pending_operations moves
              steady s.pending_parked;
        alone = s.alone;
        approved_open =
            All-Moves opened (λ e. e.1.task_id) view view' task r.state sup.approved_operations
              moves monotone s.approved_open;
        valid = All-insert (λ e. IsStorable e.1) task r' sup.tasks storable s.valid;
      }

  pub start-IsSound :
      (sup : TaskSupervisor St) (now : Instant) (task : TaskId)
      → IsSound S sup
      → state_in sup.tasks sup.recovered_tasks task ≢ some waiting_approval
      → Leaves (IsSound S) (start S sup now task)
  unfolding start
  start-IsSound sup now task s idle = cases (transition S sup task running) (
      transition-IsSound sup task running s
        (λ current e. starts current (λ w. idle (e ∙ ap some w))))
    where
      cases :
          (o : Answer St (Unit {0}))
          → Leaves (IsSound S) o
          → Leaves (IsSound S) (elim o [
            | fails e sup' ↦ fails e sup'
            | returns _ sup' ↦ found sup' (get task sup'.tasks) task_not_found λ r.
                returns tt (record sup' {
                  tasks = insert task (record r { started_at = some now }) sup'.tasks;
                })
          ])
      cases (fails e sup') l = l
      cases (returns _ sup') l =
          found-Leaves (IsSound S) sup' (get task sup'.tasks) task_not_found _ l
            λ r e. stamped sup' task r now l e

  pub start_execution-IsSound :
      (sup : TaskSupervisor St) (now : Instant) (task : TaskId)
      → IsSound S sup
      → state_in sup.tasks sup.recovered_tasks task ≢ some waiting_approval
      → Leaves (IsSound S) (start_execution S sup now task)
  unfolding start_execution
  start_execution-IsSound sup now task s idle =
      found-Leaves (IsSound S) sup (get task sup.tasks) task_not_found _ s
        λ r e. answered (start S sup now task) _ (start-IsSound sup now task s idle)

  registered :
      (sup : TaskSupervisor St) (store : St) (task : TaskId) (spec : TaskSpec)
      (events : List TaskEvent)
      → IsSound S sup
      → state_in sup.tasks sup.recovered_tasks task ≡ none
      → S.append_batch sup.event_store task (verdict_events (validate spec)) ≡ returns events store
      → IsSound S
          (register (record sup { event_store = store }) task spec (verdict_state (validate spec)))
  registered sup store task spec events s new h =
      let r : TaskRecord = record {
        spec = spec;
        state = verdict_state (validate spec);
        started_at = none;
      } in
      let view = state_in sup.tasks sup.recovered_tasks in
      let view' = state_in (insert task r sup.tasks) sup.recovered_tasks in
      let moves = state_in-insert sup.tasks sup.recovered_tasks task r in
      let monotone : opened (view task) ≡ true → opened (some r.state) ≡ true = λ o. cc new in
      let steady : parked (view task) ≡ true → parked (some r.state) ≡ true = λ o. cc new in
      record {
        logged =
            commit S sup.event_store store view view' task (verdict_events (validate spec)) events
              (some r.state) h (rw new (verdict_accepted (validate spec))) moves s.logged;
        pending_parked =
            All-Moves parked (λ e. e.1.task_id) view view' task r.state sup.pending_operations moves
              steady s.pending_parked;
        alone = s.alone;
        approved_open =
            All-Moves opened (λ e. e.1.task_id) view view' task r.state sup.approved_operations
              moves monotone s.approved_open;
        valid = All-insert (λ e. IsStorable e.1) task r sup.tasks (verdict-IsStorable spec) s.valid;
      }

  submit_new-IsSound :
      (sup : TaskSupervisor St) (task : TaskId) (spec : TaskSpec)
      → IsSound S sup
      → state_in sup.tasks sup.recovered_tasks task ≡ none
      → Leaves (IsSound S) (submit_new S sup task spec)
  unfolding submit_new
  submit_new-IsSound sup task spec s new =
      let full =
        leb sup.max_tasks (saturating_add (length sup.tasks) (length sup.recovered_tasks)) in
      elim (Bool-cases full) [
        | inl e ↦ rw (e, submit_new) s
        | inr e ↦
            rw (e, submit_new)
              (append-Leaves (IsSound S) S sup task (verdict_events (validate spec))
                (λ sup'.
                  returns
                    (verdict_result
                      (record { task_id = task; state = verdict_state (validate spec) })
                      (validate spec))
                    (register sup' task spec (verdict_state (validate spec))))
                (λ x store h.
                  aborted-IsSound S sup store task (verdict_events (validate spec)) x h s)
                (λ events store h. registered sup store task spec events s new h))
      ]

  pub submit-IsSound :
      (sup : TaskSupervisor St) (task : TaskId) (spec : TaskSpec)
      → IsSound S sup
      → state_in sup.tasks sup.recovered_tasks task ≡ none
      → Leaves (IsSound S) (submit S sup task spec)
  unfolding submit
  submit-IsSound sup task spec s new = ground (arith, submit_new-IsSound sup task spec s new, s)

  pub succeed-IsSound :
      (sup : TaskSupervisor St) (task : TaskId)
      → IsSound S sup
      → Leaves (IsSound S) (succeed S sup task)
  unfolding succeed
  succeed-IsSound sup task s = transition-IsSound sup task succeeded s (λ _ _ _ _. refl)

  pub fail-IsSound :
      (sup : TaskSupervisor St) (task : TaskId)
      → IsSound S sup
      → Leaves (IsSound S) (fail S sup task)
  unfolding fail
  fail-IsSound sup task s = transition-IsSound sup task failed s (λ _ _ _ _. refl)
