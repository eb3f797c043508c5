-- ===== src/Api/Idle.antt =====
-- The supervisors of a service of crates/aios-local-api/src/lib.rs that started empty: the requests of
-- the API ask for no operation, so no task ever waits for an approval.
use ai_os.Prelude.{
  ◌≡◌, ◌≢◌, refl, inl, inr, arith, Bool, true, not, ◌||◌, List, [], ◌∷◌, Option, none, some, ltb,
  leb, nat_beq, nat_ord, keys_where, if◌then◌else◌, get, All, All-insert, All-get, length, dec_beq,
  saturating_add, Result, ok, err, returns, fails, Leaves, Bool-cases, Option-cases, Outcome-cases,
}
use ai_os.Core.State.{
  TaskState, running, waiting_approval, succeeded, failed, cancelled, is_terminal,
}
use ai_os.Core.Error.{ErrorCode}
use ai_os.Core.Task.{TaskSpec, TaskSpec-discrete, Field, validate}
use ai_os.Runtime.Event.{TaskId, ApprovalId, EventStore}
use ai_os.Runtime.Approval.{Instant}
use ai_os.Runtime.Supervisor.{
  TaskSupervisor, Answer, text_ord, task_not_found, state_in, drop_all, drop_pending,
  invalidate_approvals, write_state, transition_events, apply_transition_with_failure, transition,
}
use ai_os.Runtime.Supervisor.Tasks.{
  SubmitResult, new, verdict_state, verdict_events, verdict_result, register, submit_new,
}
use ai_os.Runtime.Supervisor.Tasks
use ai_os.Runtime.Supervisor.Audit.Views.{found-Leaves, propose-Leaves, append-Leaves}
use ai_os.Runtime.Supervisor.Audit.Sound.{IsSound}
use ai_os.Runtime.Supervisor.Audit.Tasks.{
  submit-IsSound, start-IsSound, succeed-IsSound, fail-IsSound, cancel-IsSound,
}
use ai_os.Runtime.Supervisor.Audit.Reachable.{new-IsSound}
use ai_os.Api.{
  ApiMethod, ApiRequest, health, submit, get_task_of, events, start, succeed, fail, cancel,
  max_event_page_size, is_supported_protocol_version, transition_response, submit_response,
  cancel_response, handle_method, handle,
}

module _ {St : Type 0} where
  -- No task waits for an approval.
  abbrev IsIdle : TaskSupervisor St → Type 0
  IsIdle sup =
      All (λ e. e.1.state ≢ waiting_approval) sup.tasks
      × All (λ e. e.1 ≢ waiting_approval) sup.recovered_tasks

  drop_all-IsIdle :
      (ids : List ApprovalId) (sup : TaskSupervisor St) → IsIdle sup → IsIdle (drop_all ids sup)
  unfolding drop_all
  drop_all-IsIdle [] sup i = i
  drop_all-IsIdle (id ∷ ids) sup i = drop_all-IsIdle ids (drop_pending id sup) i

  invalidate_approvals-IsIdle :
      (sup : TaskSupervisor St) (task : TaskId)
      → IsIdle sup
      → IsIdle (invalidate_approvals sup task)
  unfolding invalidate_approvals
  invalidate_approvals-IsIdle sup task i =
      drop_all-IsIdle
        (keys_where (λ operation. nat_beq operation.task_id task) sup.pending_operations) sup i

  write_state-IsIdle :
      (sup : TaskSupervisor St) (task : TaskId) (next : TaskState)
      → next ≢ waiting_approval
      → IsIdle sup
      → Leaves IsIdle (write_state sup task next)
  unfolding write_state
  write_state-IsIdle sup task next n (t, r) = elim (Option-cases (get task sup.tasks)) [
    | inr (record_here, e) ↦ rw (e, write_state) (All-insert _ task _ sup.tasks n t, r)
    | inl e ↦ elim (Option-cases (get task sup.recovered_tasks)) [
      | inr (s, e') ↦ rw (e, e', write_state) (t, All-insert _ task next sup.recovered_tasks n r)
      | inl e' ↦ rw (e, e', write_state) (t, r)
    ]
  ]

  state_in-IsIdle :
      (sup : TaskSupervisor St) (task : TaskId)
      → IsIdle sup
      → state_in sup.tasks sup.recovered_tasks task ≢ some waiting_approval
  unfolding state_in
  state_in-IsIdle sup task (t, r) e = elim (Option-cases (get task sup.tasks)) [
    | inr (here, g) ↦
        let (_, n) = All-get (λ e. e.1.state ≢ waiting_approval) task here sup.tasks t g in
        n (let e' = rw (g, state_in) at e in ground arith)
    | inl g ↦
        let e' = rw (g, state_in) at e in
        let (_, n) =
          All-get (λ e. e.1 ≢ waiting_approval) task waiting_approval sup.recovered_tasks r e' in
        n refl
  ]

module _ {St : Type 0} (S : EventStore St) where
  apply_transition-IsIdle :
      (sup : TaskSupervisor St) (task : TaskId) (current next : TaskState)
      (failure : Option ErrorCode)
      → next ≢ waiting_approval
      → IsIdle sup
      → Leaves IsIdle (apply_transition_with_failure S sup task current next failure)
  unfolding apply_transition_with_failure
  apply_transition-IsIdle sup task current next failure n i =
      append-Leaves IsIdle S sup task (transition_events S sup task current next failure)
        (λ sup'.
          write_state (if is_terminal next then invalidate_approvals sup' task else sup') task next)
        (λ _ _ _. i)
        λ _ store _. elim (Bool-cases (is_terminal next)) [
          | inl t ↦ rw t (write_state-IsIdle _ task next n (invalidate_approvals-IsIdle _ task i))
          | inr t ↦ rw t (write_state-IsIdle _ task next n i)
        ]

  transition-IsIdle :
      (sup : TaskSupervisor St) (task : TaskId) (next : TaskState)
      → next ≢ waiting_approval
      → IsIdle sup
      → Leaves IsIdle (transition S sup task next)
  unfolding transition
  transition-IsIdle sup task next n i =
      found-Leaves IsIdle sup (state_in sup.tasks sup.recovered_tasks task) task_not_found _ i
        λ current _.
          propose-Leaves IsIdle sup current next _ i
            λ _. apply_transition-IsIdle sup task current next none n i

  start-IsIdle :
      (sup : TaskSupervisor St) (now : Instant) (task : TaskId)
      → IsIdle sup
      → Leaves IsIdle (Tasks.start S sup now task)
  unfolding Tasks.start
  start-IsIdle sup now task i =
      let moved = transition-IsIdle sup task running (λ e. cc) i in
      elim (Outcome-cases (transition S sup task running)) [
        | inr (e, v, o) ↦ rw (o, Tasks.start) (rw o at moved)
        | inl (_, v, o) ↦
            rw (o, Tasks.start)
              (found-Leaves IsIdle v (get task v.tasks) task_not_found _ (rw o at moved) λ r g.
                let (t, rec) = rw o at moved in
                let (_, n) = All-get (λ e. e.1.state ≢ waiting_approval) task r v.tasks t g in
                (All-insert _ task _ v.tasks n t, rec))
      ]

  cancel-IsIdle :
      (sup : TaskSupervisor St) (task : TaskId)
      → IsIdle sup
      → Leaves IsIdle (Tasks.cancel S sup task)
  unfolding Tasks.cancel
  cancel-IsIdle sup task i =
      found-Leaves IsIdle sup (state_in sup.tasks sup.recovered_tasks task) task_not_found _ i
        λ current _. elim (Bool-cases (is_terminal current)) [
          | inl t ↦ rw t i
          | inr t ↦ rw t (
              answered (apply_transition_with_failure S sup task current cancelled none)
                (apply_transition-IsIdle sup task current cancelled none (λ e. cc) i))
        ]
    where
      answered :
          (o : Answer St (Unit {0}))
          → Leaves IsIdle o
          → Leaves IsIdle (elim o as (λ _. Answer St Bool) [
            | fails e sup' ↦ fails e sup'
            | returns _ sup' ↦ returns true sup'
          ])
      answered (fails e sup') l = l
      answered (returns a sup') l = l

  submit_new-IsIdle :
      (sup : TaskSupervisor St) (task : TaskId) (spec : TaskSpec)
      → IsIdle sup
      → Leaves IsIdle (submit_new S sup task spec)
  unfolding submit_new
  submit_new-IsIdle sup task spec i =
      elim (Bool-cases
        (leb sup.max_tasks (saturating_add (length sup.tasks) (length sup.recovered_tasks)))) [
          | inl full ↦ rw full i
          | inr room ↦ rw room (
              append-Leaves IsIdle S sup task (verdict_events (validate spec))
                (λ sup'.
                  returns
                    (verdict_result
                      (record { task_id = task; state = verdict_state (validate spec) })
                      (validate spec))
                    (register sup' task spec (verdict_state (validate spec))))
                (λ _ _ _. i)
                λ _ store _. (All-insert _ task _ sup.tasks (verdict (validate spec)) i.0, i.1))
        ]
    where
      verdict : (v : Result (List Field) (Unit {0})) → verdict_state v ≢ waiting_approval
      verdict (ok _) e = cc
      verdict (err _) e = cc

  submit-IsIdle :
      (sup : TaskSupervisor St) (task : TaskId) (spec : TaskSpec)
      → IsIdle sup
      → Leaves IsIdle (Tasks.submit S sup task spec)
  unfolding Tasks.submit
  submit-IsIdle sup task spec i =
      elim (Option-cases (get spec.idempotency_key sup.idempotency_index)) [
        | inl n ↦ rw (n, Tasks.submit) (submit_new-IsIdle sup task spec i)
        | inr (known, k) ↦
            rw (k, Tasks.submit)
              (found-Leaves IsIdle sup (get known sup.tasks) task_not_found _ i λ r _.
                elim (Bool-cases (not (dec_beq TaskSpec-discrete r.spec spec))) [
                  | inl differs ↦ rw differs i
                  | inr same ↦ rw same i
                ])
      ]

  -- What a request keeps, whatever method it calls.
  handle-keeps :
      (P : TaskSupervisor St → Type 0) (sup : TaskSupervisor St) (now : Instant) (new_id : TaskId)
      (request : ApiRequest)
      → P sup
      → ((spec : TaskSpec) → Leaves P (Tasks.submit S sup new_id spec))
      → ((task : TaskId) → Leaves P (Tasks.start S sup now task))
      → ((task : TaskId) → Leaves P (Tasks.succeed S sup task))
      → ((task : TaskId) → Leaves P (Tasks.fail S sup task))
      → ((task : TaskId) → Leaves P (Tasks.cancel S sup task))
      → P (handle S sup now new_id request).1
  unfolding handle handle_method transition_response submit_response cancel_response
  handle-keeps P sup now new_id request p on_submit on_start on_succeed on_fail on_cancel =
      elim (Bool-cases (not (is_supported_protocol_version request.protocol_version))) [
        | inl old ↦ rw (old, handle) p
        | inr current ↦ rw (current, handle) (of_method request.request)
      ]
    where
      of_transition :
          (o : Answer St (Unit {0})) (task : TaskId) → Leaves P o → P (transition_response o task).1
      of_transition (returns _ sup') task l = l
      of_transition (fails e sup') task l = l

      of_submit : (o : Answer St SubmitResult) → Leaves P o → P (submit_response o).1
      of_submit (returns _ sup') l = l
      of_submit (fails e sup') l = l

      of_cancel : (o : Answer St Bool) (task : TaskId) → Leaves P o → P (cancel_response o task).1
      of_cancel (returns _ sup') task l = l
      of_cancel (fails e sup') task l = l

      of_method : (method : ApiMethod) → P (handle_method S sup now new_id method).1
      of_method health = p
      of_method (submit spec) = of_submit (Tasks.submit S sup new_id spec) (on_submit spec)
      of_method (get_task_of task) = p
      of_method (events task after limit) =
          elim (Bool-cases (nat_beq limit 0 || ltb max_event_page_size limit)) [
            | inl bad ↦ rw bad p
            | inr good ↦ rw good p
          ]
      of_method (start task) = of_transition (Tasks.start S sup now task) task (on_start task)
      of_method (succeed task) = of_transition (Tasks.succeed S sup task) task (on_succeed task)
      of_method (fail task) = of_transition (Tasks.fail S sup task) task (on_fail task)
      of_method (cancel task) = of_cancel (Tasks.cancel S sup task) task (on_cancel task)

  -- The supervisors of a service that started with an empty log; `new_id` is new at each request.
  pub data IsServing : TaskSupervisor St → Type 0 where
    on_new : (store : St) → ((task : TaskId) → S.history store task ≡ []) → IsServing (new store)
    on_handle :
        (sup : TaskSupervisor St) (now : Instant) (new_id : TaskId) (request : ApiRequest)
        → state_in sup.tasks sup.recovered_tasks new_id ≡ none
        → IsServing sup
        → IsServing (handle S sup now new_id request).1

  IsServing-IsIdle : (sup : TaskSupervisor St) → IsServing sup → IsIdle sup
  unfolding new Tasks.succeed Tasks.fail
  IsServing-IsIdle _ (on_new store empty) = (tt, tt)
  IsServing-IsIdle _ (on_handle sup now new_id request free s) =
      let i = IsServing-IsIdle sup s in
      handle-keeps IsIdle sup now new_id request i (λ spec. submit-IsIdle sup new_id spec i)
        (λ task. start-IsIdle sup now task i)
        (λ task. transition-IsIdle sup task succeeded (λ e. cc) i)
        (λ task. transition-IsIdle sup task failed (λ e. cc) i) (λ task. cancel-IsIdle sup task i)

  -- After any requests to a service that started with an empty log, where each submission got an
  -- identifier that no task had: the supervisor is sound, so that its log replays to the states of its
  -- tasks, and no task waits for an approval.
  pub IsServing-IsSound :
      (sup : TaskSupervisor St)
      → IsServing sup
      → IsSound S sup
        × ((task : TaskId) → state_in sup.tasks sup.recovered_tasks task ≢ some waiting_approval)
  IsServing-IsSound sup serving =
      (sound sup serving, λ task. state_in-IsIdle sup task (IsServing-IsIdle sup serving))
    where
      sound : (sup : TaskSupervisor St) → IsServing sup → IsSound S sup
      sound _ (on_new store empty) = new-IsSound S store empty
      sound _ (on_handle sup now new_id request free s) =
          let p = sound sup s in
          handle-keeps (IsSound S) sup now new_id request p
            (λ spec. submit-IsSound S sup new_id spec p free)
            (λ task.
              start-IsSound S sup now task p (state_in-IsIdle sup task (IsServing-IsIdle sup s)))
            (λ task. succeed-IsSound S sup task p) (λ task. fail-IsSound S sup task p)
            (λ task. cancel-IsSound S sup task p)
