-- ===== src/Api/Answers.antt =====
-- What the responses of `handle` in crates/aios-local-api/src/lib.rs say of the supervisor.
use ai_os.Prelude.{
  ℕ, ◌≡◌, refl, sym, ◌∙◌, inl, inr, arith, Bool, not, ◌||◌, List, Option, none, some, ltb, leb,
  nat_beq, nat_ord, get, insert, dec_beq, saturating_add, length, Result, ok, err, returns, fails,
  Bool-cases, Option-cases, Outcome-cases,
}
use ai_os.Core.Task.{TaskSpec, TaskSpec-discrete, Field, validate}
use ai_os.Runtime.Event.{TaskId, TaskEvent, EventStore}
use ai_os.Runtime.Approval.{Instant}
use ai_os.Runtime.Supervisor.{
  TaskSupervisor, TaskRecord, SupervisorError, Answer, text_ord, append, task_not_found,
  idempotency_conflict, event_store_error, task_state, state_in,
}
use ai_os.Runtime.Supervisor
use ai_os.Runtime.Supervisor.Tasks
use ai_os.Runtime.Supervisor.Tasks.{
  SubmitResult, existing, get_task, submit_new, verdict_events, verdict_state, verdict_result,
  register,
}
use ai_os.Runtime.Supervisor.Audit.Views.{state_in-get, state_in-insert}
use ai_os.Api.{
  ApiMethod, ApiRequest, ApiResult, ApiResponse, TaskView, health, submit, get_task_of, events,
  start, succeed, fail, cancel, submitted, task_result, cancelled_task, ok_outcome, error_outcome,
  aborted, max_event_page_size, is_supported_protocol_version, supervisor_error_response,
  submission_response, task_response, transition_response, page_response, submit_response,
  cancel_response, handle_method, handle,
}

-- The task that a response shows.
abbrev pub shown_by : ApiResult → Option TaskView
shown_by (submitted _ task _) = some task
shown_by (task_result task) = some task
shown_by (cancelled_task task _) = some task
shown_by _ = none

abbrev pub shown : ApiResponse → Option TaskView
shown response = elim response.outcome [
  | ok_outcome result ↦ shown_by result
  | error_outcome _ ↦ none
  | aborted ↦ none
]

error_shows : (e : SupervisorError) → shown (supervisor_error_response e) ≡ none
unfolding supervisor_error_response
error_shows e = ground arith

module _ {St : Type 0} where
  -- The task is in the state that the response shows.
  abbrev pub IsTrue : ApiResponse × TaskSupervisor St → Type 0
  IsTrue reply =
      (view : TaskView)
      → shown reply.0 ≡ some view
      → task_state reply.1 view.task_id ≡ some view.state

  error-IsTrue :
      (e : SupervisorError) (sup : TaskSupervisor St) → IsTrue (supervisor_error_response e, sup)
  error-IsTrue e sup view s = let clash = sym (error_shows e) ∙ s in cc

  task_response-IsTrue :
      (sup : TaskSupervisor St) (task_id : TaskId) (result : TaskView → ApiResult)
      → ((v : TaskView) → shown_by (result v) ≡ some v)
      → IsTrue (task_response sup task_id result, sup)
  unfolding task_response get_task
  task_response-IsTrue sup task_id result shows view s =
      elim (Option-cases (task_state sup task_id)) [
        | inl n ↦ let s' = rw (n, task_response, get_task) at s in cc
        | inr (state, t) ↦
            let s' = rw (t, task_response, get_task) at s in
            let here : ◌≡◌ {A = Option TaskView}
                (some (record { task_id = task_id; state = state })) (some view) =
              sym (shows (record { task_id = task_id; state = state })) ∙ s' in
            let parts : (task_id ≡ view.task_id) × (state ≡ view.state) = ground arith in
            rw (sym parts.0, sym parts.1) t
      ]

  transition_response-IsTrue :
      (o : Answer St (Unit {0})) (task_id : TaskId) → IsTrue (transition_response o task_id)
  unfolding transition_response
  transition_response-IsTrue (returns _ sup) task_id =
      task_response-IsTrue sup task_id task_result (λ v. refl)
  transition_response-IsTrue (fails e sup) task_id = error-IsTrue e sup

  verdict-IsTrue :
      (sup : TaskSupervisor St) (task_id : TaskId) (spec : TaskSpec)
      (verdict : Result (List Field) (Unit {0}))
      → IsTrue (
          submit_response (
            returns
              (verdict_result (record { task_id = task_id; state = verdict_state verdict }) verdict)
              (register sup task_id spec (verdict_state verdict))))
  unfolding task_state submit_response submission_response
  verdict-IsTrue sup task_id spec verdict view s =
      let parts : (task_id ≡ view.task_id) × (verdict_state verdict ≡ view.state) = ground arith in
      rw (sym parts.0, sym parts.1)
        (here (record { spec = spec; state = verdict_state verdict; started_at = none }))
    where
      here :
          (r : TaskRecord)
          → state_in (insert task_id r sup.tasks) sup.recovered_tasks task_id ≡ some r.state
      here r = ground (arith, state_in-insert sup.tasks sup.recovered_tasks task_id r task_id)

module _ {St : Type 0} (S : EventStore St) where
  refused-IsTrue :
      (e : SupervisorError) (sup : TaskSupervisor St) → IsTrue (submit_response (fails e sup))
  unfolding submit_response
  refused-IsTrue e sup = error-IsTrue e sup

  submit_new-IsTrue :
      (sup : TaskSupervisor St) (task_id : TaskId) (spec : TaskSpec)
      → IsTrue (submit_response (submit_new S sup task_id spec))
  unfolding submit_new
  submit_new-IsTrue sup task_id spec =
      elim (Bool-cases
        (leb sup.max_tasks (saturating_add (length sup.tasks) (length sup.recovered_tasks)))) [
          | inl full ↦ rw full (refused-IsTrue Supervisor.capacity_exceeded sup)
          | inr room ↦
              elim (Outcome-cases
                (S.append_batch sup.event_store task_id (verdict_events (validate spec)))) [
                  | inr (e, store, a) ↦
                      rw (room, a, append) (refused-IsTrue (event_store_error e) _)
                  | inl (_, store, a) ↦
                      rw (room, a, append) (verdict-IsTrue _ task_id spec (validate spec))
                ]
        ]

  known-IsTrue :
      (sup : TaskSupervisor St) (known : TaskId) (task : TaskRecord)
      → get known sup.tasks ≡ some task
      → IsTrue (
          submit_response (returns (existing (record { task_id = known; state = task.state })) sup))
  unfolding task_state submit_response submission_response
  known-IsTrue sup known task t view s =
      let parts : (known ≡ view.task_id) × (task.state ≡ view.state) = ground arith in
      rw (sym parts.0, sym parts.1) (state_in-get sup.tasks sup.recovered_tasks known task t)

  submit-IsTrue :
      (sup : TaskSupervisor St) (task_id : TaskId) (spec : TaskSpec)
      → IsTrue (submit_response (Tasks.submit S sup task_id spec))
  unfolding Tasks.submit
  submit-IsTrue sup task_id spec =
      elim (Option-cases (get spec.idempotency_key sup.idempotency_index)) [
        | inl n ↦ rw (n, Tasks.submit) (submit_new-IsTrue sup task_id spec)
        | inr (known, k) ↦ elim (Option-cases (get known sup.tasks)) [
          | inl n ↦ rw (k, n, Tasks.submit) (refused-IsTrue task_not_found sup)
          | inr (task, t) ↦ elim (Bool-cases (not (dec_beq TaskSpec-discrete task.spec spec))) [
            | inl differs ↦
                rw (k, t, differs, Tasks.submit) (refused-IsTrue idempotency_conflict sup)
            | inr same ↦ rw (k, t, same, Tasks.submit) (known-IsTrue sup known task t)
          ]
        ]
      ]

  cancel_response-IsTrue :
      (o : Answer St Bool) (task_id : TaskId) → IsTrue (cancel_response o task_id)
  unfolding cancel_response
  cancel_response-IsTrue (returns changed sup) task_id =
      task_response-IsTrue sup task_id (λ task. cancelled_task task changed) (λ v. refl)
  cancel_response-IsTrue (fails e sup) task_id = error-IsTrue e sup

  page_response-IsTrue :
      (sup : TaskSupervisor St) (limit : ℕ) (found : Result SupervisorError (List TaskEvent))
      → IsTrue (page_response limit found, sup)
  unfolding page_response
  page_response-IsTrue sup limit (ok found) = λ view s. cc
  page_response-IsTrue sup limit (err e) = error-IsTrue e sup

  handle_method-IsTrue :
      (sup : TaskSupervisor St) (now : Instant) (new_id : TaskId) (method : ApiMethod)
      → IsTrue (handle_method S sup now new_id method)
  unfolding handle_method
  handle_method-IsTrue sup now new_id health = λ view s. cc
  handle_method-IsTrue sup now new_id (submit task) = submit-IsTrue sup new_id task
  handle_method-IsTrue sup now new_id (get_task_of task_id) =
      task_response-IsTrue sup task_id task_result (λ v. refl)
  handle_method-IsTrue sup now new_id (events task_id after_sequence limit) =
      elim (Bool-cases (nat_beq limit 0 || ltb max_event_page_size limit)) [
        | inl bad ↦ rw bad (λ view s. cc)
        | inr good ↦
            rw good (page_response-IsTrue sup limit (Tasks.events S sup task_id after_sequence))
      ]
  handle_method-IsTrue sup now new_id (start task_id) =
      transition_response-IsTrue (Tasks.start S sup now task_id) task_id
  handle_method-IsTrue sup now new_id (succeed task_id) =
      transition_response-IsTrue (Tasks.succeed S sup task_id) task_id
  handle_method-IsTrue sup now new_id (fail task_id) =
      transition_response-IsTrue (Tasks.fail S sup task_id) task_id
  handle_method-IsTrue sup now new_id (cancel task_id) =
      cancel_response-IsTrue (Tasks.cancel S sup task_id) task_id

  handle-IsTrue :
      (sup : TaskSupervisor St) (now : Instant) (new_id : TaskId) (request : ApiRequest)
      → IsTrue (handle S sup now new_id request)
  unfolding handle
  handle-IsTrue sup now new_id request =
      elim (Bool-cases (not (is_supported_protocol_version request.protocol_version))) [
        | inl old ↦ rw (old, handle) (λ view s. cc)
        | inr current ↦ rw (current, handle) (handle_method-IsTrue sup now new_id request.request)
      ]

  -- When the response shows a task, the supervisor holds that task in the shown state afterwards, for
  -- every supervisor and every request.
  pub handle-shown :
      (sup : TaskSupervisor St) (now : Instant) (new_id : TaskId) (request : ApiRequest)
      (view : TaskView)
      → shown (handle S sup now new_id request).0 ≡ some view
      → task_state (handle S sup now new_id request).1 view.task_id ≡ some view.state
  handle-shown sup now new_id request = handle-IsTrue sup now new_id request
