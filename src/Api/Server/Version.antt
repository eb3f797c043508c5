-- ===== src/Api/Server/Version.antt =====
-- Every response of `handle` in crates/aios-local-api/src/lib.rs carries the protocol version of the
-- build.
use ai_os.Prelude.{
  ℕ, ◌≡◌, refl, inl, inr, arith, Bool, true, not, ◌||◌, List, ltb, nat_beq, Result, ok, err,
  returns, fails, Bool-cases, Option-cases,
}
use ai_os.Runtime.Event.{TaskId, TaskEvent, EventStore}
use ai_os.Runtime.Approval.{Instant}
use ai_os.Runtime.Supervisor.{TaskSupervisor, SupervisorError, Answer}
use ai_os.Runtime.Supervisor.Tasks
use ai_os.Runtime.Supervisor.Tasks.{SubmitResult, get_task}
use ai_os.Api.{
  ApiMethod, ApiRequest, ApiResult, TaskView, health, submit, get_task_of, task_result,
  cancelled_task, events, start, succeed, fail, cancel, protocol_version_sent,
  is_supported_protocol_version, max_event_page_size, supervisor_error_response,
  submission_response, task_response, transition_response, page_response, submit_response,
  cancel_response, handle_method, handle,
}

error-version :
    (e : SupervisorError) → (supervisor_error_response e).protocol_version ≡ protocol_version_sent
unfolding supervisor_error_response
error-version e = ground arith

module _ {St : Type 0} where
  task_response-version :
      (sup : TaskSupervisor St) (task_id : TaskId) (result : TaskView → ApiResult)
      → (task_response sup task_id result).protocol_version ≡ protocol_version_sent
  unfolding task_response
  task_response-version sup task_id result = elim (Option-cases (get_task sup task_id)) [
    | inl n ↦ rw (n, task_response) refl
    | inr (t, e) ↦ rw (e, task_response) refl
  ]

  transition_response-version :
      (o : Answer St (Unit {0})) (task_id : TaskId)
      → (transition_response o task_id).0.protocol_version ≡ protocol_version_sent
  unfolding transition_response
  transition_response-version (returns _ sup) task_id =
      task_response-version sup task_id task_result
  transition_response-version (fails e sup) task_id = error-version e

  submit_response-version :
      (o : Answer St SubmitResult) → (submit_response o).0.protocol_version ≡ protocol_version_sent
  unfolding submit_response submission_response
  submit_response-version (returns result sup) = ground arith
  submit_response-version (fails e sup) = error-version e

  cancel_response-version :
      (o : Answer St Bool) (task_id : TaskId)
      → (cancel_response o task_id).0.protocol_version ≡ protocol_version_sent
  unfolding cancel_response
  cancel_response-version (returns changed sup) task_id =
      task_response-version sup task_id (λ task. cancelled_task task changed)
  cancel_response-version (fails e sup) task_id = error-version e

page_response-version :
    (limit : ℕ) (found : Result SupervisorError (List TaskEvent))
    → (page_response limit found).protocol_version ≡ protocol_version_sent
unfolding page_response
page_response-version limit (ok found) = refl
page_response-version limit (err e) = error-version e

module _ {St : Type 0} (S : EventStore St) where
  handle_method-version :
      (sup : TaskSupervisor St) (now : Instant) (new_id : TaskId) (method : ApiMethod)
      → (handle_method S sup now new_id method).0.protocol_version ≡ protocol_version_sent
  unfolding handle_method
  handle_method-version sup now new_id health = refl
  handle_method-version sup now new_id (submit task) = submit_response-version _
  handle_method-version sup now new_id (get_task_of task_id) =
      task_response-version sup task_id task_result
  handle_method-version sup now new_id (events task_id after_sequence limit) =
      elim (Bool-cases (nat_beq limit 0 || ltb max_event_page_size limit)) [
        | inl bad ↦ rw bad refl
        | inr good ↦
            rw good (page_response-version limit (Tasks.events S sup task_id after_sequence))
      ]
  handle_method-version sup now new_id (start task_id) =
      transition_response-version (Tasks.start S sup now task_id) task_id
  handle_method-version sup now new_id (succeed task_id) =
      transition_response-version (Tasks.succeed S sup task_id) task_id
  handle_method-version sup now new_id (fail task_id) =
      transition_response-version (Tasks.fail S sup task_id) task_id
  handle_method-version sup now new_id (cancel task_id) =
      cancel_response-version (Tasks.cancel S sup task_id) task_id

  pub handle-version :
      (sup : TaskSupervisor St) (now : Instant) (new_id : TaskId) (request : ApiRequest)
      → (handle S sup now new_id request).0.protocol_version ≡ protocol_version_sent
  unfolding handle
  handle-version sup now new_id request =
      elim (Bool-cases (not (is_supported_protocol_version request.protocol_version))) [
        | inl old ↦ rw (old, handle) refl
        | inr current ↦ rw (current, handle) (handle_method-version sup now new_id request.request)
      ]

  pub handle-supported :
      (sup : TaskSupervisor St) (now : Instant) (new_id : TaskId) (request : ApiRequest)
      → is_supported_protocol_version request.protocol_version ≡ true
      → handle S sup now new_id request ≡ handle_method S sup now new_id request.request
  unfolding handle
  handle-supported sup now new_id request current = rw (current, handle) refl
