-- ===== src/Api.antt =====
-- The local API of crates/aios-local-api/src/lib.rs: the requests, the responses, and the service that
-- answers them with the supervisor's methods. The clock's reading and the new identifier are arguments.
-- A validation issue is the field it names, as in Core/Task.
pub mod Frames
pub mod Server
pub mod Answers
pub mod Idle
pub mod Pages
mod Witnesses
use ai_os.Prelude.{
  ℕ, ◌*◌, Bool, true, false, not, ◌&&◌, ◌||◌, List, [], ◌∷◌, Option, none, some, ltb, leb, nat_beq,
  if◌then◌else◌, length, take, Result, ok, err, returns, fails,
}
use ai_os.Core.State.{TaskState}
use ai_os.Core.Text.{Text, codes}
use ai_os.Core.Task.{TaskSpec, Field}
use ai_os.Runtime.Event.{TaskId, TaskEvent, TaskSnapshot, EventStore}
use ai_os.Runtime.Approval.{Instant, Duration, nanos_per_second}
use ai_os.Runtime.Supervisor.{
  TaskSupervisor, SupervisorError, Answer, task_not_found, task_not_running, idempotency_conflict,
  panicked, invalid_state_transition, event_store_error, approval_error,
}
use ai_os.Runtime.Supervisor
use ai_os.Runtime.Supervisor.Tasks
use ai_os.Runtime.Supervisor.Tasks.{SubmitResult, accepted, existing, rejected_with, get_task}

abbrev pub default_max_frame_bytes : ℕ
default_max_frame_bytes = 65536

abbrev pub max_event_page_size : ℕ
max_event_page_size = 256

abbrev pub min_supported_protocol_version : ℕ
min_supported_protocol_version = 4

abbrev pub max_supported_protocol_version : ℕ
max_supported_protocol_version = 4

abbrev pub protocol_version_sent : ℕ
protocol_version_sent = max_supported_protocol_version

abbrev pub min_max_frame_bytes : ℕ
min_max_frame_bytes = 1024

abbrev pub max_max_frame_bytes : ℕ
max_max_frame_bytes = 1048576

unfoldable pub is_supported_protocol_version : ℕ → Bool
is_supported_protocol_version version =
    leb min_supported_protocol_version version && leb version max_supported_protocol_version

pub record ServerConfig : Type 0 where
  pub max_frame_bytes : ℕ
  pub connection_timeout : Duration

-- `ServerConfig::default`
abbrev pub default_config : ServerConfig
default_config = record {
  max_frame_bytes = default_max_frame_bytes;
  connection_timeout = 5 * nanos_per_second;
}

pub data LocalApiError : Type 0 where
  invalid_config unsafe_socket_directory socket_already_exists frame_too_large protocol io :
      LocalApiError

-- `ServerConfig::validate`
unfoldable pub validate_config : ServerConfig → Result LocalApiError ServerConfig
validate_config config =
    if not (
        leb min_max_frame_bytes config.max_frame_bytes
        && leb config.max_frame_bytes max_max_frame_bytes)
      || nat_beq config.connection_timeout 0
    then err invalid_config
    else ok config

pub data ApiMethod : Type 0 where
  health : ApiMethod
  submit : TaskSpec → ApiMethod
  get_task_of : TaskId → ApiMethod
  -- The task, `after_sequence` and `limit`.
  events : TaskId → ℕ → ℕ → ApiMethod
  start succeed fail cancel : TaskId → ApiMethod

pub record ApiRequest : Type 0 where
  pub protocol_version : ℕ
  pub request : ApiMethod

-- `ApiRequest::new`
abbrev pub new_request : ApiMethod → ApiRequest
new_request request = record { protocol_version = protocol_version_sent; request = request }

pub record ProtocolVersionRange : Type 0 where
  pub minimum : ℕ
  pub maximum : ℕ

abbrev pub supported : ProtocolVersionRange
supported = record {
  minimum = min_supported_protocol_version;
  maximum = max_supported_protocol_version;
}

pub data SubmissionDisposition : Type 0 where
  accepted_now existing_task rejected_task : SubmissionDisposition

pub record TaskView : Type 0 where
  pub task_id : TaskId
  pub state : TaskState

-- `From<TaskSnapshot> for TaskView`
abbrev pub view_of : TaskSnapshot → TaskView
view_of task = record { task_id = task.task_id; state = task.state }

pub data ApiResult : Type 0 where
  healthy : ProtocolVersionRange → ApiResult
  submitted : SubmissionDisposition → TaskView → List Field → ApiResult
  task_result : TaskView → ApiResult
  -- The page, and `has_more`.
  events_page : List TaskEvent → Bool → ApiResult
  -- The task, and `changed`.
  cancelled_task : TaskView → Bool → ApiResult

pub data ApiErrorCode : Type 0 where
  invalid_request_code unsupported_protocol_version frame_too_large_code task_not_found_code
        idempotency_conflict_code capacity_exceeded_code invalid_state_transition_code
        approval_failed storage_unavailable response_too_large :
      ApiErrorCode

pub record ApiError : Type 0 where
  pub code : ApiErrorCode
  pub message : Text

-- `aborted` is what is left of a failed `expect`: no response is made.
pub data ApiOutcome : Type 0 where
  ok_outcome : ApiResult → ApiOutcome
  error_outcome : ApiError → ApiOutcome
  aborted : ApiOutcome

pub record ApiResponse : Type 0 where
  pub protocol_version : ℕ
  pub outcome : ApiOutcome

-- The function `ok`.
abbrev pub ok_response : ApiResult → ApiResponse
ok_response result = record {
  protocol_version = protocol_version_sent;
  outcome = ok_outcome result;
}

abbrev pub api_error : ApiErrorCode → Text → ApiResponse
api_error code message = record {
  protocol_version = protocol_version_sent;
  outcome = error_outcome (record { code = code; message = message });
}

abbrev pub unsupported_version : ApiResponse
unsupported_version =
    api_error unsupported_protocol_version (codes "protocol version is not supported")

abbrev pub invalid_request : ApiResponse
invalid_request = api_error invalid_request_code (codes "request is invalid")

abbrev pub task_missing : ApiResponse
task_missing = api_error task_not_found_code (codes "task not found")

unfoldable pub supervisor_error_response : SupervisorError → ApiResponse
supervisor_error_response task_not_found = task_missing
supervisor_error_response idempotency_conflict =
    api_error idempotency_conflict_code (codes "idempotency key conflicts with existing input")
supervisor_error_response Supervisor.capacity_exceeded =
    api_error capacity_exceeded_code (codes "task capacity exceeded")
supervisor_error_response task_not_running =
    api_error invalid_state_transition_code (codes "requested task transition is not allowed")
supervisor_error_response (invalid_state_transition _) =
    api_error invalid_state_transition_code (codes "requested task transition is not allowed")
supervisor_error_response (approval_error _) =
    api_error approval_failed (codes "approval operation failed")
supervisor_error_response (event_store_error _) =
    api_error storage_unavailable (codes "event storage is unavailable")
supervisor_error_response panicked = record {
  protocol_version = protocol_version_sent;
  outcome = aborted;
}

unfoldable pub submission_response : SubmitResult → ApiResponse
submission_response (accepted task) = ok_response (submitted accepted_now (view_of task) [])
submission_response (existing task) = ok_response (submitted existing_task (view_of task) [])
submission_response (rejected_with task errors) =
    ok_response (submitted rejected_task (view_of task) errors)

-- The end of `Events`.
unfoldable pub page_response : ℕ → Result SupervisorError (List TaskEvent) → ApiResponse
unfolding supervisor_error_response
page_response limit (ok found_events) =
    ok_response (events_page (take limit found_events) (ltb limit (length found_events)))
page_response limit (err e) = supervisor_error_response e

module _ {St : Type 0} where
  unfoldable pub task_response : TaskSupervisor St → TaskId → (TaskView → ApiResult) → ApiResponse
  task_response sup task_id result = elim (get_task sup task_id) [
    | none ↦ task_missing
    | some task ↦ ok_response (result (view_of task))
  ]

  -- What a call of the supervisor leaves, and the response.
  unfoldable pub transition_response :
      Answer St (Unit {0}) → TaskId → ApiResponse × TaskSupervisor St
  unfolding task_response supervisor_error_response
  transition_response (returns _ sup) task_id = (task_response sup task_id task_result, sup)
  transition_response (fails e sup) task_id = (supervisor_error_response e, sup)

  -- The response to `Submit`.
  unfoldable pub submit_response : Answer St SubmitResult → ApiResponse × TaskSupervisor St
  unfolding submission_response supervisor_error_response
  submit_response (returns result sup) = (submission_response result, sup)
  submit_response (fails e sup) = (supervisor_error_response e, sup)

  -- The response to `Cancel`.
  unfoldable pub cancel_response : Answer St Bool → TaskId → ApiResponse × TaskSupervisor St
  unfolding task_response supervisor_error_response
  cancel_response (returns changed sup) task_id =
      (task_response sup task_id (λ task. cancelled_task task changed), sup)
  cancel_response (fails e sup) task_id = (supervisor_error_response e, sup)

module _ {St : Type 0} (S : EventStore St) where
  -- The methods of `ApiService::handle`: the response, and the supervisor afterwards.
  unfoldable pub handle_method :
      TaskSupervisor St → Instant → TaskId → ApiMethod → ApiResponse × TaskSupervisor St
  unfolding task_response transition_response page_response submit_response cancel_response
  handle_method sup now new_id health = (ok_response (healthy supported), sup)
  handle_method sup now new_id (submit task) = submit_response (Tasks.submit S sup new_id task)
  handle_method sup now new_id (get_task_of task_id) = (task_response sup task_id task_result, sup)
  handle_method sup now new_id (events task_id after_sequence limit) =
      if nat_beq limit 0 || ltb max_event_page_size limit
      then (invalid_request, sup)
      else (page_response limit (Tasks.events S sup task_id after_sequence), sup)
  handle_method sup now new_id (start task_id) =
      transition_response (Tasks.start S sup now task_id) task_id
  handle_method sup now new_id (succeed task_id) =
      transition_response (Tasks.succeed S sup task_id) task_id
  handle_method sup now new_id (fail task_id) =
      transition_response (Tasks.fail S sup task_id) task_id
  handle_method sup now new_id (cancel task_id) =
      cancel_response (Tasks.cancel S sup task_id) task_id

  -- `ApiService::handle`
  unfoldable pub handle :
      TaskSupervisor St → Instant → TaskId → ApiRequest → ApiResponse × TaskSupervisor St
  unfolding is_supported_protocol_version handle_method
  handle sup now new_id request =
      if not (is_supported_protocol_version request.protocol_version)
      then (unsupported_version, sup)
      else handle_method sup now new_id request.request
