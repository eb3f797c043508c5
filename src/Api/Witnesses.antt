-- ===== src/Api/Witnesses.antt =====
-- The theorems on the local API (crates/aios-local-api/src/lib.rs) at concrete inputs.
use ai_os.Prelude.{
  ℕ, ◌+◌, ◌≤◌, ◌≡◌, ◌≢◌, ◌↔◌, ◌⊎◌, refl, sym, ◌<◌, arith, List, [], ◌∷◌, ◌++◌, Option, none, some,
  Bool, false, length, drop, ok, state_of, get, insert,
}
use ai_os.Core.State.{transition_to, queued, running, waiting_approval}
use ai_os.Core.Text.{codes}
use ai_os.Core.Task.{TaskSpec, write, deny}
use ai_os.Runtime.Event.{EventStore, TaskEvent, IsNumbered, event_now, submission}
use ai_os.Runtime.Event.Memory
use ai_os.Runtime.Event.Memory.{InMemoryEventStore, append_batch}
use ai_os.Runtime.Event.Memory.Laws.{in_memory_store}
use ai_os.Runtime.Supervisor.{TaskSupervisor, task_state, state_in}
use ai_os.Runtime.Supervisor.Tasks
use ai_os.Runtime.Supervisor.Tasks.{new, fresh, get_task}
use ai_os.Runtime.Supervisor.Audit.Sound.{IsSound}
use ai_os.Api.{
  ApiRequest, ApiMethod, ApiResult, ApiOutcome, TaskView, default_config, health, submit,
  get_task_of, events, start, succeed, fail, cancel, healthy, submitted, task_result, events_page,
  cancelled_task, ok_outcome, error_outcome, aborted, new_request, ok_response, validate_config,
  handle,
}
use ai_os.Api.Answers.{shown, handle-shown}
use ai_os.Api.Pages.{handle-events_page}
use ai_os.Api.Idle.{on_new, on_handle, IsServing-IsSound}
use ai_os.Api.Frames.{frame_of, read_frame}
use ai_os.Api.Server.{Json, send_request, serve_stream}
use ai_os.Api.Server.Unchanged.{IsAsked, serve_stream-supervisor}
use ai_os.Api.Server.Connection.{IsJson, open_stream, arrived, send_request-serve_stream}

abbrev memory : EventStore InMemoryEventStore
memory = in_memory_store (λ _ _. 0)

abbrev at_first : TaskSupervisor InMemoryEventStore
at_first = new Memory.default

abbrev spec : TaskSpec
spec = record {
  idempotency_key = codes "key";
  goal = codes "sum";
  capabilities = record {
    filesystem = (record { path = codes "/work"; access = write }) ∷ [];
    network = deny;
    tools = [];
  };
  budget = record { wall_time_seconds = 60; memory_bytes = 1024; max_parallel_agents = 1 };
  approval = record { required_for = codes "filesystem.write" ∷ [] };
}

abbrev submitted_one : TaskSupervisor InMemoryEventStore
submitted_one = (handle memory at_first 3 1 (new_request (submit spec))).1

no_history : (task : ℕ) → memory.history Memory.default task ≡ []
unfolding Memory.default get
no_history task = refl

unused : state_in at_first.tasks at_first.recovered_tasks 1 ≡ none
unfolding new state_in get
unused = refl

-- A task that waits in the queue.
abbrev queued_one : TaskSupervisor InMemoryEventStore
queued_one = record (fresh Memory.default 10) {
  tasks = (1, record { spec = spec; state = queued; started_at = none }) ∷ [];
}

abbrev running_one : TaskView
running_one = record { task_id = 1; state = running }

shows : shown (handle memory queued_one 5 2 (new_request (start 1))).0 ≡ some running_one
unfolding handle Tasks.start state_in get transition_to append_batch Memory.default event_now insert
    get_task
shows = refl

handle-shown_example :
    task_state (handle memory queued_one 5 2 (new_request (start 1))).1 1 ≡ some running
handle-shown_example = handle-shown memory queued_one 5 2 (new_request (start 1)) running_one shows

IsServing-IsSound_example :
    IsSound memory submitted_one
    × ((task : ℕ)
        → state_in submitted_one.tasks submitted_one.recovered_tasks task ≢ some waiting_approval)
IsServing-IsSound_example =
    IsServing-IsSound memory submitted_one
      (on_handle at_first 3 1 (new_request (submit spec)) unused (on_new Memory.default no_history))

-- An encoding of health requests and of the responses to them.
abbrev encode_method : ℕ → ApiMethod → Option (List ℕ)
encode_method version health = some (version ∷ [])
encode_method version _ = none

abbrev encode_result : ℕ → ApiResult → Option (List ℕ)
encode_result version (healthy range) = some (version ∷ range.minimum ∷ range.maximum ∷ [])
encode_result version _ = none

abbrev plain : Json
plain = record {
  encode_request = λ request. encode_method request.protocol_version request.request;
  encode_response = λ response. elim response.outcome [
    | ok_outcome result ↦ encode_result response.protocol_version result
    | _ ↦ none
  ];
  probe = λ payload. elim payload [ [] ↦ none | version ∷ _ ↦ some version ];
  parse_request = λ payload. elim payload [
    | [] ↦ none
    | version ∷ _ ↦ some (record { protocol_version = version; request = health })
  ];
  parse_response = λ payload. elim payload [
    | version ∷ minimum ∷ maximum ∷ [] ↦ some (record {
      protocol_version = version;
      outcome = ok_outcome (healthy (record { minimum = minimum; maximum = maximum }));
    })
    | _ ↦ none
  ];
}

request_parses :
    (version : ℕ) (method : ApiMethod) (payload : List ℕ)
    → encode_method version method ≡ some payload
    → (plain.probe payload ≡ some version)
      × (plain.parse_request payload
          ≡ some (record { protocol_version = version; request = method }))
      × (0 < length payload)
request_parses version health payload e =
    let same : version ∷ [] ≡ payload = ground arith in rw (sym same) (refl, refl, omega arith)
request_parses version (submit _) payload e = cc
request_parses version (get_task_of _) payload e = cc
request_parses version (events _ _ _) payload e = cc
request_parses version (start _) payload e = cc
request_parses version (succeed _) payload e = cc
request_parses version (fail _) payload e = cc
request_parses version (cancel _) payload e = cc

result_parses :
    (version : ℕ) (result : ApiResult) (payload : List ℕ)
    → encode_result version result ≡ some payload
    → (plain.parse_response payload
        ≡ some (record { protocol_version = version; outcome = ok_outcome result }))
      × (0 < length payload)
result_parses version (healthy range) payload e =
    let same : version ∷ range.minimum ∷ range.maximum ∷ [] ≡ payload = ground arith in
    rw (sym same) (refl, omega arith)
result_parses version (submitted _ _ _) payload e = cc
result_parses version (task_result _) payload e = cc
result_parses version (events_page _ _) payload e = cc
result_parses version (cancelled_task _ _) payload e = cc

response_parses :
    (version : ℕ) (outcome : ApiOutcome) (payload : List ℕ)
    → plain.encode_response (record { protocol_version = version; outcome = outcome })
      ≡ some payload
    → (plain.parse_response payload
        ≡ some (record { protocol_version = version; outcome = outcome }))
      × (0 < length payload)
response_parses version (ok_outcome result) payload e = result_parses version result payload e
response_parses version (error_outcome _) payload e = cc
response_parses version aborted payload e = cc

parses : IsJson plain
parses = record {
  probe_encoded =
      λ request payload e. (request_parses request.protocol_version request.request payload e).0;
  request_encoded = λ request payload e.
      let (_, parsed, some_bytes) =
        request_parses request.protocol_version request.request payload e in
      (parsed, some_bytes);
  response_encoded =
      λ response payload e. response_parses response.protocol_version response.outcome payload e;
}

abbrev asked : List ℕ
asked = 4 ∷ []

abbrev answered : List ℕ
answered = 4 ∷ 4 ∷ 4 ∷ []

answers :
    plain.encode_response (handle memory queued_one 5 2 (new_request health)).0 ≡ some answered
unfolding handle
answers = refl

valid : validate_config default_config ≡ ok default_config
unfolding validate_config
valid = refl

send_request-serve_stream_example :
    (send_request plain
        (some (open_stream 100))
        (λ sent.
          arrived
            (state_of (
              serve_stream memory plain queued_one 5 2 65536
                (arrived sent)
                (open_stream 100))).stream.sent)
        (new_request health)
        default_config
      ≡ ok (handle memory queued_one 5 2 (new_request health)).0)
    × ((state_of (
          serve_stream memory plain queued_one 5 2 65536
            (arrived (frame_of asked))
            (open_stream 100))).supervisor
        ≡ (handle memory queued_one 5 2 (new_request health)).1)
send_request-serve_stream_example =
    send_request-serve_stream memory plain parses queued_one 5 2 (new_request health) default_config
      asked answered 100 100 valid refl answers (omega arith) (omega arith) (omega arith)
      (omega arith)

serve_stream-supervisor_example :
    ((¬ (
        (request : ApiRequest) × IsAsked memory plain
          (read_frame 65536 (arrived (frame_of asked)))
          request))
      × ((state_of (
            serve_stream memory plain queued_one 5 2 65536
              (arrived (frame_of asked))
              (open_stream 100))).supervisor
          ≡ queued_one))
    ⊎ ((request : ApiRequest) × IsAsked memory plain
          (read_frame 65536 (arrived (frame_of asked)))
          request
        × ((state_of (
              serve_stream memory plain queued_one 5 2 65536
                (arrived (frame_of asked))
                (open_stream 100))).supervisor
            ≡ (handle memory queued_one 5 2 request).1))
serve_stream-supervisor_example =
    serve_stream-supervisor memory plain queued_one 5 2 65536 (arrived (frame_of asked))
      (open_stream 100)

-- A store that holds one event of the task.
abbrev stored : TaskEvent
stored = record { task_id = 1; sequence = 1; occurred_at_unix_ms = 0; kind = submission }

abbrev with_event : TaskSupervisor InMemoryEventStore
with_event = record queued_one {
  event_store = record { events = (1, stored ∷ []) ∷ []; max_events_per_task = 9 };
}

known : task_state with_event 1 ≡ some queued
unfolding task_state state_in get
known = refl

numbered : IsNumbered 1 1 (memory.history with_event.event_store 1)
unfolding get
numbered = (refl, refl, tt)

listed : memory.list with_event.event_store 1 0 ≡ ok (stored ∷ [])
unfolding Memory.list get
listed = refl

handle-events_page_example :
    (page : List TaskEvent) × (has_more : Bool) × (handle memory with_event 5 2
        (new_request (events 1 0 10))
      ≡ (ok_response (events_page page has_more), with_event))
    × (length page ≤ 10)
    × (page ++ drop (0 + length page) (stored ∷ []) ≡ stored ∷ [])
    × ((has_more ≡ false) ↔ (drop (0 + length page) (stored ∷ []) ≡ []))
unfolding get
handle-events_page_example =
    handle-events_page memory with_event 5 2 1 0 10 queued (stored ∷ []) known numbered
      (omega arith) (omega arith) listed
