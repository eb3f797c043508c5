-- ===== src/Runtime/Supervisor/Witnesses.antt =====
-- The theorems on the supervisor (crates/aios-runtime/src/supervisor.rs) at concrete inputs.
use ai_os.Prelude.{
  Result, false, ℕ, ◌+◌, ◌<◌, ◌≡◌, ◌≢◌, refl, List, [], ◌∷◌, some, none, arith, nat_ord, get,
  insert, remove, ok, returns, fails, ℕ_discrete, length, state_of, u64_mod, ok_or, ◌>>=◌,
}
use ai_os.Core.State.{queued, running, waiting_approval, task_state_eq, transition_to}
use ai_os.Core.Text.{codes, byte_len, split, is_ascii_alphanumeric, is_whitespace}
use ai_os.Core.Task.{
  TaskSpec, write, deny, validate, is_normalized_absolute_path, is_valid_identifier,
}
use ai_os.Core.Policy.{
  CapabilityRequest, file, PolicyDecision, approval_required, from_task, evaluate, evaluate_file,
  finish, path_is_within,
}
use ai_os.Runtime.Event.{
  TaskEvent, EventStore, event_now, corrupt, state_transitioned, approval_consumed,
}
use ai_os.Runtime.Event.Memory
use ai_os.Runtime.Event.Memory.{InMemoryEventStore, append_batch}
use ai_os.Runtime.Event.Memory.Laws.{in_memory_store}
use ai_os.Runtime.Approval.{ApprovalGrant, not_found, authorize}
use ai_os.Storage.Recovery.{recover_snapshot}
use ai_os.Runtime.Supervisor.{
  TaskRecord, TaskSupervisor, ApprovedOperation, approval_error, state_in, task_state, action,
}
use ai_os.Runtime.Supervisor.Tasks.{new, submit, submit_new, start}
use ai_os.Runtime.Supervisor.Operations.{
  decide_request, consume, authorize_operation, CapabilityRequest-discrete,
}
use ai_os.Runtime.Supervisor.Audit.Sound.{IsSound}
use ai_os.Runtime.Supervisor.Audit.Reachable.{
  Reachable, on_new, on_submit, on_start, Reachable-IsSound, recover_snapshot-Reachable,
  decide_request-Reachable,
}
use ai_os.Runtime.Supervisor.Guard.{
  authorize_operation-eq-returns, authorize_operation_once, start_waiting,
}
use ai_os.Core.Error.{runtime_restarted}
use ai_os.Core.State.{submitted, validating, failed, can_transition_to}
use ai_os.Runtime.Event.{EventStoreError, TaskSnapshot, submission, task_failed}
use ai_os.Runtime.Supervisor.Tasks.{fresh}
use ai_os.Storage.Recovery.{is_live, scan_events, scan_kind}
use ai_os.Runtime.Supervisor.Restart.{recover}
use ai_os.Runtime.Supervisor.Restarted.{recover_settles}
use ai_os.Prelude.{nat_beq, if◌then◌else◌, subst, sym, BTreeMap}
use ai_os.Core.State.{TaskState}
use ai_os.Runtime.Supervisor.Restart.{load}
use ai_os.Runtime.Supervisor.Audit.Log.{IsLogged, scan_kinds, settled, commit}
use ai_os.Runtime.Supervisor.Audit.Restarts.{recover-IsLogged}

abbrev memory : EventStore InMemoryEventStore
memory = in_memory_store (λ _ _. 0)

abbrev spec : TaskSpec
spec = record {
  idempotency_key = codes "key";
  goal = codes "sum";
  capabilities = record {
    filesystem = (record { path = codes "/work"; access = write }) ∷ [];
    network = deny;
    tools = [];
  };
  budget = record { wall_time_seconds = 60; memory_bytes = 1024; max_parallel_agents = 1 };
  approval = record { required_for = codes "filesystem.write" ∷ [] };
}

-- A new supervisor, after the submission of a task and its start.
abbrev at_first : TaskSupervisor InMemoryEventStore
at_first = new Memory.default

abbrev submitted_one : TaskSupervisor InMemoryEventStore
submitted_one = state_of (submit memory at_first 1 spec)

abbrev started_one : TaskSupervisor InMemoryEventStore
started_one = state_of (start memory submitted_one 5 1)

no_history : (task : ℕ) → memory.history Memory.default task ≡ []
unfolding Memory.default get
no_history task = refl

first_free : state_in at_first.tasks at_first.recovered_tasks 1 ≡ none
unfolding new state_in get
first_free = refl

one_queued : state_in submitted_one.tasks submitted_one.recovered_tasks 1 ≡ some queued
unfolding new state_in get insert submit submit_new validate is_valid_identifier append_batch
    is_whitespace byte_len is_ascii_alphanumeric is_normalized_absolute_path split Memory.default
    event_now
one_queued = refl

one_idle : state_in submitted_one.tasks submitted_one.recovered_tasks 1 ≢ some waiting_approval
one_idle e = cc (one_queued, e)

started_one-Reachable : Reachable memory started_one
started_one-Reachable =
    on_start submitted_one 5 1 one_idle
      (on_submit at_first 1 spec first_free (on_new Memory.default no_history))

Reachable-IsSound_example : IsSound memory started_one
Reachable-IsSound_example = Reachable-IsSound memory started_one started_one-Reachable

four_events : length (memory.history started_one.event_store 1) ≡ 4
unfolding new state_in get insert submit submit_new validate is_valid_identifier append_batch
    is_whitespace byte_len is_ascii_alphanumeric is_normalized_absolute_path split Memory.default
    event_now start transition_to
four_events = refl

short : length (memory.history started_one.event_store 1) + 1 < u64_mod
short =
    let four : length (memory.history started_one.event_store 1) ≡ 4 = four_events in omega arith

recover_snapshot-Reachable_example :
    recover_snapshot 1 (memory.history started_one.event_store 1) ≡ (
      ok_or (task_state started_one 1) corrupt >>= λ state.
      ok (record { task_id = 1; state = state }))
recover_snapshot-Reachable_example =
    recover_snapshot-Reachable memory started_one 1 started_one-Reachable short

abbrev one_running : TaskRecord
one_running = record { spec = spec; state = running; started_at = some 5 }

started_task : get 1 started_one.tasks ≡ some one_running
unfolding new state_in get insert submit submit_new validate is_valid_identifier append_batch
    is_whitespace byte_len is_ascii_alphanumeric is_normalized_absolute_path split Memory.default
    event_now start transition_to
started_task = refl

abbrev writing : CapabilityRequest
writing = file (codes "/work/a") write

decide_request-Reachable_example :
    (d : PolicyDecision) × (decide_request one_running.spec writing ≡ ok d)
decide_request-Reachable_example =
    decide_request-Reachable memory started_one 1 one_running writing started_one-Reachable
      started_task refl

abbrev grant : ApprovalGrant
grant = record {
  approval_id = 5;
  task_id = 1;
  operation_id = 2;
  action = codes "filesystem.write";
  deadline = 100;
}

-- One running task with an approved operation.
abbrev approved_one : ApprovedOperation
approved_one = record { task_id = 1; request = writing; grant = grant }

abbrev ready : TaskSupervisor InMemoryEventStore
ready = record at_first {
  tasks = (1, one_running) ∷ [];
  approved_operations = (2, approved_one) ∷ [];
}

abbrev used : TaskSupervisor InMemoryEventStore
used = state_of (authorize_operation memory ready 9 1 2 writing)

authorized :
    authorize_operation memory ready 9 1 2 writing ≡ returns (record { approval_id = 5 }) used
unfolding authorize_operation get CapabilityRequest-discrete ℕ_discrete from_task validate
    is_whitespace is_valid_identifier byte_len is_ascii_alphanumeric is_normalized_absolute_path
    split evaluate path_is_within authorize action append_batch new Memory.default event_now
    evaluate_file finish insert remove consume decide_request
authorized = refl

authorize_operation-eq-returns_example :
    (r : TaskRecord) × (approved : ApprovedOperation) × (get 1 ready.tasks ≡ some r)
    × (r.state ≡ running)
    × (get 2 ready.approved_operations ≡ some approved)
    × (approved.task_id ≡ 1)
    × (approved.request ≡ writing)
    × (decide_request r.spec writing ≡ ok approval_required)
    × (9 < approved.grant.deadline)
    × ((events : List TaskEvent) × (store : InMemoryEventStore) × (memory.append_batch
            ready.event_store 1
            (approval_consumed approved.grant.approval_id 2 ∷ [])
          ≡ returns events store)
        × (used ≡ record ready {
          event_store = store;
          approved_operations = remove 2 ready.approved_operations;
        }))
authorize_operation-eq-returns_example =
    authorize_operation-eq-returns memory ready used 9 1 2 writing (record { approval_id = 5 })
      authorized

authorize_operation_once_example :
    authorize_operation memory used 10 1 2 writing ≡ fails (approval_error not_found) used
authorize_operation_once_example =
    authorize_operation_once memory ready used 9 10 1 2 writing writing (record { approval_id = 5 })
      authorized

abbrev one_waiting : TaskRecord
one_waiting = record { spec = spec; state = waiting_approval; started_at = some 5 }

abbrev waiting_sup : TaskSupervisor InMemoryEventStore
waiting_sup = record at_first { tasks = (1, one_waiting) ∷ [] }

waiting_task : get 1 waiting_sup.tasks ≡ some one_waiting
unfolding get
waiting_task = refl

abbrev resumed_event : TaskEvent
resumed_event = record {
  task_id = 1;
  sequence = 1;
  occurred_at_unix_ms = 0;
  kind = state_transitioned waiting_approval running;
}

abbrev resumed_store : InMemoryEventStore
resumed_store = record { events = (1, resumed_event ∷ []) ∷ []; max_events_per_task = 10000 }

resumed :
    memory.append_batch waiting_sup.event_store 1 (state_transitioned waiting_approval running ∷ [])
    ≡ returns (resumed_event ∷ []) resumed_store
unfolding append_batch Memory.default new get insert event_now
resumed = refl

start_waiting_example :
    (sup' : TaskSupervisor InMemoryEventStore) × (start memory waiting_sup 8 1 ≡ returns tt sup')
    × (get 1 sup'.tasks ≡ some (record one_waiting { state = running; started_at = some 8 }))
    × (sup'.pending_operations ≡ waiting_sup.pending_operations)
    × (sup'.approval_authority ≡ waiting_sup.approval_authority)
start_waiting_example =
    start_waiting memory waiting_sup 8 1 one_waiting (resumed_event ∷ []) resumed_store waiting_task
      refl resumed

-- A restart while the task runs: the store gives what the recovery makes of its log.
abbrev snapshots_of : InMemoryEventStore → Result EventStoreError (List TaskSnapshot)
snapshots_of store = recover_snapshot 1 (memory.history store 1) >>= λ snapshot. ok (snapshot ∷ [])

abbrev running_store : InMemoryEventStore
running_store = record {
  events =
      (
        1,
        record { task_id = 1; sequence = 1; occurred_at_unix_ms = 0; kind = submission }
            ∷ record {
              task_id = 1;
              sequence = 2;
              occurred_at_unix_ms = 0;
              kind = state_transitioned submitted validating;
            }
            ∷ [],
      )
      ∷ [];
  max_events_per_task = 10000;
}

abbrev after_restart : InMemoryEventStore
after_restart = record {
  events =
      (
        1,
        record { task_id = 1; sequence = 1; occurred_at_unix_ms = 0; kind = submission }
            ∷ record {
              task_id = 1;
              sequence = 2;
              occurred_at_unix_ms = 0;
              kind = state_transitioned submitted validating;
            }
            ∷ record {
              task_id = 1;
              sequence = 3;
              occurred_at_unix_ms = 0;
              kind = task_failed runtime_restarted;
            }
            ∷ record {
              task_id = 1;
              sequence = 4;
              occurred_at_unix_ms = 0;
              kind = state_transitioned validating failed;
            }
            ∷ [],
      )
      ∷ [];
  max_events_per_task = 10000;
}

abbrev restarted : TaskSupervisor InMemoryEventStore
restarted = record (fresh after_restart 10) { recovered_tasks = (1, failed) ∷ [] }

recovered : recover memory snapshots_of running_store 10 ≡ returns restarted restarted.event_store
unfolding recover recover_snapshot scan_events get scan_kind can_transition_to insert append_batch
    event_now
recovered = refl

recover_settles_example : is_live (task_state restarted 1) ≡ false
recover_settles_example =
    recover_settles memory snapshots_of running_store restarted.event_store 10 restarted recovered 1

abbrev one_validating : BTreeMap ℕ TaskState
one_validating = (1, validating) ∷ []

empty-IsLogged : IsLogged memory Memory.default (λ _. none)
unfolding Memory.default get scan_kinds
empty-IsLogged = record { numbered = λ _. tt; replays = λ _. refl }

first_events :
    memory.append_batch Memory.default 1 (submission ∷ state_transitioned submitted validating ∷ [])
    ≡ returns (memory.history running_store 1) running_store
unfolding append_batch Memory.default get insert event_now
first_events = refl

accepted_events :
    scan_kinds (settled none) (submission ∷ state_transitioned submitted validating ∷ [])
    ≡ ok (settled (some validating))
unfolding scan_kinds scan_kind can_transition_to
accepted_events = refl

moved : (task : ℕ) → get task one_validating ≡ (if nat_beq 1 task then some validating else none)
unfolding get
moved task = refl

running-IsLogged : IsLogged memory running_store (λ task. get task one_validating)
running-IsLogged =
    commit memory Memory.default running_store (λ _. none) (λ task. get task one_validating) 1
      (submission ∷ state_transitioned submitted validating ∷ []) (memory.history running_store 1)
      (some validating) first_events accepted_events moved empty-IsLogged

abbrev listed : List TaskSnapshot
listed = (record { task_id = 1; state = validating }) ∷ []

snapshots_listed : snapshots_of running_store ≡ ok listed
unfolding recover_snapshot scan_events get scan_kind can_transition_to
snapshots_listed = refl

listed_loaded : load listed [] ≡ ok one_validating
unfolding load get insert
listed_loaded = refl

honest :
    (snapshots : List TaskSnapshot) (m : BTreeMap ℕ TaskState)
    → snapshots_of running_store ≡ ok snapshots
    → load snapshots [] ≡ ok m
    → IsLogged memory running_store (λ task. get task m)
honest snapshots m e l =
    let same : listed ≡ snapshots = cc (snapshots_listed, e) in
    let loaded : load listed [] ≡ ok m = rw (sym same) at l in
    let table : one_validating ≡ m = cc (listed_loaded, loaded) in
    subst (λ (x : BTreeMap ℕ TaskState). IsLogged memory running_store (λ task. get task x)) table
      running-IsLogged

recover-IsLogged_example :
    IsLogged memory restarted.event_store (λ task. get task restarted.recovered_tasks)
recover-IsLogged_example =
    recover-IsLogged memory snapshots_of running_store restarted.event_store 10 restarted honest
      recovered
