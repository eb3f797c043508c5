-- ===== src/Runtime/Execution/Witnesses.antt =====
-- The theorems on the gate (crates/aios-runtime/src/execution.rs) at concrete inputs.
use ai_os.Prelude.{
  ℕ, suc, ◌≡◌, ◌≢◌, Bool, false, refl, ◌⊎◌, [], ◌∷◌, some, nat_ord, pair_ord, get, insert, remove,
  returns, fails, state_of,
}
use ai_os.Core.State.{can_transition_to, running, waiting_approval, transition_to}
use ai_os.Core.Text.{is_whitespace, byte_len, is_ascii_alphanumeric, split, codes}
use ai_os.Core.Task.{
  validate, is_valid_identifier, is_normalized_absolute_path, TaskSpec, write, deny,
}
use ai_os.Core.Policy.{from_task, evaluate, path_is_within, finish, CapabilityRequest, file}
use ai_os.Runtime.Event.{OperationId, TaskSnapshot, EventStore, event_now}
use ai_os.Runtime.Event.Memory
use ai_os.Runtime.Event.Memory.{InMemoryEventStore, append_batch}
use ai_os.Runtime.Event.Memory.Laws.{in_memory_store}
use ai_os.Runtime.Approval
use ai_os.Runtime.Approval.{
  duration_ms, is_valid_action, ApprovalReceipt, default, put, expired_ids,
}
use ai_os.Runtime.Supervisor.{TaskSupervisor, action}
use ai_os.Runtime.Supervisor.Tasks.{fresh}
use ai_os.Runtime.Supervisor.Operations.{
  allowed_operation, request_operation, approve_operation, authorize_operation, expire_approvals,
}
use ai_os.Runtime.Execution.{
  Adapter, ExecutionError, operation_not_found, PendingExecution, ExecutionGate, Guarded, new_gate,
  is_over, request, approve_and_execute,
}
use ai_os.Runtime.Execution
use ai_os.Runtime.Execution.Tables.{Keeps}
use ai_os.Runtime.Execution.Dropped.{Reached, on_new, on_request, drops_exactly}
use ai_os.Runtime.Execution.Authorized.{
  request-adapter, approve_and_execute-adapter, others-adapter,
}
use ai_os.Runtime.Execution.Once.{IsWithout, approve_and_execute_once}

abbrev memory : EventStore InMemoryEventStore
memory = in_memory_store (λ _ _. 0)

-- An adapter that counts its calls.
abbrev counter : Adapter ℕ CapabilityRequest ℕ (Unit {0})
counter = record { capability_request = λ operation. operation; execute = λ n _. returns n (suc n) }

abbrev spec : TaskSpec
spec = record {
  idempotency_key = codes "key";
  goal = codes "sum";
  capabilities = record {
    filesystem = (record { path = codes "/work"; access = write }) ∷ [];
    network = deny;
    tools = [];
  };
  budget = record { wall_time_seconds = 60; memory_bytes = 1024; max_parallel_agents = 1 };
  approval = record { required_for = codes "filesystem.write" ∷ [] };
}

abbrev writing : CapabilityRequest
writing = file (codes "/work/a") write

-- A task that waits for the approval 5 of its operation 2, which the gate holds.
abbrev supervisor : TaskSupervisor InMemoryEventStore
supervisor = record (fresh Memory.default 10) {
  tasks = (1, record { spec = spec; state = waiting_approval; started_at = some 5 }) ∷ [];
  approval_authority = put default 5 1 2 (codes "filesystem.write") 100;
  pending_operations = (5, record { task_id = 1; operation_id = 2; request = writing }) ∷ [];
}

abbrev kept : PendingExecution CapabilityRequest
kept = record { task_id = 1; approval_id = 5; operation = writing }

abbrev gate : ExecutionGate ℕ CapabilityRequest
gate = record { adapter = 0; pending = (2, kept) ∷ []; approval_index = (5, 2) ∷ [] }

abbrev guarded : Guarded InMemoryEventStore ℕ CapabilityRequest
guarded = record { gate = gate; supervisor = supervisor }

request-adapter_example :
    ((state_of (request memory counter guarded 6 7 3 8 1 writing 50)).gate.adapter ≡ 0)
    ⊎ ((sup : TaskSupervisor InMemoryEventStore) × (request_operation memory supervisor 6 7 3 8 1
            writing 50
          ≡ returns allowed_operation sup)
        × ((state_of (request memory counter guarded 6 7 3 8 1 writing 50)).gate.adapter ≡ 1))
request-adapter_example = request-adapter memory counter guarded 6 7 3 8 1 writing 50

approve_and_execute-adapter_example :
    ((state_of (approve_and_execute memory counter guarded 6 7 8 5)).gate.adapter ≡ 0)
    ⊎ ((operation_id : OperationId) × (pending : PendingExecution CapabilityRequest)
        × (task : TaskSnapshot) × (sup : TaskSupervisor InMemoryEventStore)
        × (receipt : ApprovalReceipt) × (sup' : TaskSupervisor InMemoryEventStore) × (get 5
              gate.approval_index
            ≡ some operation_id)
        × (get operation_id gate.pending ≡ some pending)
        × (approve_operation memory supervisor 6 7 5 ≡ returns task sup)
        × (authorize_operation memory sup 8 pending.task_id operation_id pending.operation
            ≡ returns receipt sup')
        × ((state_of (approve_and_execute memory counter guarded 6 7 8 5)).gate.adapter ≡ 1))
approve_and_execute-adapter_example = approve_and_execute-adapter memory counter guarded 6 7 8 5

abbrev after_approval : TaskSupervisor InMemoryEventStore
after_approval = state_of (approve_operation memory supervisor 6 7 5)

approved :
    approve_operation memory supervisor 6 7 5
    ≡ returns (record { task_id = 1; state = running }) after_approval
unfolding approve_operation expire_approvals expired_ids insert default get transition_to
    Approval.approve append_batch Memory.default event_now
approved = refl

indexed : get 5 gate.approval_index ≡ some 2
unfolding get
indexed = refl

held : get 2 gate.pending ≡ some kept
unfolding get
held = refl

approve_and_execute_once_example :
    IsWithout memory counter 5 2 gate
      (state_of (approve_and_execute memory counter guarded 6 7 8 5)).gate
    × (approve_and_execute memory counter
          (state_of (approve_and_execute memory counter guarded 6 7 8 5))
          9
          10
          11
          5
        ≡ fails operation_not_found (state_of (approve_and_execute memory counter guarded 6 7 8 5)))
approve_and_execute_once_example =
    approve_and_execute_once memory counter guarded 6 7 8 5 2 kept
      (record { task_id = 1; state = running }) after_approval 9 10 11 indexed held approved

others-adapter_example :
    ((state_of (Execution.deny memory counter guarded 7 5)).gate.adapter ≡ 0)
    × ((state_of (Execution.expire memory counter guarded 7)).gate.adapter ≡ 0)
    × ((state_of (Execution.cancel memory counter guarded 1)).gate.adapter ≡ 0)
others-adapter_example = others-adapter memory counter guarded 7 5 1

-- The gate after a request for the task while it was running, which needs an approval.
abbrev asking : Guarded InMemoryEventStore ℕ CapabilityRequest
asking = record {
  gate = new_gate 0;
  supervisor = record supervisor {
    tasks = (1, record { spec = spec; state = running; started_at = some 5 }) ∷ [];
    approval_authority = default;
    pending_operations = [];
  };
}

abbrev asked : Guarded InMemoryEventStore ℕ CapabilityRequest
asked = state_of (request memory counter asking 6 6 2 5 1 writing 2000000)

asked-Reached : Reached memory counter asked.gate
asked-Reached = on_request asking (on_new 0) 6 6 2 5 1 writing 2000000

asked_pending : asked.gate.pending ≡ (2, kept) ∷ []
unfolding request request_operation expire_approvals expired_ids default get transition_to from_task
    validate is_whitespace is_valid_identifier byte_len is_ascii_alphanumeric
    is_normalized_absolute_path split evaluate path_is_within Approval.request finish
    can_transition_to insert remove duration_ms is_valid_action append_batch Memory.default
    event_now action new_gate
asked_pending = refl

drops_exactly_example :
    (((changed : Bool) × (g' : Guarded InMemoryEventStore ℕ CapabilityRequest) × (Execution.cancel
            memory counter asked 1
          ≡ returns changed g')
        × Keeps (λ p. p.task_id ≢ 1) asked.gate g'.gate)
      ⊎ ((e : ExecutionError (Unit {0})) × (g' : Guarded InMemoryEventStore ℕ CapabilityRequest)
          × (Execution.cancel memory counter asked 1 ≡ fails e g')
          × (g'.gate ≡ asked.gate)))
    × (((expired : ℕ) × (g' : Guarded InMemoryEventStore ℕ CapabilityRequest) × (Execution.expire
              memory counter asked 7
            ≡ returns expired g')
          × Keeps (λ p. is_over g'.supervisor p.task_id ≡ false) asked.gate g'.gate)
        ⊎ ((e : ExecutionError (Unit {0})) × (g' : Guarded InMemoryEventStore ℕ CapabilityRequest)
            × (Execution.expire memory counter asked 7 ≡ fails e g')
            × (g'.gate ≡ asked.gate)))
drops_exactly_example = drops_exactly memory counter asked 7 1 asked-Reached
