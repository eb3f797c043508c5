-- ===== src/Runtime/Execution.antt =====
-- crates/aios-runtime/src/execution.rs: the gate that keeps complete operations and calls an adapter
-- only after the supervisor allowed it. The two traits are the record `Adapter`; a method changes the
-- gate and the supervisor, so both are its state. Each reading of the clock is an argument.
use ai_os.Prelude.{
  ℕ, Bool, true, false, not, List, [], ◌∷◌, Option, none, some, nat_beq, nat_ord, if◌then◌else◌,
  length, BTreeMap, get, insert, remove, contains_key, keys_where, values, keep_if, map, Outcome,
  returns, fails,
}
use ai_os.Core.State.{is_terminal}
use ai_os.Core.Policy.{CapabilityRequest, DenialReason}
use ai_os.Runtime.Event.{TaskId, ApprovalId, OperationId, TaskSnapshot, EventStore}
use ai_os.Runtime.Approval.{Instant, Duration, ApprovalReceipt, ApprovalRequest}
use ai_os.Runtime.Supervisor.{TaskSupervisor, SupervisorError, Answer}
use ai_os.Runtime.Supervisor.Tasks
use ai_os.Runtime.Supervisor.Tasks.{get_task}
use ai_os.Runtime.Supervisor.Operations.{
  OperationAuthorization, allowed_operation, denied_operation, needs_approval, request_operation,
  approve_operation, authorize_operation, deny_operation, expire_approvals,
}
pub mod Authorized
pub mod Once
pub mod Tables
pub mod Dropped
mod Witnesses

-- `GuardedOperation` and `ExecutionAdapter`: what the adapter does is its own affair.
pub record Adapter (A O Output E : Type 0) : Type 0 where
  pub capability_request : O → CapabilityRequest
  pub execute : A → O → Outcome A E Output

pub record Executed (T : Type 0) : Type 0 where
  pub output : T
  pub approval : Option ApprovalReceipt

pub data ExecutionOutcome (T : Type 0) : Type 0 where
  executed : Executed T → ExecutionOutcome T
  denied_for : DenialReason → ExecutionOutcome T
  approval_needed : ApprovalRequest → ExecutionOutcome T

pub data ExecutionError (E : Type 0) : Type 0 where
  supervisor_error : SupervisorError → ExecutionError E
  adapter_error : E → ExecutionError E
  operation_not_found : ExecutionError E

pub record PendingExecution (O : Type 0) : Type 0 where
  pub task_id : TaskId
  pub approval_id : ApprovalId
  pub operation : O

pub record ExecutionGate (A O : Type 0) : Type 0 where
  pub adapter : A
  pub pending : BTreeMap OperationId (PendingExecution O)
  pub approval_index : BTreeMap ApprovalId OperationId

-- The two values that a method of the gate borrows mutably.
pub record Guarded (St A O : Type 0) : Type 0 where
  pub gate : ExecutionGate A O
  pub supervisor : TaskSupervisor St

unfoldable pub new_gate : {A O : Type 0} → A → ExecutionGate A O
new_gate adapter = record { adapter = adapter; pending = []; approval_index = [] }

unfoldable pub is_over : {St : Type 0} → TaskSupervisor St → TaskId → Bool
is_over sup task_id = elim (get_task sup task_id) [
  | none ↦ false
  | some task ↦ is_terminal task.state
]

module _ {A O : Type 0} where
  unfoldable pub pending_count : ExecutionGate A O → ℕ
  pending_count gate = length gate.pending

  unfoldable pub remove_pending :
      ExecutionGate A O → ApprovalId → OperationId → ExecutionGate A O × Option (PendingExecution O)
  remove_pending gate approval_id operation_id = (
    record gate {
      approval_index = remove approval_id gate.approval_index;
      pending = remove operation_id gate.pending;
    },
    get operation_id gate.pending,
  )

  -- The loop of `remove_task`.
  unfoldable pub remove_operations : List OperationId → ExecutionGate A O → ExecutionGate A O
  remove_operations [] gate = gate
  remove_operations (operation_id ∷ ids) gate =
      remove_operations ids (elim (get operation_id gate.pending) [
        | none ↦ gate
        | some pending ↦ record gate {
          pending = remove operation_id gate.pending;
          approval_index = remove pending.approval_id gate.approval_index;
        }
      ])

  unfoldable pub remove_task : ExecutionGate A O → TaskId → ExecutionGate A O
  unfolding remove_operations
  remove_task gate task_id =
      remove_operations (keys_where (λ pending. nat_beq pending.task_id task_id) gate.pending) gate

  unfoldable pub remove_tasks : List TaskId → ExecutionGate A O → ExecutionGate A O
  unfolding remove_task
  remove_tasks [] gate = gate
  remove_tasks (task_id ∷ ids) gate = remove_tasks ids (remove_task gate task_id)

  unfoldable pub purge_terminal :
      {St : Type 0} → ExecutionGate A O → TaskSupervisor St → ExecutionGate A O
  unfolding remove_tasks is_over
  purge_terminal gate sup =
      remove_tasks (keep_if (is_over sup) (map (λ pending. pending.task_id) (values gate.pending)))
        gate

module _ {St A O Output E : Type 0} (S : EventStore St) (D : Adapter A O Output E) where
  abbrev pub Reply : Type 0 → Type 0
  Reply T = Outcome (Guarded St A O) (ExecutionError E) T

  -- `supervisor.method(…)?`
  abbrev pub ask :
      {T U : Type 0} → ExecutionGate A O → Answer St T → (T → TaskSupervisor St → Reply U) → Reply U
  ask gate (fails e sup) continue =
      fails (supervisor_error e) (record { gate = gate; supervisor = sup })
  ask gate (returns answer sup) continue = continue answer sup

  -- `self.adapter.execute(operation)`, with what is made of its output.
  abbrev pub run_adapter :
      {U : Type 0} → ExecutionGate A O → TaskSupervisor St → O → (Output → U) → Reply U
  run_adapter gate sup operation wrap = elim (D.execute gate.adapter operation) [
    | returns output adapter ↦
        returns (wrap output)
          (record { gate = record gate { adapter = adapter }; supervisor = sup })
    | fails e adapter ↦
        fails (adapter_error e)
          (record { gate = record gate { adapter = adapter }; supervisor = sup })
  ]

  unfoldable pub request :
      Guarded St A O
      → Instant
      → Instant
      → OperationId
      → ApprovalId
      → TaskId
      → O
      → Duration
      → Reply (ExecutionOutcome Output)
  request g first now operation_id approval_id task_id operation approval_ttl =
      ask g.gate
        (request_operation S g.supervisor first now operation_id approval_id task_id
          (D.capability_request operation) approval_ttl)
        λ authorization sup. elim authorization [
          | allowed_operation ↦
              run_adapter g.gate sup operation
                λ output. executed (record { output = output; approval = none })
          | denied_operation reason ↦
              returns (denied_for reason) (record { gate = g.gate; supervisor = sup })
          | needs_approval approval ↦ returns (approval_needed approval) (record {
            supervisor = sup;
            gate = record g.gate {
              pending =
                  insert approval.operation_id
                    (record {
                      task_id = task_id;
                      approval_id = approval.approval_id;
                      operation = operation;
                    })
                    g.gate.pending;
              approval_index =
                  insert approval.approval_id approval.operation_id g.gate.approval_index;
            };
          })
        ]

  -- What follows the approval.
  unfoldable pub execute_pending :
      ExecutionGate A O
      → TaskSupervisor St
      → Instant
      → OperationId
      → Option (PendingExecution O)
      → Reply (Executed Output)
  execute_pending gate sup now operation_id none =
      fails operation_not_found (record { gate = gate; supervisor = sup })
  execute_pending gate sup now operation_id (some pending) =
      ask gate
        (authorize_operation S sup now pending.task_id operation_id
          (D.capability_request pending.operation))
        λ approval sup'.
          run_adapter gate sup' pending.operation
            λ output. record { output = output; approval = some approval }

  -- `first`, `now` and `last` are the readings of the expiry, the approval and the authorization.
  unfoldable pub approve_and_execute :
      Guarded St A O → Instant → Instant → Instant → ApprovalId → Reply (Executed Output)
  unfolding execute_pending remove_pending
  approve_and_execute g first now last approval_id = elim (get approval_id g.gate.approval_index) [
    | none ↦ fails operation_not_found g
    | some operation_id ↦
        if not (contains_key operation_id g.gate.pending)
        then fails operation_not_found g
        else ask g.gate (approve_operation S g.supervisor first now approval_id) λ _ sup.
          let (gate, removed) = remove_pending g.gate approval_id operation_id in
          execute_pending gate sup last operation_id removed
  ]

  unfoldable pub deny : Guarded St A O → Instant → ApprovalId → Reply TaskSnapshot
  unfolding remove_pending
  deny g now approval_id = elim (get approval_id g.gate.approval_index) [
    | none ↦ fails operation_not_found g
    | some operation_id ↦ ask g.gate (deny_operation S g.supervisor now approval_id) λ task sup.
        returns task
          (record { gate = (remove_pending g.gate approval_id operation_id).0; supervisor = sup })
  ]

  unfoldable pub expire : Guarded St A O → Instant → Reply ℕ
  unfolding purge_terminal
  expire g now =
      ask g.gate (expire_approvals S g.supervisor now) λ expired sup.
        returns expired (record { gate = purge_terminal g.gate sup; supervisor = sup })

  unfoldable pub cancel : Guarded St A O → TaskId → Reply Bool
  unfolding remove_task
  cancel g task_id = ask g.gate (Tasks.cancel S g.supervisor task_id) λ changed sup.
      returns changed (record { gate = remove_task g.gate task_id; supervisor = sup })
