-- ===== src/Adapters/Tool.antt =====
-- crates/aios-adapter-tool/src/lib.rs: registered handlers behind a gate. `H` is the type of the
-- handlers, with the trait `ToolHandler` as the record `ToolHandler`. The readings of the clock are
-- arguments, also that of the adapter, which is one adapter for each reading.
pub mod Arguments
pub mod Registered
mod Witnesses
use ai_os.Prelude.{
  ℕ, ◌+◌, ◌*◌, ◌≡◌, Bool, true, false, not, ◌&&◌, ◌||◌, List, [], ◌∷◌, Option, none, some, map, ltb,
  leb, nat_beq, if◌then◌else◌, ◌==◌, list_eq, length, all, any, contains, is_empty, keep_if,
  BTreeMap, get, insert, contains_key, checked_add, Result, ok, err, ◌>>=◌, ok_or, Outcome, returns,
  fails, nat_eq,
}
use ai_os.Core.Text.{Text, byte_len, is_ascii_alphanumeric}
use ai_os.Core.Policy.{CapabilityRequest, tool}
use ai_os.Runtime.Event.{TaskId, ApprovalId, OperationId, TaskSnapshot, EventStore}
use ai_os.Runtime.Approval.{Instant, Duration}
use ai_os.Runtime.Supervisor.{TaskSupervisor, text_ord}
use ai_os.Runtime.Supervisor.Tasks.{TaskExecutionContext, execution_context, remaining_wall_time}
use ai_os.Runtime.Execution
use ai_os.Runtime.Execution.{
  Adapter, Executed, ExecutionOutcome, ExecutionGate, Guarded, new_gate, supervisor_error, Reply,
}

abbrev pub default_max_routes : ℕ
default_max_routes = 256

abbrev pub max_max_routes : ℕ
max_max_routes = 4096

abbrev pub max_identifier_bytes : ℕ
max_identifier_bytes = 64

abbrev pub max_arguments : ℕ
max_arguments = 64

abbrev pub max_argument_bytes : ℕ
max_argument_bytes = 4096

abbrev pub max_total_argument_bytes : ℕ
max_total_argument_bytes = 65536

abbrev pub max_output_bytes : ℕ
max_output_bytes = 1048576

pub record RouteDefinition : Type 0 where
  pub capability_tool : Text
  pub action : Text

pub record ToolOperation : Type 0 where
  pub route : Text
  pub capability_tool : Text
  pub action : Text
  pub arguments : List Text
  pub execution_context : Option TaskExecutionContext

-- `GuardedOperation::capability_request`
unfoldable pub capability_request : ToolOperation → CapabilityRequest
capability_request operation = tool operation.capability_tool operation.action

pub record ToolOutput : Type 0 where
  pub bytes : List ℕ

pub data ToolFailure : Type 0 where
  handler_failure budget_failure : ToolFailure

pub data ToolAdapterError : Type 0 where
  invalid_config invalid_registration capacity_exceeded duplicate_route route_not_found
        invalid_arguments scope_mismatch handler_failed budget_exceeded output_too_large :
      ToolAdapterError

unfoldable pub from_bytes : List ℕ → Result ToolAdapterError ToolOutput
from_bytes bytes =
    if ltb max_output_bytes (length bytes)
    then err output_too_large
    else ok (record { bytes = bytes })

pub record ToolHandler (H : Type 0) : Type 0 where
  pub execute_for_task : H → TaskExecutionContext → List Text → Outcome H ToolFailure ToolOutput

unfoldable pub is_valid_identifier : Text → Bool
is_valid_identifier value =
    not (is_empty value)
    && leb (byte_len value) max_identifier_bytes
    && all
        (λ c.
          is_ascii_alphanumeric c
          || nat_beq c b'.'
          || nat_beq c b'_'
          || nat_beq c b':'
          || nat_beq c b'-')
        value

-- The loop of `validate_arguments`.
unfoldable pub validate_each : ℕ → List Text → Result ToolAdapterError (Unit {0})
validate_each total_bytes [] = ok tt
validate_each total_bytes (argument ∷ arguments) =
    if ltb max_argument_bytes (byte_len argument) || contains 0 argument
    then err invalid_arguments
    else ok_or (checked_add total_bytes (byte_len argument)) invalid_arguments >>= λ total.
        elim (ltb max_total_argument_bytes total) [
          | true ↦ err invalid_arguments
          | false ↦ validate_each total arguments
        ]

unfoldable pub validate_arguments : List Text → Result ToolAdapterError (Unit {0})
unfolding validate_each
validate_arguments arguments =
    if ltb max_arguments (length arguments)
    then err invalid_arguments
    else validate_each 0 arguments

-- `ToolCatalog`
pub record ToolCatalog : Type 0 where
  pub definitions : BTreeMap Text RouteDefinition

unfoldable pub prepare : ToolCatalog → Text → List Text → Result ToolAdapterError ToolOperation
unfolding validate_arguments
prepare catalog route arguments =
    ok_or (get route catalog.definitions) route_not_found >>= λ definition.
    validate_arguments arguments >>= λ _. ok (record {
      route = route;
      capability_tool = definition.capability_tool;
      action = definition.action;
      arguments = arguments;
      execution_context = none;
    })

unfoldable pub route_names_for_tools : ToolCatalog → List Text → List Text
route_names_for_tools catalog capability_tools =
    map (λ entry. entry.0)
      (keep_if (λ entry. any (λ granted. granted == entry.1.capability_tool) capability_tools)
        catalog.definitions)

pub record ToolAdapterBuilder (H : Type 0) : Type 0 where
  pub definitions : BTreeMap Text RouteDefinition
  pub handlers : BTreeMap Text H
  pub max_routes : ℕ

pub record ToolAdapter (H : Type 0) : Type 0 where
  pub definitions : BTreeMap Text RouteDefinition
  pub handlers : BTreeMap Text H

-- `ToolExecutionGate` is the gate over this adapter.
abbrev pub ToolExecutionGate : Type 0 → Type 0
ToolExecutionGate H = ExecutionGate (ToolAdapter H) ToolOperation

module _ {H : Type 0} where
  unfoldable pub new : ℕ → Result ToolAdapterError (ToolAdapterBuilder H)
  new max_routes =
      if nat_beq max_routes 0 || ltb max_max_routes max_routes
      then err invalid_config
      else ok (record { definitions = []; handlers = []; max_routes = max_routes })

  unfoldable pub register :
      ToolAdapterBuilder H
      → Text
      → Text
      → Text
      → H
      → Outcome (ToolAdapterBuilder H) ToolAdapterError (Unit {0})
  register builder route capability_tool action handler =
      if not (is_valid_identifier route)
        || not (is_valid_identifier capability_tool)
        || not (is_valid_identifier action)
      then fails invalid_registration builder
      else if contains_key route builder.definitions
      then fails duplicate_route builder
      else if leb builder.max_routes (length builder.definitions)
      then fails capacity_exceeded builder
      else returns tt (record builder {
        definitions =
            insert route (record { capability_tool = capability_tool; action = action })
              builder.definitions;
        handlers = insert route handler builder.handlers;
      })

  unfoldable pub build : ToolAdapterBuilder H → ToolCatalog × ToolExecutionGate H
  unfolding new_gate
  build builder = (
    record { definitions = builder.definitions },
    new_gate (record { definitions = builder.definitions; handlers = builder.handlers }),
  )

abbrev pub adapter_error_of : ToolFailure → ToolAdapterError
adapter_error_of handler_failure = handler_failed
adapter_error_of budget_failure = budget_exceeded

module _ {H : Type 0} (T : ToolHandler H) where
  -- The call of the handler; the map holds the handler as the call leaves it.
  unfoldable pub call_handler :
      ToolAdapter H
      → ToolOperation
      → TaskExecutionContext
      → H
      → Outcome (ToolAdapter H) ToolAdapterError ToolOutput
  call_handler adapter operation context handler =
      elim (T.execute_for_task handler context operation.arguments) [
        | returns output handler' ↦
            returns output
              (record adapter { handlers = insert operation.route handler' adapter.handlers })
        | fails failure handler' ↦
            fails (adapter_error_of failure)
              (record adapter { handlers = insert operation.route handler' adapter.handlers })
      ]

  unfoldable pub execute :
      Instant → ToolAdapter H → ToolOperation → Outcome (ToolAdapter H) ToolAdapterError ToolOutput
  unfolding call_handler
  execute now adapter operation = elim (validate_arguments operation.arguments) [
    | err e ↦ fails e adapter
    | ok _ ↦ elim operation.execution_context [
      | none ↦ fails scope_mismatch adapter
      | some context ↦
          if nat_beq (remaining_wall_time context now) 0
          then fails budget_exceeded adapter
          else elim (get operation.route adapter.definitions) [
            | none ↦ fails route_not_found adapter
            | some definition ↦
                if not (definition.capability_tool == operation.capability_tool)
                  || not (definition.action == operation.action)
                then fails scope_mismatch adapter
                else elim (get operation.route adapter.handlers) [
                  | none ↦ fails route_not_found adapter
                  | some handler ↦ call_handler adapter operation context handler
                ]
          ]
    ]
  ]

  -- The adapter as the gate calls it, at one reading of the clock.
  abbrev pub tool_adapter :
      Instant → Adapter (ToolAdapter H) ToolOperation ToolOutput ToolAdapterError
  tool_adapter now = record { capability_request = capability_request; execute = execute now }

  -- `ToolExecutionGate::request`; the other methods are those of the gate.
  unfoldable pub request :
      {St : Type 0} (S : EventStore St)
      → Guarded St (ToolAdapter H) ToolOperation
      → Instant
      → Instant
      → Instant
      → OperationId
      → ApprovalId
      → TaskId
      → ToolOperation
      → Duration
      → Reply S (tool_adapter 0) (ExecutionOutcome ToolOutput)
  request S g first now later operation_id approval_id task_id operation approval_ttl =
      elim (execution_context g.supervisor task_id) [
        | err e ↦ fails (supervisor_error e) g
        | ok context ↦
            Execution.request S (tool_adapter later) g first now operation_id approval_id task_id
              (record operation { execution_context = some context }) approval_ttl
      ]
