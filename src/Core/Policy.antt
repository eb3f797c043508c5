-- ===== src/Core/Policy.antt =====
-- crates/aios-core/src/policy.rs: the deterministic capability policy over one validated task.
pub mod Components
pub mod Decisions
use ai_os.Prelude.{
  ℕ, ◌≡◌, ◌↔◌, Bool, true, false, ◌&&◌, ◌||◌, not, List, [], ◌∷◌, Option, none, some, arith,
  nat_beq, nat_eq, if◌then◌else◌, Eq, ◌==◌, any, list_eq, strip_prefix, Result, ok, err,
}
use ai_os.Core.Text.{Text, codes, starts_with}
use ai_os.Core.Task.{
  TaskSpec, FileAccess, read, write, FileCapability, NetworkTransport, NetworkDestination,
  NetworkPolicy, deny, allow, access_eq, transport_beq, Field, is_valid_identifier,
  is_normalized_absolute_path, is_valid_network_host, validate,
}

abbrev pub max_action_bytes : ℕ
max_action_bytes = 64

abbrev pub max_tool_name_bytes : ℕ
max_tool_name_bytes = 64

pub data CapabilityRequest : Type 0 where
  file : Text → FileAccess → CapabilityRequest
  network : Text → NetworkTransport → ℕ → CapabilityRequest
  tool : Text → Text → CapabilityRequest

pub data DenialReason : Type 0 where
  invalid_request capability_not_granted : DenialReason

pub data PolicyDecision : Type 0 where
  allowed : PolicyDecision
  denied : DenialReason → PolicyDecision
  approval_required : PolicyDecision

pub record CapabilityPolicy : Type 0 where
  pub task : TaskSpec

unfoldable pub from_task : TaskSpec → Result (List Field) CapabilityPolicy
from_task task = elim (validate task) [ ok _ ↦ ok (record { task = task }) | err e ↦ err e ]

unfoldable pub path_is_within : Text → Text → Bool
path_is_within path capability_path =
    path == capability_path || elim (strip_prefix capability_path path) [
      | none ↦ false
      | some suffix ↦ starts_with b'/' suffix
    ]

unfoldable pub finish : CapabilityPolicy → Bool → Text → PolicyDecision
finish policy granted action =
    if not granted
    then denied capability_not_granted
    else if any (λ required. required == action) policy.task.approval.required_for
    then approval_required
    else allowed

abbrev pub file_action : FileAccess → Text
file_action read = codes "filesystem.read"
file_action write = codes "filesystem.write"

abbrev pub egress_action : Text
egress_action = codes "network.egress"

abbrev pub allows_file : Text → FileAccess → FileCapability → Bool
allows_file path access capability =
    capability.access == access && path_is_within path capability.path

unfoldable pub evaluate_file : CapabilityPolicy → Text → FileAccess → PolicyDecision
evaluate_file policy path access =
    if not (is_normalized_absolute_path path)
    then denied invalid_request
    else finish policy (any (allows_file path access) policy.task.capabilities.filesystem)
        (file_action access)

abbrev pub allows_destination : Text → NetworkTransport → ℕ → NetworkDestination → Bool
allows_destination host transport port d =
    d.host == host && transport_beq d.transport transport && nat_beq d.port port

abbrev pub network_granted : NetworkPolicy → Text → NetworkTransport → ℕ → Bool
network_granted deny host transport port = false
network_granted (allow destinations) host transport port =
    any (allows_destination host transport port) destinations

unfoldable pub evaluate_network : CapabilityPolicy → Text → NetworkTransport → ℕ → PolicyDecision
evaluate_network policy host transport port =
    if not (is_valid_network_host host) || nat_beq port 0
    then denied invalid_request
    else finish policy (network_granted policy.task.capabilities.network host transport port)
        egress_action

unfoldable pub evaluate_tool : CapabilityPolicy → Text → Text → PolicyDecision
evaluate_tool policy name action =
    if not (is_valid_identifier name max_tool_name_bytes)
      || not (is_valid_identifier action max_action_bytes)
    then denied invalid_request
    else finish policy (any (λ granted. granted == name) policy.task.capabilities.tools) action

unfoldable pub evaluate : CapabilityPolicy → CapabilityRequest → PolicyDecision
unfolding evaluate_file evaluate_network evaluate_tool finish
evaluate policy (file path access) = evaluate_file policy path access
evaluate policy (network host transport port) = evaluate_network policy host transport port
evaluate policy (tool name action) = evaluate_tool policy name action
