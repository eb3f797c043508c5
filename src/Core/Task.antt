-- ===== src/Core/Task.antt =====
-- crates/aios-core/src/task.rs: the contract of a task and its validation. A failure of validation
-- is the field that it names; the message is fixed by the field.
pub mod Paths
pub mod Validity
use ai_os.Prelude.{
  ℕ, suc, ◌+◌, ◌*◌, ◌≡◌, ◌↔◌, refl, Bool, true, false, ◌&&◌, ◌||◌, not, List, [], ◌∷◌, ◌++◌, map,
  Option, none, some, arith, ltb, leb, nat_beq, nat_eq, if◌then◌else◌, Eq, ◌==◌, eq_of_discrete,
  ℕ_discrete, length, all, any, is_empty, contains, head, last, list_beq, list_beq_iff, list_eq,
  Result, ok, err,
}
use ai_os.Core.Text.{
  Text, codes, bytes, byte_len, is_ascii_alphanumeric, ascii_lowercase, is_blank, split,
  starts_with,
}
use ai_os.Core.Address.{is_ip_address}

abbrev pub max_goal_chars : ℕ
max_goal_chars = 8192

abbrev pub max_idempotency_key_bytes : ℕ
max_idempotency_key_bytes = 128

abbrev pub max_filesystem_capabilities : ℕ
max_filesystem_capabilities = 128

abbrev pub max_tools : ℕ
max_tools = 64

abbrev pub max_approval_actions : ℕ
max_approval_actions = 64

abbrev pub max_network_destinations : ℕ
max_network_destinations = 64

abbrev pub max_path_bytes : ℕ
max_path_bytes = 4096

abbrev pub max_identifier_bytes : ℕ
max_identifier_bytes = 64

pub data FileAccess : Type 0 where
  read write : FileAccess

pub record FileCapability : Type 0 where
  pub path : Text
  pub access : FileAccess

pub data NetworkTransport : Type 0 where
  tcp : NetworkTransport

pub record NetworkDestination : Type 0 where
  pub host : Text
  pub transport : NetworkTransport
  pub port : ℕ  -- u16

pub data NetworkPolicy : Type 0 where
  deny : NetworkPolicy
  allow : List NetworkDestination → NetworkPolicy

pub record CapabilitySet : Type 0 where
  pub filesystem : List FileCapability
  pub network : NetworkPolicy
  pub tools : List Text

pub record Budget : Type 0 where
  pub wall_time_seconds : ℕ  -- u64
  pub memory_bytes : ℕ  -- u64
  pub max_parallel_agents : ℕ  -- u8

pub record ApprovalPolicy : Type 0 where
  pub required_for : List Text

pub record TaskSpec : Type 0 where
  pub idempotency_key : Text
  pub goal : Text
  pub capabilities : CapabilitySet
  pub budget : Budget
  pub approval : ApprovalPolicy

unfoldable pub TaskSpec-discrete : Discrete TaskSpec
TaskSpec-discrete = hlevel ℕ_discrete

abbrev pub access_beq : FileAccess → FileAccess → Bool
access_beq read read = true
access_beq write write = true
access_beq _ _ = false

pub access_beq_iff : (a b : FileAccess) → (access_beq a b ≡ true) ↔ (a ≡ b)
access_beq_iff a b = ground arith

instance abbrev pub access_eq : Eq FileAccess
access_eq = record { beq = access_beq; beq_iff = access_beq_iff }

abbrev pub file_beq : FileCapability → FileCapability → Bool
file_beq a b = a.path == b.path && a.access == b.access

pub file_beq_iff : (a b : FileCapability) → (file_beq a b ≡ true) ↔ (a ≡ b)
file_beq_iff a b = ground (arith, list_beq_iff a.path b.path, access_beq_iff a.access b.access)

instance abbrev pub file_eq : Eq FileCapability
file_eq = record { beq = file_beq; beq_iff = file_beq_iff }

abbrev pub transport_beq : NetworkTransport → NetworkTransport → Bool
transport_beq tcp tcp = true

abbrev pub destination_beq : NetworkDestination → NetworkDestination → Bool
destination_beq a b = a.host == b.host && transport_beq a.transport b.transport && a.port == b.port

pub destination_beq_iff : (a b : NetworkDestination) → (destination_beq a b ≡ true) ↔ (a ≡ b)
destination_beq_iff a b = ground (arith, list_beq_iff a.host b.host)

instance abbrev pub destination_eq : Eq NetworkDestination
destination_eq = record { beq = destination_beq; beq_iff = destination_beq_iff }

-- The field that a `ValidationError` names.
pub data Field : Type 0 where
  goal idempotency_key capabilities_filesystem capabilities_filesystem_path : Field
  capabilities_network_destinations capabilities_network_destinations_host : Field
  capabilities_network_destinations_port capabilities_tools : Field
  budget_wall_time_seconds budget_memory_bytes budget_max_parallel_agents : Field
  approval_required_for : Field

abbrev pub is_identifier_char : ℕ → Bool
is_identifier_char c =
    is_ascii_alphanumeric c || nat_beq c b'.' || nat_beq c b'_' || nat_beq c b':' || nat_beq c b'-'

unfoldable pub is_valid_identifier : Text → ℕ → Bool
is_valid_identifier value max_bytes =
    not (is_empty value) && leb (byte_len value) max_bytes && all is_identifier_char value

abbrev pub is_normal_component : Text → Bool
is_normal_component component =
    not (is_empty component) && not (component == codes ".") && not (component == codes "..")

-- `skip(1)`
abbrev pub skip_one {ℓ} : {A : Type ℓ} → List A → List A
skip_one [] = []
skip_one (x ∷ xs) = xs

unfoldable pub is_normalized_absolute_path : Text → Bool
is_normalized_absolute_path path =
    starts_with b'/' path
    && not (path == codes "/")
    && leb (byte_len path) max_path_bytes
    && not (contains 0 path)
    && all is_normal_component (skip_one (split b'/' path))

abbrev is_some_and : Option ℕ → (ℕ → Bool) → Bool
is_some_and none p = false
is_some_and (some c) p = p c

abbrev pub is_host_label : Text → Bool
is_host_label label =
    not (is_empty label)
    && leb (byte_len label) 63
    && is_some_and (head (bytes label)) is_ascii_alphanumeric
    && is_some_and (last (bytes label)) is_ascii_alphanumeric
    && all (λ byte. is_ascii_alphanumeric byte || nat_beq byte b'-') (bytes label)

unfoldable pub is_valid_network_host : Text → Bool
is_valid_network_host host =
    if is_empty host || ltb 253 (byte_len host) || not (host == map ascii_lowercase host)
    then false
    else if is_ip_address host
    then true
    else all is_host_label (split b'.' host)

-- `if failing { errors.push(ValidationError::new(field, …)) }`
abbrev pub error_if : Bool → Field → List Field
error_if true field = field ∷ []
error_if false field = []

pub validate_goal : Text → List Field
validate_goal text = error_if (is_blank text || ltb max_goal_chars (length text)) goal

pub validate_identifier : Field → Text → ℕ → List Field
validate_identifier field value max_bytes =
    error_if (not (is_valid_identifier value max_bytes)) field

pub validate_absolute_normalized_path : Text → List Field
validate_absolute_normalized_path path =
    error_if (not (is_normalized_absolute_path path)) capabilities_filesystem_path

-- The loops of `validate`, with what `seen` holds: an entry is checked, then looked up in `seen`.
pub validate_files : List FileCapability → List FileCapability → List Field
unfolding validate_absolute_normalized_path
validate_files seen [] = []
validate_files seen (c ∷ rest) =
    validate_absolute_normalized_path c.path
    ++ error_if (contains c seen) capabilities_filesystem
    ++ validate_files (c ∷ seen) rest

pub validate_identifiers : Field → List Text → List Text → List Field
unfolding validate_identifier
validate_identifiers field seen [] = []
validate_identifiers field seen (value ∷ rest) =
    validate_identifier field value max_identifier_bytes
    ++ error_if (contains value seen) field
    ++ validate_identifiers field (value ∷ seen) rest

pub validate_destinations : List NetworkDestination → List NetworkDestination → List Field
validate_destinations seen [] = []
validate_destinations seen (d ∷ rest) =
    error_if (not (is_valid_network_host d.host)) capabilities_network_destinations_host
    ++ error_if (nat_beq d.port 0) capabilities_network_destinations_port
    ++ error_if (contains d seen) capabilities_network_destinations
    ++ validate_destinations (d ∷ seen) rest

pub validate_network : NetworkPolicy → List Field
unfolding validate_destinations
validate_network deny = []
validate_network (allow destinations) =
    error_if (is_empty destinations || ltb max_network_destinations (length destinations))
      capabilities_network_destinations
    ++ validate_destinations [] destinations

pub validate_capabilities : CapabilitySet → List Field
unfolding validate_files validate_network validate_identifiers
validate_capabilities c =
    error_if (ltb max_filesystem_capabilities (length c.filesystem)) capabilities_filesystem
    ++ validate_files [] c.filesystem
    ++ validate_network c.network
    ++ error_if (ltb max_tools (length c.tools)) capabilities_tools
    ++ validate_identifiers capabilities_tools [] c.tools

pub validate_budget : Budget → List Field
validate_budget b =
    error_if (nat_beq b.wall_time_seconds 0) budget_wall_time_seconds
    ++ error_if (nat_beq b.memory_bytes 0) budget_memory_bytes
    ++ error_if (not (leb 1 b.max_parallel_agents && leb b.max_parallel_agents 8))
        budget_max_parallel_agents

pub validate_approval : ApprovalPolicy → List Field
unfolding validate_identifiers
validate_approval a =
    error_if (ltb max_approval_actions (length a.required_for)) approval_required_for
    ++ validate_identifiers approval_required_for [] a.required_for

pub validation_errors : TaskSpec → List Field
unfolding validate_goal validate_identifier validate_capabilities validate_budget validate_approval
validation_errors spec =
    validate_goal spec.goal
    ++ validate_identifier idempotency_key spec.idempotency_key max_idempotency_key_bytes
    ++ validate_capabilities spec.capabilities
    ++ validate_budget spec.budget
    ++ validate_approval spec.approval

-- `ValidationErrors::new`: no errors are no `ValidationErrors`.
abbrev pub non_empty_errors : List Field → Option (List Field)
non_empty_errors [] = none
non_empty_errors (e ∷ es) = some (e ∷ es)

unfoldable pub validate : TaskSpec → Result (List Field) (Unit {0})
unfolding validation_errors
validate spec = elim (non_empty_errors (validation_errors spec)) [
  | some errors ↦ err errors
  | none ↦ ok tt
]
