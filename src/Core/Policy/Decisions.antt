-- ===== src/Core/Policy/Decisions.antt =====
-- What the decisions of crates/aios-core/src/policy.rs mean, against a description of the grants of
-- a task (docs/capability-policy.md).
use ai_os.Prelude.{
  ℕ, ◌≤◌, ◌≡◌, refl, ◌≢◌, ◌↔◌, ◌⊎◌, inl, inr, Bool, true, false, ◌&&◌, not, List, [], ◌∷◌, ◌++◌,
  sym, ◌∙◌, subst, arith, nat_beq, nat_eq, ◌==◌, any, All, Bool-cases, Result-cases, list_eq,
  list_beq_iff, ok,
}
use ai_os.Core.Text.{Text}
use ai_os.Core.Task.{
  TaskSpec, FileAccess, NetworkTransport, NetworkPolicy, deny, allow, access_beq_iff, tcp,
  is_valid_identifier, is_normalized_absolute_path, is_valid_network_host, validate,
}
use ai_os.Core.Task.Validity.{IsValidSpec, validate_iff}
use ai_os.Core.Policy.{
  CapabilityRequest, file, network, tool, DenialReason, invalid_request, capability_not_granted,
  allowed, denied, approval_required, CapabilityPolicy, from_task, finish, file_action,
  egress_action, allows_file, allows_destination, network_granted, evaluate, max_tool_name_bytes,
  max_action_bytes,
}
use ai_os.Core.Policy.Components.{components, Covers, path_is_within_iff, split_cons}
use ai_os.Core.Task.Paths.{IsPlainName, is_normalized_absolute_path_sound}

-- Some entry satisfies the predicate.
abbrev pub Some {ℓ} : {A : Type ℓ} → (A → Type 0) → List A → Type 0
Some P [] = ⊥
Some P (x ∷ xs) = P x ⊎ Some P xs

any_iff {ℓ} :
    {A : Type ℓ} (p : A → Bool) (P : A → Type 0) (xs : List A)
    → ((x : A) → (p x ≡ true) ↔ P x)
    → (any p xs ≡ true) ↔ Some P xs
any_iff p P [] h = ((λ e. cc), (λ e. absurd e))
any_iff p P (x ∷ xs) h =
    let rest = any_iff p P xs h in
    (
      (λ e. elim (Bool-cases (p x)) [
        | inl here ↦ inl ((h x).0 here)
        | inr not_here ↦ inr (rest.0 (rw not_here at e))
      ]),
      (λ s. elim s [ inl here ↦ rw ((h x).1 here) | inr later ↦ ground (arith, rest.1 later) ]),
    )

-- The request has the form that its kind demands.
abbrev pub IsWellFormed : CapabilityRequest → Type 0
IsWellFormed (file path access) = is_normalized_absolute_path path ≡ true
IsWellFormed (network host transport port) = (is_valid_network_host host ≡ true) × (1 ≤ port)
IsWellFormed (tool name action) =
    (is_valid_identifier name max_tool_name_bytes ≡ true)
    × (is_valid_identifier action max_action_bytes ≡ true)

abbrev NetworkGrants : NetworkPolicy → Text → NetworkTransport → ℕ → Type 0
NetworkGrants deny host transport port = ⊥
NetworkGrants (allow ds) host transport port =
    Some (λ d. (d.host ≡ host) × (d.transport ≡ transport) × (d.port ≡ port)) ds

-- The task was granted the resource: a file by a capability of the same access whose path covers
-- it, a destination exactly, a tool by its name.
abbrev pub Grants : TaskSpec → CapabilityRequest → Type 0
Grants task (file path access) =
    Some (λ c. (c.access ≡ access) × Covers c.path path) task.capabilities.filesystem
Grants task (network host transport port) =
    NetworkGrants task.capabilities.network host transport port
Grants task (tool name action) = Some (λ granted. granted ≡ name) task.capabilities.tools

abbrev pub request_action : CapabilityRequest → Text
request_action (file path access) = file_action access
request_action (network host transport port) = egress_action
request_action (tool name action) = action

abbrev pub NeedsApproval : TaskSpec → CapabilityRequest → Type 0
NeedsApproval task request =
    Some (λ required. required ≡ request_action request) task.approval.required_for

-- The two tests behind a decision.
abbrev well_formed? : CapabilityRequest → Bool
well_formed? (file path access) = is_normalized_absolute_path path
well_formed? (network host transport port) = is_valid_network_host host && not (nat_beq port 0)
well_formed? (tool name action) =
    is_valid_identifier name max_tool_name_bytes && is_valid_identifier action max_action_bytes

abbrev granted? : TaskSpec → CapabilityRequest → Bool
granted? task (file path access) = any (allows_file path access) task.capabilities.filesystem
granted? task (network host transport port) =
    network_granted task.capabilities.network host transport port
granted? task (tool name action) = any (λ granted. granted == name) task.capabilities.tools

abbrev approval? : TaskSpec → CapabilityRequest → Bool
approval? task request =
    any (λ required. required == request_action request) task.approval.required_for

evaluate_lem :
    (p : CapabilityPolicy) (r : CapabilityRequest)
    → ((well_formed? r ≡ false) × (evaluate p r ≡ denied invalid_request))
      ⊎ ((well_formed? r ≡ true) × (evaluate p r ≡ finish p (granted? p.task r) (request_action r)))
unfolding evaluate
evaluate_lem p (file path access) = ground arith
evaluate_lem p (network host transport port) = ground arith
evaluate_lem p (tool name action) = ground arith

well_formed?_iff : (r : CapabilityRequest) → (well_formed? r ≡ true) ↔ IsWellFormed r
well_formed?_iff (file path access) = ground arith
well_formed?_iff (network host transport port) = ground arith
well_formed?_iff (tool name action) = ground arith

network_granted_iff :
    (n : NetworkPolicy) (host : Text) (transport : NetworkTransport) (port : ℕ)
    → (network_granted n host transport port ≡ true) ↔ NetworkGrants n host transport port
network_granted_iff deny host transport port = ground arith
network_granted_iff (allow ds) host tcp port =
    any_iff (allows_destination host tcp port) _ ds (λ d. ground (arith, list_beq_iff d.host host))

granted?_iff : (task : TaskSpec) (r : CapabilityRequest) → (granted? task r ≡ true) ↔ Grants task r
granted?_iff task (file path access) =
    any_iff (allows_file path access) _ task.capabilities.filesystem
      λ c. ground (arith, access_beq_iff c.access access, path_is_within_iff path c.path)
granted?_iff task (network host transport port) =
    network_granted_iff task.capabilities.network host transport port
granted?_iff task (tool name action) =
    any_iff (λ granted. granted == name) _ task.capabilities.tools (λ t. list_beq_iff t name)

approval?_iff :
    (task : TaskSpec) (r : CapabilityRequest) → (approval? task r ≡ true) ↔ NeedsApproval task r
approval?_iff task r =
    any_iff (λ required. required == request_action r) _ task.approval.required_for
      (λ t. list_beq_iff t (request_action r))

-- The policy allows a request exactly when it is well formed, granted by the task, and its action
-- is not one that the task reserves for approval.
pub evaluate_allowed_iff :
    (p : CapabilityPolicy) (r : CapabilityRequest)
    → (evaluate p r ≡ allowed) ↔ (IsWellFormed r × Grants p.task r × ¬ NeedsApproval p.task r)
unfolding finish
evaluate_allowed_iff p r =
    ground
      (arith, evaluate_lem p r, well_formed?_iff r, granted?_iff p.task r, approval?_iff p.task r)

-- It asks for approval exactly when the request is well formed, granted, and its action is
-- reserved: an approval requirement never grants what the task was not given.
pub evaluate_approval_required_iff :
    (p : CapabilityPolicy) (r : CapabilityRequest)
    → (evaluate p r ≡ approval_required)
      ↔ (IsWellFormed r × Grants p.task r × NeedsApproval p.task r)
unfolding finish
evaluate_approval_required_iff p r =
    ground
      (arith, evaluate_lem p r, well_formed?_iff r, granted?_iff p.task r, approval?_iff p.task r)

-- The two reasons of a denial: a malformed request, and a well-formed one that is not granted.
pub evaluate_denied_iff :
    (p : CapabilityPolicy) (r : CapabilityRequest)
    → ((evaluate p r ≡ denied invalid_request) ↔ (¬ IsWellFormed r))
      × ((evaluate p r ≡ denied capability_not_granted) ↔ (IsWellFormed r × ¬ Grants p.task r))
unfolding finish
evaluate_denied_iff p r =
    ground
      (arith, evaluate_lem p r, well_formed?_iff r, granted?_iff p.task r, approval?_iff p.task r)

Some-map {ℓ} :
    {A : Type ℓ} (P Q : A → Type 0) (xs : List A) → ((x : A) → P x → Q x) → Some P xs → Some Q xs
Some-map P Q [] f s = s
Some-map P Q (x ∷ xs) f (inl here) = inl (f x here)
Some-map P Q (x ∷ xs) f (inr later) = inr (Some-map P Q xs f later)

names-confined :
    (names base rest : List Text)
    → All IsPlainName names
    → ([] ∷ names) ≡ base ++ rest
    → base ≢ []
    → All IsPlainName rest
names-confined names [] rest plain e h = absurd (h refl)
names-confined names (b ∷ base) rest plain e h = drop base names rest plain (ground arith)
  where
    drop :
        (base names rest : List Text)
        → All IsPlainName names
        → names ≡ base ++ rest
        → All IsPlainName rest
    drop [] names rest plain e = subst (All IsPlainName) e plain
    drop (b ∷ base) [] rest plain e = cc
    drop (b ∷ base) (n ∷ names) rest plain e = drop base names rest plain.1 (ground arith)

confined :
    (path cap : Text)
    → is_normalized_absolute_path path ≡ true
    → Covers cap path
    → (rest : List Text) × (components path ≡ components cap ++ rest) × All IsPlainName rest
confined path cap h (rest, e) =
    let (names, e', plain, _) = is_normalized_absolute_path_sound path h in
    let (p, ps, e'') = split_cons cap in
    (rest, e, names-confined names (components cap) rest plain (sym e' ∙ e) (λ empty. cc))

-- A file request that is not denied stays below a granted path of the same access: the path goes
-- on from the capability's components with plain names, none of them empty, `.` or `..`.
pub evaluate-file_confined :
    (p : CapabilityPolicy) (path : Text) (access : FileAccess)
    → ((reason : DenialReason) → evaluate p (file path access) ≢ denied reason)
    → Some
        (λ c.
          (c.access ≡ access)
          × ((rest : List Text) × (components path ≡ components c.path ++ rest)
              × All IsPlainName rest))
        p.task.capabilities.filesystem
unfolding finish
evaluate-file_confined p path access h =
    let r = file path access in
    let good : IsWellFormed r × Grants p.task r = ground (
      arith,
      h invalid_request,
      h capability_not_granted,
      evaluate_lem p r,
      well_formed?_iff r,
      granted?_iff p.task r,
    ) in
    Some-map _ _ p.task.capabilities.filesystem (λ c g. (g.0, confined path c.path good.0 g.1))
      good.1

-- A policy is made only of a valid task, and of that task unchanged.
pub from_task-IsValidSpec :
    (spec : TaskSpec) (p : CapabilityPolicy)
    → (from_task spec ≡ ok p) ↔ ((p.task ≡ spec) × IsValidSpec spec)
unfolding from_task
from_task-IsValidSpec spec p = elim (Result-cases (validate spec)) [
  | inl (_, e) ↦ rw (e, from_task) ((λ h. (cc, (validate_iff spec).0 e)), (λ h. ground arith))
  | inr (es, e) ↦ rw (e, from_task) ((λ h. cc), (λ h. cc ((validate_iff spec).1 h.1)))
]
