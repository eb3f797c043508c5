-- ===== src/Core/Task/Validity.antt =====
-- What `TaskSpec::validate` (crates/aios-core/src/task.rs) accepts, against a description without
-- error lists and without the `seen` sets of the loops.
use ai_os.Prelude.{
  ◌≤◌, ◌≡◌, refl, ◌≢◌, ◌↔◌, Bool, true, false, not, List, [], ◌∷◌, ◌++◌, sym, ◌∙◌, arith, ltb,
  nat_beq, nat_eq, Eq, length, All, contains, ok, list_eq,
}
use ai_os.Core.Text.{Text, is_blank}
use ai_os.Core.Task.{
  TaskSpec, CapabilitySet, FileCapability, NetworkDestination, NetworkPolicy, deny, allow, Budget,
  Field, error_if, file_eq, destination_eq, max_goal_chars, max_idempotency_key_bytes,
  max_filesystem_capabilities, max_tools, max_approval_actions, max_network_destinations,
  max_identifier_bytes, capabilities_filesystem, capabilities_network_destinations,
  capabilities_network_destinations_host, capabilities_network_destinations_port, idempotency_key,
  capabilities_tools, approval_required_for, is_valid_identifier, is_normalized_absolute_path,
  is_valid_network_host, validate_goal, validate_identifier, validate_absolute_normalized_path,
  validate_files, validate_identifiers, validate_destinations, validate_network,
  validate_capabilities, validate_budget, validate_approval, validation_errors, validate,
}

-- No entry stands twice in the list.
abbrev pub IsDistinct {ℓ} : {A : Type ℓ} → List A → Type ℓ
IsDistinct [] = Unit
IsDistinct (x ∷ xs) = All (λ y. x ≢ y) xs × IsDistinct xs

abbrev IsIdentifierList : List Text → Type 0
IsIdentifierList xs =
    All (λ x. is_valid_identifier x max_identifier_bytes ≡ true) xs × IsDistinct xs

abbrev IsDestination : NetworkDestination → Type 0
IsDestination d = (is_valid_network_host d.host ≡ true) × (1 ≤ d.port)

abbrev pub IsValidNetwork : NetworkPolicy → Type 0
IsValidNetwork deny = Unit
IsValidNetwork (allow ds) =
    (1 ≤ length ds) × (length ds ≤ max_network_destinations) × All IsDestination ds × IsDistinct ds

pub record IsValidSpec (spec : TaskSpec) : Type 0 where
  pub goal_visible : is_blank spec.goal ≡ false
  pub goal_bounded : length spec.goal ≤ max_goal_chars
  pub key : is_valid_identifier spec.idempotency_key max_idempotency_key_bytes ≡ true
  pub files_bounded : length spec.capabilities.filesystem ≤ max_filesystem_capabilities
  pub files_normalized :
      All (λ c. is_normalized_absolute_path c.path ≡ true) spec.capabilities.filesystem
  pub files_distinct : IsDistinct spec.capabilities.filesystem
  pub network : IsValidNetwork spec.capabilities.network
  pub tools_bounded : length spec.capabilities.tools ≤ max_tools
  pub tools : IsIdentifierList spec.capabilities.tools
  pub wall_time : 1 ≤ spec.budget.wall_time_seconds
  pub memory : 1 ≤ spec.budget.memory_bytes
  pub agents : (1 ≤ spec.budget.max_parallel_agents) × (spec.budget.max_parallel_agents ≤ 8)
  pub actions_bounded : length spec.approval.required_for ≤ max_approval_actions
  pub actions : IsIdentifierList spec.approval.required_for

append-eq-nil {ℓ} : {A : Type ℓ} (xs ys : List A) → ((xs ++ ys) ≡ []) ↔ ((xs ≡ []) × (ys ≡ []))
append-eq-nil [] ys = ((λ e. (refl, e)), (λ e. e.1))
append-eq-nil (x ∷ xs) ys = ((λ e. cc), (λ e. cc))

-- Five groups of errors, none of which has an entry.
five_groups {ℓ} :
    {A : Type ℓ} (a b c d e : List A)
    → (a ++ b ++ c ++ d ++ e) ≡ []
    → (a ≡ []) × (b ≡ []) × (c ≡ []) × (d ≡ []) × (e ≡ [])
five_groups [] [] [] [] [] h = (refl, refl, refl, refl, refl)
five_groups [] [] [] [] (x ∷ e) h = cc
five_groups [] [] [] (x ∷ d) e h = cc
five_groups [] [] (x ∷ c) d e h = cc
five_groups [] (x ∷ b) c d e h = cc
five_groups (x ∷ a) b c d e h = cc

error_if-eq-nil : (b : Bool) (f : Field) → (error_if b f ≡ []) ↔ (b ≡ false)
error_if-eq-nil b f = ground arith

-- The shape of the three loops.
module _ {A : Type 0} ⦃e : Eq A⦄ (entry : A → List Field) (repeated : Field) where
  loop : List A → List A → List Field
  loop seen [] = []
  loop seen (x ∷ rest) = entry x ++ error_if (contains x seen) repeated ++ loop (x ∷ seen) rest

  contains-eq-false : (x : A) (xs : List A) → (contains x xs ≡ false) ↔ All (λ y. y ≢ x) xs
  contains-eq-false x [] = ((λ _. tt), (λ _. refl))
  contains-eq-false x (y ∷ ys) = ground (arith, contains-eq-false x ys, e.beq_iff x y)

  abbrev Avoids : List A → List A → Type 0
  Avoids seen xs = All (λ x. All (λ y. y ≢ x) seen) xs

  Avoids-cons :
      (x : A) (seen xs : List A) → Avoids (x ∷ seen) xs ↔ (All (λ y. x ≢ y) xs × Avoids seen xs)
  Avoids-cons x seen [] = ((λ _. (tt, tt)), (λ _. tt))
  Avoids-cons x seen (y ∷ ys) =
      let (to, from) = Avoids-cons x seen ys in
      (
        (λ h. ((h.0.0, (to h.1).0), (h.0.1, (to h.1).1))),
        (λ h. ((h.0.0, h.1.0), from (h.0.1, h.1.1))),
      )

  loop_sound :
      (seen xs : List A)
      → loop seen xs ≡ []
      → All (λ x. entry x ≡ []) xs × Avoids seen xs × IsDistinct xs
  unfolding loop
  loop_sound seen [] h = (tt, tt, tt)
  loop_sound seen (x ∷ xs) h =
      let (both, rest) = (append-eq-nil (entry x ++ error_if (contains x seen) repeated) _).0 h in
      let (here, first) = (append-eq-nil (entry x) _).0 both in
      let (good, avoids, distinct) = loop_sound (x ∷ seen) xs rest in
      let (apart, old) = (Avoids-cons x seen xs).0 avoids in
      let new = (contains-eq-false x seen).0 ((error_if-eq-nil _ repeated).0 first) in
      ((here, good), (new, old), (apart, distinct))

  loop_complete :
      (seen xs : List A)
      → All (λ x. entry x ≡ []) xs
      → Avoids seen xs
      → IsDistinct xs
      → loop seen xs ≡ []
  unfolding loop
  loop_complete seen [] g a d = refl
  loop_complete seen (x ∷ xs) g a d =
      let first = (error_if-eq-nil _ repeated).1 ((contains-eq-false x seen).1 a.0) in
      let rest = loop_complete (x ∷ seen) xs g.1 ((Avoids-cons x seen xs).1 (d.0, a.1)) d.1 in
      (append-eq-nil (entry x ++ error_if (contains x seen) repeated) _).1
        ((append-eq-nil (entry x) _).1 (g.0, first), rest)

  Avoids-nil : (xs : List A) → Avoids [] xs
  Avoids-nil [] = tt
  Avoids-nil (x ∷ xs) = (tt, Avoids-nil xs)

  loop-eq-nil : (xs : List A) → (loop [] xs ≡ []) ↔ (All (λ x. entry x ≡ []) xs × IsDistinct xs)
  loop-eq-nil xs = (
    (λ h. let r = loop_sound [] xs h in (r.0, r.2)),
    (λ h. loop_complete [] xs h.0 (Avoids-nil xs) h.1),
  )

All-iff {ℓ κ} :
    {A : Type 0} (P : A → Type ℓ) (Q : A → Type κ) (xs : List A)
    → ((x : A) → P x ↔ Q x)
    → All P xs ↔ All Q xs
All-iff P Q [] h = ((λ _. tt), (λ _. tt))
All-iff P Q (x ∷ xs) h =
    let rest = All-iff P Q xs h in
    ((λ a. ((h x).0 a.0, rest.0 a.1)), (λ a. ((h x).1 a.0, rest.1 a.1)))

abbrev file_entry : FileCapability → List Field
file_entry c = validate_absolute_normalized_path c.path

abbrev identifier_entry : Field → Text → List Field
identifier_entry f value = validate_identifier f value max_identifier_bytes

abbrev destination_entry : NetworkDestination → List Field
destination_entry d =
    error_if (not (is_valid_network_host d.host)) capabilities_network_destinations_host
    ++ error_if (nat_beq d.port 0) capabilities_network_destinations_port

validate_files-loop :
    (seen xs : List FileCapability)
    → validate_files seen xs ≡ loop file_entry capabilities_filesystem seen xs
unfolding validate_files loop
validate_files-loop seen [] = refl
validate_files-loop seen (x ∷ xs) = rw (validate_files-loop (x ∷ seen) xs)

validate_identifiers-loop :
    (f : Field) (seen xs : List Text)
    → validate_identifiers f seen xs ≡ loop (identifier_entry f) f seen xs
unfolding validate_identifiers loop
validate_identifiers-loop f seen [] = refl
validate_identifiers-loop f seen (x ∷ xs) = rw (validate_identifiers-loop f (x ∷ seen) xs)

validate_destinations-loop :
    (seen xs : List NetworkDestination)
    → validate_destinations seen xs
      ≡ loop destination_entry capabilities_network_destinations seen xs
unfolding validate_destinations loop
validate_destinations-loop seen [] = refl
validate_destinations-loop seen (x ∷ xs) = rw (validate_destinations-loop (x ∷ seen) xs)

validate_files-eq-nil :
    (xs : List FileCapability)
    → (validate_files [] xs ≡ [])
      ↔ (All (λ c. is_normalized_absolute_path c.path ≡ true) xs × IsDistinct xs)
unfolding validate_absolute_normalized_path
validate_files-eq-nil xs =
    let (to, from) = loop-eq-nil file_entry capabilities_filesystem xs in
    let (good, bad) =
      All-iff (λ c. file_entry c ≡ []) (λ c. is_normalized_absolute_path c.path ≡ true) xs
        (λ c. ground arith) in
    (
      (λ h. let r = to (sym (validate_files-loop [] xs) ∙ h) in (good r.0, r.1)),
      (λ h. validate_files-loop [] xs ∙ from (bad h.0, h.1)),
    )

validate_identifiers-eq-nil :
    (f : Field) (xs : List Text) → (validate_identifiers f [] xs ≡ []) ↔ IsIdentifierList xs
unfolding validate_identifier
validate_identifiers-eq-nil f xs =
    let (to, from) = loop-eq-nil (identifier_entry f) f xs in
    let (good, bad) =
      All-iff (λ x. identifier_entry f x ≡ [])
        (λ x. is_valid_identifier x max_identifier_bytes ≡ true) xs (λ x. ground arith) in
    (
      (λ h. let r = to (sym (validate_identifiers-loop f [] xs) ∙ h) in (good r.0, r.1)),
      (λ h. validate_identifiers-loop f [] xs ∙ from (bad h.0, h.1)),
    )

validate_destinations-eq-nil :
    (xs : List NetworkDestination)
    → (validate_destinations [] xs ≡ []) ↔ (All IsDestination xs × IsDistinct xs)
validate_destinations-eq-nil xs =
    let (to, from) = loop-eq-nil destination_entry capabilities_network_destinations xs in
    let (good, bad) =
      All-iff (λ d. destination_entry d ≡ []) IsDestination xs (λ d. ground arith) in
    (
      (λ h. let r = to (sym (validate_destinations-loop [] xs) ∙ h) in (good r.0, r.1)),
      (λ h. validate_destinations-loop [] xs ∙ from (bad h.0, h.1)),
    )

validate_network-eq-nil : (n : NetworkPolicy) → (validate_network n ≡ []) ↔ IsValidNetwork n
unfolding validate_network
validate_network-eq-nil deny = ((λ _. tt), (λ _. refl))
validate_network-eq-nil (allow []) = ground arith
validate_network-eq-nil (allow (d ∷ ds)) =
    let all_of = validate_destinations-eq-nil (d ∷ ds) in
    let parts =
      append-eq-nil
        (error_if (ltb max_network_destinations (length (d ∷ ds)))
          capabilities_network_destinations)
        (validate_destinations [] (d ∷ ds)) in
    ground (arith, parts, all_of)

record IsValidCapabilities (c : CapabilitySet) : Type 0 where
  files_bounded : length c.filesystem ≤ max_filesystem_capabilities
  files :
      All (λ f. is_normalized_absolute_path f.path ≡ true) c.filesystem × IsDistinct c.filesystem
  network : IsValidNetwork c.network
  tools_bounded : length c.tools ≤ max_tools
  tools : IsIdentifierList c.tools

capabilities_sound : (c : CapabilitySet) → validate_capabilities c ≡ [] → IsValidCapabilities c
unfolding validate_capabilities
capabilities_sound c h =
    let (a, b, n, d, e) =
      five_groups
        (error_if (ltb max_filesystem_capabilities (length c.filesystem)) capabilities_filesystem)
        (validate_files [] c.filesystem) (validate_network c.network)
        (error_if (ltb max_tools (length c.tools)) capabilities_tools)
        (validate_identifiers capabilities_tools [] c.tools) h in
    record {
      files_bounded = ground arith;
      files = (validate_files-eq-nil c.filesystem).0 b;
      network = (validate_network-eq-nil c.network).0 n;
      tools_bounded = ground arith;
      tools = (validate_identifiers-eq-nil capabilities_tools c.tools).0 e;
    }

capabilities_complete : (c : CapabilitySet) → IsValidCapabilities c → validate_capabilities c ≡ []
unfolding validate_capabilities
capabilities_complete c v = ground (
  arith,
  (validate_files-eq-nil c.filesystem).1 v.files,
  (validate_network-eq-nil c.network).1 v.network,
  (validate_identifiers-eq-nil capabilities_tools c.tools).1 v.tools,
)

budget_sound :
    (b : Budget)
    → validate_budget b ≡ []
    → (1 ≤ b.wall_time_seconds)
      × (1 ≤ b.memory_bytes)
      × ((1 ≤ b.max_parallel_agents) × (b.max_parallel_agents ≤ 8))
unfolding validate_budget
budget_sound b h = ground arith

validation_errors_sound : (spec : TaskSpec) → validation_errors spec ≡ [] → IsValidSpec spec
unfolding validation_errors validate_approval
validation_errors_sound spec h =
    let (a, b, c, d, e) =
      five_groups (validate_goal spec.goal)
        (validate_identifier idempotency_key spec.idempotency_key max_idempotency_key_bytes)
        (validate_capabilities spec.capabilities) (validate_budget spec.budget)
        (validate_approval spec.approval) h in
    let (bounded, actions) =
      (append-eq-nil
          (error_if (ltb max_approval_actions (length spec.approval.required_for))
            approval_required_for)
          (validate_identifiers approval_required_for [] spec.approval.required_for)).0
        e in
    let (wall, memory, agents) = budget_sound spec.budget d in
    let caps = capabilities_sound spec.capabilities c in
    record {
      goal_visible = ground arith;
      goal_bounded = ground arith;
      key = ground arith;
      files_bounded = caps.files_bounded;
      files_normalized = caps.files.0;
      files_distinct = caps.files.1;
      network = caps.network;
      tools_bounded = caps.tools_bounded;
      tools = caps.tools;
      wall_time = wall;
      memory = memory;
      agents = agents;
      actions_bounded = ground arith;
      actions =
          (validate_identifiers-eq-nil approval_required_for spec.approval.required_for).0 actions;
    }

validation_errors_complete : (spec : TaskSpec) → IsValidSpec spec → validation_errors spec ≡ []
unfolding validation_errors validate_approval
validation_errors_complete spec v =
    let caps = capabilities_complete spec.capabilities (record {
      files_bounded = v.files_bounded;
      files = (v.files_normalized, v.files_distinct);
      network = v.network;
      tools_bounded = v.tools_bounded;
      tools = v.tools;
    }) in
    let actions =
      (validate_identifiers-eq-nil approval_required_for spec.approval.required_for).1 v.actions in
    ground arith

validate-ok : (spec : TaskSpec) → (validate spec ≡ ok tt) ↔ (validation_errors spec ≡ [])
unfolding validate
validate-ok spec = ground arith

-- Validation accepts a specification exactly when every field keeps its documented bounds and
-- form, and no list repeats an entry.
pub validate_iff : (spec : TaskSpec) → (validate spec ≡ ok tt) ↔ IsValidSpec spec
validate_iff spec = (
  (λ h. validation_errors_sound spec ((validate-ok spec).0 h)),
  (λ v. (validate-ok spec).1 (validation_errors_complete spec v)),
)
