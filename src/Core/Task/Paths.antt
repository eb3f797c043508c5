-- ===== src/Core/Task/Paths.antt =====
-- What `is_normalized_absolute_path` (crates/aios-core/src/task.rs) says of a path's components.
use ai_os.Prelude.{◌≤◌, ◌≡◌, ◌≢◌, Bool, true, List, [], ◌∷◌, arith, nat_eq, list_beq_iff, all, All}
use ai_os.Core.Text.{Text, codes, split, byte_len, starts_with}
use ai_os.Core.Task.{is_normalized_absolute_path, is_normal_component, skip_one, max_path_bytes}

abbrev pub IsPlainName : Text → Type 0
IsPlainName c = (c ≢ []) × (c ≢ codes ".") × (c ≢ codes "..")

pub all-All {ℓ} :
    {A : Type 0} (p : A → Bool) (P : A → Type ℓ) (xs : List A)
    → ((x : A) → p x ≡ true → P x)
    → all p xs ≡ true
    → All P xs
all-All p P [] h e = tt
all-All p P (x ∷ xs) h e = (h x (ground arith), all-All p P xs h (ground arith))

is_normal_component_sound : (c : Text) → is_normal_component c ≡ true → IsPlainName c
is_normal_component_sound [] h = cc
is_normal_component_sound (x ∷ c) h =
    ground (arith, list_beq_iff (x ∷ c) (codes "."), list_beq_iff (x ∷ c) (codes ".."))

split_slash :
    (path : Text)
    → starts_with b'/' path ≡ true
    → (s : Text) × (split b'/' path ≡ [] ∷ split b'/' s)
unfolding split
split_slash [] h = cc
split_slash (c ∷ s) h = (s, ground arith)

-- An accepted path begins with a slash and has only plain names after it.
pub is_normalized_absolute_path_sound :
    (path : Text)
    → is_normalized_absolute_path path ≡ true
    → (names : List Text) × (split b'/' path ≡ [] ∷ names)
      × All IsPlainName names
      × (byte_len path ≤ max_path_bytes)
unfolding is_normalized_absolute_path
is_normalized_absolute_path_sound path h =
    let (s, e) = split_slash path (ground arith) in
    let plain : all is_normal_component (skip_one (split b'/' path)) ≡ true = ground arith in
    (
      split b'/' s,
      e,
      all-All is_normal_component IsPlainName (split b'/' s) is_normal_component_sound
          (rw e at plain),
      ground arith,
    )
