-- ===== src/Prelude/Maps.antt =====
-- `std::collections::BTreeMap` as an association list in the order of its keys.
use Prim.Native.Nat.{ℕ, ◌+◌, ◌≤◌, ◌<◌}
use mathlib.Core.Path.{◌≡◌, refl, subst}
use mathlib.Core.Bool.{Bool, true, false, ◌&&◌, ◌||◌}
use mathlib.Core.List.{List, [], ◌∷◌}
use mathlib.Core.Logic.{◌↔◌, inl, inr}
use mathlib.Core.Option.{Option, none, some}
use native.Mathlib.Omega.{arith}
use ai_os.Prelude.Tests.{if◌then◌else◌, ltb, Eq, nat_eq, nat_beq, Bool-cases}
use ai_os.Prelude.Lists.{length, All, contains}

-- A key type: its equality and its order.
pub record Ord {ℓ} (K : Type ℓ) : Type ℓ where
  pub equality : Eq K
  pub lt? : K → K → Bool

instance abbrev pub nat_ord : Ord ℕ
nat_ord = record { equality = nat_eq; lt? = ltb }

abbrev pub BTreeMap {ℓ κ} : Type ℓ → Type κ → Type (ℓ ⊔ κ)
BTreeMap K V = List (K × V)

module _ {ℓ κ} {K : Type ℓ} {V : Type κ} ⦃o : Ord K⦄ where
  unfoldable pub get : K → BTreeMap K V → Option V
  get k [] = none
  get k ((j, v) ∷ m) = if o.equality.beq j k then some v else get k m

  unfoldable pub insert : K → V → BTreeMap K V → BTreeMap K V
  insert k v [] = (k, v) ∷ []
  insert k v ((j, w) ∷ m) =
      if o.equality.beq j k
      then (k, v) ∷ m
      else if o.lt? k j
      then (k, v) ∷ (j, w) ∷ m
      else (j, w) ∷ insert k v m

  unfoldable pub remove : K → BTreeMap K V → BTreeMap K V
  remove k [] = []
  remove k ((j, w) ∷ m) = if o.equality.beq j k then remove k m else (j, w) ∷ remove k m

  abbrev pub contains_key : K → BTreeMap K V → Bool
  contains_key k m = elim (get k m) [ none ↦ false | some _ ↦ true ]

  pub get-insert :
      (j k : K) (v : V) (m : BTreeMap K V)
      → get j (insert k v m) ≡ (if o.equality.beq k j then some v else get j m)
  unfolding get insert
  get-insert j k v [] = refl
  get-insert j k v ((i, w) ∷ m) = ground (
    arith,
    o.equality.beq_iff i k,
    o.equality.beq_iff i j,
    o.equality.beq_iff k j,
    get-insert j k v m,
  )

  pub get-remove :
      (j k : K) (m : BTreeMap K V)
      → get j (remove k m) ≡ (if o.equality.beq k j then none else get j m)
  unfolding get remove
  get-remove j k [] = ground arith
  get-remove j k ((i, w) ∷ m) = ground (
    arith,
    o.equality.beq_iff i k,
    o.equality.beq_iff i j,
    o.equality.beq_iff k j,
    get-remove j k m,
  )

  pub length-insert-le : (k : K) (v : V) (m : BTreeMap K V) → length (insert k v m) ≤ length m + 1
  unfolding insert
  length-insert-le k v [] = omega arith
  length-insert-le k v ((j, w) ∷ m) = ground (arith, length-insert-le k v m)

  pub length-remove-le : (k : K) (m : BTreeMap K V) → length (remove k m) ≤ length m
  unfolding remove
  length-remove-le k [] = omega arith
  length-remove-le k ((j, w) ∷ m) = ground (arith, length-remove-le k m)

  pub length-remove-lt :
      (k : K) (v : V) (m : BTreeMap K V) → get k m ≡ some v → length (remove k m) < length m
  unfolding get remove
  length-remove-lt k v [] e = absurd (cc e)
  length-remove-lt k v ((j, w) ∷ m) e = ground (arith, length-remove-le k m, length-remove-lt k v m)

-- Pairs are compared by their first parts, then by their second.
abbrev pub pair_beq : ℕ × ℕ → ℕ × ℕ → Bool
pair_beq a b = nat_beq a.0 b.0 && nat_beq a.1 b.1

pub pair_beq_iff : (a b : ℕ × ℕ) → (pair_beq a b ≡ true) ↔ (a ≡ b)
pair_beq_iff a b = ground arith

instance abbrev pub pair_ord : Ord (ℕ × ℕ)
pair_ord = record {
  equality = record { beq = pair_beq; beq_iff = pair_beq_iff };
  lt? = λ a b. ltb a.0 b.0 || (nat_beq a.0 b.0 && ltb a.1 b.1);
}

module _ {V : Type 0} where
  -- `values().any(p)`
  abbrev pub any_value : (V → Bool) → BTreeMap ℕ V → Bool
  any_value p [] = false
  any_value p ((k, v) ∷ m) = p v || any_value p m

  -- The keys whose values satisfy a test, in order: `iter().filter_map(…)`.
  abbrev pub keys_where : (V → Bool) → BTreeMap ℕ V → List ℕ
  keys_where p [] = []
  keys_where p ((k, v) ∷ m) = if p v then k ∷ keys_where p m else keys_where p m

  -- `retain(|_, v| p(v))`
  abbrev pub retain : (V → Bool) → BTreeMap ℕ V → BTreeMap ℕ V
  retain p [] = []
  retain p ((k, v) ∷ m) = if p v then (k, v) ∷ retain p m else retain p m

  abbrev pub values : BTreeMap ℕ V → List V
  values [] = []
  values ((k, v) ∷ m) = v ∷ values m

-- What holds of every entry, after the operations.
module _ {ℓ} {K V : Type 0} ⦃o : Ord K⦄ (P : K × V → Type ℓ) where
  pub All-insert : (k : K) (v : V) (m : BTreeMap K V) → P (k, v) → All P m → All P (insert k v m)
  unfolding insert
  All-insert k v [] p h = (p, tt)
  All-insert k v ((j, w) ∷ m) p h = ground (arith, All-insert k v m p h.1)

  pub All-remove : (k : K) (m : BTreeMap K V) → All P m → All P (remove k m)
  unfolding remove
  All-remove k [] h = tt
  All-remove k ((j, w) ∷ m) h = ground (arith, All-remove k m h.1)

  pub All-get : (k : K) (v : V) (m : BTreeMap K V) → All P m → get k m ≡ some v → (j : K) × P (j, v)
  unfolding get
  All-get k v [] h e = cc
  All-get k v ((j, w) ∷ m) h e = elim (Bool-cases (o.equality.beq j k)) [
    | inl here ↦ (j, subst (λ (x : V). P (j, x)) (ground arith) h.0)
    | inr there ↦ All-get k v m h.1 (ground arith)
  ]

pub All-map {ℓ κ} :
    {A : Type 0} (P : A → Type ℓ) (Q : A → Type κ) (m : List A)
    → ((e : A) → P e → Q e)
    → All P m
    → All Q m
All-map P Q [] f h = tt
All-map P Q (e ∷ m) f h = (f e h.0, All-map P Q m f h.1)

pub All-retain {ℓ} :
    {V : Type 0} (P : ℕ × V → Type ℓ) (p : V → Bool) (m : BTreeMap ℕ V)
    → All P m
    → All P (retain p m)
All-retain P p [] h = tt
All-retain P p ((k, v) ∷ m) h = ground (arith, All-retain P p m h.1)

-- The keys ascend.
module _ {V : Type 0} where
  abbrev pub IsSorted : BTreeMap ℕ V → Type 0
  IsSorted [] = Unit {0}
  IsSorted ((k, v) ∷ m) = All (λ e. k < e.0) m × IsSorted m

  pub insert-IsSorted : (k : ℕ) (v : V) (m : BTreeMap ℕ V) → IsSorted m → IsSorted (insert k v m)
  unfolding insert
  insert-IsSorted k v [] h = (tt, tt)
  insert-IsSorted k v ((j, w) ∷ m) h = ground (
    arith,
    insert-IsSorted k v m h.1,
    All-insert (λ e. j < e.0) k v m,
    All-map (λ e. j < e.0) (λ e. k < e.0) m,
  )

  pub remove-IsSorted : (k : ℕ) (m : BTreeMap ℕ V) → IsSorted m → IsSorted (remove k m)
  unfolding remove
  remove-IsSorted k [] h = tt
  remove-IsSorted k ((j, w) ∷ m) h =
      ground (arith, remove-IsSorted k m h.1, All-remove (λ e. j < e.0) k m h.0)

  -- A key below all others has no entry.
  absent :
      (p : V → Bool) (j : ℕ) (m : BTreeMap ℕ V)
      → All (λ e. j < e.0) m
      → (get j m ≡ none) × (contains j (keys_where p m) ≡ false)
  unfolding get
  absent p j [] h = (refl, refl)
  absent p j ((k, v) ∷ m) h = ground (arith, absent p j m h.1)

  pub contains-keys_where :
      (p : V → Bool) (j : ℕ) (m : BTreeMap ℕ V)
      → IsSorted m
      → contains j (keys_where p m) ≡ (elim (get j m) [ none ↦ false | some v ↦ p v ])
  unfolding get
  contains-keys_where p j [] h = refl
  contains-keys_where p j ((k, v) ∷ m) h =
      ground (arith, absent p k m h.0, contains-keys_where p j m h.1)
