-- ===== src/Prelude/Results.antt =====
-- `Result`, and the methods that take `&mut self` and return a `Result`: what such a method has
-- changed before it fails stays changed.
use mathlib.Core.Path.{◌≡◌, refl}
use mathlib.Core.Option.{Option, none, some}
use mathlib.Core.Logic.{◌⊎◌, inl, inr}

pub data Result (E A : Type 0) : Type 0 where
  ok : A → Result E A
  err : E → Result E A

pub data Outcome (S E A : Type 0) : Type 0 where
  returns : A → S → Outcome S E A
  fails : E → S → Outcome S E A

module _ {S E A : Type 0} where
  abbrev pub state_of : Outcome S E A → S
  state_of (returns _ s) = s
  state_of (fails _ s) = s

  -- The state that a method leaves, on success and on failure.
  abbrev pub Leaves : (S → Type 0) → Outcome S E A → Type 0
  Leaves P o = P (state_of o)

  pub Outcome-cases :
      (o : Outcome S E A)
      → ((a : A) × (s : S) × (o ≡ returns a s)) ⊎ ((e : E) × (s : S) × (o ≡ fails e s))
  Outcome-cases (returns a s) = inl (a, s, refl)
  Outcome-cases (fails e s) = inr (e, s, refl)

pub Result-cases :
    {E A : Type 0} (r : Result E A) → ((a : A) × (r ≡ ok a)) ⊎ ((e : E) × (r ≡ err e))
Result-cases (ok a) = inl (a, refl)
Result-cases (err e) = inr (e, refl)

-- The operator `?` on results.
infixl 5 ◌>>=◌
abbrev pub ◌>>=◌ : {E A B : Type 0} → Result E A → (A → Result E B) → Result E B
ok a >>= f = f a
err e >>= f = err e

abbrev pub ok_or : {E A : Type 0} → Option A → E → Result E A
ok_or none e = err e
ok_or (some a) e = ok a
