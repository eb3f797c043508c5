-- ===== src/Runtime/Event/Pages.antt =====
-- Pagination through `EventStore::list` (crates/aios-runtime/src/event.rs), for any store that
-- keeps the promises of the trait.
use native.Mathlib.Decide.{dec_le}
use ai_os.Prelude.{
  ℕ, zero, suc, ◌+◌, ◌-◌, ◌≡◌, refl, sym, ap, subst, ◌∙◌, List, [], ◌∷◌, ◌++◌, arith, ltb, length,
  keep_if, drop, ok,
}
use ai_os.Runtime.Event.{TaskEvent, IsNumbered, EventStore}

drop_nil {ℓ} : {A : Type ℓ} (n : ℕ) → drop {A = A} n [] ≡ []
drop_nil zero = refl
drop_nil (suc n) = refl

keep_if-eq-drop :
    (task first after : ℕ) (es : List TaskEvent)
    → IsNumbered task first es
    → keep_if (λ e. ltb after e.sequence) es ≡ drop (after + 1 - first) es
keep_if-eq-drop task first after [] h = sym (drop_nil (after + 1 - first))
keep_if-eq-drop task first after (e ∷ es) h =
    let ih = keep_if-eq-drop task (suc first) after es h.2 in
    elim (dec_le first after) [
      | yes skip ↦
          let step : after + 1 - first ≡ suc (after + 1 - suc first) = omega arith in
          rw step (ground (arith, ih))
      | no keep ↦
          let here : after + 1 - first ≡ 0 = omega arith in
          let there : after + 1 - suc first ≡ 0 = omega arith in
          rw here (ground (arith, rw there at ih))
    ]

-- Where a history is numbered from one, what a store lists after a number is the history without its
-- first `after` events.
pub list-eq-drop :
    {St : Type 0} (S : EventStore St) (s : St) (task after : ℕ) (events : List TaskEvent)
    → IsNumbered task 1 (S.history s task)
    → S.list s task after ≡ ok events
    → events ≡ drop after (S.history s task)
list-eq-drop S s task after events numbered h =
    S.list_ok s task after events h
    ∙ keep_if-eq-drop task 1 after (S.history s task) numbered
    ∙ ap (λ (n : ℕ). drop n (S.history s task)) (omega arith)

pub IsNumbered-append :
    (task first : ℕ) (xs ys : List TaskEvent)
    → IsNumbered task first xs
    → IsNumbered task (first + length xs) ys
    → IsNumbered task first (xs ++ ys)
IsNumbered-append task first [] ys h k = subst (λ (n : ℕ). IsNumbered task n ys) (omega arith) k
IsNumbered-append task first (x ∷ xs) ys h k = (
  h.0,
  h.1,
  IsNumbered-append task (suc first) xs ys h.2
      (subst (λ (n : ℕ). IsNumbered task n ys) (omega arith) k),
)
