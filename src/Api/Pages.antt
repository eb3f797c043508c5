-- ===== src/Api/Pages.antt =====
-- The pages of events that `handle` in crates/aios-local-api/src/lib.rs answers with.
use ai_os.Prelude.{
  ℕ, zero, suc, ◌+◌, ◌<◌, ◌≤◌, ◌≡◌, ◌↔◌, refl, sym, ap, ◌∙◌, arith, Bool, false, ◌||◌, List, [],
  ◌∷◌, ◌++◌, some, ltb, nat_beq, length, take, drop, drop-drop, ok,
}
use ai_os.Core.State.{TaskState}
use ai_os.Runtime.Event.{TaskId, TaskEvent, IsNumbered, EventStore}
use ai_os.Runtime.Event.Pages.{list-eq-drop}
use ai_os.Runtime.Approval.{Instant}
use ai_os.Runtime.Supervisor.{TaskSupervisor, task_state}
use ai_os.Runtime.Supervisor.Tasks
use ai_os.Api.{
  events, events_page, ok_response, new_request, max_event_page_size, page_response, handle_method,
  handle,
}

take-then : {A : Type 0} (n : ℕ) (xs : List A) → take n xs ++ drop (length (take n xs)) xs ≡ xs
take-then zero xs = refl
take-then (suc n) [] = refl
take-then (suc n) (x ∷ xs) = ap (λ ys. x ∷ ys) (take-then n xs)

take-last :
    {A : Type 0} (n : ℕ) (xs : List A)
    → (ltb n (length xs) ≡ false) ↔ (drop (length (take n xs)) xs ≡ [])
take-last zero [] = ground arith
take-last zero (x ∷ xs) = ground arith
take-last (suc n) [] = ground arith
take-last (suc n) (x ∷ xs) = ground (arith, take-last n xs)

module _ {St : Type 0} (S : EventStore St) where
  -- For a task that the supervisor knows, whose stored events are numbered without a gap, and a limit
  -- between 1 and 256: when the store lists the events after a number, the response is a page of at
  -- most `limit` events which, followed by the stored events after it, is everything stored after that
  -- number; and `has_more` is false exactly when nothing is stored after the page.
  pub handle-events_page :
      (sup : TaskSupervisor St) (now : Instant) (new_id task : TaskId) (after limit : ℕ)
      (state : TaskState) (found : List TaskEvent)
      → task_state sup task ≡ some state
      → IsNumbered task 1 (S.history sup.event_store task)
      → 0 < limit
      → limit ≤ max_event_page_size
      → S.list sup.event_store task after ≡ ok found
      → (page : List TaskEvent) × (has_more : Bool) × (handle S sup now new_id
            (new_request (events task after limit))
          ≡ (ok_response (events_page page has_more), sup))
        × (length page ≤ limit)
        × (page ++ drop (after + length page) (S.history sup.event_store task)
            ≡ drop after (S.history sup.event_store task))
        × ((has_more ≡ false) ↔ (drop (after + length page) (S.history sup.event_store task) ≡ []))
  unfolding handle handle_method page_response Tasks.events
  handle-events_page sup now new_id task after limit state found known numbered positive small
        listed =
      let h = S.history sup.event_store task in
      let all_after : found ≡ drop after h =
        list-eq-drop S sup.event_store task after found numbered listed in
      let admitted : (nat_beq limit 0 || ltb max_event_page_size limit) ≡ false = ground arith in
      let later : drop (length (take limit found)) found
          ≡ drop (after + length (take limit found)) h =
        ap (λ xs. drop (length (take limit found)) xs) all_after
        ∙ drop-drop after (length (take limit found)) h in
      (
        take limit found,
        ltb limit (length found),
        rw (admitted, known, listed, Tasks.events) refl,
        length-take-le limit found,
        rw (sym later, sym all_after) (take-then limit found),
        rw (sym later) (take-last limit found),
      )
    where
      length-take-le : {A : Type 0} (n : ℕ) (xs : List A) → length (take n xs) ≤ n
      length-take-le zero xs = omega arith
      length-take-le (suc n) [] = omega arith
      length-take-le (suc n) (x ∷ xs) = omega (arith, length-take-le n xs)
