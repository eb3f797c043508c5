-- ===== src/Core/State/Lifecycle.antt =====
-- The task lifecycle: which histories of states the transitions of Core/State allow.
use ai_os.Prelude.{◌≡◌, refl, ◌↔◌, true, false, List, [], ◌∷◌, arith, ok, err}
use ai_os.Core.State.{
  TaskState, submitted, validating, rejected, queued, running, waiting_approval, succeeded, failed,
  cancelled, is_terminal, can_transition_to, transition_to, cancel,
}

-- The documented lifecycle, independent of the `matches!`.
pub data Step : TaskState → TaskState → Type 0 where
  validate : Step submitted validating
  reject : Step validating rejected
  enqueue : Step validating queued
  start : Step queued running
  ask : Step running waiting_approval
  resume : Step waiting_approval running
  finish : Step running succeeded
  fail_running : Step running failed
  fail_waiting : Step waiting_approval failed
  stop : {s : TaskState} → is_terminal s ≡ false → Step s cancelled

ruleset steps =
    (validate, reject, enqueue, start, ask, resume, finish, fail_running, fail_waiting, stop)

Step-allowed : {s t : TaskState} → Step s t → can_transition_to s t ≡ true
unfolding can_transition_to
Step-allowed validate = refl
Step-allowed reject = refl
Step-allowed enqueue = refl
Step-allowed start = refl
Step-allowed ask = refl
Step-allowed resume = refl
Step-allowed finish = refl
Step-allowed fail_running = refl
Step-allowed fail_waiting = refl
Step-allowed (stop h) = ground arith

Step-of_allowed : (s t : TaskState) → can_transition_to s t ≡ true → Step s t
unfolding can_transition_to
Step-of_allowed s t h = grind (arith, steps)

-- `can_transition_to` answers true exactly for the steps of the documented lifecycle.
pub can_transition_to_iff : (s t : TaskState) → (can_transition_to s t ≡ true) ↔ Step s t
can_transition_to_iff s t = (Step-of_allowed s t, Step-allowed)

-- A request for a list of transitions, as successive calls of `transition_to`: a refused call
-- leaves the state as it was.
unfoldable pub run : TaskState → List TaskState → TaskState
run s [] = s
run s (next ∷ rest) = run (elim (transition_to s next) [ ok t ↦ t | err _ ↦ s ]) rest

transition_to_terminal :
    (s t : TaskState) → is_terminal s ≡ true → transition_to s t ≡ err (record { from = s; to = t })
unfolding transition_to
transition_to_terminal s t h = ground arith

-- A terminal state is absorbing: whatever transitions are requested afterwards, the state stays.
pub run_terminal : (s : TaskState) (ts : List TaskState) → is_terminal s ≡ true → run s ts ≡ s
unfolding run
run_terminal s [] h = refl
run_terminal s (t ∷ ts) h = rw (transition_to_terminal s t h, run) (run_terminal s ts h)

-- Cancellation reaches a terminal state from everywhere, a second call is a no-op that answers
-- false, and a call answers true exactly when the state was not terminal.
pub cancel_idem :
    (s : TaskState)
    → (is_terminal (cancel s).0 ≡ true)
      × (cancel (cancel s).0 ≡ ((cancel s).0, false))
      × (((cancel s).1 ≡ true) ↔ (is_terminal s ≡ false))
unfolding cancel
cancel_idem s = ground arith

-- `cancel` changes the state exactly when the transition to `cancelled` is allowed, and to that.
pub cancel-transition_to :
    (s t : TaskState) → (cancel s ≡ (t, true)) ↔ (transition_to s cancelled ≡ ok t)
unfolding cancel transition_to
cancel-transition_to s t = ground arith
