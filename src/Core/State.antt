-- ===== src/Core/State.antt =====
-- crates/aios-core/src/state.rs and the error of a refused transition (crates/aios-core/src/error.rs).
-- A method on `&mut self` returns the new state with its result.
pub mod Lifecycle
use ai_os.Prelude.{
  ℕ, ◌≡◌, ◌↔◌, arith, nat_beq, Bool, true, false, not, ◌&&◌, ◌||◌, if◌then◌else◌, Eq, Result, ok,
  err,
}

pub data TaskState : Type 0 where
  submitted validating rejected queued running waiting_approval succeeded failed cancelled :
      TaskState

-- `derive(PartialEq)`: the states are told apart by their place in the declaration.
abbrev pub discriminant : TaskState → ℕ
discriminant submitted = 0
discriminant validating = 1
discriminant rejected = 2
discriminant queued = 3
discriminant running = 4
discriminant waiting_approval = 5
discriminant succeeded = 6
discriminant failed = 7
discriminant cancelled = 8

abbrev pub state_beq : TaskState → TaskState → Bool
state_beq s t = nat_beq (discriminant s) (discriminant t)

pub state_beq_iff : (s t : TaskState) → (state_beq s t ≡ true) ↔ (s ≡ t)
state_beq_iff s t = ground arith

instance abbrev pub task_state_eq : Eq TaskState
task_state_eq = record { beq = state_beq; beq_iff = state_beq_iff }

pub record StateTransitionError : Type 0 where
  pub from : TaskState
  pub to : TaskState

abbrev pub is_terminal : TaskState → Bool
is_terminal rejected = true
is_terminal succeeded = true
is_terminal failed = true
is_terminal cancelled = true
is_terminal _ = false

-- The pairs of the `matches!`.
abbrev allowed_pair : TaskState → TaskState → Bool
allowed_pair submitted validating = true
allowed_pair validating rejected = true
allowed_pair validating queued = true
allowed_pair queued running = true
allowed_pair running waiting_approval = true
allowed_pair running succeeded = true
allowed_pair running failed = true
allowed_pair waiting_approval running = true
allowed_pair waiting_approval failed = true
allowed_pair _ _ = false

abbrev is_cancelled : TaskState → Bool
is_cancelled cancelled = true
is_cancelled _ = false

unfoldable pub can_transition_to : TaskState → TaskState → Bool
can_transition_to state next =
    allowed_pair state next || (not (is_terminal state) && is_cancelled next)

unfoldable pub transition_to : TaskState → TaskState → Result StateTransitionError TaskState
unfolding can_transition_to
transition_to state next =
    if not (can_transition_to state next) then err (record { from = state; to = next }) else ok next

-- The new state, and whether it changed.
unfoldable pub cancel : TaskState → TaskState × Bool
cancel state = if is_terminal state then (state, false) else (cancelled, true)
