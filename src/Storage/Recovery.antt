-- ===== src/Storage/Recovery.antt =====
-- `recover_snapshot` (crates/aios-storage-sqlite/src/lib.rs): the state of a task, rebuilt from its
-- events. The three variables of the loop are a record, and `scan` is the loop.
use ai_os.Prelude.{
  ℕ, Bool, true, false, not, ◌&&◌, ◌||◌, List, [], ◌∷◌, Option, none, some, nat_beq, if◌then◌else◌,
  ◌==◌, Result, ok, err, ok_or, ◌>>=◌, checked_add,
}
use ai_os.Core.State.{
  TaskState, submitted, validating, running, waiting_approval, failed, task_state_eq, is_terminal,
  can_transition_to,
}
use ai_os.Runtime.Event.{
  TaskId, TaskSnapshot, TaskEvent, TaskEventKind, EventStoreError, corrupt, sequence_exhausted,
  submission, state_transitioned, validation_failed, task_failed, operation_allowed,
  operation_denied, approval_requested, approval_granted, approval_denied, approval_expired,
  approval_revoked, approval_consumed,
}

pub record Scan : Type 0 where
  pub state : Option TaskState
  pub pending_failure : Bool

-- `state == Some(expected)`
abbrev pub is_at : Option TaskState → TaskState → Bool
is_at none expected = false
is_at (some s) expected = s == expected

abbrev pub is_live : Option TaskState → Bool
is_live none = false
is_live (some s) = not (is_terminal s)

abbrev pub is_none : Option TaskState → Bool
is_none none = true
is_none (some s) = false

-- An event that is accepted under a condition and changes no variable.
abbrev keep : Bool → Scan → Result EventStoreError Scan
keep true scan = ok scan
keep false scan = err corrupt

abbrev move : Bool → Scan → TaskState → Result EventStoreError Scan
move true scan to = ok (record scan { state = some to })
move false scan to = err corrupt

-- The `match` on an event when no failure is pending.
pub accept : Scan → TaskEventKind → Result EventStoreError Scan
accept scan submission = move (is_none scan.state) scan submitted
accept scan (state_transitioned from to) =
    move (is_at scan.state from && can_transition_to from to) scan to
accept scan (validation_failed _) = keep (is_at scan.state validating) scan
accept scan (task_failed _) =
    if is_live scan.state then ok (record scan { pending_failure = true }) else err corrupt
accept scan operation_allowed = keep (is_at scan.state running) scan
accept scan (operation_denied _) = keep (is_at scan.state running) scan
accept scan (approval_requested _ _) = keep (is_at scan.state running) scan
accept scan (approval_granted _ _) = keep (is_at scan.state waiting_approval) scan
accept scan (approval_denied _ _) = keep (is_at scan.state waiting_approval) scan
accept scan (approval_expired _ _) = keep (is_at scan.state waiting_approval) scan
accept scan (approval_revoked _ _) =
    keep (is_at scan.state running || is_at scan.state waiting_approval) scan
accept scan (approval_consumed _ _) = keep (is_at scan.state running) scan

-- The event after a failure code: only the transition to `failed`.
pub complete_failure : Scan → TaskEventKind → Result EventStoreError Scan
complete_failure scan (state_transitioned from to) =
    if is_at scan.state from && to == failed
    then ok (record { state = some to; pending_failure = false })
    else err corrupt
complete_failure scan _ = err corrupt

unfoldable pub scan_kind : Scan → TaskEventKind → Result EventStoreError Scan
unfolding accept complete_failure
scan_kind scan kind = if scan.pending_failure then complete_failure scan kind else accept scan kind

unfoldable pub scan_events : Scan → ℕ → List TaskEvent → Result EventStoreError Scan
scan_events scan expected_sequence [] = ok scan
scan_events scan expected_sequence (event ∷ events) =
    if not (nat_beq event.sequence expected_sequence)
    then err corrupt
    else ok_or (checked_add expected_sequence 1) sequence_exhausted >>= λ next_sequence.
        scan_kind scan event.kind >>= λ scan'. scan_events scan' next_sequence events

abbrev pub start : Scan
start = record { state = none; pending_failure = false }

unfoldable pub recover_snapshot : TaskId → List TaskEvent → Result EventStoreError TaskSnapshot
recover_snapshot task_id events = scan_events start 1 events >>= λ scan.
    if scan.pending_failure
    then err corrupt
    else ok_or scan.state corrupt >>= λ state. ok (record { task_id = task_id; state = state })
