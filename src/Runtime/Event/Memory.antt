-- ===== src/Runtime/Event/Memory.antt =====
-- `InMemoryEventStore` (crates/aios-runtime/src/event.rs).
pub mod Laws
use ai_os.Prelude.{
  ℕ, suc, ◌+◌, List, [], ◌∷◌, ◌++◌, Option, none, some, ltb, nat_beq, nat_ord, if◌then◌else◌,
  length, keep_if, BTreeMap, get, insert, Result, ok, err, ◌>>=◌, ok_or, Outcome, returns, fails,
  checked_add, try_u64,
}
use ai_os.Runtime.Event.{
  TaskId, TaskEvent, TaskEventKind, EventStoreError, capacity_exceeded, sequence_exhausted,
  WallClock, event_now,
}

abbrev pub default_max_events_per_task : ℕ
default_max_events_per_task = 10000

pub record InMemoryEventStore : Type 0 where
  pub events : BTreeMap TaskId (List TaskEvent)
  pub max_events_per_task : ℕ

unfoldable pub new : ℕ → Result EventStoreError InMemoryEventStore
new max_events_per_task =
    if nat_beq max_events_per_task 0
    then err capacity_exceeded
    else ok (record { events = []; max_events_per_task = max_events_per_task })

unfoldable pub default : InMemoryEventStore
default = record { events = []; max_events_per_task = default_max_events_per_task }

-- `self.events.get(&task_id)`, with no entry read as an empty list.
abbrev pub or_empty : Option (List TaskEvent) → List TaskEvent
or_empty none = []
or_empty (some es) = es

abbrev pub held : InMemoryEventStore → TaskId → List TaskEvent
held store task_id = or_empty (get task_id store.events)

-- The loop over `kinds.iter().enumerate()`.
pub stamp :
    WallClock → TaskId → ℕ → ℕ → List TaskEventKind → Result EventStoreError (List TaskEvent)
stamp clock task_id first_sequence offset [] = ok []
stamp clock task_id first_sequence offset (kind ∷ kinds) =
    let rest = stamp clock task_id first_sequence (suc offset) kinds in
    ok_or (checked_add first_sequence offset) sequence_exhausted >>= λ sequence.
    event_now clock task_id sequence kind >>= λ event. rest >>= λ events. ok (event ∷ events)

-- What is to be appended.
pub batch :
    WallClock
    → InMemoryEventStore
    → TaskId
    → List TaskEventKind
    → Result EventStoreError (List TaskEvent)
unfolding stamp
batch clock store task_id kinds =
    let existing_length = length (held store task_id) in
    ok_or (checked_add existing_length (length kinds)) capacity_exceeded >>= λ resulting_length.
    if ltb store.max_events_per_task resulting_length
    then err capacity_exceeded
    else ok_or (try_u64 existing_length) sequence_exhausted >>= λ length64.
        ok_or (checked_add length64 1) sequence_exhausted >>= λ first_sequence.
        stamp clock task_id first_sequence 0 kinds

unfoldable pub append_batch :
    WallClock
    → InMemoryEventStore
    → TaskId
    → List TaskEventKind
    → Outcome InMemoryEventStore EventStoreError (List TaskEvent)
unfolding batch
append_batch clock store task_id [] = returns [] store
append_batch clock store task_id (kind ∷ kinds) = elim (batch clock store task_id (kind ∷ kinds)) [
  | err e ↦ fails e store
  | ok appended ↦
      returns appended
        (record store { events = insert task_id (held store task_id ++ appended) store.events })
]

unfoldable pub list : InMemoryEventStore → TaskId → ℕ → Result EventStoreError (List TaskEvent)
list store task_id after_sequence =
    ok (keep_if (λ event. ltb after_sequence event.sequence) (held store task_id))
