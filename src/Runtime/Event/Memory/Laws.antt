-- ===== src/Runtime/Event/Memory/Laws.antt =====
-- The in-memory store keeps the promises of the trait `EventStore`, and its own bound.
use mathlib.Core.List.{append-nil}
use native.Mathlib.Decide.{dec_le}
use ai_os.Prelude.{
  ℕ, suc, ◌+◌, ◌≤◌, ◌<◌, ◌≡◌, refl, ap, subst, ◌∙◌, ◌⊎◌, inl, inr, err, List, [], ◌∷◌, ◌++◌, arith,
  ltb, nat_beq, if◌then◌else◌, length, keep_if, insert, get-insert, nat_ord, ok, Result-cases,
  returns, fails, u64_mod,
}
use ai_os.Runtime.Event.{
  TaskId, TaskEvent, TaskEventKind, EventStoreError, capacity_exceeded, WallClock, IsNumbered,
  kinds_of, EventStore, event_now, unix_time_ms,
}
use ai_os.Runtime.Event.Memory.{InMemoryEventStore, held, stamp, batch, append_batch, list}
use ai_os.Runtime.Event.Pages.{IsNumbered-append}

stamp-eq-ok :
    (clock : WallClock) (task first offset n : ℕ) (kinds : List TaskEventKind)
    (events : List TaskEvent)
    → n ≡ first + offset
    → stamp clock task first offset kinds ≡ ok events
    → (kinds_of events ≡ kinds) × IsNumbered task n events
unfolding stamp event_now
stamp-eq-ok clock task first offset n [] events p h = ground arith
stamp-eq-ok clock task first offset n (k ∷ ks) events p h =
    elim (Result-cases (stamp clock task first (suc offset) ks)) [
      | inl (es, e) ↦
          let ih = stamp-eq-ok clock task first (suc offset) (suc n) ks es (omega arith) e in
          ground (arith, ih)
      | inr (x, e) ↦ ground arith
    ]

-- With room for them, every event is stamped.
stamp_total :
    (clock : WallClock) (task first offset : ℕ) (kinds : List TaskEventKind)
    → 0 < first
    → first + offset + length kinds ≤ u64_mod
    → (events : List TaskEvent) × (stamp clock task first offset kinds ≡ ok events)
unfolding stamp event_now
stamp_total clock task first offset [] p h = ([], refl)
stamp_total clock task first offset (k ∷ ks) p h =
    let (es, e) = stamp_total clock task first (suc offset) ks p (omega arith) in
    let event : TaskEvent = record {
      task_id = task;
      sequence = first + offset;
      occurred_at_unix_ms = unix_time_ms (clock task (first + offset));
      kind = k;
    } in
    (event ∷ es, ground (arith, e))

batch-eq-ok :
    (clock : WallClock) (store : InMemoryEventStore) (task : TaskId) (kinds : List TaskEventKind)
    (events : List TaskEvent)
    → batch clock store task kinds ≡ ok events
    → (kinds_of events ≡ kinds)
      × IsNumbered task (suc (length (held store task))) events
      × (length (held store task) + length kinds ≤ store.max_events_per_task)
unfolding batch
batch-eq-ok clock store task kinds events h =
    let n = length (held store task) in
    let r = stamp-eq-ok clock task (n + 1) 0 (suc n) kinds events (omega arith) in ground (arith, r)

batch_total :
    (clock : WallClock) (s : InMemoryEventStore) (task : TaskId) (kinds : List TaskEventKind)
    → 0 < length kinds
    → length (held s task) + length kinds ≤ s.max_events_per_task
    → s.max_events_per_task < u64_mod
    → (events : List TaskEvent) × (batch clock s task kinds ≡ ok events)
unfolding batch
batch_total clock s task kinds some_kind fit small =
    let n = length (held s task) in
    let (es, e) = stamp_total clock task (n + 1) 0 kinds (omega arith) (omega arith) in
    (es, ground (arith, e))

batch_full :
    (clock : WallClock) (s : InMemoryEventStore) (task : TaskId) (kinds : List TaskEventKind)
    → s.max_events_per_task < length (held s task) + length kinds
    → batch clock s task kinds ≡ err capacity_exceeded
unfolding batch
batch_full clock s task kinds full = ground arith

abbrev appended : InMemoryEventStore → TaskId → List TaskEvent → InMemoryEventStore
appended store task es = record store { events = insert task (held store task ++ es) store.events }

held-appended :
    (store : InMemoryEventStore) (task u : TaskId) (es : List TaskEvent)
    → held (appended store task es) u
      ≡ (if nat_beq task u then held store u ++ es else held store u)
held-appended store task u es =
    ground (arith, get-insert u task (held store task ++ es) store.events)

pub append_returns_lem :
    (clock : WallClock) (s : InMemoryEventStore) (task : TaskId) (kinds : List TaskEventKind)
    (events : List TaskEvent) (s' : InMemoryEventStore)
    → append_batch clock s task kinds ≡ returns events s'
    → (kinds_of events ≡ kinds)
      × (IsNumbered task 1 (held s task) → IsNumbered task (suc (length (held s task))) events)
      × ((u : TaskId) → held s' u ≡ (if nat_beq task u then held s u ++ events else held s u))
unfolding append_batch
append_returns_lem clock s task [] events s' h =
    (ground arith, (λ _. ground arith), (λ u. ground (arith, append-nil (held s u))))
append_returns_lem clock s task (k ∷ ks) events s' h =
    elim (Result-cases (batch clock s task (k ∷ ks))) [
      | inl (es, e) ↦
          let (kinds, numbered, _) = batch-eq-ok clock s task (k ∷ ks) es e in
          (
            ground arith,
            (λ _. ground (arith, numbered)),
            (λ u. ground (arith, held-appended s task u es)),
          )
      | inr (x, e) ↦ ground arith
    ]

pub list-eq-ok :
    (s : InMemoryEventStore) (task : TaskId) (after : ℕ) (events : List TaskEvent)
    → list s task after ≡ ok events
    → events ≡ keep_if (λ e. ltb after e.sequence) (held s task)
unfolding list
list-eq-ok s task after events h = cc

-- A failed append changes nothing.
pub append_fails_lem :
    (clock : WallClock) (s : InMemoryEventStore) (task : TaskId) (kinds : List TaskEventKind)
    (x : EventStoreError) (s' : InMemoryEventStore)
    → append_batch clock s task kinds ≡ fails x s'
    → s' ≡ s
unfolding append_batch
append_fails_lem clock s task [] x s' h = cc
append_fails_lem clock s task (k ∷ ks) x s' h = ground arith

-- The trait, implemented.
abbrev pub in_memory_store : WallClock → EventStore InMemoryEventStore
in_memory_store clock = record {
  append_batch = append_batch clock;
  list = list;
  history = held;
  append_returns = append_returns_lem clock;
  append_fails = λ s task kinds e s' h u.
      ap (λ (t : InMemoryEventStore). held t u) (append_fails_lem clock s task kinds e s' h);
  list_ok = list-eq-ok;
}

-- The batch is empty or fits under the limit of its task.
abbrev pub HasRoom : InMemoryEventStore → TaskId → List TaskEventKind → Type 0
HasRoom s task kinds = (kinds ≡ []) ⊎ (length (held s task) + length kinds ≤ s.max_events_per_task)

-- An append to a store whose limit is a 64-bit number succeeds when the batch is empty or fits under
-- the limit of its task: then the events are of the given kinds, the task holds the old events and the
-- new, numbered on without a gap where the old were, and the other tasks hold what they held.
-- Otherwise it fails for the capacity, and the store is as it was.
pub append_batch_cases :
    (clock : WallClock) (s : InMemoryEventStore) (task : TaskId) (kinds : List TaskEventKind)
    → s.max_events_per_task < u64_mod
    → (HasRoom s task kinds
        × (events : List TaskEvent) × (s' : InMemoryEventStore) × (append_batch clock s task kinds
            ≡ returns events s')
        × (kinds_of events ≡ kinds)
        × (IsNumbered task 1 (held s task) → IsNumbered task 1 (held s' task))
        × ((u : TaskId) → held s' u ≡ (if nat_beq task u then held s u ++ events else held s u)))
      ⊎ ((¬ HasRoom s task kinds) × (append_batch clock s task kinds ≡ fails capacity_exceeded s))
append_batch_cases clock s task kinds small = elim (attempt kinds) [
  | inl (room, events, s', e) ↦
      let (kinds_kept, numbered, kept) = append_returns_lem clock s task kinds events s' e in
      let here : held s' task ≡ held s task ++ events = kept task ∙ ground arith in
      inl (
        room,
        events,
        s',
        e,
        kinds_kept,
        (λ n. rw here (
            IsNumbered-append task 1 (held s task) events n
              (subst (λ (first : ℕ). IsNumbered task first events) (omega arith) (numbered n)))),
        kept,
      )
  | inr full ↦ inr full
]
  where
    attempt :
        (kinds : List TaskEventKind)
        → (HasRoom s task kinds
            × (events : List TaskEvent) × (s' : InMemoryEventStore) × (append_batch clock s task
                  kinds
                ≡ returns events s'))
          ⊎ ((¬ HasRoom s task kinds)
              × (append_batch clock s task kinds ≡ fails capacity_exceeded s))
    attempt [] = unfold append_batch in inl (inl refl, [], s, refl)
    attempt (k ∷ ks) =
        elim (dec_le (length (held s task) + length (k ∷ ks)) s.max_events_per_task) [
          | yes fit ↦
              let (es, e) = batch_total clock s task (k ∷ ks) (omega arith) fit small in
              inl (
                inr fit,
                es,
                appended s task es,
                (unfold append_batch in rw (e, append_batch) refl),
              )
          | no over ↦
              let e = batch_full clock s task (k ∷ ks) (omega arith) in
              inr (
                (λ room. elim room [ inl n ↦ absurd (cc n) | inr fit ↦ absurd (over fit) ]),
                (unfold append_batch in rw (e, append_batch) refl),
              )
        ]
