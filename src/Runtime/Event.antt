-- ===== src/Runtime/Event.antt =====
-- crates/aios-runtime/src/event.rs: the audit events and the trait of their stores. Identifiers are
-- UUIDs, here the numbers that their 128 bits spell, in the same order.
pub mod Memory
pub mod Pages
use ai_os.Prelude.{
  ℕ, suc, ◌+◌, ◌≡◌, Bool, true, false, List, [], ◌∷◌, ◌++◌, map, ltb, nat_beq, if◌then◌else◌,
  length, keep_if, Result, ok, err, Outcome, returns, fails, u64_mod, u64_max, ok_or,
}
use ai_os.Core.State.{TaskState}
use ai_os.Core.Error.{ErrorCode}
use ai_os.Core.Policy.{DenialReason}

abbrev pub TaskId : Type 0
TaskId = ℕ

abbrev pub ApprovalId : Type 0
ApprovalId = ℕ

abbrev pub OperationId : Type 0
OperationId = ℕ

pub data TaskEventKind : Type 0 where
  submission : TaskEventKind
  state_transitioned : TaskState → TaskState → TaskEventKind
  validation_failed : ℕ → TaskEventKind
  task_failed : ErrorCode → TaskEventKind
  operation_allowed : TaskEventKind
  operation_denied : DenialReason → TaskEventKind
  approval_requested : ApprovalId → OperationId → TaskEventKind
  approval_granted : ApprovalId → OperationId → TaskEventKind
  approval_denied : ApprovalId → OperationId → TaskEventKind
  approval_expired : ApprovalId → OperationId → TaskEventKind
  approval_revoked : ApprovalId → OperationId → TaskEventKind
  approval_consumed : ApprovalId → OperationId → TaskEventKind

pub record TaskEvent : Type 0 where
  pub task_id : TaskId
  pub sequence : ℕ  -- u64
  pub occurred_at_unix_ms : ℕ  -- u64
  pub kind : TaskEventKind

pub data EventStoreError : Type 0 where
  capacity_exceeded sequence_exhausted corrupt insecure_permissions unavailable : EventStoreError

-- Public, non-sensitive task state (`TaskSnapshot` of crates/aios-runtime/src/supervisor.rs).
pub record TaskSnapshot : Type 0 where
  pub task_id : TaskId
  pub state : TaskState

-- The wall clock: its reading, in milliseconds, when the event of a task and a sequence number is
-- stamped.
abbrev pub WallClock : Type 0
WallClock = TaskId → ℕ → ℕ

unfoldable pub unix_time_ms : ℕ → ℕ
unix_time_ms milliseconds = if ltb milliseconds u64_mod then milliseconds else u64_max

-- `TaskEvent::now`
unfoldable pub event_now : WallClock → TaskId → ℕ → TaskEventKind → Result EventStoreError TaskEvent
unfolding unix_time_ms
event_now clock task_id sequence kind =
    if nat_beq sequence 0
    then err sequence_exhausted
    else ok (record {
      task_id = task_id;
      sequence = sequence;
      occurred_at_unix_ms = unix_time_ms (clock task_id sequence);
      kind = kind;
    })

-- The events of one task, numbered without a gap from `first`.
abbrev pub IsNumbered : TaskId → ℕ → List TaskEvent → Type 0
IsNumbered task first [] = Unit {0}
IsNumbered task first (e ∷ es) =
    (e.task_id ≡ task) × (e.sequence ≡ first) × IsNumbered task (suc first) es

abbrev pub kinds_of : List TaskEvent → List TaskEventKind
kinds_of = map (λ e. e.kind)

-- The trait `EventStore`, with what it promises: `history` is what the store holds of a task, a
-- batch is appended whole or not at all, with consecutive numbers, and no other task is touched.
pub record EventStore (St : Type 0) : Type 0 where
  pub append_batch : St → TaskId → List TaskEventKind → Outcome St EventStoreError (List TaskEvent)
  pub list : St → TaskId → ℕ → Result EventStoreError (List TaskEvent)
  pub history : St → TaskId → List TaskEvent
  pub append_returns :
      (s : St) (task : TaskId) (kinds : List TaskEventKind) (events : List TaskEvent) (s' : St)
      → append_batch s task kinds ≡ returns events s'
      → (kinds_of events ≡ kinds)
        × (IsNumbered task 1 (history s task)
            → IsNumbered task (suc (length (history s task))) events)
        × ((u : TaskId)
            → history s' u ≡ (if nat_beq task u then history s u ++ events else history s u))
  pub append_fails :
      (s : St) (task : TaskId) (kinds : List TaskEventKind) (e : EventStoreError) (s' : St)
      → append_batch s task kinds ≡ fails e s'
      → (u : TaskId) → history s' u ≡ history s u
  pub list_ok :
      (s : St) (task : TaskId) (after : ℕ) (events : List TaskEvent)
      → list s task after ≡ ok events
      → events ≡ keep_if (λ e. ltb after e.sequence) (history s task)
