-- ===== src/Runtime/Approval.antt =====
-- crates/aios-runtime/src/approval.rs: the authority of pending approvals and its one-time grants.
-- Instants and durations are nanoseconds; the clock's readings and the new identifiers are
-- arguments. A grant is a linear value of the source: what consumes it takes it as an argument.
pub mod Consistency
pub mod Grants
pub mod Reached
use ai_os.Prelude.{
  ℕ, suc, ◌+◌, ◌*◌, ◌/◌, ◌^◌, ◌≡◌, Bool, true, false, ◌&&◌, ◌||◌, not, List, [], ◌∷◌, Option, none,
  some, ltb, leb, nat_beq, nat_eq, nat_ord, pair_ord, if◌then◌else◌, ◌==◌, length, all, is_empty,
  list_eq, BTreeMap, get, insert, remove, contains_key, keys_where, Result, ok, err, ok_or, ◌>>=◌,
  Outcome, returns, fails, try_u64,
}
use ai_os.Core.Text.{Text, byte_len, is_ascii_alphanumeric}
use ai_os.Runtime.Event.{TaskId, ApprovalId, OperationId}

abbrev pub Instant : Type 0
Instant = ℕ

abbrev pub Duration : Type 0
Duration = ℕ

abbrev pub nanos_per_milli : ℕ
nanos_per_milli = 1000000

abbrev pub nanos_per_second : ℕ
nanos_per_second = 1000000000

-- `Instant::checked_add`: on 64-bit Unix the seconds of an instant are an `i64`.
abbrev pub instant_mod : ℕ
instant_mod = 9223372036854775808000000000

abbrev pub instant_checked_add : Instant → Duration → Option Instant
instant_checked_add at ttl = if ltb (at + ttl) instant_mod then some (at + ttl) else none

abbrev pub default_max_pending_approvals : ℕ
default_max_pending_approvals = 1024

abbrev pub default_max_ttl : Duration
default_max_ttl = 900 * nanos_per_second

abbrev pub max_max_pending_approvals : ℕ
max_max_pending_approvals = 65536

abbrev pub max_max_ttl : Duration
max_max_ttl = 86400 * nanos_per_second

abbrev pub max_action_bytes : ℕ
max_action_bytes = 64

pub data ApprovalError : Type 0 where
  invalid_config invalid_request duplicate_operation capacity_exceeded : ApprovalError
  not_found expired scope_mismatch : ApprovalError

pub record ApprovalRequest : Type 0 where
  pub approval_id : ApprovalId
  pub task_id : TaskId
  pub operation_id : OperationId
  pub action : Text
  pub expires_after_ms : ℕ

pub record ApprovalReceipt : Type 0 where
  pub approval_id : ApprovalId

pub record ApprovalGrant : Type 0 where
  pub approval_id : ApprovalId
  pub task_id : TaskId
  pub operation_id : OperationId
  pub action : Text
  pub deadline : Instant

pub record PendingApproval : Type 0 where
  pub task_id : TaskId
  pub operation_id : OperationId
  pub action : Text
  pub deadline : Instant

pub record ApprovalAuthority : Type 0 where
  pub pending : BTreeMap ApprovalId PendingApproval
  pub operation_index : BTreeMap (TaskId × OperationId) ApprovalId
  pub max_pending : ℕ
  pub max_ttl : Duration

unfoldable pub new : ℕ → Duration → Result ApprovalError ApprovalAuthority
new max_pending max_ttl =
    if nat_beq max_pending 0
      || ltb max_max_pending_approvals max_pending
      || nat_beq max_ttl 0
      || ltb max_max_ttl max_ttl
    then err invalid_config
    else ok (record {
      pending = [];
      operation_index = [];
      max_pending = max_pending;
      max_ttl = max_ttl;
    })

unfoldable pub default : ApprovalAuthority
default = record {
  pending = [];
  operation_index = [];
  max_pending = default_max_pending_approvals;
  max_ttl = default_max_ttl;
}

unfoldable pub is_valid_action : Text → Bool
is_valid_action action =
    not (is_empty action)
    && leb (byte_len action) max_action_bytes
    && all
        (λ c.
          is_ascii_alphanumeric c
          || nat_beq c b'.'
          || nat_beq c b'_'
          || nat_beq c b':'
          || nat_beq c b'-')
        action

unfoldable pub duration_ms : Duration → Result ApprovalError ℕ
duration_ms duration = ok_or (try_u64 (duration / nanos_per_milli)) invalid_request

-- `ApprovalGrant::authorize`, which consumes the grant.
unfoldable pub authorize :
    ApprovalGrant → Instant → TaskId → OperationId → Text → Result ApprovalError ApprovalReceipt
authorize grant now task_id operation_id action =
    if leb grant.deadline now
    then err expired
    else if not (nat_beq grant.task_id task_id)
        || not (nat_beq grant.operation_id operation_id)
        || not (grant.action == action)
    then err scope_mismatch
    else ok (record { approval_id = grant.approval_id })

abbrev pub put :
    ApprovalAuthority → ApprovalId → TaskId → OperationId → Text → Instant → ApprovalAuthority
put authority approval_id task_id operation_id action deadline = record authority {
  pending =
      insert approval_id
        (record {
          task_id = task_id;
          operation_id = operation_id;
          action = action;
          deadline = deadline;
        })
        authority.pending;
  operation_index = insert (task_id, operation_id) approval_id authority.operation_index;
}

-- `ApprovalGrant::restore`
unfoldable pub restore : ApprovalGrant → ApprovalAuthority → ApprovalAuthority
restore grant authority =
    put authority grant.approval_id grant.task_id grant.operation_id grant.action grant.deadline

-- `now` is the reading of the clock, `approval_id` the new identifier.
unfoldable pub request :
    ApprovalAuthority
    → Instant
    → ApprovalId
    → TaskId
    → OperationId
    → Text
    → Duration
    → Outcome ApprovalAuthority ApprovalError ApprovalRequest
request authority now approval_id task_id operation_id action ttl =
    if not (is_valid_action action) || ltb ttl nanos_per_milli || ltb authority.max_ttl ttl
    then fails invalid_request authority
    else if contains_key (task_id, operation_id) authority.operation_index
    then fails duplicate_operation authority
    else if leb authority.max_pending (length authority.pending)
    then fails capacity_exceeded authority
    else elim (instant_checked_add now ttl) [
      | none ↦ fails invalid_request authority
      | some deadline ↦
          let authority' = put authority approval_id task_id operation_id action deadline in
          elim (duration_ms ttl) [
            | err e ↦ fails e authority'
            | ok expires_after_ms ↦
                returns
                  (record {
                    approval_id = approval_id;
                    task_id = task_id;
                    operation_id = operation_id;
                    action = action;
                    expires_after_ms = expires_after_ms;
                  })
                  authority'
          ]
    ]

-- The private `remove`.
unfoldable pub take : ApprovalAuthority → ApprovalId → ApprovalAuthority × Option PendingApproval
take authority approval_id = elim (get approval_id authority.pending) [
  | none ↦ (authority, none)
  | some pending ↦ (
    record authority {
      pending = remove approval_id authority.pending;
      operation_index = remove (pending.task_id, pending.operation_id) authority.operation_index;
    },
    some pending,
  )
]

unfoldable pub approve :
    ApprovalAuthority → Instant → ApprovalId → Outcome ApprovalAuthority ApprovalError ApprovalGrant
unfolding take
approve authority now approval_id = elim (get approval_id authority.pending) [
  | none ↦ fails not_found authority
  | some found ↦
      if leb found.deadline now
      then fails expired authority
      else let (authority', removed) = take authority approval_id in
        elim removed [
          | none ↦ fails not_found authority'
          | some pending ↦
              returns
                (record {
                  approval_id = approval_id;
                  task_id = pending.task_id;
                  operation_id = pending.operation_id;
                  action = pending.action;
                  deadline = pending.deadline;
                })
                authority'
        ]
]

unfoldable pub deny :
    ApprovalAuthority → Instant → ApprovalId → Outcome ApprovalAuthority ApprovalError (Unit {0})
unfolding take
deny authority now approval_id = elim (get approval_id authority.pending) [
  | none ↦ fails not_found authority
  | some found ↦
      if leb found.deadline now
      then fails expired authority
      else let (authority', removed) = take authority approval_id in
        elim removed [ none ↦ fails not_found authority' | some _ ↦ returns tt authority' ]
]

unfoldable pub contains : ApprovalAuthority → ApprovalId → Bool
contains authority approval_id = contains_key approval_id authority.pending

unfoldable pub revoke : ApprovalAuthority → ApprovalId → ApprovalAuthority × Bool
unfolding take
revoke authority approval_id =
    let (authority', removed) = take authority approval_id in
    (authority', elim removed [ none ↦ false | some _ ↦ true ])

abbrev pub is_expired_at : Instant → PendingApproval → Bool
is_expired_at now pending = leb pending.deadline now

unfoldable pub expired_ids : ApprovalAuthority → Instant → List ApprovalId
expired_ids authority now = keys_where (is_expired_at now) authority.pending

take_all : List ApprovalId → ApprovalAuthority → ApprovalAuthority
unfolding take
take_all [] authority = authority
take_all (approval_id ∷ ids) authority = take_all ids (take authority approval_id).0

unfoldable pub purge_expired : ApprovalAuthority → Instant → ApprovalAuthority
unfolding take_all
purge_expired authority now = take_all (keys_where (is_expired_at now) authority.pending) authority

unfoldable pub pending_count : ApprovalAuthority → Instant → ApprovalAuthority × ℕ
unfolding purge_expired
pending_count authority now =
    let authority' = purge_expired authority now in (authority', length authority'.pending)
