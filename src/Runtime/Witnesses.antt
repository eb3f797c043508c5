-- ===== src/Runtime/Witnesses.antt =====
-- The theorems on events and approvals (crates/aios-runtime/src/event.rs and approval.rs) at concrete
-- inputs.
use ai_os.Prelude.{
  ◌+◌, ◌≤◌, ◌<◌, ◌≡◌, refl, ◌↔◌, ◌⊎◌, List, [], ◌∷◌, some, none, arith, true, false, ◌++◌, nat_beq,
  nat_eq, nat_ord, pair_ord, if◌then◌else◌, length, drop, get, insert, remove, ok, returns, fails,
  Leaves,
}
use ai_os.Prelude
use ai_os.Core.Text.{Text, codes, byte_len, is_ascii_alphanumeric}
use ai_os.Runtime.Event.{
  TaskId, ApprovalId, OperationId, WallClock, IsNumbered, TaskEvent, submission, kinds_of,
  capacity_exceeded,
}
use ai_os.Runtime.Event.Memory.{InMemoryEventStore, held, append_batch}
use ai_os.Runtime.Event.Memory.Laws.{HasRoom, append_batch_cases}
use ai_os.Runtime.Approval.{
  ApprovalAuthority, ApprovalGrant, ApprovalRequest, default, put, request, approve, restore,
  purge_expired, authorize, contains, is_valid_action, duration_ms, not_found, expired_ids,
  PendingApproval,
}
use ai_os.Runtime.Approval.Consistency.{IsConsistent}
use ai_os.Runtime.Approval.Reached.{
  Reached, on_default, on_request, Reached-IsConsistent, restore-approve, purge_expired_iff,
}
use ai_os.Runtime.Approval.Grants.{authorize_iff, approve_once, request-approve-authorize}

abbrev clock : WallClock
clock = λ _ _. 0

abbrev store : InMemoryEventStore
store = record { events = []; max_events_per_task = 1 }

append_batch_cases_example :
    (HasRoom store 7 (submission ∷ [])
      × (events : List TaskEvent) × (s' : InMemoryEventStore) × (append_batch clock store 7
            (submission ∷ [])
          ≡ returns events s')
      × (kinds_of events ≡ submission ∷ [])
      × (IsNumbered 7 1 (held store 7) → IsNumbered 7 1 (held s' 7))
      × ((u : TaskId) → held s' u ≡ (if nat_beq 7 u then held store u ++ events else held store u)))
    ⊎ ((¬ HasRoom store 7 (submission ∷ []))
        × (append_batch clock store 7 (submission ∷ []) ≡ fails capacity_exceeded store))
append_batch_cases_example = append_batch_cases clock store 7 (submission ∷ []) (omega arith)

abbrev reads : Text
reads = codes "filesystem.read"

abbrev grant : ApprovalGrant
grant = record {
  approval_id = 5;
  task_id = 1;
  operation_id = 2;
  action = reads;
  deadline = 2000000;
}

abbrev pending_one : ApprovalAuthority
pending_one = put default 5 1 2 reads 2000000

abbrev asked : ApprovalRequest
asked = record {
  approval_id = 5;
  task_id = 1;
  operation_id = 2;
  action = reads;
  expires_after_ms = 2;
}

authorize_iff_example : (authorize grant 1 1 2 reads ≡ ok (record { approval_id = 5 })) ↔ (
    (1 < grant.deadline)
    × (grant.task_id ≡ 1)
    × (grant.operation_id ≡ 2)
    × (reads ≡ reads)
    × (grant.approval_id ≡ 5))
authorize_iff_example = authorize_iff grant 1 1 2 reads (record { approval_id = 5 })

requested : request default 0 5 1 2 reads 2000000 ≡ returns asked pending_one
unfolding request default is_valid_action byte_len is_ascii_alphanumeric get duration_ms
requested = refl

approved : approve pending_one 1 5 ≡ returns grant default
unfolding approve default get insert remove
approved = refl

approve_once_example :
    (approve default 3 5 ≡ fails not_found default)
    × (contains default 5 ≡ false)
    × ((j : ApprovalId)
        → get j default.pending ≡ (if nat_beq 5 j then none else get j pending_one.pending))
approve_once_example = approve_once pending_one 1 3 5 grant default approved

request-approve-authorize_example :
    (g : ApprovalGrant) × (a : ApprovalAuthority) × (approve pending_one 1 5 ≡ returns g a)
    × (authorize g 2 1 2 reads ≡ ok (record { approval_id = 5 }))
request-approve-authorize_example =
    request-approve-authorize default 0 5 1 2 2000000 reads asked pending_one 1 2 requested
      (omega arith) (omega arith)

unused : get 5 default.pending ≡ none
unfolding default get
unused = refl

one-Reached : Reached pending_one
unfolding request default is_valid_action byte_len is_ascii_alphanumeric get duration_ms
one-Reached = on_request default on_default 0 5 1 2 2000000 reads unused

Reached-IsConsistent_example : IsConsistent pending_one
Reached-IsConsistent_example = Reached-IsConsistent pending_one one-Reached

restore-approve_example :
    ((j : ApprovalId) → get j (restore grant default).pending ≡ get j pending_one.pending)
    × ((key : TaskId × OperationId)
        → get key (restore grant default).operation_index ≡ get key pending_one.operation_index)
restore-approve_example = restore-approve pending_one 1 5 grant default one-Reached approved

abbrev pending_read : PendingApproval
pending_read = record { task_id = 1; operation_id = 2; action = reads; deadline = 2000000 }

purge_expired_iff_example :
    ((get 5 (purge_expired pending_one 1).pending ≡ some pending_read)
      ↔ ((get 5 pending_one.pending ≡ some pending_read) × (1 < 2000000)))
    × ((Prelude.contains 5 (expired_ids pending_one 1) ≡ true)
        ↔ ((q : PendingApproval) × (get 5 pending_one.pending ≡ some q) × (q.deadline ≤ 1)))
purge_expired_iff_example = purge_expired_iff pending_one 1 5 pending_read one-Reached
