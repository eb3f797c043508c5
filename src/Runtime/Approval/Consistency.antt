-- ===== src/Runtime/Approval/Consistency.antt =====
-- The invariant of `ApprovalAuthority` (crates/aios-runtime/src/approval.rs): `operation_index` is
-- the inverse of `pending`, the number of pending requests keeps to the limit, and the map of the
-- pending requests is in the order of its keys.
use ai_os.Prelude.{
  ℕ, ◌+◌, ◌≤◌, ◌≡◌, inl, inr, List, [], ◌∷◌, Option, none, some, arith, nat_ord, pair_ord, length,
  keys_where, get, get-insert, get-remove, length-insert-le, length-remove-le, IsSorted,
  insert-IsSorted, remove-IsSorted, Option-cases, Leaves,
}
use ai_os.Core.Text.{Text}
use ai_os.Runtime.Event.{TaskId, ApprovalId, OperationId}
use ai_os.Runtime.Approval.{
  ApprovalAuthority, PendingApproval, put, take, take_all, request, approve, deny, revoke,
  purge_expired, is_expired_at,
}

-- The entry belongs to the operation.
abbrev pub Owns : Option PendingApproval → TaskId → OperationId → Type 0
Owns none task operation = ⊥
Owns (some p) task operation = (p.task_id ≡ task) × (p.operation_id ≡ operation)

pub record IsConsistent (a : ApprovalAuthority) : Type 0 where
  pub indexed :
      (id : ApprovalId) (p : PendingApproval)
      → get id a.pending ≡ some p
      → get (p.task_id, p.operation_id) a.operation_index ≡ some id
  pub backed :
      (task : TaskId) (operation : OperationId) (id : ApprovalId)
      → get (task, operation) a.operation_index ≡ some id
      → Owns (get id a.pending) task operation
  pub bounded : length a.pending ≤ a.max_pending
  pub sorted : IsSorted a.pending

-- A new identifier for an operation that is not indexed.
put-IsConsistent :
    (a : ApprovalAuthority) (id task operation deadline : ℕ) (action : Text)
    → IsConsistent a
    → get id a.pending ≡ none
    → get (task, operation) a.operation_index ≡ none
    → length a.pending + 1 ≤ a.max_pending
    → IsConsistent (put a id task operation action deadline)
put-IsConsistent a id task operation deadline action c new free room = record {
  indexed = λ j p h. ground (
    arith,
    get-insert j id
        (record { task_id = task; operation_id = operation; action = action; deadline = deadline })
        a.pending,
    get-insert {K = ℕ × ℕ} (p.task_id, p.operation_id) (task, operation) id a.operation_index,
    c.indexed j p,
  );
  backed = λ t o j h. ground (
    arith,
    get-insert j id
        (record { task_id = task; operation_id = operation; action = action; deadline = deadline })
        a.pending,
    get-insert {K = ℕ × ℕ} (t, o) (task, operation) id a.operation_index,
    c.backed t o j,
  );
  bounded = omega (
    arith,
    length-insert-le id
        (record { task_id = task; operation_id = operation; action = action; deadline = deadline })
        a.pending,
  );
  sorted = insert-IsSorted id _ a.pending c.sorted;
}

take-IsConsistent :
    (a : ApprovalAuthority) (id : ApprovalId) → IsConsistent a → IsConsistent (take a id).0
unfolding take
take-IsConsistent a id c = elim (Option-cases (get id a.pending)) [
  | inl e ↦ rw (e, take) c
  | inr (q, e) ↦
      rw (e, take)
        (record {
          indexed = λ j p h. ground (
            arith,
            get-remove j id a.pending,
            get-remove {K = ℕ × ℕ} (p.task_id, p.operation_id) (q.task_id, q.operation_id)
                a.operation_index,
            c.indexed j p,
            c.indexed id q e,
          );
          backed = λ t o j h. ground (
            arith,
            get-remove j id a.pending,
            get-remove {K = ℕ × ℕ} (t, o) (q.task_id, q.operation_id) a.operation_index,
            c.backed t o j,
          );
          bounded = omega (arith, length-remove-le id a.pending, c.bounded);
          sorted = remove-IsSorted id a.pending c.sorted;
        })
]

pub request-IsConsistent :
    (a : ApprovalAuthority) (now id task operation ttl : ℕ) (action : Text)
    → IsConsistent a
    → get id a.pending ≡ none
    → Leaves IsConsistent (request a now id task operation action ttl)
unfolding request
request-IsConsistent a now id task operation ttl action c new =
    ground (arith, put-IsConsistent a id task operation (now + ttl) action c new, c)

pub approve-IsConsistent :
    (a : ApprovalAuthority) (now id : ℕ) → IsConsistent a → Leaves IsConsistent (approve a now id)
unfolding approve
approve-IsConsistent a now id c = ground (arith, take-IsConsistent a id c, c)

pub deny-IsConsistent :
    (a : ApprovalAuthority) (now id : ℕ) → IsConsistent a → Leaves IsConsistent (deny a now id)
unfolding deny
deny-IsConsistent a now id c = ground (arith, take-IsConsistent a id c, c)

pub revoke-IsConsistent :
    (a : ApprovalAuthority) (id : ℕ) → IsConsistent a → IsConsistent (revoke a id).0
unfolding revoke
revoke-IsConsistent a id c = take-IsConsistent a id c

take_all-IsConsistent :
    (ids : List ApprovalId) (a : ApprovalAuthority) → IsConsistent a → IsConsistent (take_all ids a)
unfolding take_all
take_all-IsConsistent [] a c = c
take_all-IsConsistent (id ∷ ids) a c =
    take_all-IsConsistent ids (take a id).0 (take-IsConsistent a id c)

pub purge_expired-IsConsistent :
    (a : ApprovalAuthority) (now : ℕ) → IsConsistent a → IsConsistent (purge_expired a now)
unfolding purge_expired
purge_expired-IsConsistent a now c =
    take_all-IsConsistent (keys_where (is_expired_at now) a.pending) a c
