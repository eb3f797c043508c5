-- ===== src/Runtime/Approval/Reached.antt =====
-- The authorities that the methods of `ApprovalAuthority` (crates/aios-runtime/src/approval.rs) lead
-- to, and what holds of them: also of `restore`, which follows an approval whose audit failed, and of
-- the purge of the expired requests.
use ai_os.Prelude.{
  ℕ, ◌≤◌, ◌<◌, ◌≡◌, ◌∙◌, refl, sym, subst, ◌↔◌, inl, inr, true, List, [], ◌∷◌, none, some, arith,
  nat_eq, nat_ord, pair_ord, if◌then◌else◌, length, contains, keys_where, get, contains-keys_where,
  length-insert-le, length-remove-lt, IsSorted, insert-IsSorted, remove-IsSorted, remove, ok,
  returns, state_of, Option-cases,
}
use ai_os.Core.Text.{Text}
use ai_os.Runtime.Event.{TaskId, ApprovalId, OperationId}
use ai_os.Runtime.Approval.{
  ApprovalAuthority, PendingApproval, ApprovalGrant, new, default, take, take_all, request, approve,
  deny, revoke, restore, pending_count, purge_expired, expired_ids, is_expired_at,
}
use ai_os.Runtime.Approval.Consistency.{
  Owns, IsConsistent, request-IsConsistent, approve-IsConsistent, deny-IsConsistent,
  revoke-IsConsistent, purge_expired-IsConsistent,
}
use ai_os.Runtime.Approval.Grants.{
  grant_of, approve-eq-returns, get-take, restore-take_pending, restore-take_index,
}

-- A request draws an identifier that no pending request has; a grant is restored right after the
-- approval that gave it; `pending_count` purges. Each constructor has its own identifiers and clock.
pub data Reached : ApprovalAuthority → Type 0 where
  on_new :
      (max_pending max_ttl : ℕ) (a : ApprovalAuthority) → new max_pending max_ttl ≡ ok a → Reached a
  on_default : Reached default
  on_request :
      (a : ApprovalAuthority)
      → Reached a
      → (now id task operation ttl : ℕ) (action : Text) → get id a.pending ≡ none
      → Reached (state_of (request a now id task operation action ttl))
  on_approve :
      (a : ApprovalAuthority) → Reached a → (now id : ℕ) → Reached (state_of (approve a now id))
  on_restore :
      (a : ApprovalAuthority)
      → Reached a
      → (now id : ℕ) (g : ApprovalGrant) (a' : ApprovalAuthority) → approve a now id ≡ returns g a'
      → Reached (restore g a')
  on_deny : (a : ApprovalAuthority) → Reached a → (now id : ℕ) → Reached (state_of (deny a now id))
  on_revoke : (a : ApprovalAuthority) → Reached a → (id : ℕ) → Reached (revoke a id).0
  on_count : (a : ApprovalAuthority) → Reached a → (now : ℕ) → Reached (pending_count a now).0

empty-IsConsistent :
    (a : ApprovalAuthority) → a.pending ≡ [] → a.operation_index ≡ [] → IsConsistent a
unfolding get
empty-IsConsistent a p i = record {
  indexed = λ id q e. absurd (cc (rw p at e));
  backed = λ task operation id e. absurd (cc (rw i at e));
  bounded = rw p (omega arith);
  sorted = rw p tt;
}

new-IsConsistent :
    (max_pending max_ttl : ℕ) (a : ApprovalAuthority)
    → new max_pending max_ttl ≡ ok a
    → IsConsistent a
unfolding new
new-IsConsistent max_pending max_ttl a e =
    let start : (a.pending ≡ []) × (a.operation_index ≡ []) = ground arith in
    empty-IsConsistent a start.0 start.1

default-IsConsistent : IsConsistent default
unfolding default
default-IsConsistent = empty-IsConsistent default refl refl

restore-take_bounds :
    (a : ApprovalAuthority) (id : ApprovalId) (p : PendingApproval)
    → IsConsistent a
    → get id a.pending ≡ some p
    → (length (restore (grant_of id p) (take a id).0).pending
        ≤ (restore (grant_of id p) (take a id).0).max_pending)
      × IsSorted (restore (grant_of id p) (take a id).0).pending
unfolding restore take
restore-take_bounds a id p c e =
    rw (e, take)
      (
        omega (
          arith,
          length-insert-le id p (remove id a.pending),
          length-remove-lt id p a.pending e,
          c.bounded,
        ),
        insert-IsSorted id p (remove id a.pending) (remove-IsSorted id a.pending c.sorted),
      )

-- To restore the grant of an approval brings every lookup back, and with them the invariant.
restore-IsConsistent :
    (a : ApprovalAuthority) (now id : ℕ) (g : ApprovalGrant) (a' : ApprovalAuthority)
    → IsConsistent a
    → approve a now id ≡ returns g a'
    → IsConsistent (restore g a')
restore-IsConsistent a now id g a' c h =
    let (p, e, _, eg, ea) = approve-eq-returns a now id g a' h in
    let kept = restore-take_pending a id p e in
    let index = restore-take_index a id p e (c.indexed id p e) in
    let (bounded, sorted) = restore-take_bounds a id p c e in
    rw (eg, ea)
      (record {
        indexed = λ j q f. index (q.task_id, q.operation_id) ∙ c.indexed j q (sym (kept j) ∙ f);
        backed = λ task operation j f.
            subst (λ x. Owns x task operation) (sym (kept j))
              (c.backed task operation j (sym (index (task, operation)) ∙ f));
        bounded = bounded;
        sorted = sorted;
      })

-- In every authority that the methods lead to, `restore` and failures included, the index is the
-- inverse of the pending requests, their number is within the limit, and their keys ascend.
pub Reached-IsConsistent : (a : ApprovalAuthority) → Reached a → IsConsistent a
unfolding pending_count
Reached-IsConsistent _ (on_new max_pending max_ttl a e) = new-IsConsistent max_pending max_ttl a e
Reached-IsConsistent _ on_default = default-IsConsistent
Reached-IsConsistent _ (on_request a r now id task operation ttl action fresh) =
    request-IsConsistent a now id task operation ttl action (Reached-IsConsistent a r) fresh
Reached-IsConsistent _ (on_approve a r now id) =
    approve-IsConsistent a now id (Reached-IsConsistent a r)
Reached-IsConsistent _ (on_restore a r now id g a' h) =
    restore-IsConsistent a now id g a' (Reached-IsConsistent a r) h
Reached-IsConsistent _ (on_deny a r now id) = deny-IsConsistent a now id (Reached-IsConsistent a r)
Reached-IsConsistent _ (on_revoke a r id) = revoke-IsConsistent a id (Reached-IsConsistent a r)
Reached-IsConsistent _ (on_count a r now) =
    purge_expired-IsConsistent a now (Reached-IsConsistent a r)

-- A grant of an authority that the methods lead to, restored right after its approval because the
-- audit failed, leaves every lookup as before the approval.
pub restore-approve :
    (a : ApprovalAuthority) (now id : ℕ) (g : ApprovalGrant) (a' : ApprovalAuthority)
    → Reached a
    → approve a now id ≡ returns g a'
    → ((j : ApprovalId) → get j (restore g a').pending ≡ get j a.pending)
      × ((key : TaskId × OperationId)
          → get key (restore g a').operation_index ≡ get key a.operation_index)
restore-approve a now id g a' r h =
    let (p, e, _, eg, ea) = approve-eq-returns a now id g a' h in
    let c = Reached-IsConsistent a r in
    rw (eg, ea)
      (
        (λ j. restore-take_pending a id p e j),
        (λ key. restore-take_index a id p e (c.indexed id p e) key),
      )

get-take_all :
    (ids : List ApprovalId) (a : ApprovalAuthority) (j : ApprovalId)
    → get j (take_all ids a).pending ≡ (if contains j ids then none else get j a.pending)
unfolding take_all
get-take_all [] a j = refl
get-take_all (id ∷ ids) a j = ground (arith, get-take_all ids (take a id).0 j, get-take a id j)

-- In an authority that the methods lead to, a purge keeps exactly the requests whose deadline is still
-- to come, and `expired_ids` lists exactly the others.
pub purge_expired_iff :
    (a : ApprovalAuthority) (now id : ℕ) (p : PendingApproval)
    → Reached a
    → ((get id (purge_expired a now).pending ≡ some p)
        ↔ ((get id a.pending ≡ some p) × (now < p.deadline)))
      × ((contains id (expired_ids a now) ≡ true)
          ↔ ((q : PendingApproval) × (get id a.pending ≡ some q) × (q.deadline ≤ now)))
unfolding purge_expired expired_ids
purge_expired_iff a now id p r =
    let c = Reached-IsConsistent a r in
    let listed = contains-keys_where (is_expired_at now) id a.pending c.sorted in
    let left = get-take_all (keys_where (is_expired_at now) a.pending) a id in
    elim (Option-cases (get id a.pending)) [
      | inl e ↦ let l = rw e at listed in let k = rw e at left in (ground arith, ground arith)
      | inr (q, e) ↦ let l = rw e at listed in let k = rw e at left in (ground arith, ground arith)
    ]
