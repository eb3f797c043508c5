-- ===== src/Runtime/Approval/Grants.antt =====
-- The life of a grant (crates/aios-runtime/src/approval.rs): from a request over its approval to
-- its single use.
use ai_os.Prelude.{
  ℕ, ◌+◌, ◌<◌, ◌≡◌, refl, ◌↔◌, inl, inr, false, none, some, arith, nat_beq, nat_ord, nat_eq,
  pair_ord, pair_beq_iff, if◌then◌else◌, list_eq, list_beq_iff, get, remove, get-insert, get-remove,
  Option-cases, ok, returns, fails,
}
use ai_os.Core.Text.{Text}
use ai_os.Runtime.Event.{TaskId, ApprovalId, OperationId}
use ai_os.Runtime.Approval.{
  Instant, ApprovalAuthority, PendingApproval, ApprovalGrant, ApprovalReceipt, ApprovalRequest,
  not_found, put, take, request, approve, restore, authorize, contains,
}

-- A grant authorizes exactly its own task, operation and action, before its deadline, and the
-- receipt names its approval.
pub authorize_iff :
    (g : ApprovalGrant) (now task operation : ℕ) (action : Text) (r : ApprovalReceipt)
    → (authorize g now task operation action ≡ ok r) ↔ (
        (now < g.deadline)
        × (g.task_id ≡ task)
        × (g.operation_id ≡ operation)
        × (g.action ≡ action)
        × (r.approval_id ≡ g.approval_id))
unfolding authorize
authorize_iff g now task operation action r = ground (arith, list_beq_iff g.action action)

-- What approving an entry does: it gives the entry as a grant, and takes it out.
abbrev pub grant_of : ApprovalId → PendingApproval → ApprovalGrant
grant_of id p = record {
  approval_id = id;
  task_id = p.task_id;
  operation_id = p.operation_id;
  action = p.action;
  deadline = p.deadline;
}

approve_live :
    (a : ApprovalAuthority) (now id : ℕ) (p : PendingApproval)
    → get id a.pending ≡ some p
    → now < p.deadline
    → approve a now id ≡ returns (grant_of id p) (take a id).0
unfolding approve
approve_live a now id p e h = ground arith

pub approve-eq-returns :
    (a : ApprovalAuthority) (now id : ℕ) (g : ApprovalGrant) (a' : ApprovalAuthority)
    → approve a now id ≡ returns g a'
    → (p : PendingApproval) × (get id a.pending ≡ some p)
      × (now < p.deadline)
      × (g ≡ grant_of id p)
      × (a' ≡ (take a id).0)
unfolding approve
approve-eq-returns a now id g a' h = elim (Option-cases (get id a.pending)) [
  | inl e ↦ absurd (ground arith)
  | inr (p, e) ↦ (p, e, ground arith, ground arith, ground arith)
]

pub get-take :
    (a : ApprovalAuthority) (id j : ApprovalId)
    → get j (take a id).0.pending ≡ (if nat_beq id j then none else get j a.pending)
unfolding take
get-take a id j = ground (arith, get-remove j id a.pending)

-- An approval is good for one grant: once approved it is gone, a second approval finds nothing,
-- and the other requests are as before.
pub approve_once :
    (a : ApprovalAuthority) (now later id : ℕ) (g : ApprovalGrant) (a' : ApprovalAuthority)
    → approve a now id ≡ returns g a'
    → (approve a' later id ≡ fails not_found a')
      × (contains a' id ≡ false)
      × ((j : ApprovalId) → get j a'.pending ≡ (if nat_beq id j then none else get j a.pending))
unfolding contains
approve_once a now later id g a' h =
    let (p, _, _, _, e) = approve-eq-returns a now id g a' h in
    let gone : get id a'.pending ≡ none = ground (arith, get-take a id id) in
    (approve_missing a' later id gone, ground arith, (λ j. ground (arith, get-take a id j)))
  where
    approve_missing :
        (a : ApprovalAuthority) (now id : ℕ)
        → get id a.pending ≡ none
        → approve a now id ≡ fails not_found a
    approve_missing a now id e = unfold approve in ground arith

request-eq-returns :
    (a : ApprovalAuthority) (now id task operation ttl : ℕ) (action : Text) (r : ApprovalRequest)
    (a' : ApprovalAuthority)
    → request a now id task operation action ttl ≡ returns r a'
    → a' ≡ put a id task operation action (now + ttl)
unfolding request
request-eq-returns a now id task operation ttl action r a' h = ground arith

-- A request that was accepted can be approved until its time to live is over, and the grant then
-- authorizes the requested operation, within the same time.
pub request-approve-authorize :
    (a : ApprovalAuthority) (now id task operation ttl : ℕ) (action : Text) (r : ApprovalRequest)
    (a' : ApprovalAuthority) (then_ later : Instant)
    → request a now id task operation action ttl ≡ returns r a'
    → then_ < now + ttl
    → later < now + ttl
    → (g : ApprovalGrant) × (a'' : ApprovalAuthority) × (approve a' then_ id ≡ returns g a'')
      × (authorize g later task operation action ≡ ok (record { approval_id = id }))
request-approve-authorize a now id task operation ttl action r a' then_ later h in_time used =
    let p : PendingApproval = record {
      task_id = task;
      operation_id = operation;
      action = action;
      deadline = now + ttl;
    } in
    let e = request-eq-returns a now id task operation ttl action r a' h in
    let found : get id a'.pending ≡ some p = ground (arith, get-insert id id p a.pending) in
    (
      grant_of id p,
      (take a' id).0,
      approve_live a' then_ id p found in_time,
      (authorize_iff (grant_of id p) later task operation action (record { approval_id = id })).1
          (used, refl, refl, refl, refl),
    )

pub restore-take_pending :
    (a : ApprovalAuthority) (id : ApprovalId) (p : PendingApproval)
    → get id a.pending ≡ some p
    → (j : ApprovalId) → get j (restore (grant_of id p) (take a id).0).pending ≡ get j a.pending
unfolding restore take
restore-take_pending a id p e j =
    rw (e, take)
      (ground (arith, get-insert j id p (remove id a.pending), get-remove j id a.pending, e))

pub restore-take_index :
    (a : ApprovalAuthority) (id : ApprovalId) (p : PendingApproval)
    → get id a.pending ≡ some p
    → get (p.task_id, p.operation_id) a.operation_index ≡ some id
    → (key : TaskId × OperationId)
    → get key (restore (grant_of id p) (take a id).0).operation_index ≡ get key a.operation_index
unfolding restore take
restore-take_index a id p e i key =
    let k : ℕ × ℕ = (p.task_id, p.operation_id) in
    rw (e, take)
      (ground (
        arith,
        get-insert {K = ℕ × ℕ} key k id (remove k a.operation_index),
        get-remove {K = ℕ × ℕ} key k a.operation_index,
        pair_beq_iff k key,
        i,
      ))
