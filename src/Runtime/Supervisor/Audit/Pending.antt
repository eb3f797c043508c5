-- ===== src/Runtime/Supervisor/Audit/Pending.antt =====
-- The table of pending operations: at most one for a task.
use ai_os.Prelude.{
  ℕ, ◌≡◌, subst, false, [], ◌∷◌, some, arith, nat_beq, nat_ord, All, All-get, All-insert,
  All-remove, any_value, BTreeMap, get, insert, remove, Bool-cases, inl, inr,
}
use ai_os.Runtime.Event.{TaskId, ApprovalId}
use ai_os.Runtime.Supervisor.{PendingOperation}

abbrev pub Table : Type 0
Table = BTreeMap ApprovalId PendingOperation

abbrev pub Without : TaskId → Table → Type 0
Without task = All (λ e. nat_beq e.1.task_id task ≡ false)

abbrev pub HasDistinctTasks : Table → Type 0
HasDistinctTasks [] = Unit
HasDistinctTasks ((k, p) ∷ m) = Without p.task_id m × HasDistinctTasks m

pub HasDistinctTasks-remove :
    (id : ApprovalId) (m : Table) → HasDistinctTasks m → HasDistinctTasks (remove id m)
unfolding remove
HasDistinctTasks-remove id [] h = tt
HasDistinctTasks-remove id ((k, p) ∷ m) h =
    let rest = HasDistinctTasks-remove id m h.1 in
    let apart =
      All-remove (λ (e : ℕ × PendingOperation). nat_beq e.1.task_id p.task_id ≡ false) id m h.0 in
    ground (arith, rest, apart)

pub Without-of_any :
    (task : TaskId) (m : Table) → any_value (λ p. nat_beq p.task_id task) m ≡ false → Without task m
Without-of_any task [] h = tt
Without-of_any task ((k, p) ∷ m) h = ground (arith, Without-of_any task m)

pub HasDistinctTasks-insert :
    (id : ApprovalId) (p : PendingOperation) (m : Table)
    → Without p.task_id m
    → HasDistinctTasks m
    → HasDistinctTasks (insert id p m)
unfolding insert
HasDistinctTasks-insert id p [] w h = (tt, tt)
HasDistinctTasks-insert id p ((k, q) ∷ m) w h =
    let rest = HasDistinctTasks-insert id p m w.1 h.1 in
    let flip : nat_beq p.task_id q.task_id ≡ false = ground arith in
    let apart =
      All-insert (λ (e : ℕ × PendingOperation). nat_beq e.1.task_id q.task_id ≡ false) id p m flip
        h.0 in
    ground (arith, rest, apart)

-- The entry that is removed was the only one of its task.
pub Without-remove :
    (id : ApprovalId) (p : PendingOperation) (m : Table)
    → get id m ≡ some p
    → HasDistinctTasks m
    → Without p.task_id (remove id m)
unfolding get remove
Without-remove id p [] e h = tt
Without-remove id p ((k, q) ∷ m) e h = elim (Bool-cases (nat_beq k id)) [
  | inl here ↦
      let apart =
        All-remove (λ (e : ℕ × PendingOperation). nat_beq e.1.task_id q.task_id ≡ false) id m h.0 in
      let same : q ≡ p = ground arith in
      subst (λ (x : PendingOperation). Without x.task_id (remove id ((k, q) ∷ m))) same
        (rw here apart)
  | inr there ↦
      let found : get id m ≡ some p = ground arith in
      let (_, apart) =
        All-get (λ (e : ℕ × PendingOperation). nat_beq e.1.task_id q.task_id ≡ false) id p m h.0
          found in
      let ih = Without-remove id p m found h.1 in ground (arith, ih, apart)
]
