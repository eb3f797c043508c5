-- ===== src/Runtime/Execution/Tables.antt =====
-- The loops over the pending operations of the gate (crates/aios-runtime/src/execution.rs).
use ai_os.Prelude.{
  ◌≡◌, ◌≢◌, ◌∙◌, refl, ◌↔◌, inl, inr, Bool, true, false, ◌&&◌, List, [], ◌∷◌, none, some, arith,
  nat_beq, nat_eq, nat_ord, if◌then◌else◌, contains, BTreeMap, get, get-remove, remove, keys_where,
  keep_if, map, values, IsSorted, remove-IsSorted, contains-keys_where, Option-cases,
}
use ai_os.Runtime.Event.{TaskId, OperationId}
use ai_os.Runtime.Supervisor.{TaskSupervisor}
use ai_os.Runtime.Execution.{
  PendingExecution, ExecutionGate, is_over, remove_operations, remove_task, remove_tasks,
  purge_terminal,
}

contains-keep_if :
    (f : TaskId → Bool) (x : TaskId) (xs : List TaskId)
    → contains x (keep_if f xs) ≡ (contains x xs && f x)
contains-keep_if f x [] = refl
contains-keep_if f x (y ∷ xs) = ground (arith, contains-keep_if f x xs)

contains-values :
    {O : Type 0} (j : OperationId) (p : PendingExecution O)
    (m : BTreeMap OperationId (PendingExecution O))
    → get j m ≡ some p
    → contains p.task_id (map (λ pending. pending.task_id) (values m)) ≡ true
unfolding get
contains-values j p [] e = absurd (cc e)
contains-values j p ((k, q) ∷ m) e = ground (arith, contains-values j p m)

module _ {A O : Type 0} where
  abbrev without : OperationId → PendingExecution O → ExecutionGate A O → ExecutionGate A O
  without operation_id pending gate = record gate {
    pending = remove operation_id gate.pending;
    approval_index = remove pending.approval_id gate.approval_index;
  }

  get-remove_operations :
      (ids : List OperationId) (gate : ExecutionGate A O) (j : OperationId)
      → get j (remove_operations ids gate).pending
        ≡ (if contains j ids then none else get j gate.pending)
  unfolding remove_operations
  get-remove_operations [] gate j = refl
  get-remove_operations (id ∷ ids) gate j = elim (Option-cases (get id gate.pending)) [
    | inl e ↦ rw (e, remove_operations) (ground (arith, get-remove_operations ids gate j))
    | inr (p, e) ↦
        rw (e, remove_operations)
          (get-remove_operations ids (without id p gate) j
            ∙ ground (arith, get-remove j id gate.pending))
  ]

  remove_operations-IsSorted :
      (ids : List OperationId) (gate : ExecutionGate A O)
      → IsSorted gate.pending
      → IsSorted (remove_operations ids gate).pending
  unfolding remove_operations
  remove_operations-IsSorted [] gate h = h
  remove_operations-IsSorted (id ∷ ids) gate h = elim (Option-cases (get id gate.pending)) [
    | inl e ↦ rw (e, remove_operations) (remove_operations-IsSorted ids gate h)
    | inr (p, e) ↦
        rw (e, remove_operations)
          (remove_operations-IsSorted ids _ (remove-IsSorted id gate.pending h))
  ]

  -- The operations of the task, and only these, are dropped.
  pub get-remove_task :
      (gate : ExecutionGate A O) (task : TaskId) (j : OperationId) (p : PendingExecution O)
      → IsSorted gate.pending
      → (get j (remove_task gate task).pending ≡ some p)
        ↔ ((get j gate.pending ≡ some p) × (p.task_id ≢ task))
  unfolding remove_task
  get-remove_task gate task j p h =
      let of_task : PendingExecution O → Bool = λ pending. nat_beq pending.task_id task in
      let listed = contains-keys_where of_task j gate.pending h in
      let left = get-remove_operations (keys_where of_task gate.pending) gate j in
      elim (Option-cases (get j gate.pending)) [
        | inl e ↦ let l = rw e at listed in let k = rw e at left in ground arith
        | inr (q, e) ↦ let l = rw e at listed in let k = rw e at left in ground arith
      ]

  pub remove_task-IsSorted :
      (gate : ExecutionGate A O) (task : TaskId)
      → IsSorted gate.pending
      → IsSorted (remove_task gate task).pending
  unfolding remove_task
  remove_task-IsSorted gate task h =
      remove_operations-IsSorted (keys_where (λ p. nat_beq p.task_id task) gate.pending) gate h

  remove_tasks-IsSorted :
      (tasks : List TaskId) (gate : ExecutionGate A O)
      → IsSorted gate.pending
      → IsSorted (remove_tasks tasks gate).pending
  unfolding remove_tasks
  remove_tasks-IsSorted [] gate h = h
  remove_tasks-IsSorted (task ∷ tasks) gate h =
      remove_tasks-IsSorted tasks (remove_task gate task) (remove_task-IsSorted gate task h)

  get-remove_tasks :
      (tasks : List TaskId) (gate : ExecutionGate A O) (j : OperationId) (p : PendingExecution O)
      → IsSorted gate.pending
      → (get j (remove_tasks tasks gate).pending ≡ some p)
        ↔ ((get j gate.pending ≡ some p) × (contains p.task_id tasks ≡ false))
  unfolding remove_tasks
  get-remove_tasks [] gate j p h = ground arith
  get-remove_tasks (task ∷ tasks) gate j p h = ground (
    arith,
    get-remove_tasks tasks (remove_task gate task) j p (remove_task-IsSorted gate task h),
    get-remove_task gate task j p h,
  )

  -- The operations of the tasks that are over, and only these, are dropped.
  pub get-purge_terminal :
      {St : Type 0} (gate : ExecutionGate A O) (sup : TaskSupervisor St) (j : OperationId)
      (p : PendingExecution O)
      → IsSorted gate.pending
      → (get j (purge_terminal gate sup).pending ≡ some p)
        ↔ ((get j gate.pending ≡ some p) × (is_over sup p.task_id ≡ false))
  unfolding purge_terminal
  get-purge_terminal gate sup j p h =
      let tasks = map (λ pending. pending.task_id) (values gate.pending) in
      let dropped = contains-keep_if (is_over sup) p.task_id tasks in
      let left = get-remove_tasks (keep_if (is_over sup) tasks) gate j p h in
      ground (arith, dropped, left, contains-values j p gate.pending)

  pub purge_terminal-IsSorted :
      {St : Type 0} (gate : ExecutionGate A O) (sup : TaskSupervisor St)
      → IsSorted gate.pending
      → IsSorted (purge_terminal gate sup).pending
  unfolding purge_terminal
  purge_terminal-IsSorted gate sup h =
      remove_tasks-IsSorted
        (keep_if (is_over sup) (map (λ pending. pending.task_id) (values gate.pending))) gate h

  -- The second gate holds those operations of the first that satisfy the predicate, and no others.
  abbrev pub Keeps : (PendingExecution O → Type 0) → ExecutionGate A O → ExecutionGate A O → Type 0
  Keeps P gate gate' =
      (j : OperationId) (p : PendingExecution O)
      → (get j gate'.pending ≡ some p) ↔ ((get j gate.pending ≡ some p) × P p)
