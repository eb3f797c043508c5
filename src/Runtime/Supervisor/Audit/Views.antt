-- ===== src/Runtime/Supervisor/Audit/Views.antt =====
-- The states of the tasks as a view, and how the writes of the supervisor move it.
use ai_os.Prelude.{
  ℕ, ◌≡◌, refl, ◌⊎◌, Bool, true, false, List, Option, none, some, arith, nat_beq, nat_beq_iff,
  nat_ord, if◌then◌else◌, All, All-map, BTreeMap, get, insert, get-insert, Result, ok, err, Outcome,
  returns, fails, Leaves,
}
use ai_os.Core.State.{
  TaskState, submitted, validating, queued, running, waiting_approval, is_terminal, transition_to,
  can_transition_to, StateTransitionError,
}
use ai_os.Runtime.Event.{TaskId, TaskEvent, TaskEventKind, EventStoreError, EventStore}
use ai_os.Runtime.Supervisor.{
  TaskRecord, TaskSupervisor, SupervisorError, invalid_state_transition, event_store_error, Answer,
  state_in, propose, found, append,
}

abbrev pub View : Type 0
View = TaskId → Option TaskState

-- The task has been started: only then can it have operations.
abbrev pub opened : Option TaskState → Bool
opened none = false
opened (some submitted) = false
opened (some validating) = false
opened (some queued) = false
opened (some _) = true

-- The task waits for an approval, or is over: only then can it have a pending operation.
abbrev pub parked : Option TaskState → Bool
parked none = false
parked (some submitted) = false
parked (some validating) = false
parked (some queued) = false
parked (some running) = false
parked (some _) = true

-- One task moves to a state.
abbrev pub Moves : View → View → TaskId → TaskState → Type 0
Moves view view' task next = (u : TaskId) → view' u ≡ (if nat_beq task u then some next else view u)

pub state_in-insert :
    (tasks : BTreeMap TaskId TaskRecord) (recovered : BTreeMap TaskId TaskState) (task : TaskId)
    (r : TaskRecord)
    → Moves (state_in tasks recovered) (state_in (insert task r tasks) recovered) task r.state
unfolding state_in
state_in-insert tasks recovered task r u = ground (arith, get-insert u task r tasks)

pub state_in-recovered :
    (tasks : BTreeMap TaskId TaskRecord) (recovered : BTreeMap TaskId TaskState) (task : TaskId)
    (next : TaskState)
    → get task tasks ≡ none
    → Moves (state_in tasks recovered) (state_in tasks (insert task next recovered)) task next
unfolding state_in
state_in-recovered tasks recovered task next missing u =
    ground (arith, get-insert u task next recovered, nat_beq_iff task u)

pub state_in-get :
    (tasks : BTreeMap TaskId TaskRecord) (recovered : BTreeMap TaskId TaskState) (task : TaskId)
    (r : TaskRecord)
    → get task tasks ≡ some r
    → state_in tasks recovered task ≡ some r.state
unfolding state_in
state_in-get tasks recovered task r e = ground arith

pub state_in-none :
    (tasks : BTreeMap TaskId TaskRecord) (recovered : BTreeMap TaskId TaskState) (task : TaskId)
    → get task tasks ≡ none
    → get task recovered ≡ none
    → state_in tasks recovered task ≡ none
unfolding state_in
state_in-none tasks recovered task e f = ground arith

pub opened_step :
    (s next : TaskState)
    → can_transition_to s next ≡ true
    → opened (some s) ≡ true
    → opened (some next) ≡ true
unfolding can_transition_to
opened_step s next h o = ground arith

pub parked_live :
    (s : TaskState) → parked (some s) ≡ true → is_terminal s ≡ false → s ≡ waiting_approval
parked_live s p t = ground arith

pub opened_live :
    (s : TaskState)
    → opened (some s) ≡ true
    → is_terminal s ≡ false
    → (s ≡ running) ⊎ (s ≡ waiting_approval)
opened_live s o t = ground arith

-- What holds of the states of the tasks that a table names, after one task has moved.
pub All-Moves :
    {V : Type 0} (q : Option TaskState → Bool) (task_of : ℕ × V → TaskId) (view view' : View)
    (task : TaskId) (next : TaskState) (m : BTreeMap ℕ V)
    → Moves view view' task next
    → (q (view task) ≡ true → q (some next) ≡ true)
    → All (λ e. q (view (task_of e)) ≡ true) m
    → All (λ e. q (view' (task_of e)) ≡ true) m
All-Moves q task_of view view' task next m moves step =
    All-map _ _ m λ e o. ground (arith, moves (task_of e), step, nat_beq_iff task (task_of e))

module _ {St A : Type 0} (P : TaskSupervisor St → Type 0) where
  pub found-Leaves :
      {B : Type 0} (sup : TaskSupervisor St) (o : Option B) (e : SupervisorError)
      (k : B → Answer St A)
      → P sup
      → ((b : B) → o ≡ some b → Leaves P (k b))
      → Leaves P (found sup o e k)
  found-Leaves sup none e k p h = p
  found-Leaves sup (some b) e k p h = h b refl

  pub propose-Leaves :
      (sup : TaskSupervisor St) (current next : TaskState) (rest : Answer St A)
      → P sup
      → (can_transition_to current next ≡ true → Leaves P rest)
      → Leaves P (propose sup current next rest)
  unfolding transition_to
  propose-Leaves sup current next rest p h = cases (transition_to current next) refl
    where
      cases :
          (r : Result StateTransitionError TaskState)
          → transition_to current next ≡ r
          → Leaves P (elim r [ err e ↦ fails (invalid_state_transition e) sup | ok _ ↦ rest ])
      cases (err e) q = p
      cases (ok _) q = h (ground arith)

  pub append-Leaves :
      (S : EventStore St) (sup : TaskSupervisor St) (task : TaskId) (kinds : List TaskEventKind)
      (k : TaskSupervisor St → Answer St A)
      → ((e : EventStoreError) (store : St)
          → S.append_batch sup.event_store task kinds ≡ fails e store
          → P (record sup { event_store = store }))
      → ((events : List TaskEvent) (store : St)
          → S.append_batch sup.event_store task kinds ≡ returns events store
          → Leaves P (k (record sup { event_store = store })))
      → Leaves P (append S sup task kinds k)
  append-Leaves S sup task kinds k bad good = cases (S.append_batch sup.event_store task kinds) refl
    where
      cases :
          (o : Outcome St EventStoreError (List TaskEvent))
          → S.append_batch sup.event_store task kinds ≡ o
          → Leaves P (elim o [
            | returns _ store ↦ k (record sup { event_store = store })
            | fails e store ↦ fails (event_store_error e) (record sup { event_store = store })
          ])
      cases (returns events store) q = good events store q
      cases (fails e store) q = bad e store q
