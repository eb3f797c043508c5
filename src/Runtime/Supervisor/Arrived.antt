-- ===== src/Runtime/Supervisor/Arrived.antt =====
-- Where a transition of crates/aios-runtime/src/supervisor.rs leaves its task when it succeeds.
use ai_os.Prelude.{
  ◌≡◌, arith, inl, inr, Option, none, some, nat_beq, nat_ord, get, if◌then◌else◌, returns, fails,
  Outcome, Option-cases, Outcome-cases, Result-cases,
}
use ai_os.Core.State.{TaskState, succeeded, failed, transition_to}
use ai_os.Core.Error.{ErrorCode, budget_exceeded}
use ai_os.Runtime.Event.{TaskId, EventStore}
use ai_os.Runtime.Supervisor.{
  TaskSupervisor, state_in, task_state, propose, append, write_state, transition_events,
  apply_transition_with_failure, transition,
}
use ai_os.Runtime.Supervisor.Tasks.{succeed, fail, fail_budget_exceeded}
use ai_os.Runtime.Supervisor.Audit.Views.{state_in-insert, state_in-recovered}

-- What holds of the state that a successful call leaves.
abbrev pub Gives : {S E X : Type 0} → (S → Type 0) → Outcome S E X → Type 0
Gives P (returns _ s) = P s
Gives P (fails _ s) = Unit {0}

module _ {St : Type 0} where
  abbrev pub IsIn : TaskId → TaskState → TaskSupervisor St → Type 0
  IsIn task state sup = task_state sup task ≡ some state

  write_state-Gives :
      (sup : TaskSupervisor St) (task : TaskId) (next : TaskState)
      → Gives (IsIn task next) (write_state sup task next)
  unfolding write_state task_state
  write_state-Gives sup task next = elim (Option-cases (get task sup.tasks)) [
    | inr (r, e) ↦
        rw (write_state, e)
          (here _
            (state_in-insert sup.tasks sup.recovered_tasks task (record r { state = next }) task))
    | inl e ↦ elim (Option-cases (get task sup.recovered_tasks)) [
      | inl n ↦ rw (write_state, e, n) tt
      | inr (s, n) ↦
          rw (write_state, e, n)
            (here _ (state_in-recovered sup.tasks sup.recovered_tasks task next e task))
    ]
  ]
    where
      here :
          {view' : Option TaskState} (view : Option TaskState)
          → view' ≡ (if nat_beq task task then some next else view)
          → view' ≡ some next
      here view h = ground arith

module _ {St : Type 0} (S : EventStore St) where
  apply_transition-Gives :
      (sup : TaskSupervisor St) (task : TaskId) (current next : TaskState)
      (failure : Option ErrorCode)
      → Gives (IsIn task next) (apply_transition_with_failure S sup task current next failure)
  unfolding apply_transition_with_failure
  apply_transition-Gives sup task current next failure =
      elim (Outcome-cases
        (S.append_batch sup.event_store task (transition_events S sup task current next failure))) [
          | inr (e, store, a) ↦ rw (apply_transition_with_failure, append, a) tt
          | inl (_, store, a) ↦
              rw (apply_transition_with_failure, append, a) (write_state-Gives _ task next)
        ]

  transition-Gives :
      (sup : TaskSupervisor St) (task : TaskId) (next : TaskState)
      → Gives (IsIn task next) (transition S sup task next)
  unfolding transition
  transition-Gives sup task next =
      elim (Option-cases (state_in sup.tasks sup.recovered_tasks task)) [
        | inl n ↦ rw (transition, n) tt
        | inr (current, s) ↦ elim (Result-cases (transition_to current next)) [
          | inr (e, p) ↦ rw (transition, s, propose, p) tt
          | inl (_, p) ↦
              rw (transition, s, propose, p) (apply_transition-Gives sup task current next none)
        ]
      ]

  pub succeed-Gives :
      (sup : TaskSupervisor St) (task : TaskId) → Gives (IsIn task succeeded) (succeed S sup task)
  unfolding succeed
  succeed-Gives sup task = transition-Gives sup task succeeded

  pub fail-Gives :
      (sup : TaskSupervisor St) (task : TaskId) → Gives (IsIn task failed) (fail S sup task)
  unfolding fail
  fail-Gives sup task = transition-Gives sup task failed

  pub fail_budget_exceeded-Gives :
      (sup : TaskSupervisor St) (task : TaskId)
      → Gives (IsIn task failed) (fail_budget_exceeded S sup task)
  unfolding fail_budget_exceeded
  fail_budget_exceeded-Gives sup task =
      elim (Option-cases (state_in sup.tasks sup.recovered_tasks task)) [
        | inl n ↦ rw (fail_budget_exceeded, n) tt
        | inr (current, s) ↦ elim (Result-cases (transition_to current failed)) [
          | inr (e, p) ↦ rw (fail_budget_exceeded, s, propose, p) tt
          | inl (_, p) ↦
              rw (fail_budget_exceeded, s, propose, p)
                (apply_transition-Gives sup task current failed (some budget_exceeded))
        ]
      ]
