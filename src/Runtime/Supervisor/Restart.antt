-- ===== src/Runtime/Supervisor/Restart.antt =====
-- `TaskSupervisor::recover` (crates/aios-runtime/src/supervisor.rs): a supervisor made from the store
-- after a restart. What the trait `RecoverableEventStore` adds is an argument. The store outlives the
-- call, so it is the state, also when the call fails.
use ai_os.Prelude.{
  ℕ, not, List, [], ◌∷◌, ltb, nat_beq, nat_ord, if◌then◌else◌, keep_if, length, BTreeMap, insert,
  contains_key, Result, ok, err, Outcome, returns, fails,
}
use ai_os.Core.State.{TaskState, failed, is_terminal}
use ai_os.Core.Error.{runtime_restarted}
use ai_os.Runtime.Event.{
  TaskId, TaskSnapshot, EventStore, EventStoreError, corrupt, task_failed, state_transitioned,
}
use ai_os.Runtime.Supervisor.{
  TaskSupervisor, SupervisorError, capacity_exceeded, event_store_error, Answer, append,
}
use ai_os.Runtime.Supervisor.Tasks.{fresh}

-- The loop that fills `recovered_tasks`: no task may come twice.
unfoldable pub load :
    List TaskSnapshot
    → BTreeMap TaskId TaskState
    → Result EventStoreError (BTreeMap TaskId TaskState)
load [] recovered = ok recovered
load (snapshot ∷ snapshots) recovered =
    let rest = load snapshots (insert snapshot.task_id snapshot.state recovered) in
    if contains_key snapshot.task_id recovered then err corrupt else rest

abbrev pub interrupted : BTreeMap TaskId TaskState → List (TaskId × TaskState)
interrupted = keep_if (λ entry. not (is_terminal entry.1))

module _ {St : Type 0} (S : EventStore St) where
  -- The loop over the interrupted tasks.
  unfoldable pub fail_all : List (TaskId × TaskState) → TaskSupervisor St → Answer St (Unit {0})
  fail_all [] sup = returns tt sup
  fail_all ((task_id, state) ∷ rest) sup =
      append S sup task_id (task_failed runtime_restarted ∷ state_transitioned state failed ∷ [])
        λ sup'.
          fail_all rest
            (record sup' { recovered_tasks = insert task_id failed sup'.recovered_tasks })

  unfoldable pub recover :
      (St → Result EventStoreError (List TaskSnapshot))
      → St
      → ℕ
      → Outcome St SupervisorError (TaskSupervisor St)
  unfolding load fail_all
  recover recover_task_snapshots event_store max_tasks =
      if nat_beq max_tasks 0
      then fails capacity_exceeded event_store
      else elim (recover_task_snapshots event_store) [
        | err e ↦ fails (event_store_error e) event_store
        | ok snapshots ↦
            if ltb max_tasks (length snapshots)
            then fails capacity_exceeded event_store
            else elim (load snapshots []) [
              | err e ↦ fails (event_store_error e) event_store
              | ok recovered ↦
                  elim (fail_all (interrupted recovered)
                    (record (fresh event_store max_tasks) { recovered_tasks = recovered })) [
                      | fails e sup ↦ fails e sup.event_store
                      | returns _ sup ↦ returns sup sup.event_store
                    ]
            ]
      ]
