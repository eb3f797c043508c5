-- ===== src/Runtime/Supervisor/Restarted.antt =====
-- What `recover` (crates/aios-runtime/src/supervisor.rs) leaves behind: no task is live.
use ai_os.Prelude.{
  ℕ, ◌≡◌, refl, inl, inr, true, false, List, [], ◌∷◌, arith, ltb, nat_beq, nat_ord, any, length,
  BTreeMap, get, insert, get-insert, Result, ok, returns, fails, Bool-cases, Result-cases,
  Outcome-cases,
}
use ai_os.Core.State.{TaskState, failed}
use ai_os.Core.Error.{runtime_restarted}
use ai_os.Runtime.Event.{
  TaskId, TaskSnapshot, EventStore, EventStoreError, task_failed, state_transitioned,
}
use ai_os.Storage.Recovery.{is_live}
use ai_os.Runtime.Supervisor.{TaskSupervisor, state_in, task_state}
use ai_os.Runtime.Supervisor.Tasks.{fresh}
use ai_os.Runtime.Supervisor.Restart.{load, interrupted, fail_all, recover}
use ai_os.Runtime.Supervisor.Guard.{append-eq-returns}

live_listed :
    (m : BTreeMap TaskId TaskState) (task : TaskId)
    → is_live (get task m) ≡ true
    → any (λ e. nat_beq e.0 task) (interrupted m) ≡ true
unfolding get
live_listed [] task h = cc
live_listed ((k, s) ∷ m) task h = ground (arith, live_listed m task)

module _ {St : Type 0} (S : EventStore St) where
  fail_all_settles :
      (rest : List (TaskId × TaskState)) (sup sup' : TaskSupervisor St)
      → sup.tasks ≡ []
      → ((task : TaskId)
          → is_live (get task sup.recovered_tasks) ≡ true
          → any (λ e. nat_beq e.0 task) rest ≡ true)
      → fail_all S rest sup ≡ returns tt sup'
      → (sup'.tasks ≡ []) × ((task : TaskId) → is_live (get task sup'.recovered_tasks) ≡ false)
  unfolding fail_all
  fail_all_settles [] sup sup' none_yet listed h =
      let same : sup ≡ sup' = cc h in
      (ground (arith, same), (λ task. ground (arith, listed task, same)))
  fail_all_settles ((u, s) ∷ rest) sup sup' none_yet listed h =
      let (events, store, _, k) =
        append-eq-returns S sup sup' u
          (task_failed runtime_restarted ∷ state_transitioned s failed ∷ [])
          (λ sup''.
            fail_all S rest
              (record sup'' { recovered_tasks = insert u failed sup''.recovered_tasks }))
          tt h in
      fail_all_settles rest
        (record sup { event_store = store; recovered_tasks = insert u failed sup.recovered_tasks })
        sup' none_yet
        (λ task live. ground (arith, listed task, get-insert task u failed sup.recovered_tasks)) k

  pub recover-eq-returns :
      (recover_task_snapshots : St → Result EventStoreError (List TaskSnapshot)) (store store' : St)
      (max_tasks : ℕ) (sup : TaskSupervisor St)
      → recover S recover_task_snapshots store max_tasks ≡ returns sup store'
      → (recovered : BTreeMap TaskId TaskState) × (snapshots : List TaskSnapshot)
        × (recover_task_snapshots store ≡ ok snapshots)
        × (load snapshots [] ≡ ok recovered)
        × (fail_all S
              (interrupted recovered)
              (record (fresh store max_tasks) { recovered_tasks = recovered })
            ≡ returns tt sup)
  unfolding recover
  recover-eq-returns list store store' max_tasks sup h = elim (Bool-cases (nat_beq max_tasks 0)) [
    | inl zero_tasks ↦ absurd (cc (rw (zero_tasks, recover) at h))
    | inr some_tasks ↦ elim (Result-cases (list store)) [
      | inr (e, q) ↦ absurd (cc (rw q at rw (some_tasks, recover) at h))
      | inl (snapshots, q) ↦
          let h1 = rw q at rw (some_tasks, recover) at h in
          elim (Bool-cases (ltb max_tasks (length snapshots))) [
            | inl many ↦ absurd (cc (rw many at h1))
            | inr few ↦ elim (Result-cases (load snapshots [])) [
              | inr (e, l) ↦ absurd (cc (rw l at rw few at h1))
              | inl (recovered, l) ↦
                  (recovered, snapshots, q, l, ended recovered (rw l at rw few at h1))
            ]
          ]
    ]
  ]
    where
      ended :
          (recovered : BTreeMap TaskId TaskState)
          → elim (fail_all S
              (interrupted recovered)
              (record (fresh store max_tasks) { recovered_tasks = recovered })) [
                | fails e sup ↦ fails e sup.event_store
                | returns _ sup ↦ returns sup sup.event_store
              ]
            ≡ returns sup store'
          → fail_all S
              (interrupted recovered)
              (record (fresh store max_tasks) { recovered_tasks = recovered })
            ≡ returns tt sup
      ended recovered q =
          elim (Outcome-cases (
            fail_all S (interrupted recovered)
              (record (fresh store max_tasks) { recovered_tasks = recovered }))) [
                | inl (a, sup'', e) ↦ let same : sup'' ≡ sup = cc (rw e at q) in rw same at e
                | inr (x, sup'', e) ↦ absurd (cc (rw e at q))
              ]

  -- After a successful recovery no task is live: each is terminal or unknown, so nothing that was
  -- interrupted by the restart can go on.
  pub recover_settles :
      (recover_task_snapshots : St → Result EventStoreError (List TaskSnapshot)) (store store' : St)
      (max_tasks : ℕ) (sup : TaskSupervisor St)
      → recover S recover_task_snapshots store max_tasks ≡ returns sup store'
      → (task : TaskId) → is_live (task_state sup task) ≡ false
  unfolding task_state state_in get
  recover_settles list store store' max_tasks sup h task =
      let (recovered, _, _, _, e) = recover-eq-returns list store store' max_tasks sup h in
      let (none_yet, settled) =
        fail_all_settles (interrupted recovered)
          (record (fresh store max_tasks) { recovered_tasks = recovered }) sup refl
          (λ u live. live_listed recovered u live) e in
      rw none_yet (settled task)
