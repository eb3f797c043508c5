-- ===== src/Runtime/Supervisor/Audit/Restarts.antt =====
-- The log after a recovery (`recover` of crates/aios-runtime/src/supervisor.rs).
use ai_os.Prelude.{
  ℕ, ◌≡◌, subst, inl, inr, Option-cases, false, List, [], ◌∷◌, some, none, arith, nat_beq,
  nat_beq_iff, nat_ord, All, All-insert, get, insert, get-insert, contains_key, Result, ok, returns,
  Leaves,
}
use ai_os.Core.State.{TaskState, failed, is_terminal}
use ai_os.Core.Error.{runtime_restarted}
use ai_os.Runtime.Event.{
  TaskId, TaskSnapshot, EventStore, EventStoreError, task_failed, state_transitioned,
}
use ai_os.Runtime.Supervisor.{TaskSupervisor}
use ai_os.Runtime.Supervisor.Restart.{load, interrupted, fail_all, recover}
use ai_os.Storage.Recovery.{scan_kind}
use ai_os.Runtime.Supervisor.Tasks.{fresh}
use ai_os.Runtime.Supervisor.Restarted.{recover-eq-returns}
use ai_os.Runtime.Supervisor.Audit.Log.{IsLogged, commit, aborted, settled, scan_kinds}
use ai_os.Runtime.Supervisor.Audit.Views.{append-Leaves}

abbrev Entries : Type 0
Entries = List (TaskId × TaskState)

abbrev Apart : Entries → Type 0
Apart [] = Unit
Apart (x ∷ m) = All (λ e. nat_beq x.0 e.0 ≡ false) m × Apart m

fresh_apart : (k : TaskId) (m : Entries) → get k m ≡ none → All (λ e. nat_beq k e.0 ≡ false) m
unfolding get
fresh_apart k [] h = tt
fresh_apart k ((j, v) ∷ m) h = ground (arith, fresh_apart k m, nat_beq_iff k j, nat_beq_iff j k)

insert-Apart :
    (k : TaskId) (v : TaskState) (m : Entries) → get k m ≡ none → Apart m → Apart (insert k v m)
unfolding get insert
insert-Apart k v [] h a = (tt, tt)
insert-Apart k v ((j, w) ∷ m) h a =
    let rest : get k m ≡ none = ground arith in
    let other : nat_beq j k ≡ false = ground arith in
    let ih = insert-Apart k v m rest a.1 in
    let kept = All-insert (λ (e : TaskId × TaskState). nat_beq j e.0 ≡ false) k v m other a.0 in
    let new = fresh_apart k ((j, w) ∷ m) h in ground (arith, ih, kept, new)

load-Apart :
    (snapshots : List TaskSnapshot) (m m' : Entries) → Apart m → load snapshots m ≡ ok m' → Apart m'
unfolding load
load-Apart [] m m' a h = subst Apart (cc h) a
load-Apart (s ∷ snapshots) m m' a h = elim (Option-cases (get s.task_id m)) [
  | inl missing ↦
      load-Apart snapshots (insert s.task_id s.state m) m'
        (insert-Apart s.task_id s.state m missing a) (rw (missing, contains_key) at h)
  | inr (state, e) ↦ absurd (cc (rw (e, contains_key) at h))
]

past :
    (j : TaskId) (w : TaskState) (m xs : Entries)
    → All (λ e. nat_beq j e.0 ≡ false) xs
    → All (λ e. get e.0 m ≡ some e.1) xs
    → All (λ e. get e.0 ((j, w) ∷ m) ≡ some e.1) xs
unfolding get
past j w m [] other h = tt
past j w m (e ∷ xs) other h = let ih = past j w m xs other.1 h.1 in (ground arith, ih)

-- Each entry of a table is what the table finds.
found-All : (m : Entries) → Apart m → All (λ e. get e.0 m ≡ some e.1) m
unfolding get
found-All [] a = tt
found-All ((j, w) ∷ m) a = (ground (arith, nat_beq_iff j j), past j w m m a.0 (found-All m a.1))

Live : Entries → TaskId × TaskState → Type 0
Live m e = (get e.0 m ≡ some e.1) × (is_terminal e.1 ≡ false)

interrupted-Live :
    (m xs : Entries) → All (λ e. get e.0 m ≡ some e.1) xs → All (Live m) (interrupted xs)
unfolding Live
interrupted-Live m [] h = tt
interrupted-Live m ((u, s) ∷ xs) h = ground (arith, interrupted-Live m xs h.1)

interrupted-All :
    (u : TaskId) (xs : Entries)
    → All (λ e. nat_beq u e.0 ≡ false) xs
    → All (λ e. nat_beq u e.0 ≡ false) (interrupted xs)
interrupted-All u [] h = tt
interrupted-All u ((j, s) ∷ xs) h = ground (arith, interrupted-All u xs h.1)

interrupted-Apart : (xs : Entries) → Apart xs → Apart (interrupted xs)
interrupted-Apart [] a = tt
interrupted-Apart ((j, s) ∷ xs) a =
    ground (arith, interrupted-Apart xs a.1, interrupted-All j xs a.0)

-- The other tasks are as they were.
Live-insert :
    (u : TaskId) (m xs : Entries)
    → All (λ e. nat_beq u e.0 ≡ false) xs
    → All (Live m) xs
    → All (Live (insert u failed m)) xs
unfolding Live
Live-insert u m [] other h = tt
Live-insert u m ((j, s) ∷ xs) other h =
    let ih = Live-insert u m xs other.1 h.1 in (ground (arith, get-insert j u failed m), ih)

-- The recovery accepts the two events of a restart in every live state.
restart_scan :
    (s : TaskState)
    → is_terminal s ≡ false
    → scan_kinds
        (settled (some s))
        (task_failed runtime_restarted ∷ state_transitioned s failed ∷ [])
      ≡ ok (settled (some failed))
unfolding scan_kinds scan_kind
restart_scan s live = ground arith

module _ {St : Type 0} (S : EventStore St) where
  abbrev Replays : TaskSupervisor St → Type 0
  Replays sup = IsLogged S sup.event_store (λ task. get task sup.recovered_tasks)

  fail_all-IsLogged :
      (rest : Entries) (sup : TaskSupervisor St)
      → Apart rest
      → All (Live sup.recovered_tasks) rest
      → Replays sup
      → Leaves Replays (fail_all S rest sup)
  unfolding fail_all Live
  fail_all-IsLogged [] sup a h l = l
  fail_all-IsLogged ((u, s) ∷ rest) sup a h l =
      let kinds = task_failed runtime_restarted ∷ state_transitioned s failed ∷ [] in
      append-Leaves Replays S sup u kinds
        (λ sup'.
          fail_all S rest (record sup' { recovered_tasks = insert u failed sup'.recovered_tasks }))
        (λ x store q.
          aborted S sup.event_store store (λ task. get task sup.recovered_tasks) u kinds x q l)
        (λ events store q.
          fail_all-IsLogged rest
            (record sup {
              event_store = store;
              recovered_tasks = insert u failed sup.recovered_tasks;
            })
            a.1 (Live-insert u sup.recovered_tasks rest a.0 h.1)
            (commit S sup.event_store store (λ task. get task sup.recovered_tasks)
              (λ task. get task (insert u failed sup.recovered_tasks)) u kinds events (some failed)
              q (rw h.0.0 (restart_scan s h.0.1))
              (λ task. ground (arith, get-insert task u failed sup.recovered_tasks)) l))

  -- When the snapshots that the store gives are what its log replays to, a successful recovery gives
  -- a supervisor whose log replays to the states of its tasks.
  pub recover-IsLogged :
      (recover_task_snapshots : St → Result EventStoreError (List TaskSnapshot)) (store store' : St)
      (max_tasks : ℕ) (sup : TaskSupervisor St)
      → ((snapshots : List TaskSnapshot) (m : Entries)
          → recover_task_snapshots store ≡ ok snapshots
          → load snapshots [] ≡ ok m
          → IsLogged S store (λ task. get task m))
      → recover S recover_task_snapshots store max_tasks ≡ returns sup store'
      → IsLogged S sup.event_store (λ task. get task sup.recovered_tasks)
  recover-IsLogged list store store' max_tasks sup honest h =
      let (recovered, snapshots, listed, loaded, e) =
        recover-eq-returns S list store store' max_tasks sup h in
      let apart = load-Apart snapshots [] recovered tt loaded in
      let start : TaskSupervisor St = record (fresh store max_tasks) {
        recovered_tasks = recovered;
      } in
      let left : Leaves Replays (fail_all S (interrupted recovered) start) =
        fail_all-IsLogged (interrupted recovered) start (interrupted-Apart recovered apart)
          (interrupted-Live recovered recovered (found-All recovered apart))
          (honest snapshots recovered listed loaded) in
      rw e at left
