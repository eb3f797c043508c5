-- ===== src/Runtime/Supervisor/Audit/Log.antt =====
-- A log that replays to a view of the tasks, and what an append does to it.
use ai_os.Prelude.{
  ℕ, suc, ◌+◌, ◌<◌, ◌≡◌, refl, ap, ◌∙◌, subst, inl, inr, false, List, [], ◌∷◌, ◌++◌, Option, arith,
  nat_beq, nat_beq_iff, if◌then◌else◌, length, Result, ok, ◌>>=◌, returns, fails, u64_mod, ok_or,
  Result-cases, Bool-cases,
}
use mathlib.Core.List.{map-append}
use ai_os.Core.State.{TaskState}
use ai_os.Runtime.Event.{
  TaskId, TaskEvent, TaskEventKind, EventStoreError, corrupt, IsNumbered, kinds_of, EventStore,
}
use ai_os.Runtime.Event.Pages.{IsNumbered-append}
use ai_os.Storage.Recovery.{Scan, start, scan_kind, scan_events, recover_snapshot}

-- The loop of the recovery over the kinds alone.
unfoldable pub scan_kinds : Scan → List TaskEventKind → Result EventStoreError Scan
scan_kinds scan [] = ok scan
scan_kinds scan (kind ∷ kinds) = scan_kind scan kind >>= λ scan'. scan_kinds scan' kinds

-- A scan that is not in the middle of a failure.
abbrev pub settled : Option TaskState → Scan
settled state = record { state = state; pending_failure = false }

pub scan_kinds-append :
    (scan : Scan) (xs ys : List TaskEventKind)
    → scan_kinds scan (xs ++ ys) ≡ (scan_kinds scan xs >>= λ scan'. scan_kinds scan' ys)
unfolding scan_kinds
scan_kinds-append scan [] ys = refl
scan_kinds-append scan (x ∷ xs) ys = elim (Result-cases (scan_kind scan x)) [
  | inl (scan', e) ↦ rw e (scan_kinds-append scan' xs ys)
  | inr (x', e) ↦ rw e refl
]

pub scan_then :
    (scan scan' : Scan) (r : Result EventStoreError Scan) (xs ys : List TaskEventKind)
    → scan_kinds scan xs ≡ ok scan'
    → scan_kinds scan' ys ≡ r
    → scan_kinds scan (xs ++ ys) ≡ r
scan_then scan scan' r xs ys e f = rw (scan_kinds-append scan xs ys, e) f

pub scan_events-kinds :
    (task : TaskId) (scan : Scan) (n : ℕ) (events : List TaskEvent)
    → IsNumbered task n events
    → n + length events < u64_mod
    → scan_events scan n events ≡ scan_kinds scan (kinds_of events)
unfolding scan_events scan_kinds
scan_events-kinds task scan n [] h b = refl
scan_events-kinds task scan n (e ∷ es) h b = elim (Result-cases (scan_kind scan e.kind)) [
  | inl (scan', c) ↦
      let ih = scan_events-kinds task scan' (suc n) es h.2 (omega arith) in
      let next : n + 1 ≡ suc n = omega arith in ground (arith, ih, next)
  | inr (x, c) ↦ ground arith
]

module _ {St : Type 0} (S : EventStore St) where
  -- The log of every task is numbered from 1 and replays to what the view says of it.
  pub record IsLogged (store : St) (view : TaskId → Option TaskState) : Type 0 where
    pub numbered : (task : TaskId) → IsNumbered task 1 (S.history store task)
    pub replays :
        (task : TaskId)
        → scan_kinds start (kinds_of (S.history store task)) ≡ ok (settled (view task))

  pub IsLogged-ext :
      (store : St) (view view' : TaskId → Option TaskState)
      → ((task : TaskId) → view' task ≡ view task)
      → IsLogged store view
      → IsLogged store view'
  IsLogged-ext store view view' same l = record {
    numbered = l.numbered;
    replays = λ u. rw (same u) (l.replays u);
  }

  pub aborted :
      (store store' : St) (view : TaskId → Option TaskState) (task : TaskId)
      (kinds : List TaskEventKind) (e : EventStoreError)
      → S.append_batch store task kinds ≡ fails e store'
      → IsLogged store view
      → IsLogged store' view
  aborted store store' view task kinds e h l =
      let same = S.append_fails store task kinds e store' h in
      record {
        numbered = λ u. rw (same u) (l.numbered u);
        replays = λ u. rw (same u) (l.replays u);
      }

  -- An appended batch that the recovery accepts moves the view of its task, and no other.
  pub commit :
      (store store' : St) (view view' : TaskId → Option TaskState) (task : TaskId)
      (kinds : List TaskEventKind) (events : List TaskEvent) (next : Option TaskState)
      → S.append_batch store task kinds ≡ returns events store'
      → scan_kinds (settled (view task)) kinds ≡ ok (settled next)
      → ((u : TaskId) → view' u ≡ (if nat_beq task u then next else view u))
      → IsLogged store view
      → IsLogged store' view'
  commit store store' view view' task kinds events next h accepted moved l =
      let (k, numbered, extended) = S.append_returns store task kinds events store' h in
      let here : S.history store' task ≡ S.history store task ++ events =
        ground (arith, extended task) in
      let whole : IsNumbered task 1 (S.history store task ++ events) =
        IsNumbered-append task 1 (S.history store task) events (l.numbered task) (
          subst (λ (n : ℕ). IsNumbered task n events) (omega arith) (numbered (l.numbered task))) in
      let replayed : scan_kinds start (kinds_of (S.history store task ++ events))
          ≡ ok (settled next) =
        ap (scan_kinds start) (map-append (λ e. e.kind) (S.history store task) events)
        ∙ scan_kinds-append start (kinds_of (S.history store task)) (kinds_of events)
        ∙ rw (l.replays task, k) accepted in
      record {
        numbered = λ u. elim (Bool-cases (nat_beq task u)) [
          | inl same ↦
              subst (λ (v : ℕ). IsNumbered v 1 (S.history store' v)) ((nat_beq_iff task u).0 same)
                (rw here whole)
          | inr other ↦
              let e : S.history store' u ≡ S.history store u = ground (arith, extended u) in
              rw e (l.numbered u)
        ];
        replays = λ u. elim (Bool-cases (nat_beq task u)) [
          | inl same ↦
              let view_here : view' u ≡ next = ground (arith, moved u) in
              rw view_here (
                subst
                  (λ (v : ℕ). scan_kinds start (kinds_of (S.history store' v)) ≡ ok (settled next))
                  ((nat_beq_iff task u).0 same) (rw here replayed))
          | inr other ↦
              let e : S.history store' u ≡ S.history store u = ground (arith, extended u) in
              let view_there : view' u ≡ view u = ground (arith, moved u) in
              rw (e, view_there) (l.replays u)
        ];
      }

  -- What the recovery of the store makes of a log that replays.
  pub recover_snapshot-IsLogged :
      (store : St) (view : TaskId → Option TaskState) (task : TaskId)
      → IsLogged store view
      → length (S.history store task) + 1 < u64_mod
      → recover_snapshot task (S.history store task)
        ≡ (ok_or (view task) corrupt >>= λ state. ok (record { task_id = task; state = state }))
  unfolding recover_snapshot
  recover_snapshot-IsLogged store view task l small =
      let e =
        scan_events-kinds task start 1 (S.history store task) (l.numbered task) (omega arith)
        ∙ l.replays task in
      rw e refl
