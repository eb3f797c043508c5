-- ===== src/Runtime/Supervisor/Audit/Reachable.antt =====
-- The supervisors that calls of the methods of crates/aios-runtime/src/supervisor.rs lead to, from a
-- new one over an empty log. Every call counts with the state it leaves, whether it succeeded or not.
-- `submit` takes an identifier that no task has (it is a random UUID in the code), and `start` is
-- called for a task that does not wait for an approval.
use ai_os.Prelude.{
  ◌+◌, ◌<◌, ◌≡◌, ◌≢◌, refl, inl, inr, [], none, some, length, get, nat_ord, All-get, ok, state_of,
  u64_mod, ok_or, ◌>>=◌,
}
use ai_os.Core.State.{running, waiting_approval}
use ai_os.Core.Task.{TaskSpec}
use ai_os.Core.Policy.{CapabilityRequest, PolicyDecision, evaluate, from_task}
use ai_os.Core.Policy.Decisions.{from_task-IsValidSpec}
use ai_os.Core.Task.Validity.{validate_iff}
use ai_os.Runtime.Event.{TaskId, ApprovalId, OperationId, EventStore, corrupt}
use ai_os.Runtime.Approval.{Instant, Duration}
use ai_os.Storage.Recovery.{recover_snapshot}
use ai_os.Runtime.Supervisor.{TaskSupervisor, TaskRecord, state_in, task_state}
use ai_os.Runtime.Supervisor.Tasks.{
  new, submit, start, start_execution, succeed, fail, fail_budget_exceeded, cancel,
}
use ai_os.Runtime.Supervisor.Operations.{
  expire_approvals, request_operation, approve_operation, deny_operation, authorize_operation,
  decide_request,
}
use ai_os.Runtime.Supervisor.Audit.Log.{recover_snapshot-IsLogged, scan_kinds}
use ai_os.Runtime.Supervisor.Audit.Sound.{IsStorable, IsSound}
use ai_os.Runtime.Supervisor.Audit.Tasks.{
  submit-IsSound, start-IsSound, start_execution-IsSound, succeed-IsSound, fail-IsSound,
  fail_budget_exceeded-IsSound, cancel-IsSound,
}
use ai_os.Runtime.Supervisor.Audit.Expiry.{expire_approvals-IsSound}
use ai_os.Runtime.Supervisor.Audit.Approvals.{approve_operation-IsSound, deny_operation-IsSound}
use ai_os.Runtime.Supervisor.Audit.Requests.{request_operation-IsSound, authorize_operation-IsSound}

module _ {St : Type 0} (S : EventStore St) where
  pub data Reachable : TaskSupervisor St → Type 0 where
    on_new : (store : St) → ((task : TaskId) → S.history store task ≡ []) → Reachable (new store)
    on_submit :
        (sup : TaskSupervisor St) (task : TaskId) (spec : TaskSpec)
        → state_in sup.tasks sup.recovered_tasks task ≡ none
        → Reachable sup
        → Reachable (state_of (submit S sup task spec))
    on_start :
        (sup : TaskSupervisor St) (now : Instant) (task : TaskId)
        → state_in sup.tasks sup.recovered_tasks task ≢ some waiting_approval
        → Reachable sup
        → Reachable (state_of (start S sup now task))
    on_start_execution :
        (sup : TaskSupervisor St) (now : Instant) (task : TaskId)
        → state_in sup.tasks sup.recovered_tasks task ≢ some waiting_approval
        → Reachable sup
        → Reachable (state_of (start_execution S sup now task))
    on_succeed :
        (sup : TaskSupervisor St) (task : TaskId)
        → Reachable sup
        → Reachable (state_of (succeed S sup task))
    on_fail :
        (sup : TaskSupervisor St) (task : TaskId)
        → Reachable sup
        → Reachable (state_of (fail S sup task))
    on_fail_budget_exceeded :
        (sup : TaskSupervisor St) (task : TaskId)
        → Reachable sup
        → Reachable (state_of (fail_budget_exceeded S sup task))
    on_cancel :
        (sup : TaskSupervisor St) (task : TaskId)
        → Reachable sup
        → Reachable (state_of (cancel S sup task))
    on_expire_approvals :
        (sup : TaskSupervisor St) (now : Instant)
        → Reachable sup
        → Reachable (state_of (expire_approvals S sup now))
    on_request_operation :
        (sup : TaskSupervisor St) (first now : Instant) (operation : OperationId)
        (approval : ApprovalId) (task : TaskId) (request : CapabilityRequest) (ttl : Duration)
        → Reachable sup
        → Reachable
            (state_of (request_operation S sup first now operation approval task request ttl))
    on_approve_operation :
        (sup : TaskSupervisor St) (first now : Instant) (approval : ApprovalId)
        → Reachable sup
        → Reachable (state_of (approve_operation S sup first now approval))
    on_deny_operation :
        (sup : TaskSupervisor St) (now : Instant) (approval : ApprovalId)
        → Reachable sup
        → Reachable (state_of (deny_operation S sup now approval))
    on_authorize_operation :
        (sup : TaskSupervisor St) (now : Instant) (task : TaskId) (operation : OperationId)
        (supplied : CapabilityRequest)
        → Reachable sup
        → Reachable (state_of (authorize_operation S sup now task operation supplied))

  -- A new supervisor over an empty log is sound.
  pub new-IsSound :
      (store : St) → ((task : TaskId) → S.history store task ≡ []) → IsSound S (new store)
  unfolding new state_in scan_kinds get
  new-IsSound store empty = record {
    logged = record {
      numbered = λ task. rw (empty task) tt;
      replays = λ task. rw (empty task) refl;
    };
    pending_parked = tt;
    alone = tt;
    approved_open = tt;
    valid = tt;
  }

  -- Every supervisor that calls lead to is sound: its log replays to the states of its tasks, every
  -- pending operation belongs to a task that waits for an approval or is over, no two of them to the
  -- same task, every approved operation to a task that was started, and the specification of every
  -- stored task that was not rejected is valid. The calls are those of `Reachable`: `start` is not
  -- called for a task that waits for an approval, `submit` takes an identifier that no task has.
  pub Reachable-IsSound : (sup : TaskSupervisor St) → Reachable sup → IsSound S sup
  Reachable-IsSound _ (on_new store empty) = new-IsSound store empty
  Reachable-IsSound _ (on_submit sup task spec free r) =
      submit-IsSound S sup task spec (Reachable-IsSound sup r) free
  Reachable-IsSound _ (on_start sup now task idle r) =
      start-IsSound S sup now task (Reachable-IsSound sup r) idle
  Reachable-IsSound _ (on_start_execution sup now task idle r) =
      start_execution-IsSound S sup now task (Reachable-IsSound sup r) idle
  Reachable-IsSound _ (on_succeed sup task r) = succeed-IsSound S sup task (Reachable-IsSound sup r)
  Reachable-IsSound _ (on_fail sup task r) = fail-IsSound S sup task (Reachable-IsSound sup r)
  Reachable-IsSound _ (on_fail_budget_exceeded sup task r) =
      fail_budget_exceeded-IsSound S sup task (Reachable-IsSound sup r)
  Reachable-IsSound _ (on_cancel sup task r) = cancel-IsSound S sup task (Reachable-IsSound sup r)
  Reachable-IsSound _ (on_expire_approvals sup now r) =
      expire_approvals-IsSound S sup now (Reachable-IsSound sup r)
  Reachable-IsSound _ (on_request_operation sup first now operation approval task request ttl r) =
      request_operation-IsSound S sup first now operation approval task request ttl
        (Reachable-IsSound sup r)
  Reachable-IsSound _ (on_approve_operation sup first now approval r) =
      approve_operation-IsSound S sup first now approval (Reachable-IsSound sup r)
  Reachable-IsSound _ (on_deny_operation sup now approval r) =
      deny_operation-IsSound S sup now approval (Reachable-IsSound sup r)
  Reachable-IsSound _ (on_authorize_operation sup now task operation supplied r) =
      authorize_operation-IsSound S sup now task operation supplied (Reachable-IsSound sup r)

  -- The recovery of the persistent store, run on the log of any task of a supervisor that calls
  -- lead to, gives the state the supervisor holds for the task, and `Corrupt` where it holds none,
  -- as long as the log has fewer than 2^64 - 1 events. The calls are those of `Reachable`, as above.
  pub recover_snapshot-Reachable :
      (sup : TaskSupervisor St) (task : TaskId)
      → Reachable sup
      → length (S.history sup.event_store task) + 1 < u64_mod
      → recover_snapshot task (S.history sup.event_store task) ≡ (
          ok_or (task_state sup task) corrupt >>= λ state.
          ok (record { task_id = task; state = state }))
  unfolding task_state
  recover_snapshot-Reachable sup task r small =
      recover_snapshot-IsLogged S sup.event_store (state_in sup.tasks sup.recovered_tasks) task
        ((Reachable-IsSound sup r).logged) small

  -- In a supervisor that calls lead to, the policy of a running task can always be built, so that
  -- the `expect` of `request_operation` and of `authorize_operation` does not panic: the decision is
  -- the one of the policy that is made of the task's specification. The calls are those of
  -- `Reachable`, as above.
  pub decide_request-Reachable :
      (sup : TaskSupervisor St) (task : TaskId) (r : TaskRecord) (request : CapabilityRequest)
      → Reachable sup
      → get task sup.tasks ≡ some r
      → r.state ≡ running
      → (d : PolicyDecision) × (decide_request r.spec request ≡ ok d)
  unfolding decide_request
  decide_request-Reachable sup task r request reached e runs =
      let (_, storable) =
        All-get (λ e. IsStorable e.1) task r sup.tasks ((Reachable-IsSound sup reached).valid) e in
      elim storable [
        | inl rejected_here ↦ absurd (cc (runs, rejected_here))
        | inr valid ↦
            let made : from_task r.spec ≡ ok (record { task = r.spec }) =
              (from_task-IsValidSpec r.spec _).1 (refl, (validate_iff r.spec).0 valid) in
            (evaluate (record { task = r.spec }) request, rw (made, decide_request) refl)
      ]
