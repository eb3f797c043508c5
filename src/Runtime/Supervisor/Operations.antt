-- ===== src/Runtime/Supervisor/Operations.antt =====
-- The guarded operations of crates/aios-runtime/src/supervisor.rs: request, approval, denial,
-- authorization and expiry. Each reading of the clock is an argument of its own.
use ai_os.Prelude.{
  ℕ, suc, Bool, true, false, not, ◌||◌, List, [], ◌∷◌, none, some, nat_beq, nat_ord, if◌then◌else◌,
  ◌==◌, any_value, get, insert, remove, Result, ok, err, returns, fails, Eq, eq_of_discrete,
  ℕ_discrete,
}
use ai_os.Core.State.{TaskState, running, waiting_approval, failed, task_state_eq}
use ai_os.Core.Policy.{
  CapabilityRequest, DenialReason, PolicyDecision, allowed, denied, approval_required, from_task,
  evaluate,
}
use ai_os.Core.Task.{TaskSpec}
use ai_os.Runtime.Event.{
  TaskId, ApprovalId, OperationId, TaskSnapshot, EventStore, state_transitioned, operation_allowed,
  operation_denied, approval_requested, approval_granted, approval_denied, approval_expired,
  approval_consumed,
}
use ai_os.Runtime.Approval
use ai_os.Runtime.Approval.{
  Instant, Duration, ApprovalAuthority, ApprovalRequest, ApprovalReceipt, ApprovalError,
  ApprovalGrant, duplicate_operation, not_found, scope_mismatch, expired_ids, revoke, restore,
  authorize,
}
use ai_os.Runtime.Supervisor.{
  TaskRecord, OwnedCapabilityRequest, action, ApprovedOperation, TaskSupervisor, SupervisorError,
  task_not_found, task_not_running, panicked, approval_error, Answer, propose, found, drop_pending,
  set_task, append, event_store_error,
}

pub data OperationAuthorization : Type 0 where
  allowed_operation : OperationAuthorization
  denied_operation : DenialReason → OperationAuthorization
  needs_approval : ApprovalRequest → OperationAuthorization

unfoldable pub CapabilityRequest-discrete : Discrete CapabilityRequest
CapabilityRequest-discrete = hlevel ℕ_discrete

instance abbrev pub request_eq : Eq CapabilityRequest
request_eq = eq_of_discrete CapabilityRequest-discrete

-- `CapabilityPolicy::from_task(&record.spec).expect(…).evaluate(request)`
unfoldable pub decide_request : TaskSpec → CapabilityRequest → Result SupervisorError PolicyDecision
decide_request spec request = elim (from_task spec) [
  | err _ ↦ err panicked
  | ok policy ↦ ok (evaluate policy request)
]

module _ {St : Type 0} where
  -- `self.tasks.get_mut(&task_id).ok_or(…)?.state = next`, before the rest.
  abbrev pub write_task :
      {A : Type 0}
      → TaskSupervisor St
      → TaskId
      → TaskState
      → (TaskSupervisor St → Answer St A)
      → Answer St A
  write_task sup task_id next continue =
      found sup (get task_id sup.tasks) task_not_found
        λ task. continue (set_task task_id task next sup)

module _ {St : Type 0} (S : EventStore St) where
  -- The body of the loop for one identifier.
  unfoldable pub expire_one : TaskSupervisor St → ApprovalId → Answer St Bool
  expire_one sup approval_id = elim (get approval_id sup.pending_operations) [
    | none ↦ returns false sup
    | some pending ↦ found sup (get pending.task_id sup.tasks) task_not_found λ task.
        propose sup task.state failed (
          append S sup pending.task_id
            (approval_expired approval_id pending.operation_id
              ∷ state_transitioned task.state failed
              ∷ [])
            λ sup'.
              write_task (drop_pending approval_id sup') pending.task_id failed
                λ sup''. returns true sup'')
  ]

  unfoldable pub expire_loop : TaskSupervisor St → List ApprovalId → ℕ → Answer St ℕ
  expire_loop sup [] expired_count = returns expired_count sup
  expire_loop sup (approval_id ∷ ids) expired_count = elim (expire_one sup approval_id) [
    | fails e sup' ↦ fails e sup'
    | returns changed sup' ↦
        expire_loop sup' ids (if changed then suc expired_count else expired_count)
  ]

  unfoldable pub expire_approvals : TaskSupervisor St → Instant → Answer St ℕ
  unfolding expire_loop expire_one
  expire_approvals sup now = expire_loop sup (expired_ids sup.approval_authority now) 0

  abbrev pub after_expiry :
      {A : Type 0} → TaskSupervisor St → Instant → (TaskSupervisor St → Answer St A) → Answer St A
  after_expiry sup now continue = elim (expire_approvals sup now) [
    | fails e sup' ↦ fails e sup'
    | returns _ sup' ↦ continue sup'
  ]

  -- The branch of `request_operation` that waits for an approval.
  unfoldable pub request_approval :
      TaskSupervisor St
      → Instant
      → OperationId
      → ApprovalId
      → TaskId
      → TaskRecord
      → OwnedCapabilityRequest
      → Duration
      → Answer St OperationAuthorization
  request_approval sup now operation_id approval_id task_id task request ttl =
      if any_value (λ pending. nat_beq pending.task_id task_id) sup.pending_operations
      then fails (approval_error duplicate_operation) sup
      else elim (Approval.request sup.approval_authority now approval_id task_id operation_id
          (action request) ttl) [
            | fails e authority ↦
                fails (approval_error e) (record sup { approval_authority = authority })
            | returns approval authority ↦
                elim (S.append_batch sup.event_store task_id (
                  approval_requested approval.approval_id operation_id
                  ∷ state_transitioned task.state waiting_approval
                  ∷ [])) [
                    | fails e store ↦ fails (event_store_error e) (record sup {
                      event_store = store;
                      approval_authority = (revoke authority approval.approval_id).0;
                    })
                    | returns _ store ↦
                        write_task
                          (record sup {
                            event_store = store;
                            approval_authority = authority;
                            pending_operations =
                                insert approval.approval_id
                                  (record {
                                    task_id = task_id;
                                    operation_id = operation_id;
                                    request = request;
                                  })
                                  sup.pending_operations;
                          })
                          task_id waiting_approval λ sup'. returns (needs_approval approval) sup'
                  ]
          ]

  -- What follows the expiry of old approvals.
  unfoldable pub request_live :
      TaskSupervisor St
      → Instant
      → OperationId
      → ApprovalId
      → TaskId
      → CapabilityRequest
      → Duration
      → Answer St OperationAuthorization
  unfolding decide_request request_approval
  request_live sup now operation_id approval_id task_id request ttl =
      found sup (get task_id sup.tasks) task_not_found λ task.
        propose sup task.state waiting_approval (elim (decide_request task.spec request) [
          | err e ↦ fails e sup
          | ok allowed ↦
              append S sup task_id (operation_allowed ∷ []) λ sup'. returns allowed_operation sup'
          | ok (denied reason) ↦
              append S sup task_id (operation_denied reason ∷ [])
                λ sup'. returns (denied_operation reason) sup'
          | ok approval_required ↦
              request_approval sup now operation_id approval_id task_id task request ttl
        ])

  -- `first` and `now` are the readings of `expire_approvals` and of the authority; `operation_id`
  -- and `approval_id` are the new identifiers.
  unfoldable pub request_operation :
      TaskSupervisor St
      → Instant
      → Instant
      → OperationId
      → ApprovalId
      → TaskId
      → CapabilityRequest
      → Duration
      → Answer St OperationAuthorization
  unfolding request_live
  request_operation sup first now operation_id approval_id task_id request ttl =
      after_expiry sup first
        λ sup'. request_live sup' now operation_id approval_id task_id request ttl

  unfoldable pub approve_live : TaskSupervisor St → Instant → ApprovalId → Answer St TaskSnapshot
  approve_live sup now approval_id =
      found sup (get approval_id sup.pending_operations) (approval_error not_found) λ pending.
        found sup (get pending.task_id sup.tasks) task_not_found λ task.
          propose sup task.state running
            (elim (Approval.approve sup.approval_authority now approval_id) [
              | fails e authority ↦
                  fails (approval_error e) (record sup { approval_authority = authority })
              | returns grant authority ↦
                  elim (S.append_batch sup.event_store pending.task_id (
                    approval_granted approval_id pending.operation_id
                    ∷ state_transitioned task.state running
                    ∷ [])) [
                      | fails e store ↦ fails (event_store_error e) (record sup {
                        event_store = store;
                        approval_authority = restore grant authority;
                      })
                      | returns _ store ↦
                          write_task
                            (record sup {
                              event_store = store;
                              approval_authority = authority;
                              pending_operations = remove approval_id sup.pending_operations;
                              approved_operations =
                                  insert pending.operation_id
                                    (record {
                                      task_id = pending.task_id;
                                      request = pending.request;
                                      grant = grant;
                                    })
                                    sup.approved_operations;
                            })
                            pending.task_id running
                            λ sup'.
                              returns (record { task_id = pending.task_id; state = running }) sup'
                    ]
            ])

  unfoldable pub approve_operation :
      TaskSupervisor St → Instant → Instant → ApprovalId → Answer St TaskSnapshot
  unfolding approve_live
  approve_operation sup first now approval_id =
      after_expiry sup first λ sup'. approve_live sup' now approval_id

  unfoldable pub deny_live : TaskSupervisor St → ApprovalId → Answer St TaskSnapshot
  deny_live sup approval_id =
      found sup (get approval_id sup.pending_operations) (approval_error not_found) λ pending.
        if not (Approval.contains sup.approval_authority approval_id)
        then fails (approval_error not_found) sup
        else found sup (get pending.task_id sup.tasks) task_not_found λ task.
          propose sup task.state failed (
            append S sup pending.task_id
              (approval_denied approval_id pending.operation_id
                ∷ state_transitioned task.state failed
                ∷ [])
              λ sup'.
                write_task (drop_pending approval_id sup') pending.task_id failed
                  λ sup''. returns (record { task_id = pending.task_id; state = failed }) sup'')

  unfoldable pub deny_operation : TaskSupervisor St → Instant → ApprovalId → Answer St TaskSnapshot
  unfolding deny_live
  deny_operation sup now approval_id = after_expiry sup now λ sup'. deny_live sup' approval_id

  -- The checks and the audit of an approved operation that was taken out of the table.
  unfoldable pub consume :
      TaskSupervisor St
      → Instant
      → TaskId
      → OperationId
      → CapabilityRequest
      → TaskRecord
      → ApprovedOperation
      → Answer St ApprovalReceipt
  unfolding decide_request
  consume sup now task_id operation_id supplied task approved =
      if not (nat_beq approved.task_id task_id) || not (approved.request == supplied)
      then fails (approval_error scope_mismatch) sup
      else elim (decide_request task.spec supplied) [
        | err e ↦ fails e sup
        | ok approval_required ↦
            elim (authorize approved.grant now task_id operation_id (action supplied)) [
              | err e ↦ fails (approval_error e) sup
              | ok receipt ↦
                  append S sup task_id
                    (approval_consumed approved.grant.approval_id operation_id ∷ [])
                    λ sup'. returns receipt sup'
            ]
        | ok _ ↦ fails (approval_error scope_mismatch) sup
      ]

  unfoldable pub authorize_operation :
      TaskSupervisor St
      → Instant
      → TaskId
      → OperationId
      → CapabilityRequest
      → Answer St ApprovalReceipt
  unfolding consume
  authorize_operation sup now task_id operation_id supplied =
      found sup (get task_id sup.tasks) task_not_found λ task.
        if not (task.state == running)
        then fails task_not_running sup
        else found sup (get operation_id sup.approved_operations) (approval_error not_found)
            λ approved.
              consume
                (record sup { approved_operations = remove operation_id sup.approved_operations })
                now task_id operation_id supplied task approved
