-- ===== src/Agent/Termination.antt =====
-- The loop of crates/aios-agent/src/lib.rs ends: each turn that goes on counts a step, and the steps are
-- limited by the configuration.
use ai_os.Prelude.{
  ℕ, zero, suc, ◌+◌, ◌≤◌, ◌<◌, ◌≡◌, ◌⊎◌, refl, inl, inr, arith, Bool, List, Option, none, some, ltb,
  nat_beq, Outcome, returns, fails, state_of, Bool-cases, Option-cases, Outcome-cases, Result-cases,
}
use ai_os.Runtime.Event.{TaskId, ApprovalId, EventStore}
use ai_os.Runtime.Supervisor.Tasks.{
  execution_context, remaining_wall_time, start_execution, TaskExecutionInput,
}
use ai_os.Runtime.Supervisor.Tasks
use ai_os.Runtime.Execution.{
  Adapter, ExecutionError, ExecutionOutcome, executed, denied_for, approval_needed,
  supervisor_error, adapter_error, operation_not_found, Guarded, Executed,
}
use ai_os.Adapters.Tool.{
  ToolOutput, ToolOperation, ToolAdapterError, ToolAdapter, ToolHandler, prepare,
}
use ai_os.Adapters.Network.{
  TcpExchangeOperation, TcpExchangeResponse, NetworkAdapterError, prepare_tcp_exchange,
}
use ai_os.Agent.Decision.{ModelDecision, finish_with, call_tool_with, tcp_exchange_with, Model}
use ai_os.Agent.{
  AgentError, AgentRunOutcome, AgentConfig, PendingAdapter, tool_adapter_pending,
  network_adapter_pending, ActiveSession, Driven, Supply, Turn, done, next, capacity_exceeded,
  tool_failed, network_failed, require_pending,
}
use ai_os.Agent.Loop.{
  Method, is_tool_budget, is_network_budget, set_active, advance, put_tool_reply, put_network_reply,
  settle, with_budget, request_tool, request_network, act, follow, decide, within_steps, turn,
  drive_on, drive,
}
use ai_os.Agent.Methods.{
  with_session, tool_approval, network_approval, begin, start_model, start, resume_with_output,
  resume, approve_with, approve_and_resume,
}

-- What holds where the turn goes on.
abbrev pub Goes : {D : Type 0} → (D → Type 0) → Turn D → Type 0
Goes Q (done _) = Unit {0}
Goes Q (next d) = Q d

pub Turn-cases :
    {D : Type 0} (t : Turn D)
    → ((o : Outcome D AgentError AgentRunOutcome) × (t ≡ done o)) ⊎ ((d : D) × (t ≡ next d))
Turn-cases (done o) = inl (o, refl)
Turn-cases (next d) = inr (d, refl)

module _ {St M Sess H A : Type 0} where
  -- The configuration is kept, and the session's step is the given one.
  abbrev IsAt : AgentConfig → ℕ → Driven St M Sess H A → Type 0
  IsAt config step d =
      (d.runtime.config ≡ config)
      × ((a : ActiveSession Sess) → d.runtime.active ≡ some a → a.next_step ≡ step)

  put_tool_reply-config :
      {X : Type 0}
      (r : Outcome (Guarded St (ToolAdapter H) ToolOperation) (ExecutionError ToolAdapterError) X)
      (d : Driven St M Sess H A)
      → (state_of (put_tool_reply r d)).runtime.config ≡ d.runtime.config
  put_tool_reply-config (returns x g) d = refl
  put_tool_reply-config (fails e g) d = refl

  put_network_reply-config :
      {X : Type 0}
      (r : Outcome (Guarded St A TcpExchangeOperation) (ExecutionError NetworkAdapterError) X)
      (d : Driven St M Sess H A)
      → (state_of (put_network_reply r d)).runtime.config ≡ d.runtime.config
  put_network_reply-config (returns x g) d = refl
  put_network_reply-config (fails e g) d = refl

  settle-Goes :
      {Output Err : Type 0} (S : EventStore St) (adapter : PendingAdapter) (is_budget : Err → Bool)
      (failure : AgentError) (bytes_of : Output → List ℕ) (active : ActiveSession Sess)
      (o : Outcome (Driven St M Sess H A) (ExecutionError Err) (ExecutionOutcome Output))
      (config : AgentConfig)
      → (state_of o).runtime.config ≡ config
      → Goes (IsAt config active.next_step) (settle S adapter is_budget failure bytes_of active o)
  unfolding settle
  settle-Goes S adapter is_budget failure bytes_of active (returns (executed run) d) config c =
      (c, λ a e. ground arith)
  settle-Goes S adapter is_budget failure bytes_of active (returns (denied_for reason) d) config c =
      tt
  settle-Goes S adapter is_budget failure bytes_of active (returns (approval_needed request) d)
        config c =
      tt
  settle-Goes S adapter is_budget failure bytes_of active (fails (supervisor_error e) d) config c =
      tt
  settle-Goes S adapter is_budget failure bytes_of active (fails (adapter_error e) d) config c = tt
  settle-Goes S adapter is_budget failure bytes_of active (fails operation_not_found d) config c =
      tt

module _ {St M Sess H A : Type 0} (S : EventStore St) (P : Model M Sess) (T : ToolHandler H)
    (N : Adapter A TcpExchangeOperation TcpExchangeResponse NetworkAdapterError) (E : Supply) where
  with_budget-Goes :
      (Q : Driven St M Sess H A → Type 0) (d : Driven St M Sess H A) (task : TaskId)
      (k : Driven St M Sess H A → Turn (Driven St M Sess H A))
      → Goes Q (k (advance 1 d))
      → Goes Q (with_budget S P T N E d task k)
  unfolding with_budget
  with_budget-Goes Q d task k q = elim (Result-cases (execution_context d.supervisor task)) [
    | inr (e, c) ↦ rw (with_budget, c) tt
    | inl (context, c) ↦
        elim (Bool-cases (nat_beq (remaining_wall_time context (E.clock d.tick)) 0)) [
          | inl late ↦ rw (with_budget, c, late) tt
          | inr early ↦ rw (with_budget, c, early) q
        ]
  ]

  act-Goes :
      (d : Driven St M Sess H A) (active : ActiveSession Sess) (decision : ModelDecision)
      → Goes (IsAt d.runtime.config active.next_step) (act S P T N E d active decision)
  unfolding act request_tool request_network
  act-Goes d active (finish_with output) = tt
  act-Goes d active (call_tool_with route arguments) =
      elim (Result-cases (prepare d.runtime.tool_catalog route arguments)) [
        | inr (e, p) ↦ rw (act, p) tt
        | inl (operation, p) ↦
            rw (act, p)
              (settle-Goes S tool_adapter_pending _ _ _ active _ d.runtime.config
                (put_tool_reply-config _ (advance 3 d)))
      ]
  act-Goes d active (tcp_exchange_with host port request) = elim (Option-cases d.runtime.network) [
    | inl n ↦ rw (act, n) tt
    | inr (gate, n) ↦ elim (Result-cases (prepare_tcp_exchange host port request)) [
      | inr (e, p) ↦ rw (act, n, p) tt
      | inl (operation, p) ↦
          rw (act, n, p)
            (settle-Goes S network_adapter_pending _ _ _ active _ d.runtime.config
              (put_network_reply-config _ (advance 2 d)))
    ]
  ]

  decide-Goes :
      (d : Driven St M Sess H A) (active : ActiveSession Sess)
      → Goes (IsAt d.runtime.config (active.next_step + 1)) (decide S P T N E d active)
  unfolding decide follow
  decide-Goes d active =
      elim (Outcome-cases
        (P.decide active.model active.next_step active.previous_operation_output)) [
          | inr (_, model, o) ↦ rw (decide, o) tt
          | inl (decision, model, o) ↦
              let told : ActiveSession Sess = record active { model = model } in
              let counted : ActiveSession Sess = record told { next_step = active.next_step + 1 } in
              rw (decide, o)
                (with_budget-Goes (IsAt d.runtime.config (active.next_step + 1))
                  (set_active (some told) d) active.task_id
                  (λ d'. follow S P T N E d' told decision)
                  (act-Goes (set_active (some counted) (advance 1 (set_active (some told) d)))
                    counted decision))
        ]

  abbrev Counts : AgentConfig → ℕ → Driven St M Sess H A → Type 0
  Counts config step d = IsAt config (step + 1) d × (step ≤ config.max_steps)

  within_steps-Goes :
      (d : Driven St M Sess H A) (active : ActiveSession Sess)
      → Goes (Counts d.runtime.config active.next_step) (within_steps S P T N E d active)
  unfolding within_steps
  within_steps-Goes d active = elim (Bool-cases (ltb d.runtime.config.max_steps active.next_step)) [
    | inl over ↦ rw (within_steps, over) tt
    | inr within ↦
        rw (within_steps, within)
          (weaken (decide S P T N E d active) (decide-Goes d active) (ground arith))
  ]
    where
      weaken :
          (t : Turn (Driven St M Sess H A))
          → Goes (IsAt d.runtime.config (active.next_step + 1)) t
          → active.next_step ≤ d.runtime.config.max_steps
          → Goes (Counts d.runtime.config active.next_step) t
      weaken (done _) g h = tt
      weaken (next d') g h = (g, h)

  turn-Goes :
      (d : Driven St M Sess H A) (active : ActiveSession Sess)
      → d.runtime.active ≡ some active
      → Goes (Counts d.runtime.config active.next_step) (turn S P T N E d)
  unfolding turn
  turn-Goes d active e =
      rw (turn, e)
        (with_budget-Goes (Counts d.runtime.config active.next_step) d active.task_id
          (λ d'. within_steps S P T N E d' active) (within_steps-Goes (advance 1 d) active))

  turn-Goes_inactive :
      (d : Driven St M Sess H A) → d.runtime.active ≡ none → Goes (λ _. 1 ≤ 0) (turn S P T N E d)
  unfolding turn
  turn-Goes_inactive d e = rw (turn, e) tt

  -- A result, whichever.
  abbrev Ends : Option (Method (Driven St M Sess H A) AgentRunOutcome) → Type 0
  Ends o = (r : Method (Driven St M Sess H A) AgentRunOutcome) × (o ≡ some r)

  drive_on-Ends :
      (fuel : ℕ) (d : Driven St M Sess H A)
      → 0 < fuel
      → ((a : ActiveSession Sess)
          → d.runtime.active ≡ some a
          → d.runtime.config.max_steps + 1 < fuel + a.next_step)
      → Ends (drive_on S P T N E fuel d)
  unfolding drive_on
  drive_on-Ends zero d p h = absurd (omega (arith, p))
  drive_on-Ends (suc fuel) d p h = elim (Turn-cases (turn S P T N E d)) [
    | inl (o, t) ↦ rw (drive_on, t) (o, refl)
    | inr (d', t) ↦ elim (Option-cases d.runtime.active) [
      | inl n ↦ absurd (omega (arith, rw t at (turn-Goes_inactive d n)))
      | inr (a, e) ↦
          let ((config, at), within) : Counts d.runtime.config a.next_step d' =
            rw t at (turn-Goes d a e) in
          let room = h a e in
          rw (drive_on, t)
            (drive_on-Ends fuel d' (omega (arith, within, room))
              λ a' e'. rw config (omega (arith, within, room, at a' e')))
    ]
  ]

  drive-Ends : (d : Driven St M Sess H A) → Ends (drive S P T N E d)
  unfolding drive
  drive-Ends d = drive_on-Ends (d.runtime.config.max_steps + 2) d (omega arith) λ a _. omega arith

  begin-Ends :
      (d : Driven St M Sess H A) (task : TaskId) (o : Outcome M (Unit {0}) Sess)
      → Ends (begin S P T N E d task o)
  unfolding begin
  begin-Ends d task (returns model adapter) = drive-Ends (with_session d task model adapter)
  begin-Ends d task (fails _ adapter) = elim (Outcome-cases (Tasks.fail S d.supervisor task)) [
    | inl (_, sup, o) ↦ rw (begin, o) (_, refl)
    | inr (e, sup, o) ↦ rw (begin, o) (_, refl)
  ]

  start_model-Ends :
      (d : Driven St M Sess H A) (task : TaskId) (input : TaskExecutionInput)
      → Ends (start_model S P T N E d task input)
  unfolding start_model
  start_model-Ends d task input = begin-Ends d task _

  start-Ends : (d : Driven St M Sess H A) (task : TaskId) → Ends (start S P T N E d task)
  unfolding start
  start-Ends d task = elim (Option-cases d.runtime.active) [
    | inr (a, e) ↦ rw (start, e) (fails capacity_exceeded d, refl)
    | inl e ↦ elim (Outcome-cases (start_execution S d.supervisor (E.clock d.tick) task)) [
      | inr (x, sup, o) ↦ rw (start, e, o) (_, refl)
      | inl (input, sup, o) ↦ rw (start, e, o) (start_model-Ends _ task input)
    ]
  ]

  resume_with_output-Ends :
      (d : Driven St M Sess H A) (output : List ℕ) → Ends (resume_with_output S P T N E d output)
  unfolding resume_with_output
  resume_with_output-Ends d output = elim (Option-cases d.runtime.active) [
    | inl e ↦ rw (resume_with_output, e) (_, refl)
    | inr (a, e) ↦
        rw (resume_with_output, e)
          (drive-Ends (
            set_active
              (some (record a { pending_approval = none; previous_operation_output = some output }))
              d))
  ]

  resume-Ends :
      {Output Err : Type 0} (is_budget : Err → Bool) (failure : AgentError)
      (bytes_of : Output → List ℕ) (task : TaskId)
      (o : Outcome (Driven St M Sess H A) (ExecutionError Err) (Executed Output))
      → Ends (resume S P T N E is_budget failure bytes_of task o)
  unfolding resume
  resume-Ends is_budget failure bytes_of task (returns run d) =
      resume_with_output-Ends d (bytes_of run.output)
  resume-Ends is_budget failure bytes_of task (fails (supervisor_error e) d) = (_, refl)
  resume-Ends is_budget failure bytes_of task (fails (adapter_error e) d) = (_, refl)
  resume-Ends is_budget failure bytes_of task (fails operation_not_found d) = (_, refl)

  approve_with-Ends :
      (d : Driven St M Sess H A) (approval : ApprovalId) (task : TaskId) (adapter : PendingAdapter)
      → Ends (approve_with S P T N E d approval task adapter)
  unfolding approve_with
  approve_with-Ends d approval task tool_adapter_pending =
      resume-Ends is_tool_budget tool_failed (λ (o : ToolOutput). o.bytes) task
        (tool_approval S P T N E d approval)
  approve_with-Ends d approval task network_adapter_pending =
      elim (Option-cases d.runtime.network) [
        | inl n ↦ rw (approve_with, n) (_, refl)
        | inr (gate, n) ↦
            rw (approve_with, n)
              (resume-Ends is_network_budget network_failed (λ (o : TcpExchangeResponse). o.bytes)
                task (network_approval S P T N E d gate approval))
      ]

  approve_and_resume-Ends :
      (d : Driven St M Sess H A) (approval : ApprovalId)
      → Ends (approve_and_resume S P T N E d approval)
  unfolding approve_and_resume
  approve_and_resume-Ends d approval = elim (Result-cases (require_pending d.runtime approval)) [
    | inr (e, r) ↦ rw (approve_and_resume, r) (_, refl)
    | inl ((task, adapter), r) ↦
        rw (approve_and_resume, r) (approve_with-Ends d approval task adapter)
  ]

  -- For every model, whatever it proposes, every tool handler and network adapter, and from every state
  -- of the runtime: `start` and `approve_and_resume` return, so the loop never runs out of its fuel of
  -- two turns more than the configured steps.
  pub methods_end :
      (d : Driven St M Sess H A) (task : TaskId) (approval : ApprovalId)
      → ((r : Method (Driven St M Sess H A) AgentRunOutcome) × (start S P T N E d task ≡ some r))
        × ((r : Method (Driven St M Sess H A) AgentRunOutcome) × (approve_and_resume S P T N E d
                approval
              ≡ some r))
  methods_end d task approval = (start-Ends d task, approve_and_resume-Ends d approval)
