-- ===== src/Adapters/Tool/Registered.antt =====
-- The registry of crates/aios-adapter-tool/src/lib.rs: what the catalog prepares, the adapter that was
-- built with it can execute.
use ai_os.Prelude.{
  ℕ, ◌<◌, ◌≡◌, ◌⊎◌, ◌∙◌, refl, ap, subst, ◌==◌, list_eq, nat_eq, list_beq_iff, arith, inl, inr,
  false, ◌||◌, not, List, [], none, some, leb, nat_beq, nat_beq_iff, length, get, insert,
  contains_key, get-insert, BTreeMap, ok, fails, state_of, Leaves, Outcome-cases, Result-cases,
  Option-cases, Bool-cases,
}
use ai_os.Core.Text.{Text}
use ai_os.Runtime.Approval.{Instant}
use ai_os.Runtime.Supervisor.{text_ord}
use ai_os.Runtime.Supervisor.Tasks.{TaskExecutionContext, remaining_wall_time}
use ai_os.Adapters.Tool.{
  RouteDefinition, ToolOperation, budget_exceeded, ToolHandler, ToolCatalog, ToolAdapterBuilder,
  ToolAdapter, is_valid_identifier, validate_arguments, prepare, new, register, build, call_handler,
  execute,
}

module _ {H : Type 0} where
  -- The same routes have a definition and a handler.
  abbrev pub IsMatched : BTreeMap Text RouteDefinition → BTreeMap Text H → Type 0
  IsMatched definitions handlers =
      (route : Text) → contains_key route definitions ≡ contains_key route handlers

  insert-IsMatched :
      (route : Text) (definition : RouteDefinition) (handler : H)
      (definitions : BTreeMap Text RouteDefinition) (handlers : BTreeMap Text H)
      → IsMatched definitions handlers
      → IsMatched (insert route definition definitions) (insert route handler handlers)
  insert-IsMatched route definition handler definitions handlers h other =
      elim (Bool-cases (text_ord.equality.beq route other)) [
        | inl same ↦
            rw
              (
                get-insert other route definition definitions,
                get-insert other route handler handlers,
                same,
                contains_key,
              )
              refl
        | inr different ↦
            rw
              (
                get-insert other route definition definitions,
                get-insert other route handler handlers,
                different,
                contains_key,
              )
              (h other)
      ]

  -- The builders that registrations make.
  pub data Built : ToolAdapterBuilder H → Type 0 where
    on_new :
        (max_routes : ℕ) (builder : ToolAdapterBuilder H)
        → new max_routes ≡ ok builder
        → Built builder
    on_register :
        (builder : ToolAdapterBuilder H)
        → Built builder
        → (route capability_tool action : Text) (handler : H)
        → Built (state_of (register builder route capability_tool action handler))

  register-IsMatched :
      (builder : ToolAdapterBuilder H) (route capability_tool action : Text) (handler : H)
      → IsMatched builder.definitions builder.handlers
      → Leaves
          (λ b. IsMatched b.definitions b.handlers)
          (register builder route capability_tool action handler)
  unfolding register
  register-IsMatched builder route capability_tool action handler h =
      elim (Bool-cases (
        not (is_valid_identifier route)
        || not (is_valid_identifier capability_tool)
        || not (is_valid_identifier action))) [
          | inl bad ↦ rw bad h
          | inr good ↦ elim (Bool-cases (contains_key route builder.definitions)) [
            | inl twice ↦ rw (good, twice) h
            | inr once ↦ elim (Bool-cases (leb builder.max_routes (length builder.definitions))) [
              | inl full ↦ rw (good, once, full) h
              | inr room ↦
                  rw (good, once, room)
                    (insert-IsMatched route _ handler builder.definitions builder.handlers h)
            ]
          ]
        ]

  new-IsMatched :
      (max_routes : ℕ) (builder : ToolAdapterBuilder H)
      → new max_routes ≡ ok builder
      → IsMatched builder.definitions builder.handlers
  unfolding new get
  new-IsMatched max_routes builder e route =
      let start : (builder.definitions ≡ []) × (builder.handlers ≡ []) = ground arith in
      rw (start.0, start.1) refl

  Built-IsMatched :
      (builder : ToolAdapterBuilder H)
      → Built builder
      → IsMatched builder.definitions builder.handlers
  Built-IsMatched _ (on_new max_routes builder e) = new-IsMatched max_routes builder e
  Built-IsMatched _ (on_register builder b route capability_tool action handler) =
      register-IsMatched builder route capability_tool action handler (Built-IsMatched builder b)

-- What `prepare` has checked, and what it gives.
prepare-ok :
    (catalog : ToolCatalog) (route : Text) (arguments : List Text) (operation : ToolOperation)
    → prepare catalog route arguments ≡ ok operation
    → (definition : RouteDefinition) × (get route catalog.definitions ≡ some definition)
      × (validate_arguments arguments ≡ ok tt)
      × (operation ≡ record {
        route = route;
        capability_tool = definition.capability_tool;
        action = definition.action;
        arguments = arguments;
        execution_context = none;
      })
unfolding prepare
prepare-ok catalog route arguments operation e =
    elim (Option-cases (get route catalog.definitions)) [
      | inl n ↦ let e' = rw n at e in cc
      | inr (definition, d) ↦ elim (Result-cases (validate_arguments arguments)) [
        | inr (x, bad) ↦ let e' = rw (d, bad) at e in cc
        | inl (u, fine) ↦ let e' = rw (d, fine) at e in (definition, d, fine, ground arith)
      ]
    ]

is_same :
    (definition : RouteDefinition)
    → (not (definition.capability_tool == definition.capability_tool)
        || not (definition.action == definition.action))
      ≡ false
is_same definition = ground (
  arith,
  list_beq_iff definition.capability_tool definition.capability_tool,
  list_beq_iff definition.action definition.action,
)

positive : (n : ℕ) → nat_beq n 0 ≡ false → 0 < n
positive n e = ground arith

module _ {H : Type 0} (T : ToolHandler H) where
  -- The adapters that a catalog meets: the one built with it, and what executions leave of it.
  pub data Serves : ToolCatalog → ToolAdapter H → Type 0 where
    on_build :
        (builder : ToolAdapterBuilder H)
        → Built builder
        → Serves (build builder).0 (build builder).1.adapter
    on_execute :
        (catalog : ToolCatalog) (adapter : ToolAdapter H)
        → Serves catalog adapter
        → (now : Instant) (operation : ToolOperation)
        → Serves catalog (state_of (execute T now adapter operation))

  -- What the executions keep.
  abbrev IsServing : ToolCatalog → ToolAdapter H → Type 0
  IsServing catalog adapter =
      (adapter.definitions ≡ catalog.definitions) × IsMatched adapter.definitions adapter.handlers

  contains_key-insert :
      (route : Text) (old handler : H) (handlers : BTreeMap Text H)
      → get route handlers ≡ some old
      → (other : Text)
      → contains_key other handlers ≡ contains_key other (insert route handler handlers)
  contains_key-insert route old handler handlers e other =
      elim (Bool-cases (text_ord.equality.beq route other)) [
        | inl same ↦
            let key : route ≡ other = (text_ord.equality.beq_iff route other).0 same in
            let there : get other handlers ≡ some old =
              subst (λ x. get x handlers ≡ some old) key e in
            rw (there, get-insert other route handler handlers, same, contains_key) refl
        | inr different ↦ rw (get-insert other route handler handlers, different, contains_key) refl
      ]

  call_handler-IsServing :
      (catalog : ToolCatalog) (adapter : ToolAdapter H) (operation : ToolOperation)
      (context : TaskExecutionContext) (handler : H)
      → get operation.route adapter.handlers ≡ some handler
      → IsServing catalog adapter
      → Leaves (IsServing catalog) (call_handler T adapter operation context handler)
  unfolding call_handler
  call_handler-IsServing catalog adapter operation context handler e (d, h) =
      elim (Outcome-cases (T.execute_for_task handler context operation.arguments)) [
        | inl (output, handler', r) ↦
            rw (r, call_handler)
              (
                d,
                λ other.
                    h other
                    ∙ contains_key-insert operation.route handler handler' adapter.handlers e other,
              )
        | inr (failure, handler', r) ↦
            rw (r, call_handler)
              (
                d,
                λ other.
                    h other
                    ∙ contains_key-insert operation.route handler handler' adapter.handlers e other,
              )
      ]

  execute-IsServing :
      (catalog : ToolCatalog) (adapter : ToolAdapter H) (now : Instant) (operation : ToolOperation)
      → IsServing catalog adapter
      → Leaves (IsServing catalog) (execute T now adapter operation)
  unfolding execute
  execute-IsServing catalog adapter now operation h =
      elim (Result-cases (validate_arguments operation.arguments)) [
        | inr (e, bad) ↦ rw (bad, execute) h
        | inl (_, fine) ↦ elim (Option-cases operation.execution_context) [
          | inl c ↦ rw (fine, c, execute) h
          | inr (context, c) ↦ elim (Bool-cases (nat_beq (remaining_wall_time context now) 0)) [
            | inl late ↦ rw (fine, c, late, execute) h
            | inr early ↦ elim (Option-cases (get operation.route adapter.definitions)) [
              | inl d ↦ rw (fine, c, early, d, execute) h
              | inr (definition, d) ↦
                  elim (Bool-cases (
                    not (definition.capability_tool == operation.capability_tool)
                    || not (definition.action == operation.action))) [
                      | inl differs ↦ rw (fine, c, early, d, differs, execute) h
                      | inr same ↦ elim (Option-cases (get operation.route adapter.handlers)) [
                        | inl r ↦ rw (fine, c, early, d, same, r, execute) h
                        | inr (handler, r) ↦
                            rw (fine, c, early, d, same, r, execute)
                              (call_handler-IsServing catalog adapter operation context handler r h)
                      ]
                    ]
            ]
          ]
        ]
      ]

  Serves-IsServing :
      (catalog : ToolCatalog) (adapter : ToolAdapter H)
      → Serves catalog adapter
      → IsServing catalog adapter
  unfolding build
  Serves-IsServing _ _ (on_build builder b) = (refl, Built-IsMatched builder b)
  Serves-IsServing _ _ (on_execute catalog adapter s now operation) =
      execute-IsServing catalog adapter now operation (Serves-IsServing catalog adapter s)

  pub prepare-execute :
      (catalog : ToolCatalog) (adapter : ToolAdapter H) (route : Text) (arguments : List Text)
      (operation : ToolOperation) (context : TaskExecutionContext) (now : Instant)
      → Serves catalog adapter
      → prepare catalog route arguments ≡ ok operation
      → ((remaining_wall_time context now ≡ 0)
          × (execute T now adapter (record operation { execution_context = some context })
              ≡ fails budget_exceeded adapter))
        ⊎ ((handler : H) × (0 < remaining_wall_time context now)
            × (get route adapter.handlers ≡ some handler)
            × (execute T now adapter (record operation { execution_context = some context })
                ≡ call_handler T adapter
                    (record operation { execution_context = some context })
                    context
                    handler))
  unfolding execute
  prepare-execute catalog adapter route arguments operation context now s e =
      let (definition, d, fine, o) = prepare-ok catalog route arguments operation e in
      let (same, matched) = Serves-IsServing catalog adapter s in
      let named : operation.route ≡ route = ap (λ x. x.route) o in
      let valid : validate_arguments operation.arguments ≡ ok tt =
        rw (ap (λ x. x.arguments) o) fine in
      let known : get operation.route adapter.definitions ≡ some definition = rw (named, same) d in
      let scoped : (not (definition.capability_tool == operation.capability_tool)
            || not (definition.action == operation.action))
          ≡ false =
        rw (ap (λ x. x.capability_tool) o, ap (λ x. x.action) o) (is_same definition) in
      elim (Bool-cases (nat_beq (remaining_wall_time context now) 0)) [
        | inl late ↦ inl (
          (nat_beq_iff (remaining_wall_time context now) 0).0 late,
          rw (valid, late, execute) refl,
        )
        | inr early ↦ elim (Option-cases (get route adapter.handlers)) [
          | inl n ↦
              let clash = rw (named, same, d, n, contains_key) at (matched operation.route) in cc
          | inr (handler, r) ↦
              let found : get operation.route adapter.handlers ≡ some handler = rw named r in
              inr (
                handler,
                positive (remaining_wall_time context now) early,
                r,
                rw (valid, early, known, scoped, found, execute) refl,
              )
        ]
      ]
