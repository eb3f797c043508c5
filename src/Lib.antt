-- ===== src/Lib.antt =====
-- The runtime of ai-os: which tasks an agent may be given, what their operations may touch, when a
-- person has to approve one, and what the audit log says of it.
--
-- The program's parts and the files that model them. Paths are those of the repository.
-- - crates/aios-core/src/state.rs, the lifecycle of a task: Core/State. `transition_to` and `cancel`
--   give the new state in place of writing to `self`.
-- - crates/aios-core/src/error.rs: Core/Error, and `non_empty_errors` of Core/Task. A validation error
--   is the field that it names; messages are left out.
-- - crates/aios-core/src/task.rs, task specifications and their validation: Core/Task, on Core/Text
--   (texts as lists of characters, with their UTF-8 length) and Core/Address (Rust's parser of IP
--   addresses). The sets `seen` of the validators are lists. Core/Task/Validity and Core/Task/Paths
--   hold what validation guarantees.
-- - crates/aios-core/src/policy.rs, the decision on one operation: Core/Policy, with the independent
--   description in Core/Policy/Decisions and Core/Policy/Components.
-- - crates/aios-runtime/src/event.rs, the audit events: Runtime/Event. The trait `EventStore` is a
--   record of operations and laws, which the supervisor takes as a parameter; Runtime/Event/Memory is
--   the in-memory store, and Runtime/Event/Memory/Laws shows that it keeps the laws.
-- - crates/aios-runtime/src/approval.rs, pending approvals and grants: Runtime/Approval, with single
--   grants in Runtime/Approval/Grants and the authorities that its methods lead to in
--   Runtime/Approval/Reached.
-- - crates/aios-runtime/src/supervisor.rs: Runtime/Supervisor (the state and the common steps),
--   Runtime/Supervisor/Tasks (submission, start and ends of a task), Runtime/Supervisor/Operations
--   (request, approval, denial, authorization and expiry) and Runtime/Supervisor/Restart (recovery).
--   A method takes the supervisor and gives its answer with the supervisor it leaves, also when it
--   fails: what was changed before a `?` stays changed. Runtime/Supervisor/Audit relates the supervisor to the recovery of its log, and
--   Runtime/Supervisor/Guard holds what an authorization and a start do, Runtime/Supervisor/Restarted
--   what a recovery leaves.
-- - crates/aios-runtime/src/execution.rs, the gate before an adapter: Runtime/Execution. The two traits
--   of operations and adapters are the record `Adapter`, a parameter. Runtime/Execution/Authorized is
--   on when the adapter runs, Runtime/Execution/Once and Runtime/Execution/Dropped on which operations the gate drops.
-- - `recover_snapshot` of crates/aios-storage-sqlite/src/lib.rs: Storage/Recovery.
-- - crates/aios-adapter-tool/src/lib.rs: Adapters/Tool, over arbitrary handlers; Adapters/Tool/Arguments
--   on the limits of arguments, Adapters/Tool/Registered on the registry.
-- - crates/aios-adapter-network/src/lib.rs: Adapters/Network. The operating system's clock and sockets
--   are the record `Network`, a parameter; Adapters/Network/Termination and Adapters/Network/Delivery
--   are on the exchange, the latter with the laws of a stream, `IsTcp`.
-- - crates/aios-local-api/src/lib.rs: Api (requests, responses and the service), Api/Frames and
--   Api/Server (frames, and the two sides of a connection, over serde_json as the record `Json`).
--   Api/Answers, Api/Pages and Api/Idle are on the service, Api/Server/Unchanged and
--   Api/Server/Connection on a connection.
-- - crates/aios-agent/src/lib.rs: Agent (configuration and state), Agent/Decision (the model's
--   proposals), Agent/Loop (the turns of `drive`) and Agent/Methods, with Agent/Termination and
--   Agent/Outcomes. The model is the record `Model`, a parameter, and so are the tools' handlers and the
--   network adapter. Runtime/Supervisor/Arrived says where a successful transition leaves its task.
-- Prelude has what the parts share: Boolean tests, lists, maps as lists of pairs, results, words.
--
-- How they interact: the gate asks the supervisor, the supervisor asks the policy of the task and the
-- approval authority, and every change of a task is written to the store before the tables.
-- The store is a parameter of all of this, so the theorems hold for each store that keeps the laws.
-- The agent prepares a model's proposals with the catalogs and executes them through two gates; the
-- service of the local API calls the supervisor's methods for its clients.
--
-- Bounds: numbers of a fixed width keep their limits where the code checks them (`checked_add`,
-- `try_from`, `saturating_add`); list lengths are `usize`, read as 64 bits. Most loops run
-- over a list. Three run on fuel and give no result without it: the two loops of a TCP exchange, with
-- one turn more than the request has bytes and one for each byte of the response limit and one more,
-- and the agent's loop, with two turns more than the configured steps. The theorems on termination
-- show that this is enough. Instants and durations are nanoseconds.
--
-- Identifiers are the numbers that the bits of a UUID spell. New identifiers and the readings of the
-- clocks are arguments of the functions that draw them.
--
-- Not modelled: JSON and the derived serializers, `Display`, the SQL of the persistent store, the binding
-- and accepting of the API's socket, and the binaries, which are, for the most part, input and output;
-- not yet the filesystem adapter and the process adapter. In the API, a validation issue is the field
-- it names, and `aborted` stands for a response that a failed `expect` prevents.
pub mod Prelude
pub mod Core
pub mod Runtime
pub mod Storage
pub mod Adapters
pub mod Api
pub mod Agent
