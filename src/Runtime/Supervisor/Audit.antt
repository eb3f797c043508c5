-- ===== src/Runtime/Supervisor/Audit.antt =====
-- The supervisor (crates/aios-runtime/src/supervisor.rs) against the recovery of the persistent store
-- (`recover_snapshot` of crates/aios-storage-sqlite/src/lib.rs): what the log of events says of the
-- tasks.
pub mod Log
pub mod Pending
pub mod Views
pub mod Sound
pub mod Transitions
pub mod Tasks
pub mod Expiry
pub mod Approvals
pub mod Requests
pub mod Restarts
pub mod Reachable
