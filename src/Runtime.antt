-- ===== src/Runtime.antt =====
-- crates/aios-runtime: events, approvals, the supervisor of tasks and the guarded execution gate.
pub mod Event
pub mod Approval
pub mod Supervisor
pub mod Execution
mod Witnesses
