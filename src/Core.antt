-- ===== src/Core.antt =====
-- crates/aios-core: the domain types of the runtime.
pub mod State
pub mod Error
pub mod Text
pub mod Address
pub mod Task
pub mod Policy
mod Witnesses
