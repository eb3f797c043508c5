-- ===== src/Storage.antt =====
-- crates/aios-storage-sqlite: what the persistent event store reconstructs after a restart.
pub mod Recovery
