-- ===== src/Adapters.antt =====
-- The adapters that execute guarded operations: crates/aios-adapter-tool and
-- crates/aios-adapter-network.
pub mod Tool
pub mod Network
