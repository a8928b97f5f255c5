-- ===== src/Plugins.antt =====
-- Plugins of the engine (lang/ts-plugins/src).
pub mod Resume
pub mod Idempotency
pub mod Subflow
pub mod Hierarchy
