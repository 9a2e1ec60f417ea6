-- ===== src/Protocol.antt =====
-- The shared protocol package, shared/protocol/src.
pub mod Lifecycle
pub mod Path
pub mod Glob
pub mod Scope
pub mod Memory
pub mod Records
pub mod Chunks
pub mod Schema
mod Examples
