-- ===== src/Control/Tasks.antt =====
-- shared/control-plane/src/task-service.ts.
pub mod Guards
pub mod Dependencies
pub mod Lineage
pub mod Ownership
pub mod Transitions
pub mod Recovery
pub mod Steps
pub mod Operations
pub mod Log
pub mod Calls
pub mod Final
pub mod Reach
pub mod Search
pub mod Acyclic
pub mod Ancestors
pub mod Resumed
pub mod Persisted
pub mod Created
pub mod Kept
pub mod History
pub mod Gate
pub mod Exclusive
mod Examples
pub mod Replay
