-- ===== src/Control.antt =====
-- The control plane, shared/control-plane/src.
pub mod Table
pub mod Rows
pub mod Store
pub mod Samples
pub mod Idempotency
pub mod Tasks
pub mod Leases
pub mod Deliverables
pub mod Executions
pub mod Memory
pub mod Delegation
