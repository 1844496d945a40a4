-- ===== src/Messages.antt =====
-- The message queue of a task.
pub mod Types
pub mod Transitions
pub mod Controller
pub mod Requests
pub mod Flight
pub mod Ordering
pub mod Recovery
pub mod Leases
pub mod Receipts
