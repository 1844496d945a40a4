-- ===== src/Tasks.antt =====
-- The store of tasks and their events: apps/server/src/modules/tasks/adapters/outbound/sqlite-tasks.ts.
pub mod Evidence
pub mod Prs
pub mod Types
pub mod Rows
pub mod Store
pub mod Events
pub mod Sessions
pub mod History
