-- ===== src/Executions.antt =====
-- The executions of agents: apps/server/src/modules/agents/adapters/outbound/execution-store.ts and
-- packages/shared/src/executions.ts.
pub mod Types
pub mod Store
pub mod Operations
pub mod Commands
pub mod Admission
