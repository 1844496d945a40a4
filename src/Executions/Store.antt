-- ===== src/Executions/Store.antt =====
-- apps/server/src/modules/agents/adapters/outbound/execution-store.ts. Each operation is one
-- immediate transaction: an exception leaves the store as it was, so an operation returns its value
-- with the next store, or the failure alone. Rows stand in the order of their rowid.
pub mod Rows
pub mod Admission
pub mod Commands
unfoldable pub use Rows.*
unfoldable pub use Admission.*
unfoldable pub use Commands.*
