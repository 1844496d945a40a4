-- ===== src/Executions/Commands.antt =====
-- Commands of execution-store.ts: a request is answered at most once, and a command is handed out
-- at most once. An operation touches the commands by the changes of `Keeps` only.
pub mod Changes
pub mod Answers
pub mod Delivery
