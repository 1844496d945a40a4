-- ===== src/Tests.antt =====
-- Runs of the models on concrete states.
mod Messages
mod Terminals
mod Routines
mod Executions
mod Auth
mod Campaign
mod Permissions
mod Tasks
mod Conversation
