-- ===== src/Routines.antt =====
-- Routines: recurring agent tasks and scripts.
pub mod Scheduler
pub mod CatchUp
pub mod Cron
pub mod Schedule
pub mod Presets
pub mod Types
pub mod Service
pub mod Requests
pub mod Cadence
pub mod Scripts
