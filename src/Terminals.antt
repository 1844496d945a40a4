-- ===== src/Terminals.antt =====
-- Persistent shells.
pub mod Reconcile
pub mod Chunks
pub mod Types
pub mod Store
pub mod Service
