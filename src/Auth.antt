-- ===== src/Auth.antt =====
-- Passkeys, sessions and action grants: apps/server/src/modules/auth.
pub mod SignIn
pub mod Types
pub mod Repository
pub mod Service
pub mod Ceremonies
pub mod Challenges
pub mod Revocation
pub mod Calls
pub mod Generations
