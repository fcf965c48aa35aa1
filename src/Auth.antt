-- ===== src/Auth.antt =====
-- The auth service (auth/), without its package auth/services, which is not in the repository.
pub mod Domain
pub mod Repository
pub mod Refresh
pub mod Cleanup
pub mod Tokens
pub mod Cache
pub mod Handler
