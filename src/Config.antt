-- ===== src/Config.antt =====
-- The configuration of the services, read from the environment.
pub mod Environment
pub mod AuthConfig
