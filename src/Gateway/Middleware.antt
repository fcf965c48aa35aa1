-- ===== src/Gateway/Middleware.antt =====
-- The middleware of the gateway (gateway/middleware), over the parts of an HTTP request that it
-- reads and writes.
pub mod Request
pub mod Jwt
pub mod Limiter
pub mod Role
