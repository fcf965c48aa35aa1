-- ===== src/Gateway.antt =====
-- The HTTP gateway (gateway/): middleware, handlers behind circuit breakers, and the translation of
-- gRPC errors into HTTP responses.
pub mod Response
pub mod Breaker
pub mod Handlers
pub mod Middleware
pub mod Routes
pub mod Replies
