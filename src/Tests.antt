-- ===== src/Tests.antt =====
-- Worked examples: each property that has conditions, at concrete inputs that meet them.
pub mod Billing
pub mod Outbox
pub mod Concurrent
pub mod Interleaving
pub mod Notification
pub mod Consumers
pub mod Gateway
pub mod Auth
pub mod Routes
pub mod Config
pub mod Process
pub mod Distributed
pub mod System
