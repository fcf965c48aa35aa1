-- ===== src/Notification.antt =====
-- The notification service (notification/): a consumer with an inbox table, which sends one e-mail
-- for each event, and the declarations of its queues.
pub mod Email
pub mod Settings
pub mod Inbox
pub mod Payloads
pub mod Consumer
pub mod Concurrent
pub mod Topology
pub mod Start
pub mod EndToEnd
