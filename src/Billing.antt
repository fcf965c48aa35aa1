-- ===== src/Billing.antt =====
-- The billing service (billing/): accounts with integer balances, an append-only list of
-- transactions with idempotency keys, and the outbox that announces deposits.
pub mod Domain
pub mod Repository
pub mod Service
pub mod Handler
pub mod Ledger
pub mod Bank
pub mod Running
pub mod Concurrent
