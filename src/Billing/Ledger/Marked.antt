-- ===== src/Billing/Ledger/Marked.antt =====
-- The statement on the outbox in billing/repository/billing.go.
use microservices_go.Prelude.{ℕ, List, ◌≡◌, arith}
use microservices_go.Errors.{done, fail}
use microservices_go.Outbox
use microservices_go.Billing.Domain.{Database, Env}
use microservices_go.Billing.Repository

-- MarkEventsAsProcessedTx of the billing repository is the one of the outbox package, on the outbox
-- of the database.
pub mark_events_as_processed_tx-outbox :
    (env : Env) (event_ids : List ℕ) (db : Database)
    → Repository.mark_events_as_processed_tx env event_ids db
      ≡ elim (Outbox.mark_events_as_processed_tx env.update_fails env.now event_ids db.outbox) [
        | fail e ↦ fail e
        | done (t, n) ↦ done (record db { outbox = t }, n)
      ]
unfolding Repository.mark_events_as_processed_tx Outbox.mark_events_as_processed_tx
mark_events_as_processed_tx-outbox env event_ids db = ground arith
