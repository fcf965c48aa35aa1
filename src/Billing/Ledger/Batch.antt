-- ===== src/Billing/Ledger/Batch.antt =====
-- A batch of the outbox worker keeps the books: it marks rows and leaves what they announce
-- (pkg/outbox/worker.go).
use microservices_go.Prelude.{ℕ, List, [], ◌∷◌, ◌≡◌, refl, sym, ◌∙◌, inl, inr}
use microservices_go.Postgres.{Time}
use microservices_go.Outbox.{Event, Table}
use microservices_go.Outbox.Worker.{EventPublisher, BatchEnv, process_outbox_batch, mark_published}
use microservices_go.Outbox.Worker.Safety.{
  AllAdvanced, mark_published-AllAdvanced, process_outbox_batch-AllAdvanced,
}
use microservices_go.Billing.Domain.{Database}
use microservices_go.Billing.Ledger.{IsValid, announced}

AllAdvanced-announced :
    (now : Time) (ids : List ℕ) (es fs : List Event)
    → AllAdvanced now ids es fs
    → announced fs ≡ announced es
AllAdvanced-announced now ids [] [] h = refl
AllAdvanced-announced now ids [] (f ∷ fs) h = absurd h
AllAdvanced-announced now ids (e ∷ es) [] h = absurd h
AllAdvanced-announced now ids (e ∷ es) (f ∷ fs) (inl same, rest) =
    rw (same, AllAdvanced-announced now ids es fs rest) refl
AllAdvanced-announced now ids (e ∷ es) (f ∷ fs) (inr (_, marked), rest) =
    rw (marked, AllAdvanced-announced now ids es fs rest) refl

advanced-IsValid :
    (now : Time) (ids : List ℕ) (db : Database) (t : Table)
    → AllAdvanced now ids db.outbox.rows t.rows
    → IsValid db
    → IsValid (record db { outbox = t })
advanced-IsValid now ids db t advanced v = record {
  books = v.books;
  users = v.users;
  ids = v.ids;
  keys = v.keys;
  owners = v.owners;
  events = v.events ∙ sym (AllAdvanced-announced now ids db.outbox.rows t.rows advanced);
}

pub batch-IsValid :
    {M : Type 0} (p : EventPublisher M) (env : BatchEnv) (db : Database)
    → IsValid db
    → IsValid (record db { outbox = (process_outbox_batch p env db.outbox).0 })
batch-IsValid p env db v =
    let (ids, _, advanced) = process_outbox_batch-AllAdvanced p env db.outbox in
    advanced-IsValid env.now ids db (process_outbox_batch p env db.outbox).0 advanced v

-- The end of a batch that has published the rows with the ids.
pub mark_published-IsValid :
    (env : BatchEnv) (ids : List ℕ) (db : Database)
    → IsValid db
    → IsValid (record db { outbox = mark_published env db.outbox ids })
mark_published-IsValid env ids db v =
    advanced-IsValid env.now ids db (mark_published env db.outbox ids)
      (mark_published-AllAdvanced env db.outbox ids) v
