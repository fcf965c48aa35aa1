-- ===== src/Tests/Outbox.antt =====
-- Examples for pkg/outbox: a table of one processed and two pending events.
use microservices_go.Prelude.{ℕ, false, none, List, [], ◌∷◌, ◌≡◌, refl, All, arith}
use microservices_go.Errors.{done}
use microservices_go.Postgres.{committed, rolled_back}
use microservices_go.Outbox.{Event, EventStatus, Table, pending, processed}
use microservices_go.Outbox.Order.{IsAscending}
use microservices_go.Outbox.Worker.{
  EventPublisher, BatchEnv, process_outbox_batch, start_outbox_worker, tick,
}
use microservices_go.Outbox.Worker.Safety.{
  AllAdvanced, IsPublished, process_outbox_batch-AllAdvanced,
}
use microservices_go.Outbox.Worker.Progress.{pending_rows, IsCalm}
use microservices_go.Outbox.Worker.Drain.{start_outbox_worker_drains}

abbrev event : ℕ → EventStatus → Event
event n s = record {
  id = n;
  aggregate_type = "account";
  aggregate_id = "acc-1";
  event_type = "AccountToppedUp";
  payload = [];
  status = s;
  error_text = none;
  created_at = 1;
  processed_at = none;
}

abbrev table : Table
table = record { rows = event 1 processed ∷ event 2 pending ∷ event 3 pending ∷ []; next_id = 4 }

table-IsAscending : IsAscending table.rows
table-IsAscending = ((omega arith, (omega arith, tt)), ((omega arith, tt), (tt, tt)))

-- A publisher whose messages are the ids.
abbrev pub ids_publisher : EventPublisher ℕ
ids_publisher = record { publish = λ e. done e.id }

abbrev pub calm : BatchEnv
calm = record {
  begin_fails = false;
  query_fails = false;
  scan_fails = false;
  publish_error = λ e. none;
  update_fails = false;
  commit = committed;
  locked = [];
  now = 7;
}

abbrev pub cut_off : BatchEnv
cut_off = record calm { commit = rolled_back }

calm-IsCalm : IsCalm calm
calm-IsCalm = record {
  begins = refl;
  queries = refl;
  scans = refl;
  updates = refl;
  commits = refl;
  unlocked = refl;
  sends = λ e. refl;
}

process_outbox_batch-AllAdvanced_example :
    let (t', sent) = process_outbox_batch ids_publisher calm table in
    (ids : List ℕ) × All (IsPublished ids_publisher sent) ids × AllAdvanced 7 ids table.rows t'.rows
process_outbox_batch-AllAdvanced_example = process_outbox_batch-AllAdvanced ids_publisher calm table

start_outbox_worker_drains_example :
    let (t', sent) = start_outbox_worker ids_publisher (tick calm ∷ []) table in
    (pending_rows t'.rows ≡ []) × (sent ≡ 2 ∷ 3 ∷ [])
start_outbox_worker_drains_example =
    start_outbox_worker_drains ids_publisher (λ e. e.id) (λ e. refl) (calm ∷ []) table
      (calm-IsCalm, tt) table-IsAscending (omega arith)
