-- ===== src/Outbox.antt =====
-- The transactional outbox: the events table and the statements on it (pkg/outbox/pg_repo.go,
-- pkg/migrations/outbox.sql, and the type `Event` of pkg/outbox/worker.go).
pub mod Order
pub mod Worker
pub mod Concurrent
use microservices_go.Prelude.{
  ℕ, String, Bool, true, false, ◌&&◌, ◌||◌, not, Option, none, some, List, [], ◌∷◌, ◌++◌, map,
  length, take, keep, leb, ◌==◌, if◌then◌else◌, ◌+◌,
}
use microservices_go.Errors.{message, wrap, Result, done, fail}
use microservices_go.Postgres.{Time}
use microservices_go.Json.{Payload}

-- The column `status`: PENDING is its default, PROCESSED the only other value that is written.
pub data EventStatus : Type 0 where
  pending processed : EventStatus

abbrev pub is_pending : EventStatus → Bool
is_pending pending = true
is_pending processed = false

pub record Event : Type 0 where
  pub id : ℕ
  pub aggregate_type : String
  pub aggregate_id : String
  pub event_type : String
  pub payload : Payload
  pub status : EventStatus
  pub error_text : Option String
  pub created_at : Time
  pub processed_at : Option Time

-- The rows, and the next value of the BIGSERIAL column `id`.
pub record Table : Type 0 where
  pub rows : List Event
  pub next_id : ℕ

-- `insert_fails` is an error of the driver or the server.
unfoldable pub insert_outbox_event_tx :
    (insert_fails : Bool) (now : Time) (event_type aggregate_id : String) (payload : Payload)
    → Table
    → Result Table
insert_outbox_event_tx insert_fails now event_type aggregate_id payload t =
    if insert_fails
    then fail (wrap "insert outbox" (message "exec"))
    else done (record {
      rows =
          t.rows
          ++ record {
            id = t.next_id;
            aggregate_type = "account";
            aggregate_id = aggregate_id;
            event_type = event_type;
            payload = payload;
            status = pending;
            error_text = none;
            created_at = now;
            processed_at = none;
          }
            ∷ [];
      next_id = t.next_id + 1;
    })

-- ORDER BY id ASC.
abbrev pub insert_by_id : Event → List Event → List Event
insert_by_id e [] = e ∷ []
insert_by_id e (f ∷ fs) = if leb e.id f.id then e ∷ f ∷ fs else f ∷ insert_by_id e fs

abbrev pub order_by_id : List Event → List Event
order_by_id [] = []
order_by_id (e ∷ es) = insert_by_id e (order_by_id es)

abbrev pub contains : List ℕ → ℕ → Bool
contains [] n = false
contains (m ∷ ms) n = m == n || contains ms n

-- WHERE status = 'PENDING' ... FOR UPDATE SKIP LOCKED: `locked` are the rows that other
-- transactions hold.
abbrev pub selectable : List ℕ → Event → Bool
selectable locked e = is_pending e.status && not (contains locked e.id)

unfoldable pub query_outbox_events_tx :
    (query_fails scan_fails : Bool) (locked : List ℕ) (limit : ℕ) → Table → Result (List Event)
query_outbox_events_tx query_fails scan_fails locked limit t =
    if query_fails
    then fail (wrap "failed to query outbox" (message "query"))
    else if scan_fails
    then fail (wrap "scan failed" (message "scan"))
    else done (take limit (keep (selectable locked) (order_by_id t.rows)))

abbrev pub mark_row : Time → List ℕ → Event → Event
mark_row now ids e =
    if contains ids e.id then record e { status = processed; processed_at = some now } else e

-- The new table and the number of rows that were updated.
unfoldable pub mark_events_as_processed_tx :
    (update_fails : Bool) (now : Time) (ids : List ℕ) → Table → Result (Table × ℕ)
mark_events_as_processed_tx update_fails now ids t =
    if update_fails
    then fail (wrap "failed to mark events as processed" (message "exec"))
    else done (
      record t { rows = map (mark_row now ids) t.rows },
      length (keep (λ e. contains ids e.id) t.rows),
    )
