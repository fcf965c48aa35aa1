-- ===== src/Tests/Concurrent.antt =====
-- Examples for two outbox workers on one table: the first dies when it has published an event, and
-- the second publishes it again.
use microservices_go.Prelude.{ℕ, List, none, [], ◌∷◌, ◌+◌, ◌≤◌, ◌≡◌, refl, false}
use microservices_go.Outbox.{Event, Table, pending, insert_outbox_event_tx, query_outbox_events_tx}
use microservices_go.Outbox.Concurrent.{
  held, in_flight, State, finish, Step, inserts, commits, begins, publishes, ends, dies, initial,
  Reach, start, later,
}
use microservices_go.Outbox.Concurrent.Counts.{count, pending_count, processed_count}
use microservices_go.Outbox.Concurrent.Once.{workers_send_once}
use microservices_go.Outbox.Concurrent.Alone.{batch_alone}
use microservices_go.Outbox.Worker.{process_outbox_batch}
use microservices_go.Tests.Outbox.{ids_publisher, calm}

abbrev row : Event
row = record {
  id = 1;
  aggregate_type = "account";
  aggregate_id = "acc-1";
  event_type = "AccountToppedUp";
  payload = [];
  status = pending;
  error_text = none;
  created_at = 10;
  processed_at = none;
}

abbrev one_row : Table
one_row = record { rows = row ∷ []; next_id = 2 }

abbrev resting : State
resting = record { table = one_row; inserting = []; running = []; sent = []; undone = [] }

abbrev died : State
died = record { table = one_row; inserting = []; running = []; sent = 1 ∷ []; undone = 1 ∷ [] }

abbrev writing : State
writing = record initial { table = record (initial.table) { next_id = 2 }; inserting = row ∷ [] }

inserted : Step ids_publisher initial writing
unfolding insert_outbox_event_tx
inserted = inserts false 10 "AccountToppedUp" "acc-1" [] [] [] row one_row refl refl refl

written : Step ids_publisher writing resting
written = commits [] [] row refl

abbrev with_batch : (ids : List ℕ) → (rest : List Event) → State → State
with_batch ids rest s = record s { running = record { ids = ids; failed = []; rest = rest } ∷ [] }

begun : Step ids_publisher resting (with_batch [] (row ∷ []) resting)
unfolding query_outbox_events_tx
begun = begins calm (row ∷ []) refl

-- The event is out and its batch is open.
abbrev flying : State
flying = record (with_batch (1 ∷ []) [] resting) { sent = 1 ∷ [] }

flown : Step ids_publisher (with_batch [] (row ∷ []) resting) flying
flown = publishes none [] [] [] [] row [] 1 refl refl

dead : Step ids_publisher flying died
dead = dies [] [] _ refl

begun_again : Step ids_publisher died (with_batch [] (row ∷ []) died)
unfolding query_outbox_events_tx
begun_again = begins calm (row ∷ []) refl

abbrev flying_again : State
flying_again = record (with_batch (1 ∷ []) [] died) { sent = 1 ∷ 1 ∷ [] }

flown_again : Step ids_publisher (with_batch [] (row ∷ []) died) flying_again
flown_again = publishes none [] [] [] [] row [] 1 refl refl

abbrev finished : State
finished = finish calm (1 ∷ []) [] flying_again

ended : Step ids_publisher flying_again finished
ended = ends calm [] [] (1 ∷ []) [] refl

finished-Reach : Reach ids_publisher finished
finished-Reach =
    later
      (later
        (later (later (later (later (later (later start inserted) written) begun) flown) dead)
          begun_again)
        flown_again)
      ended

workers_send_once_example :
    (count 1 (held finished.running) ≤ 1)
    × (pending_count 1 finished.table.rows + processed_count 1 finished.table.rows ≤ 1)
    × (count 1 finished.sent
        ≡ count 1 finished.undone
          + processed_count 1 finished.table.rows
          + count 1 (in_flight finished.running))
    × (processed_count 1 finished.table.rows + count 1 (in_flight finished.running) ≤ 1)
workers_send_once_example = workers_send_once ids_publisher 1 finished finished-Reach

resting-Reach : Reach ids_publisher resting
resting-Reach = later (later start inserted) written

batch_alone_example :
    Reach ids_publisher (record resting {
      table = (process_outbox_batch ids_publisher calm one_row).0;
      sent = 1 ∷ [];
    })
unfolding query_outbox_events_tx
batch_alone_example = batch_alone ids_publisher calm (row ∷ []) resting refl refl refl resting-Reach
