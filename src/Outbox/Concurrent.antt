-- ===== src/Outbox/Concurrent.antt =====
-- Several outbox workers on one table (pkg/outbox/worker.go, pkg/outbox/pg_repo.go), as when a
-- service runs in several processes. The transaction of each batch holds the rows that it has
-- selected until it ends, and the queries of the others skip them. Each call of Publish is a step of
-- its own, in which the connection fails or does not, and so is the end of the transaction.
pub mod Counts
pub mod Once
pub mod Alone
use microservices_go.Prelude.{
  ℕ, Option, String, Bool, true, false, ◌||◌, List, [], ◌∷◌, ◌++◌, map, if◌then◌else◌, ◌≡◌,
}
use microservices_go.Errors.{GoError, done, fail}
use microservices_go.Postgres.{Time, CommitOutcome, committed, rolled_back, ack_lost}
use microservices_go.Json.{Payload}
use microservices_go.Outbox.{Event, Table, insert_outbox_event_tx, query_outbox_events_tx}
use microservices_go.Outbox.Worker.{EventPublisher, BatchEnv, attempt, batch_limit, mark_published}

abbrev pub ids_of : List Event → List ℕ
ids_of es = map (λ e. e.id) es

-- A batch whose transaction is open: the ids that it has published and those that failed, and the
-- events that are left.
pub record Batch : Type 0 where
  pub ids : List ℕ
  pub failed : List ℕ
  pub rest : List Event

-- The rows that the running batches hold.
abbrev pub held : List Batch → List ℕ
held [] = []
held (b ∷ batches) = (b.ids ++ b.failed ++ ids_of b.rest) ++ held batches

-- The ids whose messages went out in transactions that are still open.
abbrev pub in_flight : List Batch → List ℕ
in_flight [] = []
in_flight (b ∷ batches) = b.ids ++ in_flight batches

-- The table with its sequence, the rows of the service's open transactions, the running batches,
-- the ids for which Publish has returned no error, in order, and those of them whose batch was
-- undone.
pub record State : Type 0 where
  pub table : Table
  pub inserting : List Event
  pub running : List Batch
  pub sent : List ℕ
  pub undone : List ℕ

-- The update fails, or the commit is undone.
abbrev pub is_undone : BatchEnv → Bool
is_undone env =
    env.update_fails
    || elim env.commit [ committed ↦ false | rolled_back ↦ true | ack_lost ↦ false ]

abbrev pub initial : State
initial = record {
  table = record { rows = []; next_id = 1 };
  inserting = [];
  running = [];
  sent = [];
  undone = [];
}

-- The update and the commit of a batch that has tried its events, with the table as the others have
-- left it.
abbrev pub finish : BatchEnv → List ℕ → (batches : List Batch) → State → State
finish env ids batches s = record s {
  table = mark_published env s.table ids;
  running = batches;
  undone = s.undone ++ (if is_undone env then ids else []);
}

module _ {M : Type 0} (p : EventPublisher M) where
  -- A transaction of the service inserts an event, whose id comes from the sequence, and commits or
  -- not. A batch begins with its query; it calls Publish for one event after the other, and each
  -- call gives a message or an error; it ends with the update and the commit; or its process dies
  -- at any point before that, and the database rolls back.
  pub data Step : State → State → Type 0 where
    inserts :
        {s : State} (insert_fails : Bool) (now : Time) (event_type aggregate_id : String)
        (payload : Payload) (before after : List Event) (e : Event) (t : Table)
        → s.inserting ≡ before ++ after
        → insert_outbox_event_tx insert_fails now event_type aggregate_id payload s.table ≡ done t
        → t.rows ≡ s.table.rows ++ e ∷ []
        → Step s (record s {
          table = record (s.table) { next_id = t.next_id };
          inserting = before ++ e ∷ after;
        })
    commits :
        {s : State} (before after : List Event) (e : Event)
        → s.inserting ≡ before ++ e ∷ after
        → Step s (record s {
          table = record (s.table) { rows = s.table.rows ++ e ∷ [] };
          inserting = before ++ after;
        })
    aborts :
        {s : State} (before after : List Event) (e : Event)
        → s.inserting ≡ before ++ e ∷ after
        → Step s (record s { inserting = before ++ after })
    begins :
        {s : State} (env : BatchEnv) (es : List Event)
        → query_outbox_events_tx env.query_fails env.scan_fails (held s.running) batch_limit s.table
          ≡ done es
        → Step s (record s { running = record { ids = []; failed = []; rest = es } ∷ s.running })
    publishes :
        {s : State} (error : Option GoError) (before after : List Batch) (ids failed : List ℕ)
        (e : Event) (rest : List Event) (m : M)
        → s.running ≡ before ++ record { ids = ids; failed = failed; rest = e ∷ rest } ∷ after
        → attempt p error e ≡ done m
        → Step s (record s {
          running =
              before ++ record { ids = ids ++ e.id ∷ []; failed = failed; rest = rest } ∷ after;
          sent = s.sent ++ e.id ∷ [];
        })
    misses :
        {s : State} (error : Option GoError) (before after : List Batch) (ids failed : List ℕ)
        (e : Event) (rest : List Event) (err : GoError)
        → s.running ≡ before ++ record { ids = ids; failed = failed; rest = e ∷ rest } ∷ after
        → attempt p error e ≡ fail err
        → Step s (record s {
          running =
              before ++ record { ids = ids; failed = failed ++ e.id ∷ []; rest = rest } ∷ after;
        })
    ends :
        {s : State} (env : BatchEnv) (before after : List Batch) (ids failed : List ℕ)
        → s.running ≡ before ++ record { ids = ids; failed = failed; rest = [] } ∷ after
        → Step s (finish env ids (before ++ after) s)
    dies :
        {s : State} (before after : List Batch) (b : Batch)
        → s.running ≡ before ++ b ∷ after
        → Step s (record s { running = before ++ after; undone = s.undone ++ b.ids })

  pub data Reach : State → Type 0 where
    start : Reach initial
    later : {s t : State} → Reach s → Step s t → Reach t
