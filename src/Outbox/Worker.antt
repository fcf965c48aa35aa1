-- ===== src/Outbox/Worker.antt =====
-- The outbox worker (pkg/outbox/worker.go): a batch of pending events is published and marked in
-- one transaction, once a second until the context is done.
pub mod Safety
pub mod Progress
pub mod Drain
use microservices_go.Prelude.{
  Option, none, some, ℕ, Bool, List, [], ◌∷◌, ◌++◌, length, ltb, if◌then◌else◌,
}
use microservices_go.Errors.{GoError, Result, done, fail}
use microservices_go.Postgres.{Time, CommitOutcome, committed, rolled_back, ack_lost}
use microservices_go.Outbox.{Event, Table, query_outbox_events_tx, mark_events_as_processed_tx}

-- The interface `EventPublisher`: `publish` gives the message that is handed to the broker, or the
-- error that the event itself makes. An error of the connection is one of the batch.
pub record EventPublisher (M : Type 0) : Type 0 where
  pub publish : Event → Result M

-- What the database and the connection to the broker do during one batch.
pub record BatchEnv : Type 0 where
  pub begin_fails : Bool
  pub query_fails : Bool
  pub scan_fails : Bool
  pub publish_error : Event → Option GoError
  pub update_fails : Bool
  pub commit : CommitOutcome
  pub locked : List ℕ
  pub now : Time

abbrev pub batch_limit : ℕ
batch_limit = 100

-- What a batch leaves: the table, and the messages that were sent.
abbrev pub Outcome : Type 0 → Type 0
Outcome M = Table × List M

-- What `select` receives: a tick of the timer, or the end of the context.
pub data Signal : Type 0 where
  tick : BatchEnv → Signal
  stop : Signal

-- tx.Commit, or the deferred Rollback.
abbrev pub commit_batch : BatchEnv → Table → Table → Table
commit_batch env before after = elim env.commit [
  | committed ↦ after
  | rolled_back ↦ before
  | ack_lost ↦ after
]

abbrev pub mark_published : BatchEnv → Table → List ℕ → Table
mark_published env t ids =
    if ltb 0 (length ids)
    then elim (mark_events_as_processed_tx env.update_fails env.now ids t) [
      | fail _ ↦ t
      | done (t', updated) ↦ commit_batch env t t'
    ]
    else commit_batch env t t

module _ {M : Type 0} (p : EventPublisher M) where
  -- One call of Publish, in which the connection fails or does not.
  abbrev pub attempt : Option GoError → Event → Result M
  attempt none e = p.publish e
  attempt (some err) e = fail err

  -- The loop over the events: the ids that were published, and the messages.
  abbrev pub publish_all : BatchEnv → List Event → List ℕ × List M
  publish_all env [] = ([], [])
  publish_all env (e ∷ es) =
      let (ids, sent) = publish_all env es in
      elim (attempt (env.publish_error e) e) [
        | fail _ ↦ (ids, sent)
        | done m ↦ (e.id ∷ ids, m ∷ sent)
      ]

  abbrev pub publish_batch : BatchEnv → Table → List Event → Outcome M
  publish_batch env t [] = (t, [])
  publish_batch env t (e ∷ es) =
      let (ids, sent) = publish_all env (e ∷ es) in (mark_published env t ids, sent)

  unfoldable pub process_outbox_batch : BatchEnv → Table → Outcome M
  process_outbox_batch env t =
      if env.begin_fails
      then (t, [])
      else elim (query_outbox_events_tx env.query_fails env.scan_fails env.locked batch_limit t) [
        | fail _ ↦ (t, [])
        | done events ↦ publish_batch env t events
      ]

  -- The loop of the worker; with the signals used up it waits.
  unfoldable pub start_outbox_worker : List Signal → Table → Outcome M
  start_outbox_worker [] t = (t, [])
  start_outbox_worker (stop ∷ _) t = (t, [])
  start_outbox_worker (tick env ∷ rest) t =
      let (t', sent) = process_outbox_batch env t in
      let (t'', more) = start_outbox_worker rest t' in (t'', sent ++ more)
