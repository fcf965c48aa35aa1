-- ===== src/Postgres.antt =====
-- What a statement or a transaction can meet at the database, as the environment of one request.
-- The tables and the SQL of each statement are modelled by the repositories; the connection, the
-- clock and the generated identifiers come from here.
use microservices_go.Prelude.{ℕ}

-- An instant: PostgreSQL's NOW() and Go's time.Now().
abbrev pub Time : Type 0
Time = ℕ

-- How `tx.Commit` ends. With `ack_lost` the server has committed and the client sees an error.
pub data CommitOutcome : Type 0 where
  committed rolled_back ack_lost : CommitOutcome
