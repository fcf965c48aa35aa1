-- ===== src/System.antt =====
-- The billing process as a whole: the handlers of billing/grpc_handler.go and the worker of
-- pkg/outbox/worker.go take turns on one database, in any order.
pub mod Delivery
pub mod Refinement
pub mod Bounds
pub mod Durability
pub mod Http
pub mod Distributed
use microservices_go.Prelude.{String, Option, List, [], ◌∷◌, ◌++◌}
use microservices_go.Outbox.Worker.{EventPublisher, BatchEnv, process_outbox_batch}
use microservices_go.Billing.Domain.{Database, Env}
use microservices_go.Billing.Handler.{Request, handle_deposit, handle_withdraw}

-- A call of a client, with what happens to it, or a tick of the worker.
pub data Step : Type 0 where
  deposits : Env → Option String → Request → Step
  withdraws : Env → Option String → Request → Step
  batches : BatchEnv → Step

-- The database, and the messages that were sent so far.
pub record State (M : Type 0) : Type 0 where
  pub db : Database
  pub sent : List M

-- The database before the first call.
abbrev pub empty : Database
empty = record {
  accounts = [];
  transactions = [];
  next_id = 1;
  outbox = record { rows = []; next_id = 1 };
}

module _ {M : Type 0} (p : EventPublisher M) where
  abbrev pub batched : State M → BatchEnv → State M
  batched s env =
      let (t, more) = process_outbox_batch p env s.db.outbox in
      record { db = record (s.db) { outbox = t }; sent = s.sent ++ more }

  abbrev pub step : Step → State M → State M
  step (deposits env user req) s = record s { db = (handle_deposit env user req s.db).1 }
  step (withdraws env user req) s = record s { db = (handle_withdraw env user req s.db).1 }
  step (batches env) s = batched s env

  unfoldable pub run : List Step → State M → State M
  run [] s = s
  run (a ∷ rest) s = run rest (step a s)
