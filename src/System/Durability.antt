-- ===== src/System/Durability.antt =====
-- That a call which was answered with success is not lost (billing/grpc_handler.go,
-- billing/services/billing.go, pkg/outbox/worker.go).
use mathlib.Core.Path.{subst}
use microservices_go.Prelude.{String, ◌≢◌, true, none, some, List, [], ◌∷◌, ◌++◌, ◌≡◌, ◌⊎◌}
use microservices_go.Errors.{done}
use microservices_go.Outbox.Worker.{EventPublisher}
use microservices_go.Billing.Domain.{Transaction, TransactionType, Database, Env}
use microservices_go.Billing.Repository.{find_key}
use microservices_go.Billing.Handler.{Request, handle_deposit, handle_withdraw}
use microservices_go.Billing.Handler.Booked.{
  IsStored, IsBooked, handle_deposit_keeps, handle_withdraw_keeps, handle_deposit_ok,
  handle_withdraw_ok,
}
use microservices_go.System.{Step, deposits, withdraws, batches, State, step, run}

-- The step is a call with the key, and is answered with success.
abbrev pub Acknowledges : String → Step → Database → Type 0
Acknowledges k (deposits env user req) db =
    ((handle_deposit env user req db).0 ≡ done true) × (req.idempotency_key ≡ k)
Acknowledges k (withdraws env user req) db =
    ((handle_withdraw env user req db).0 ≡ done true) × (req.idempotency_key ≡ k)
Acknowledges k (batches env) db = ⊥

-- The transaction has the amount and the type of the call, on the account that its user has in the
-- database.
abbrev pub IsBookedBy : Step → Database → Transaction → Type 0
IsBookedBy (deposits env (some u) req) db t = IsBooked u req TransactionType.deposit db t
IsBookedBy (withdraws env (some u) req) db t = IsBooked u req TransactionType.withdrawal db t
IsBookedBy _ db t = ⊥

nobody_deposits :
    (env : Env) (req : Request) (db : Database) → (handle_deposit env none req db).0 ≢ done true
unfolding handle_deposit
nobody_deposits env req db h = cc

nobody_withdraws :
    (env : Env) (req : Request) (db : Database) → (handle_withdraw env none req db).0 ≢ done true
unfolding handle_withdraw
nobody_withdraws env req db h = cc

module _ {M : Type 0} (p : EventPublisher M) where
  step_keeps :
      (a : Step) (s : State M) (k : String) (t : Transaction)
      → IsStored k t s.db
      → IsStored k t (step p a s).db
  step_keeps (deposits env user req) s k t h = handle_deposit_keeps env user req s.db k t h
  step_keeps (withdraws env user req) s k t h = handle_withdraw_keeps env user req s.db k t h
  step_keeps (batches env) s k t h = h

  run_keeps :
      (steps : List Step) (s : State M) (k : String) (t : Transaction)
      → IsStored k t s.db
      → IsStored k t (run p steps s).db
  unfolding run
  run_keeps [] s k t h = h
  run_keeps (a ∷ rest) s k t h = run_keeps rest (step p a s) k t (step_keeps a s k t h)

  -- The transaction of the key after a step, which was there before or is one of the step.
  abbrev Recorded : Step → State M → String → Type 0
  Recorded a s k =
      (t : Transaction) × IsStored k t (step p a s).db
      × (IsStored k t s.db
          ⊎ ((find_key k s.db.transactions ≡ none) × IsBookedBy a (step p a s).db t))

  step_records : (a : Step) (s : State M) (k : String) → Acknowledges k a s.db → Recorded a s k
  step_records (deposits env none req) s k (ok, e) = absurd (nobody_deposits env req s.db ok)
  step_records (deposits env (some u) req) s k (ok, e) =
      subst (Recorded (deposits env (some u) req) s) e (handle_deposit_ok env u req s.db ok)
  step_records (withdraws env none req) s k (ok, e) = absurd (nobody_withdraws env req s.db ok)
  step_records (withdraws env (some u) req) s k (ok, e) =
      subst (Recorded (withdraws env (some u) req) s) e (handle_withdraw_ok env u req s.db ok)
  step_records (batches env) s k h = absurd h

  -- After a call of Deposit or Withdraw that is answered with success, anywhere in a run, the key
  -- has a transaction, and has the same one at the end of the run, whatever calls, batches and
  -- failures come before and after the call. If the key had none before the call, it is one of the
  -- type and the amount of the call, on the account that the user has after it; otherwise it is the
  -- one that the key had before.
  pub acknowledged_calls_stay :
      (before after : List Step) (a : Step) (s : State M) (k : String)
      → Acknowledges k a (run p before s).db
      → let now = run p before s in
        (t : Transaction) × (find_key k (run p (before ++ a ∷ after) s).db.transactions ≡ some t)
        × ((find_key k now.db.transactions ≡ some t)
            ⊎ ((find_key k now.db.transactions ≡ none) × IsBookedBy a (step p a now).db t))
  unfolding run
  acknowledged_calls_stay [] after a s k h =
      let (t, stored, whose) = step_records a s k h in
      (t, run_keeps after (step p a s) k t stored, whose)
  acknowledged_calls_stay (b ∷ before) after a s k h =
      acknowledged_calls_stay before after a (step p b s) k h
