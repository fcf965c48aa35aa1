-- ===== src/System/Refinement.antt =====
-- A run of the billing process implements the abstract bank (billing/grpc_handler.go,
-- billing/services/billing.go, pkg/outbox/worker.go).
use mathlib.Core.Path.{subst}
use microservices_go.Prelude.{Bool, true, false, none, some, List, [], ◌∷◌, ◌≡◌, refl, inl, inr}
use microservices_go.Outbox.Worker.{EventPublisher}
use microservices_go.Billing.Domain.{Database}
use microservices_go.Billing.Handler.{handle_deposit, handle_withdraw}
use microservices_go.Billing.Bank.{Bank, Call, deposit, withdraw, nobody, replay, AllEnabled, pick}
use microservices_go.Billing.Bank.View.{
  view, Follows, handle_deposit-Follows, handle_withdraw-Follows,
}
use microservices_go.System.{Step, deposits, withdraws, batches, State, empty, step, run}
use microservices_go.System.Delivery.{IsSound, step-IsSound, empty-IsSound}

-- The calls of identified users, in order.
abbrev pub calls : List Step → List Call
calls [] = []
calls (deposits env none req ∷ rest) = calls rest
calls (deposits env (some u) req ∷ rest) = deposit u req.idempotency_key req.amount ∷ calls rest
calls (withdraws env none req ∷ rest) = calls rest
calls (withdraws env (some u) req ∷ rest) = withdraw u req.idempotency_key req.amount ∷ calls rest
calls (batches env ∷ rest) = calls rest

-- Some of the calls, each enabled where it stands, lead from the bank `b` to `final`.
abbrev pub Replays : List Call → (b final : Bank) → Type 0
Replays cs b final =
    (works : List Bool) × AllEnabled (pick works cs) b × (final ≡ replay (pick works cs) b)

Replays-nil : (b : Bank) → Replays [] b b
unfolding replay
Replays-nil b = ([], tt, refl)

Follows-Replays :
    (c : Call) (cs : List Call) (db db' : Database) (final : Bank)
    → Follows c db db'
    → Replays cs (view db') final
    → Replays (c ∷ cs) (view db) final
unfolding replay
Follows-Replays c cs db db' final (inl same) r =
    let (works, enabled, e) = subst (λ d. Replays cs (view d) final) same r in
    (false ∷ works, enabled, e)
Follows-Replays c cs db db' final (inr (now, moved)) r =
    let (works, enabled, e) = subst (λ b. Replays cs b final) moved r in
    (true ∷ works, (now, enabled), e)

module _ {M : Type 0} (p : EventPublisher M) where
  run-Replays :
      (steps : List Step) (s : State M)
      → IsSound p s
      → Replays (calls steps) (view s.db) (view (run p steps s).db)
  unfolding run handle_deposit handle_withdraw
  run-Replays [] s sound = Replays-nil (view s.db)
  run-Replays (deposits env none req ∷ rest) s sound =
      run-Replays rest (step p (deposits env none req) s) sound
  run-Replays (deposits env (some u) req ∷ rest) s sound =
      let a = deposits env (some u) req in
      Follows-Replays (deposit u req.idempotency_key req.amount) (calls rest) s.db (step p a s).db _
        (handle_deposit-Follows env u req s.db sound.0)
        (run-Replays rest (step p a s) (step-IsSound p a s sound))
  run-Replays (withdraws env none req ∷ rest) s sound =
      run-Replays rest (step p (withdraws env none req) s) sound
  run-Replays (withdraws env (some u) req ∷ rest) s sound =
      let a = withdraws env (some u) req in
      Follows-Replays (withdraw u req.idempotency_key req.amount) (calls rest) s.db (step p a s).db
        _ (handle_withdraw-Follows env u req s.db sound.0)
        (run-Replays rest (step p a s) (step-IsSound p a s sound))
  run-Replays (batches env ∷ rest) s sound =
      run-Replays rest (step p (batches env) s) (step-IsSound p (batches env) s sound)

  -- From the empty database, after calls of Deposit and Withdraw and batches of the worker, in any
  -- order and with any failures, the tables show a bank that some of the calls, in their order,
  -- make of the empty bank, each of them enabled when it works: its key is new, its amount is
  -- positive, and a withdrawal is covered. The other calls have no effect on balances and keys.
  pub run_refines_bank :
      (steps : List Step)
      → Replays (calls steps) nobody (view (run p steps (record { db = empty; sent = [] })).db)
  run_refines_bank steps = run-Replays steps (record { db = empty; sent = [] }) (empty-IsSound p)
