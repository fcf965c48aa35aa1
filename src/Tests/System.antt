-- ===== src/Tests/System.antt =====
-- Examples for the billing process: a deposit, a batch of the worker that fails, a withdrawal, and a
-- batch that works.
use microservices_go.Prelude.{
  ℕ, List, [], ◌∷◌, ◌+ℤ◌, pos, ◌≤ℤ◌, in_int64, true, none, some, All, ◌≡◌, ◌⊎◌, refl,
}
use microservices_go.Billing.Ledger.{IsValid}
use microservices_go.Billing.Domain.{Transaction}
use microservices_go.System.{Step, deposits, withdraws, batches, State, empty, step, run}
use microservices_go.System.Delivery.{IsDelivered, run_from_empty}
use microservices_go.Billing.Bank.{nobody}
use microservices_go.Billing.Bank.View.{view}
use microservices_go.System.Refinement.{calls, Replays, run_refines_bank}
use microservices_go.Outbox.{insert_outbox_event_tx}
use microservices_go.Billing.Repository.{find_key, top_up_account_tx, insert_transaction_tx}
use microservices_go.Billing.Service.{deposit}
use microservices_go.Billing.Handler.{handle_deposit}
use microservices_go.System.Durability.{Acknowledges, IsBookedBy, acknowledged_calls_stay}
use microservices_go.System.Bounds.{run_balances_fit}
use microservices_go.Tests.Billing.{clean, again, thirty, books}
use microservices_go.Tests.Outbox.{ids_publisher, calm, cut_off}

abbrev steps : List Step
steps =
    deposits clean (some "alice") again
    ∷ batches cut_off
    ∷ withdraws clean (some "alice") thirty
    ∷ batches calm
    ∷ []

run_from_empty_example :
    let s = run ids_publisher steps (record { db = empty; sent = [] }) in
    IsValid s.db × All (IsDelivered ids_publisher s.sent) s.db.outbox.rows
run_from_empty_example = run_from_empty ids_publisher steps

run_refines_bank_example :
    Replays
      (calls steps)
      nobody
      (view (run ids_publisher steps (record { db = empty; sent = [] })).db)
run_refines_bank_example = run_refines_bank ids_publisher steps

run_balances_fit_example :
    All
      (λ a. (pos 0 ≤ℤ a.balance) × (in_int64 a.balance ≡ true))
      (run ids_publisher steps (record { db = empty; sent = [] })).db.accounts
run_balances_fit_example = run_balances_fit ids_publisher steps (refl, tt)

abbrev at_books : State ℕ
at_books = record { db = books; sent = [] }

deposit_acknowledged :
    Acknowledges "k2" (deposits clean (some "alice") thirty) (run ids_publisher [] at_books).db
unfolding run handle_deposit deposit top_up_account_tx insert_transaction_tx insert_outbox_event_tx
    ◌+ℤ◌
deposit_acknowledged = (refl, refl)

acknowledged_calls_stay_example :
    let call = deposits clean (some "alice") thirty in
    (t : Transaction) × (find_key "k2" (run ids_publisher (call ∷ steps) at_books).db.transactions
      ≡ some t)
    × ((find_key "k2" books.transactions ≡ some t)
        ⊎ ((find_key "k2" books.transactions ≡ none)
            × IsBookedBy call (step ids_publisher call at_books).db t))
unfolding run
acknowledged_calls_stay_example =
    acknowledged_calls_stay ids_publisher [] steps (deposits clean (some "alice") thirty) at_books
      "k2" deposit_acknowledged
