-- ===== src/Tests/Interleaving.antt =====
-- Examples for billing/ with interleaved statements: alice's deposit begins before bob's and ends
-- after it.
use microservices_go.Prelude.{ℕ, String, pos, ◌≤◌, none, some, [], ◌∷◌, ◌++◌, ◌⊎◌, ◌≡◌, refl}
use microservices_go.Outbox.{insert_outbox_event_tx}
use microservices_go.Billing.Domain.{Database, Env, DepositRequest}
use microservices_go.Billing.Repository.{top_up_account_tx, insert_transaction_tx}
use microservices_go.Billing.Service
use microservices_go.Billing.Service.Effect.{new_account, deposit_row, topped_up_event}
use microservices_go.Billing.Bank.{deposit, withdraw, nobody, replay, AllEnabled}
use microservices_go.Billing.Ledger.{IsValid}
use microservices_go.Billing.Bank.Replay.{uses}
use microservices_go.Billing.Bank.View.{view}
use microservices_go.Billing.Running.{Tx, crediting, own, total, holds_user, holds_key}
use microservices_go.Billing.Concurrent.{
  State, upserts, records, announces, commits, initial, Reach, start, later,
}
use microservices_go.Billing.Concurrent.Serial.{concurrent_calls_refine_bank}
use microservices_go.Billing.Concurrent.Alone.{deposit_alone, withdraw_alone}
use microservices_go.Tests.Billing.{clean, deposit_of, withdrawal_of}

abbrev for_bob : Env
for_bob = record clean { uuid = "acc-3" }

abbrev alice_asks : DepositRequest
alice_asks = deposit_of "alice" "k1"

abbrev bob_asks : DepositRequest
bob_asks = deposit_of "bob" "k2"

-- The sequences of the empty database, after a number of values from each.
abbrev empty : (next_id next_event : ℕ) → Database
empty next_id next_event = record (initial.db) {
  next_id = next_id;
  outbox = record { rows = []; next_id = next_event };
}

abbrev alice_begun : Tx
alice_begun = crediting clean alice_asks none (new_account clean alice_asks)

abbrev bob_begun : Tx
bob_begun = crediting for_bob bob_asks none (new_account for_bob bob_asks)

abbrev bob_recorded : Tx
bob_recorded = record bob_begun {
  transaction = some (deposit_row for_bob bob_asks "acc-3" (empty 1 1));
}

abbrev bob_announced : Tx
bob_announced = record bob_recorded {
  event = some (topped_up_event for_bob bob_asks "acc-3" (empty 2 1));
}

abbrev bob_done : Database
bob_done = own bob_announced (empty 2 2)

abbrev alice_recorded : Tx
alice_recorded = record alice_begun {
  transaction = some (deposit_row clean alice_asks "acc-2" bob_done);
}

abbrev alice_announced : Tx
alice_announced = record alice_recorded {
  event = some (topped_up_event clean alice_asks "acc-2" bob_done);
}

abbrev alice_only : State
alice_only = record {
  db = bob_done;
  running = alice_begun ∷ [];
  history = deposit "bob" "k2" (pos 30) ∷ [];
}

alice_begins : Reach (record initial { running = alice_begun ∷ [] })
unfolding top_up_account_tx
alice_begins = later start (
    upserts clean alice_asks "acc-2"
      (record (initial.db) { accounts = new_account clean alice_asks ∷ [] })
      (new_account clean alice_asks) refl refl refl refl refl refl)

bob_begins : Reach (record initial { running = bob_begun ∷ alice_begun ∷ [] })
unfolding top_up_account_tx
bob_begins = later alice_begins (
    upserts for_bob bob_asks "acc-3"
      (record (initial.db) { accounts = new_account for_bob bob_asks ∷ [] })
      (new_account for_bob bob_asks) refl refl refl refl refl refl)

bob_records :
    Reach (record { db = empty 2 1; running = bob_recorded ∷ alice_begun ∷ []; history = [] })
unfolding insert_transaction_tx
bob_records = later bob_begins (
    records [] (alice_begun ∷ []) bob_begun (new_account for_bob bob_asks) _
      (deposit_row for_bob bob_asks "acc-3" (empty 1 1)) refl refl refl refl refl refl)

bob_announces :
    Reach (record { db = empty 2 2; running = bob_announced ∷ alice_begun ∷ []; history = [] })
unfolding insert_outbox_event_tx
bob_announces = later bob_records (
    announces [] (alice_begun ∷ []) bob_recorded (new_account for_bob bob_asks) _ _ _ refl refl refl
      refl refl refl refl)

bob_commits : Reach alice_only
bob_commits =
    later bob_announces (commits [] (alice_begun ∷ []) bob_announced _ refl refl refl (λ h. cc))

abbrev after_bob : (next_id next_event : ℕ) → Tx → State
after_bob next_id next_event tx = record alice_only {
  db = record bob_done {
    next_id = next_id;
    outbox = record (bob_done.outbox) { next_id = next_event };
  };
  running = tx ∷ [];
}

abbrev ended : State
ended = record {
  db = own alice_announced (after_bob 3 3 alice_announced).db;
  running = [];
  history = deposit "bob" "k2" (pos 30) ∷ deposit "alice" "k1" (pos 30) ∷ [];
}

alice_records : Reach (after_bob 3 2 alice_recorded)
unfolding insert_transaction_tx
alice_records = later bob_commits (
    records [] [] alice_begun (new_account clean alice_asks) _
      (deposit_row clean alice_asks "acc-2" bob_done) refl refl refl refl refl refl)

alice_announces : Reach (after_bob 3 3 alice_announced)
unfolding insert_outbox_event_tx
alice_announces = later alice_records (
    announces [] [] alice_recorded (new_account clean alice_asks) _ _ _ refl refl refl refl refl
      refl refl)

ended-Reach : Reach ended
ended-Reach = later alice_announces (commits [] [] alice_announced _ refl refl refl (λ h. cc))

concurrent_calls_refine_bank_example :
    IsValid ended.db
    × (view ended.db ≡ replay ended.history nobody)
    × AllEnabled ended.history nobody
    × ((k : String) → uses k ended.history ≤ 1)
    × ((u : String) → total (holds_user u) ended.running ≤ 1)
    × ((k : String) → total (holds_key k) ended.running ≤ 1)
concurrent_calls_refine_bank_example = concurrent_calls_refine_bank ended ended-Reach

deposit_alone_example :
    let after = (Service.deposit clean (deposit_of "alice" "k3") ended.db).1 in
    (after ≡ ended.db)
    ⊎ Reach (record {
      db = after;
      running = [];
      history = ended.history ++ deposit "alice" "k3" (pos 30) ∷ [];
    })
deposit_alone_example =
    deposit_alone clean (deposit_of "alice" "k3") ended.db ended.history refl ended-Reach

withdraw_alone_example :
    let after = (Service.withdraw clean (withdrawal_of "bob" "k3") ended.db).1 in
    (after ≡ ended.db)
    ⊎ Reach (record {
      db = after;
      running = [];
      history = ended.history ++ withdraw "bob" "k3" (pos 30) ∷ [];
    })
withdraw_alone_example =
    withdraw_alone clean (withdrawal_of "bob" "k3") ended.db ended.history refl ended-Reach
