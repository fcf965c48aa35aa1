-- ===== src/Tests/Billing.antt =====
-- Examples for billing/: one account that has received one deposit.
use mathlib.Core.List.{Memᴰ}
use microservices_go.Prelude.{
  String, pos, ◌+ℤ◌, ◌≤ℤ◌, true, false, none, some, [], ◌∷◌, ◌≡◌, ◌↔◌, ◌⊎◌, refl, arith,
}
use microservices_go.Errors.{done}
use microservices_go.Postgres.{committed, rolled_back}
use microservices_go.Json.{str, num}
use microservices_go.Outbox.{Event, pending}
use microservices_go.Billing.Domain.{
  Account, Transaction, TransactionType, Database, Env, DepositRequest, WithdrawRequest,
}
use microservices_go.Billing.Service.{deposit}
use microservices_go.Billing.Service.Idempotency.{deposit_attempts, deposit_at_most_once}
use microservices_go.Billing.Service.Balances.{IsClean}
use microservices_go.Billing.Handler.{Request, handle_deposit, handle_withdraw}
use microservices_go.Billing.Handler.Replies.{handle_withdraw_replay, handle_deposit_replay}
use microservices_go.Billing.Ledger.{IsValid}
use microservices_go.Billing.Ledger.Preserved.{handle_withdraw-IsValid}

abbrev pub clean : Env
clean = record {
  begin_fails = false;
  account_fails = false;
  update_fails = false;
  insert_fails = false;
  outbox_fails = false;
  rollback_fails = false;
  find_fails = false;
  commit = committed;
  uuid = "acc-2";
  now = 20;
  timestamp = "2025-01-01T00:00:00Z";
}

abbrev pub undone : Env
undone = record clean { commit = rolled_back }

pub clean-IsClean : IsClean clean
clean-IsClean = record {
  begins = refl;
  account = refl;
  update = refl;
  insert = refl;
  outbox = refl;
  rollback = refl;
  find = refl;
  commits = refl;
}

abbrev pub alice : Account
alice = record { id = "acc-1"; user_id = "alice"; balance = pos 100; created_at = 10 }

abbrev first_deposit : Transaction
first_deposit = record {
  id = 1;
  account_id = "acc-1";
  amount = pos 100;
  type = TransactionType.deposit;
  idempotency_key = "k1";
  created_at = 10;
}

abbrev first_event : Event
first_event = record {
  id = 1;
  aggregate_type = "account";
  aggregate_id = "acc-1";
  event_type = "AccountToppedUp";
  payload =
      ("user_id", str "alice")
      ∷ ("amount", num (pos 100))
      ∷ ("tx_type", str "deposit")
      ∷ ("timestamp", str "2025-01-01T00:00:00Z")
      ∷ [];
  status = pending;
  error_text = none;
  created_at = 10;
  processed_at = none;
}

abbrev pub books : Database
books = record {
  accounts = alice ∷ [];
  transactions = first_deposit ∷ [];
  next_id = 2;
  outbox = record { rows = first_event ∷ []; next_id = 2 };
}

pub books-IsValid : IsValid books
unfolding ◌+ℤ◌
books-IsValid = record {
  books = (record { balanced = refl; solvent = omega arith }, tt);
  users = (refl, tt);
  ids = (refl, tt);
  keys = (refl, tt);
  owners = (refl, tt);
  events = refl;
}

abbrev pub thirty : Request
thirty = record { amount = pos 30; idempotency_key = "k2" }

abbrev pub again : Request
again = record { amount = pos 30; idempotency_key = "k1" }

abbrev pub deposit_of : String → String → DepositRequest
deposit_of u key = record { user_id = u; amount = pos 30; idempotency_key = key }

abbrev pub withdrawal_of : String → String → WithdrawRequest
withdrawal_of u key = record { user_id = u; amount = pos 30; idempotency_key = key }

handle_withdraw-IsValid_example : IsValid (handle_withdraw clean (some "alice") thirty books).1
handle_withdraw-IsValid_example =
    handle_withdraw-IsValid clean (some "alice") thirty books books-IsValid

deposit_at_most_once_example :
    let envs = undone ∷ clean ∷ clean ∷ [] in
    let req = deposit_of "alice" "k2" in
    (deposit_attempts envs req books ≡ books)
    ⊎ ((env : Env) × Memᴰ env envs × (deposit_attempts envs req books ≡ (deposit env req books).1))
deposit_at_most_once_example =
    deposit_at_most_once (undone ∷ clean ∷ clean ∷ []) (deposit_of "alice" "k2") books

handle_withdraw_replay_example :
    let r = handle_withdraw clean (some "alice") again books in
    (r.1 ≡ books) × ((r.0 ≡ done true) ↔ (pos 30 ≤ℤ pos 100))
handle_withdraw_replay_example =
    handle_withdraw_replay clean "alice" again books alice clean-IsClean books-IsValid refl refl
      refl (omega arith)

handle_deposit_replay_example : handle_deposit clean (some "alice") again books ≡ (done true, books)
unfolding ◌+ℤ◌
handle_deposit_replay_example =
    handle_deposit_replay clean "alice" again books alice clean-IsClean refl refl refl (omega arith)
