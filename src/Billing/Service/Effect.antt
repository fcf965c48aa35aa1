-- ===== src/Billing/Service/Effect.antt =====
-- The databases that a deposit and a withdrawal can leave (billing/services/billing.go).
use microservices_go.Prelude.{
  String, ℤ, ◌+ℤ◌, ◌-ℤ◌, ◌≡◌, false, none, some, List, [], ◌∷◌, ◌++◌, arith, ◌⊎◌, ◌+◌, ltb_ℤ,
}
use microservices_go.Outbox.{Event, insert_outbox_event_tx, pending}
use microservices_go.Billing.Domain.{
  Account, Transaction, TransactionType, Database, Env, DepositRequest, WithdrawRequest,
}
use microservices_go.Billing.Repository.{
  find_account, find_id, has_id, set_balance, find_key, top_up_account_tx, insert_transaction_tx,
  get_account_by_user_id_tx, withdraw_account_tx,
}
use microservices_go.Billing.Service.{deposit, withdraw, deposit_payload}

-- The rows that a request adds.
abbrev pub deposit_row : Env → DepositRequest → String → Database → Transaction
deposit_row env req account_id db = record {
  id = db.next_id;
  account_id = account_id;
  amount = req.amount;
  type = TransactionType.deposit;
  idempotency_key = req.idempotency_key;
  created_at = env.now;
}

abbrev pub withdrawal_row : Env → WithdrawRequest → String → Database → Transaction
withdrawal_row env req account_id db = record {
  id = db.next_id;
  account_id = account_id;
  amount = req.amount;
  type = TransactionType.withdrawal;
  idempotency_key = req.idempotency_key;
  created_at = env.now;
}

abbrev pub topped_up_event : Env → DepositRequest → String → Database → Event
topped_up_event env req account_id db = record {
  id = db.outbox.next_id;
  aggregate_type = "account";
  aggregate_id = account_id;
  event_type = "AccountToppedUp";
  payload = deposit_payload env req;
  status = pending;
  error_text = none;
  created_at = env.now;
  processed_at = none;
}

abbrev pub new_account : Env → DepositRequest → Account
new_account env req = record {
  id = env.uuid;
  user_id = req.user_id;
  balance = req.amount;
  created_at = env.now;
}

abbrev with_deposit : Env → DepositRequest → String → List Account → Database → Database
with_deposit env req account_id accounts db = record {
  accounts = accounts;
  transactions = db.transactions ++ deposit_row env req account_id db ∷ [];
  next_id = db.next_id + 1;
  outbox = record {
    rows = db.outbox.rows ++ topped_up_event env req account_id db ∷ [];
    next_id = db.outbox.next_id + 1;
  };
}

-- The database after a deposit to the account `a`, and after one that opens an account.
abbrev pub topped_up : Env → DepositRequest → Account → Database → Database
topped_up env req a db =
    with_deposit env req a.id (set_balance a.id (a.balance +ℤ req.amount) db.accounts) db

abbrev pub opened_with : Env → DepositRequest → Database → Database
opened_with env req db = with_deposit env req env.uuid (db.accounts ++ new_account env req ∷ []) db

abbrev pub withdrawn : Env → WithdrawRequest → Account → ℤ → Database → Database
withdrawn env req a balance db = record db {
  accounts = set_balance a.id (balance -ℤ req.amount) db.accounts;
  transactions = db.transactions ++ withdrawal_row env req a.id db ∷ [];
  next_id = db.next_id + 1;
}

module _ (env : Env) (req : DepositRequest) (db : Database) where
  pub deposit_known_user :
      (a : Account)
      → find_account req.user_id db.accounts ≡ some a
      → ((deposit env req db).1 ≡ db)
        ⊎ (((deposit env req db).1 ≡ topped_up env req a db)
            × (find_key req.idempotency_key db.transactions ≡ none))
  unfolding deposit top_up_account_tx insert_transaction_tx insert_outbox_event_tx
  deposit_known_user a found = ground arith

  pub deposit_new_user :
      find_account req.user_id db.accounts ≡ none
      → ((deposit env req db).1 ≡ db)
        ⊎ (((deposit env req db).1 ≡ opened_with env req db)
            × (find_key req.idempotency_key db.transactions ≡ none)
            × (has_id env.uuid db.accounts ≡ false))
  unfolding deposit top_up_account_tx insert_transaction_tx insert_outbox_event_tx
  deposit_new_user unknown = ground arith

module _ (env : Env) (req : WithdrawRequest) (db : Database) where
  pub withdraw_known_user :
      (a b : Account)
      → find_account req.user_id db.accounts ≡ some a
      → find_id a.id db.accounts ≡ some b
      → ((withdraw env req db).1 ≡ db)
        ⊎ (((withdraw env req db).1 ≡ withdrawn env req a b.balance db)
            × (find_key req.idempotency_key db.transactions ≡ none)
            × (ltb_ℤ a.balance req.amount ≡ false))
  unfolding withdraw get_account_by_user_id_tx withdraw_account_tx insert_transaction_tx
  withdraw_known_user a b found same = ground arith

  pub withdraw_unknown_user :
      find_account req.user_id db.accounts ≡ none → (withdraw env req db).1 ≡ db
  unfolding withdraw get_account_by_user_id_tx
  withdraw_unknown_user unknown = ground arith
