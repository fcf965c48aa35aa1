-- ===== src/Billing/Handler/Replies.antt =====
-- What the client of the billing service is told (billing/grpc_handler.go).
use microservices_go.Prelude.{
  String, pos, ◌+ℤ◌, ◌≤ℤ◌, ◌<ℤ◌, ◌≡◌, ◌≢◌, ◌↔◌, true, false, Option, none, some, arith, in_int64,
  inl, inr, Option-cases,
}
use microservices_go.Errors.{done, fail, status, not_found, failed_precondition}
use microservices_go.Billing.Domain.{Account, Database, Env}
use microservices_go.Billing.Repository.{
  find_account, find_id, top_up_account_tx, insert_transaction_tx, get_account_by_user_id_tx,
  withdraw_account_tx, find_by_idempotency_key,
}
use microservices_go.Billing.Service.{deposit, withdraw, handle_idempotency_error}
use microservices_go.Billing.Service.Idempotency.{IsRecorded, withdraw_recorded}
use microservices_go.Billing.Service.Balances.{IsClean, covered_fits}
use microservices_go.Billing.Ledger.{IsValid}
use microservices_go.Billing.Ledger.Accounts.{find_account-find_id}
use microservices_go.Billing.Handler.{Request, handle_deposit, handle_withdraw}

-- `Withdraw` never replies with the code NotFound, whatever the database holds: the error of a
-- missing account is another value than the one that the handler tests for.
pub handle_withdraw_never_not_found :
    (env : Env) (user : Option String) (req : Request) (db : Database) (m : String)
    → (handle_withdraw env user req db).0 ≢ fail (status not_found m)
unfolding handle_withdraw withdraw get_account_by_user_id_tx withdraw_account_tx
    insert_transaction_tx handle_idempotency_error find_by_idempotency_key
handle_withdraw_never_not_found env none req db m h = cc
handle_withdraw_never_not_found env (some u) req db m h = ground arith

-- When the account can be read, `Withdraw` of a positive amount replies FailedPrecondition exactly
-- when the user has an account whose balance is below the amount.
pub handle_withdraw_insufficient :
    (env : Env) (u : String) (req : Request) (db : Database)
    → env.begin_fails ≡ false
    → env.account_fails ≡ false
    → pos 0 <ℤ req.amount
    → ((handle_withdraw env (some u) req db).0
        ≡ fail (status failed_precondition "insufficient funds"))
      ↔ ((a : Account) × (find_account u db.accounts ≡ some a) × (a.balance <ℤ req.amount))
unfolding handle_withdraw withdraw get_account_by_user_id_tx withdraw_account_tx
    insert_transaction_tx handle_idempotency_error find_by_idempotency_key
handle_withdraw_insufficient env u req db b f positive =
    elim (Option-cases (find_account u db.accounts)) [
      | inl missing ↦ (λ h. ground arith, λ (a, found, low). cc)
      | inr (a, found) ↦ (λ h. (a, found, ground arith), λ (a', found', low). ground arith)
    ]

replay_unchanged :
    (env : Env) (u : String) (req : Request) (db : Database)
    → IsRecorded req.idempotency_key db
    → (handle_withdraw env (some u) req db).1 ≡ db
unfolding handle_withdraw
replay_unchanged env u req db known = ground (
  arith,
  withdraw_recorded env
      (record { user_id = u; amount = req.amount; idempotency_key = req.idempotency_key }) db known,
)

replay_ok :
    (env : Env) (u : String) (req : Request) (db : Database) (a : Account)
    → IsClean env
    → IsRecorded req.idempotency_key db
    → find_account u db.accounts ≡ some a
    → find_id a.id db.accounts ≡ some a
    → in_int64 a.balance ≡ true
    → pos 0 <ℤ req.amount
    → ((handle_withdraw env (some u) req db).0 ≡ done true) ↔ (req.amount ≤ℤ a.balance)
unfolding handle_withdraw withdraw get_account_by_user_id_tx withdraw_account_tx
    insert_transaction_tx handle_idempotency_error find_by_idempotency_key
replay_ok env u req db a clean known found same stored positive = (
  λ h. ground arith,
  λ enough. ground (arith, covered_fits a.balance req.amount stored positive enough),
)

-- When no statement fails, a withdrawal of a positive amount whose key is recorded, from an account
-- of valid books, changes nothing; and it replies success exactly when the balance of now covers
-- the amount once more.
pub handle_withdraw_replay :
    (env : Env) (u : String) (req : Request) (db : Database) (a : Account)
    → IsClean env
    → IsValid db
    → IsRecorded req.idempotency_key db
    → find_account u db.accounts ≡ some a
    → in_int64 a.balance ≡ true
    → pos 0 <ℤ req.amount
    → let r = handle_withdraw env (some u) req db in
      (r.1 ≡ db) × ((r.0 ≡ done true) ↔ (req.amount ≤ℤ a.balance))
handle_withdraw_replay env u req db a clean v known found stored positive =
    let same : find_id a.id db.accounts ≡ some a =
      find_account-find_id u db.accounts a v.ids found in
    (
      replay_unchanged env u req db known,
      replay_ok env u req db a clean known found same stored positive,
    )

-- When no statement fails, a deposit of a positive amount whose key is recorded replies success and
-- changes nothing, whoever sends it and whatever its amount, as long as the sender has an account
-- that could take the amount.
pub handle_deposit_replay :
    (env : Env) (u : String) (req : Request) (db : Database) (a : Account)
    → IsClean env
    → IsRecorded req.idempotency_key db
    → find_account u db.accounts ≡ some a
    → in_int64 (a.balance +ℤ req.amount) ≡ true
    → pos 0 <ℤ req.amount
    → handle_deposit env (some u) req db ≡ (done true, db)
unfolding handle_deposit deposit top_up_account_tx insert_transaction_tx handle_idempotency_error
    find_by_idempotency_key
handle_deposit_replay env u req db a clean known found fits positive = ground arith
