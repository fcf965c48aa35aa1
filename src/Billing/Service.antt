-- ===== src/Billing/Service.antt =====
-- billing/services/billing.go. A transaction works on a copy of the database, which `Commit`
-- installs; every other way out runs the deferred `Rollback`, which leaves the database as it was.
pub mod Effect
pub mod Idempotency
pub mod Balances
use microservices_go.Prelude.{String, ℤ, ltb_ℤ, Bool, true, false, [], ◌∷◌, if◌then◌else◌}
use microservices_go.Errors.{
  GoError, message, sentinel, wrap, is, Result, done, fail, idempotency_conflict,
  insufficient_funds,
}
use microservices_go.Postgres.{CommitOutcome, committed, rolled_back, ack_lost}
use microservices_go.Json.{Payload, str, num}
use microservices_go.Outbox.{Table, insert_outbox_event_tx}
use microservices_go.Billing.Domain.{
  Account, Database, Env, DepositRequest, WithdrawRequest, TransactionType,
}
use microservices_go.Billing.Repository.{
  top_up_account_tx, insert_transaction_tx, get_account_by_user_id_tx, withdraw_account_tx,
  find_by_idempotency_key,
}

-- What a call of the service leaves: its error, and the database.
abbrev pub Reply : Type 0
Reply = Result (Unit {0}) × Database

-- return tx.Commit(ctx), from the database `before` to `after`.
abbrev pub commit : Env → Database → Database → Reply
commit env before after = elim env.commit [
  | committed ↦ (done tt, after)
  | rolled_back ↦ (fail (message "commit"), before)
  | ack_lost ↦ (fail (message "commit"), after)
]

-- The transaction is rolled back first, so the key is looked up in the committed state.
unfoldable pub handle_idempotency_error : Env → String → Database → Result (Unit {0})
handle_idempotency_error env idempotency_key db =
    if env.rollback_fails
    then fail (wrap "deposit transaction rollback" (message "rollback"))
    else elim (find_by_idempotency_key env idempotency_key db) [
      | fail fetch_err ↦ fail (wrap "failed to fetch idempotent transaction" fetch_err)
      | done _ ↦ done tt
    ]

-- The branch of `Deposit` and of `Withdraw` on an error of `InsertTransactionTx`.
abbrev pub on_insert_error : Env → String → String → GoError → Database → Reply
on_insert_error env idempotency_key text err db =
    if is err idempotency_conflict
    then elim (handle_idempotency_error env idempotency_key db) [
      | fail e ↦ (fail (wrap "idempotency error" e), db)
      | done _ ↦ (done tt, db)
    ]
    else (fail (wrap text err), db)

abbrev pub deposit_payload : Env → DepositRequest → Payload
deposit_payload env req =
    ("user_id", str req.user_id)
    ∷ ("amount", num req.amount)
    ∷ ("tx_type", str "deposit")
    ∷ ("timestamp", str env.timestamp)
    ∷ []

-- The outbox row of a deposit, in the same transaction, and the commit.
abbrev pub announce : Env → DepositRequest → String → (before after : Database) → Reply
announce env req account_id before after =
    elim (insert_outbox_event_tx env.outbox_fails env.now "AccountToppedUp" account_id
      (deposit_payload env req) after.outbox) [
        | fail e ↦ (fail (wrap "failed to write outbox" e), before)
        | done t ↦ commit env before (record after { outbox = t })
      ]

abbrev pub record_deposit : Env → DepositRequest → String → (before after : Database) → Reply
record_deposit env req account_id before after =
    elim (insert_transaction_tx env
      (record {
        account_id = account_id;
        amount = req.amount;
        type = TransactionType.deposit;
        idempotency_key = req.idempotency_key;
      })
      after) [
        | fail e ↦ on_insert_error env req.idempotency_key "insert transaction failed" e before
        | done db ↦ announce env req account_id before db
      ]

unfoldable pub deposit : Env → DepositRequest → Database → Reply
deposit env req db =
    if env.begin_fails
    then (fail (wrap "begin tx failed" (message "begin")), db)
    else elim (top_up_account_tx env (record { user_id = req.user_id; amount = req.amount }) db) [
      | fail e ↦ (fail (wrap "deposit" e), db)
      | done (account_id, db') ↦ record_deposit env req account_id db db'
    ]

abbrev pub record_withdrawal : Env → WithdrawRequest → Account → (before after : Database) → Reply
record_withdrawal env req res before after =
    elim (insert_transaction_tx env
      (record {
        account_id = res.id;
        amount = req.amount;
        type = TransactionType.withdrawal;
        idempotency_key = req.idempotency_key;
      })
      after) [
        | fail e ↦ on_insert_error env req.idempotency_key "failed to insert transaction" e before
        | done db ↦ commit env before db
      ]

abbrev pub withdraw_from : Env → WithdrawRequest → Account → Database → Reply
withdraw_from env req res db =
    if ltb_ℤ res.balance req.amount
    then (fail (sentinel insufficient_funds), db)
    else elim (withdraw_account_tx env (record { amount = req.amount; id = res.id }) db) [
      | fail e ↦ (fail (wrap "failed to update balance" e), db)
      | done db' ↦ record_withdrawal env req res db db'
    ]

unfoldable pub withdraw : Env → WithdrawRequest → Database → Reply
withdraw env req db =
    if env.begin_fails
    then (fail (wrap "begin tx failed" (message "begin")), db)
    else elim (get_account_by_user_id_tx env req.user_id db) [
      | fail e ↦ (fail (wrap "withdraw" e), db)
      | done res ↦ withdraw_from env req res db
    ]
