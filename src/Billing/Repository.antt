-- ===== src/Billing/Repository.antt =====
-- The statements of billing/repository/billing.go, over the tables. A statement of a transaction
-- returns the database that the rest of the transaction sees.
use microservices_go.Prelude.{
  ℕ, map, length, keep, String, ℤ, ◌+ℤ◌, ◌-ℤ◌, in_int64, Bool, true, false, Option, none, some,
  List, [], ◌∷◌, ◌++◌, str_eq, if◌then◌else◌, ◌&&◌, ◌+◌,
}
use microservices_go.Errors.{
  GoError, message, pg, sentinel, wrap, as_pg, Result, done, fail, idempotency_conflict,
  transaction_not_found, account_not_found,
}
use microservices_go.Outbox.{contains, mark_row}
use microservices_go.Billing.Domain.{
  Account, Transaction, Database, Env, TopUpAccountParams, InsertTransactionParams,
  WithdrawAccountParams,
}

-- WHERE user_id = $1, on the unique column `user_id`.
abbrev pub find_account : String → List Account → Option Account
find_account user [] = none
find_account user (a ∷ as') = if str_eq a.user_id user then some a else find_account user as'

-- Whether an account has the primary key `id`.
abbrev pub has_id : String → List Account → Bool
has_id i [] = false
has_id i (a ∷ as') = if str_eq a.id i then true else has_id i as'

-- UPDATE accounts SET balance = ... WHERE id = $2.
abbrev pub set_balance : String → ℤ → List Account → List Account
set_balance i b [] = []
set_balance i b (a ∷ as') =
    (if str_eq a.id i then record a { balance = b } else a) ∷ set_balance i b as'

-- WHERE idempotency_key = $1, on the column with the constraint
-- transactions_idempotency_key_uniq.
abbrev pub find_key : String → List Transaction → Option Transaction
find_key k [] = none
find_key k (t ∷ ts) = if str_eq t.idempotency_key k then some t else find_key k ts

-- A row that has the user already is updated; `RETURNING id` gives its id. A sum that is no BIGINT
-- and a generated id that is taken are errors of the server.
abbrev pub upsert_account : Env → TopUpAccountParams → Database → Result (String × Database)
upsert_account env params db = elim (find_account params.user_id db.accounts) [
  | some a ↦
      if in_int64 (a.balance +ℤ params.amount)
      then done
          (a.id, record db { accounts = set_balance a.id (a.balance +ℤ params.amount) db.accounts })
      else fail (pg "22003" "")
  | none ↦
      if has_id env.uuid db.accounts
      then fail (pg "23505" "accounts_pkey")
      else done (
        env.uuid,
        record db {
          accounts =
              db.accounts
              ++ record {
                id = env.uuid;
                user_id = params.user_id;
                balance = params.amount;
                created_at = env.now;
              }
                ∷ [];
        },
      )
]

-- if err != nil { return ..., fmt.Errorf(text, err) }
abbrev pub wrapped {ℓ} : {A : Type ℓ} → String → Result A → Result A
wrapped text (done a) = done a
wrapped text (fail e) = fail (wrap text e)

unfoldable pub top_up_account_tx : Env → TopUpAccountParams → Database → Result (String × Database)
top_up_account_tx env params db =
    wrapped "failed to upsert account"
      (if env.account_fails then fail (message "query row") else upsert_account env params db)

-- The INSERT itself: the unique constraint on the key is checked by the server.
abbrev pub exec_insert : Env → InsertTransactionParams → Database → Result Database
exec_insert env params db =
    if env.insert_fails
    then fail (message "exec")
    else elim (find_key params.idempotency_key db.transactions) [
      | some _ ↦ fail (pg "23505" "transactions_idempotency_key_uniq")
      | none ↦ done (record db {
        transactions =
            db.transactions
            ++ record {
              id = db.next_id;
              account_id = params.account_id;
              amount = params.amount;
              type = params.type;
              idempotency_key = params.idempotency_key;
              created_at = env.now;
            }
              ∷ [];
        next_id = db.next_id + 1;
      })
    ]

-- The error that `InsertTransactionTx` returns for an error of the INSERT.
abbrev pub is_key_violation : Option (String × String) → Bool
is_key_violation none = false
is_key_violation (some (code, constraint)) =
    str_eq code "23505" && str_eq constraint "transactions_idempotency_key_uniq"

abbrev pub insert_error : GoError → GoError
insert_error e =
    if is_key_violation (as_pg e)
    then sentinel idempotency_conflict
    else wrap "insert transaction failed" e

unfoldable pub insert_transaction_tx : Env → InsertTransactionParams → Database → Result Database
insert_transaction_tx env params db = elim (exec_insert env params db) [
  | done db' ↦ done db'
  | fail e ↦ fail (insert_error e)
]

unfoldable pub get_account_by_user_id_tx : Env → String → Database → Result Account
get_account_by_user_id_tx env user_id db =
    if env.account_fails
    then fail (wrap "failed to query account" (message "query row"))
    else elim (find_account user_id db.accounts) [
      | none ↦ fail (sentinel account_not_found)
      | some a ↦ done a
    ]

-- `balance - $1` is computed by the server from the row, which FOR UPDATE has locked.
abbrev pub find_id : String → List Account → Option Account
find_id i [] = none
find_id i (a ∷ as') = if str_eq a.id i then some a else find_id i as'

unfoldable pub withdraw_account_tx : Env → WithdrawAccountParams → Database → Result Database
withdraw_account_tx env params db = wrapped "withdraw account" (
    if env.update_fails then fail (message "exec") else elim (find_id params.id db.accounts) [
      | none ↦ done db
      | some a ↦
          if in_int64 (a.balance -ℤ params.amount)
          then done (record db {
            accounts = set_balance params.id (a.balance -ℤ params.amount) db.accounts;
          })
          else fail (pg "22003" "")
    ])

unfoldable pub find_by_idempotency_key : Env → String → Database → Result Transaction
find_by_idempotency_key env key db =
    if env.find_fails
    then fail (wrap "find transaction by idempotency key" (message "query row"))
    else elim (find_key key db.transactions) [
      | none ↦ fail (sentinel transaction_not_found)
      | some t ↦ done t
    ]

-- BeginTx and MarkEventsAsProcessedTx, which the service does not call: it begins its transactions
-- at the pool, and the outbox package has its own statement for the events.
unfoldable pub begin_tx : Env → Result (Unit {0})
begin_tx env =
    if env.begin_fails then fail (wrap "transaction start failed" (message "begin")) else done tt

unfoldable pub mark_events_as_processed_tx : Env → List ℕ → Database → Result (Database × ℕ)
mark_events_as_processed_tx env event_ids db =
    if env.update_fails
    then fail (wrap "failed to mark events as processed" (message "exec"))
    else done (
      record db {
        outbox = record (db.outbox) { rows = map (mark_row env.now event_ids) db.outbox.rows };
      },
      length (keep (λ e. contains event_ids e.id) db.outbox.rows),
    )
