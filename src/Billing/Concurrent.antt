-- ===== src/Billing/Concurrent.antt =====
-- Deposits and withdrawals whose statements interleave (billing/services/billing.go,
-- billing/repository/billing.go), as PostgreSQL runs them at READ COMMITTED: a statement sees what is
-- committed and what its own transaction has written; an upsert and a SELECT ... FOR UPDATE hold the
-- row of the user, and an INSERT its unique keys, until the transaction ends; who finds them held
-- waits. Sequences are not rolled back.
pub mod Rows
pub mod Invariant
pub mod Commit
pub mod Booked
pub mod Locks
pub mod Committed
pub mod Serial
pub mod Written
pub mod Alone
use microservices_go.Prelude.{
  ℕ, ◌+◌, String, ℤ, pos, leb_ℤ, ltb_ℤ, Bool, true, false, Option, none, some, is_some, List, [],
  ◌∷◌, ◌++◌, str_eq, if◌then◌else◌, ◌≡◌, ◌≢◌,
}
use microservices_go.Errors.{done}
use microservices_go.Postgres.{rolled_back}
use microservices_go.Outbox.{Event, Table, insert_outbox_event_tx}
use microservices_go.Outbox.Worker.{BatchEnv, mark_published}
use microservices_go.Billing.Domain.{
  Account, Transaction, TransactionType, Database, Env, DepositRequest, WithdrawRequest,
}
use microservices_go.Billing.Repository.{
  find_account, top_up_account_tx, insert_transaction_tx, get_account_by_user_id_tx,
  withdraw_account_tx,
}
use microservices_go.Billing.Service.{deposit_payload}
use microservices_go.Billing.Bank.{Call}
use microservices_go.Billing.Running.{
  Tx, call_of, with_last, own, total, holds_user, holds_key, holds_id, crediting, debiting,
  is_complete,
}

-- The committed database with its sequences, the transactions that run, and the calls that were
-- committed, in order.
pub record State : Type 0 where
  pub db : Database
  pub running : List Tx
  pub history : List Call

abbrev pub initial : State
initial = record {
  db = record {
    accounts = [];
    transactions = [];
    next_id = 1;
    outbox = record { rows = []; next_id = 1 };
  };
  running = [];
  history = [];
}

pub data Step : State → State → Type 0 where
  -- TopUpAccountTx, the first statement of Deposit.
  upserts :
      {s : State} (env : Env) (req : DepositRequest) (id : String) (db : Database) (row : Account)
      → env.begin_fails ≡ false
      → leb_ℤ req.amount (pos 0) ≡ false
      → total (holds_user req.user_id) s.running ≡ 0
      → total (holds_id env.uuid) s.running ≡ 0
      → top_up_account_tx env (record { user_id = req.user_id; amount = req.amount }) s.db
        ≡ done (id, db)
      → find_account req.user_id db.accounts ≡ some row
      → Step s (record s {
        running = crediting env req (find_account req.user_id s.db.accounts) row ∷ s.running;
      })
  -- GetAccountByUserIdTx, the first statement of Withdraw, and the test of the funds.
  selects :
      {s : State} (env : Env) (req : WithdrawRequest) (a : Account)
      → env.begin_fails ≡ false
      → leb_ℤ req.amount (pos 0) ≡ false
      → total (holds_user req.user_id) s.running ≡ 0
      → get_account_by_user_id_tx env req.user_id s.db ≡ done a
      → ltb_ℤ a.balance req.amount ≡ false
      → Step s (record s { running = debiting env req a ∷ s.running })
  -- WithdrawAccountTx.
  updates :
      {s : State} (before after : List Tx) (tx : Tx) (a : Account) (db : Database) (row : Account)
      → s.running ≡ before ++ tx ∷ after
      → tx.kind ≡ TransactionType.withdrawal
      → tx.read ≡ some a
      → tx.row ≡ none
      → withdraw_account_tx tx.env (record { amount = tx.amount; id = a.id }) s.db ≡ done db
      → find_account tx.user db.accounts ≡ some row
      → Step s (record s { running = before ++ record tx { row = some row } ∷ after })
  -- InsertTransactionTx.
  records :
      {s : State} (before after : List Tx) (tx : Tx) (row : Account) (db : Database)
      (t : Transaction)
      → s.running ≡ before ++ tx ∷ after
      → tx.row ≡ some row
      → tx.transaction ≡ none
      → total (holds_key tx.key) (before ++ after) ≡ 0
      → insert_transaction_tx tx.env
          (record {
            account_id = row.id;
            amount = tx.amount;
            type = tx.kind;
            idempotency_key = tx.key;
          })
          (own tx s.db)
        ≡ done db
      → db.transactions ≡ s.db.transactions ++ t ∷ []
      → Step s (record s {
        db = record (s.db) { next_id = db.next_id };
        running = before ++ record tx { transaction = some t } ∷ after;
      })
  -- InsertOutboxEventTx, in Deposit.
  announces :
      {s : State} (before after : List Tx) (tx : Tx) (row : Account) (t : Transaction) (o : Table)
      (e : Event)
      → s.running ≡ before ++ tx ∷ after
      → tx.kind ≡ TransactionType.deposit
      → tx.row ≡ some row
      → tx.transaction ≡ some t
      → tx.event ≡ none
      → insert_outbox_event_tx tx.env.outbox_fails tx.env.now "AccountToppedUp" row.id
          (deposit_payload tx.env
            (record { user_id = tx.user; amount = tx.amount; idempotency_key = tx.key }))
          s.db.outbox
        ≡ done o
      → o.rows ≡ s.db.outbox.rows ++ e ∷ []
      → Step s (record s {
        db = record (s.db) { outbox = record (s.db.outbox) { next_id = o.next_id } };
        running = before ++ record tx { event = some e } ∷ after;
      })
  commits :
      {s : State} (before after : List Tx) (tx : Tx) (t : Transaction)
      → s.running ≡ before ++ tx ∷ after
      → tx.transaction ≡ some t
      → is_complete tx.kind tx.event ≡ true
      → tx.env.commit ≢ rolled_back
      → Step s (record {
        db = own tx s.db;
        running = before ++ after;
        history = s.history ++ call_of tx.kind tx.user tx.key tx.amount ∷ [];
      })
  -- A failure of any kind, a conflict of keys, a deadlock, or the end of the process.
  aborts :
      {s : State} (before after : List Tx) (tx : Tx)
      → s.running ≡ before ++ tx ∷ after
      → Step s (record s { running = before ++ after })
  -- A batch of an outbox worker ends, which has published the rows with the ids.
  works :
      {s : State} (env : BatchEnv) (ids : List ℕ)
      → Step s (record s { db = record (s.db) { outbox = mark_published env s.db.outbox ids } })

pub data Reach : State → Type 0 where
  start : Reach initial
  later : {s t : State} → Reach s → Step s t → Reach t
