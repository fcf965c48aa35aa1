-- ===== src/Billing/Domain.antt =====
-- billing/domain/billing.go, and the tables that billing/migrations and the statements of
-- billing/repository/billing.go describe.
use microservices_go.Prelude.{ℕ, String, ℤ, Bool, List}
use microservices_go.Postgres.{Time, CommitOutcome}
use microservices_go.Outbox.{Table}

pub record DepositRequest : Type 0 where
  pub user_id : String
  pub amount : ℤ
  pub idempotency_key : String

pub record WithdrawRequest : Type 0 where
  pub user_id : String
  pub amount : ℤ
  pub idempotency_key : String

pub record TopUpAccountParams : Type 0 where
  pub user_id : String
  pub amount : ℤ

-- The column `type` holds "deposit" or "withdrawal"; no other text is written.
pub data TransactionType : Type 0 where
  deposit withdrawal : TransactionType

pub record InsertTransactionParams : Type 0 where
  pub account_id : String
  pub amount : ℤ
  pub type : TransactionType
  pub idempotency_key : String

pub record Transaction : Type 0 where
  pub id : ℕ
  pub account_id : String
  pub amount : ℤ
  pub type : TransactionType
  pub idempotency_key : String
  pub created_at : Time

pub record Account : Type 0 where
  pub id : String
  pub user_id : String
  pub balance : ℤ
  pub created_at : Time

pub record WithdrawAccountParams : Type 0 where
  pub amount : ℤ
  pub id : String

-- The database of the service. `next_id` is the next value of `transactions.id`.
pub record Database : Type 0 where
  pub accounts : List Account
  pub transactions : List Transaction
  pub next_id : ℕ
  pub outbox : Table

-- What the database and the clock do during one request: which statement fails for a reason of
-- its own, how the commit ends, and the values that the server generates.
pub record Env : Type 0 where
  pub begin_fails : Bool
  pub account_fails : Bool
  pub update_fails : Bool
  pub insert_fails : Bool
  pub outbox_fails : Bool
  pub rollback_fails : Bool
  pub find_fails : Bool
  pub commit : CommitOutcome
  pub uuid : String
  pub now : Time
  pub timestamp : String
