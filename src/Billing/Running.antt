-- ===== src/Billing/Running.antt =====
-- A running transaction of Deposit or Withdraw (billing/services/billing.go), between the statements
-- of billing/repository/billing.go: what it has written, what it sees, and what it holds.
use microservices_go.Prelude.{
  ℕ, ◌+◌, String, ℤ, Bool, true, Option, none, some, is_some, List, [], ◌∷◌, ◌++◌, str_eq,
  if◌then◌else◌,
}
use microservices_go.Outbox.{Event}
use microservices_go.Billing.Domain.{
  Account, Transaction, TransactionType, Database, Env, DepositRequest, WithdrawRequest,
}
use microservices_go.Billing.Bank.{Call}

-- A transaction that has its user's row: the row as it was committed, if there was one, and what the
-- transaction has written so far.
pub record Tx : Type 0 where
  pub env : Env
  pub kind : TransactionType
  pub user : String
  pub key : String
  pub amount : ℤ
  pub read : Option Account
  pub row : Option Account
  pub transaction : Option Transaction
  pub event : Option Event

abbrev pub call_of : TransactionType → (user key : String) → ℤ → Call
call_of TransactionType.deposit u k n = Call.deposit u k n
call_of TransactionType.withdrawal u k n = Call.withdraw u k n

-- A version of the row of a user, put in its place.
abbrev pub install : Account → List Account → List Account
install row [] = row ∷ []
install row (a ∷ as') = if str_eq a.user_id row.user_id then row ∷ as' else a ∷ install row as'

abbrev pub with_row : Option Account → List Account → List Account
with_row none accounts = accounts
with_row (some row) accounts = install row accounts

abbrev pub with_last {ℓ} : {A : Type ℓ} → Option A → List A → List A
with_last none xs = xs
with_last (some x) xs = xs ++ x ∷ []

-- What a transaction sees of a database, and leaves of it by its commit.
abbrev pub own : Tx → Database → Database
own tx db = record db {
  accounts = with_row tx.row db.accounts;
  transactions = with_last tx.transaction db.transactions;
  outbox = record (db.outbox) { rows = with_last tx.event db.outbox.rows };
}

-- Whether a transaction holds the row of a user, a key, and the id of an account that it opens.
abbrev pub holds_user : String → Tx → ℕ
holds_user u tx = if str_eq tx.user u then 1 else 0

abbrev pub key_lock : Option Transaction → (key k : String) → ℕ
key_lock none key k = 0
key_lock (some t) key k = if str_eq key k then 1 else 0

abbrev pub holds_key : String → Tx → ℕ
holds_key k tx = key_lock tx.transaction tx.key k

abbrev pub id_lock : (read row : Option Account) → String → ℕ
id_lock (some _) row i = 0
id_lock none none i = 0
id_lock none (some row) i = if str_eq row.id i then 1 else 0

abbrev pub holds_id : String → Tx → ℕ
holds_id i tx = id_lock tx.read tx.row i

abbrev pub total : (Tx → ℕ) → List Tx → ℕ
total f [] = 0
total f (tx ∷ txs) = f tx + total f txs

abbrev pub crediting : Env → DepositRequest → (read : Option Account) → Account → Tx
crediting env req read row = record {
  env = env;
  kind = TransactionType.deposit;
  user = req.user_id;
  key = req.idempotency_key;
  amount = req.amount;
  read = read;
  row = some row;
  transaction = none;
  event = none;
}

abbrev pub debiting : Env → WithdrawRequest → Account → Tx
debiting env req read = record {
  env = env;
  kind = TransactionType.withdrawal;
  user = req.user_id;
  key = req.idempotency_key;
  amount = req.amount;
  read = some read;
  row = none;
  transaction = none;
  event = none;
}

-- A deposit writes its event before it commits.
abbrev pub is_complete : TransactionType → Option Event → Bool
is_complete TransactionType.deposit event = is_some event
is_complete TransactionType.withdrawal event = true
