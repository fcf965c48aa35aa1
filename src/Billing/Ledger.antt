-- ===== src/Billing/Ledger.antt =====
-- The books of the billing service: how the balances, the transactions and the outbox of
-- billing/domain/billing.go's tables belong together.
pub mod Accounts
pub mod Books
pub mod Preserved
pub mod Batch
pub mod Marked
use microservices_go.Prelude.{
  ℕ, String, ℤ, pos, ◌+ℤ◌, ◌-ℤ◌, ◌≤ℤ◌, ◌≡◌, refl, Bool, true, false, Option, none, some, List, [],
  ◌∷◌, ◌++◌, arith, int_laws, str_eq, eq_iff, eq_refl, if◌then◌else◌, All, All-append, All-map,
}
use microservices_go.Json.{Value, num, field}
use microservices_go.Outbox.{Event}
use microservices_go.Billing.Domain.{
  Account, Transaction, TransactionType, deposit, withdrawal, Database,
}
use microservices_go.Billing.Repository.{find_account, find_id, has_id, set_balance, find_key}

-- What a transaction adds to its account.
abbrev pub signed : Transaction → ℤ
signed t = elim t.type [ deposit ↦ t.amount | withdrawal ↦ pos 0 -ℤ t.amount ]

-- The sum of an account's transactions.
abbrev pub net : String → List Transaction → ℤ
net i [] = pos 0
net i (t ∷ ts) = if str_eq t.account_id i then signed t +ℤ net i ts else net i ts

pub net-append :
    (i : String) (ts : List Transaction) (t : Transaction)
    → net i (ts ++ t ∷ []) ≡ (if str_eq t.account_id i then net i ts +ℤ signed t else net i ts)
net-append i [] t = grind int_laws
net-append i (u ∷ ts) t = grind (int_laws, net-append i ts t)

-- Deposits, and what the outbox announces, as account and amount.
abbrev pub deposits : List Transaction → List (String × Option Value)
deposits [] = []
deposits (t ∷ ts) = elim t.type [
  | deposit ↦ (t.account_id, some (num t.amount)) ∷ deposits ts
  | withdrawal ↦ deposits ts
]

abbrev pub announced : List Event → List (String × Option Value)
announced [] = []
announced (e ∷ es) = (e.aggregate_id, field "amount" e.payload) ∷ announced es

-- The balance is the sum of the account's transactions, and not negative.
pub record IsBalanced (ts : List Transaction) (a : Account) : Type 0 where
  pub balanced : a.balance ≡ net a.id ts
  pub solvent : pos 0 ≤ℤ a.balance

abbrev pub HasUniqueUsers : List Account → Type 0
HasUniqueUsers [] = Unit
HasUniqueUsers (a ∷ as') = (find_account a.user_id as' ≡ none) × HasUniqueUsers as'

abbrev pub HasUniqueIds : List Account → Type 0
HasUniqueIds [] = Unit
HasUniqueIds (a ∷ as') = (has_id a.id as' ≡ false) × HasUniqueIds as'

abbrev pub HasUniqueKeys : List Transaction → Type 0
HasUniqueKeys [] = Unit
HasUniqueKeys (t ∷ ts) = (find_key t.idempotency_key ts ≡ none) × HasUniqueKeys ts

pub record IsValid (db : Database) : Type 0 where
  pub books : All (IsBalanced db.transactions) db.accounts
  pub users : HasUniqueUsers db.accounts
  pub ids : HasUniqueIds db.accounts
  pub keys : HasUniqueKeys db.transactions
  pub owners : All (λ t. has_id t.account_id db.accounts ≡ true) db.transactions
  pub events : deposits db.transactions ≡ announced db.outbox.rows
