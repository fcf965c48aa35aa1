-- ===== src/Billing/Concurrent/Invariant.antt =====
-- What a running transaction has made sure of, and how its statements lead there
-- (billing/repository/billing.go, billing/services/billing.go).
use microservices_go.Prelude.{
  last-injective, Bool, String, ℤ, pos, ◌+ℤ◌, ◌-ℤ◌, ◌≤ℤ◌, ◌<ℤ◌, true, false, Option, none, some,
  List, [], ◌∷◌, ◌++◌, eq_iff, ◌≡◌, ◌≢◌, refl, ap, sym, ◌∙◌, arith, Option-cases, inl, inr,
}
use microservices_go.Errors.{done, done-injective}
use microservices_go.Json.{Payload, field, num}
use microservices_go.Postgres.{Time}
use microservices_go.Outbox.{Event, Table, insert_outbox_event_tx}
use microservices_go.Billing.Domain.{
  Account, InsertTransactionParams, Transaction, TransactionType, Database, Env,
}
use microservices_go.Billing.Repository.{
  find_account, find_id, find_key, has_id, top_up_account_tx, withdraw_account_tx,
  insert_transaction_tx, get_account_by_user_id_tx,
}
use microservices_go.Billing.Bank.View.{pos_zero_add}
use microservices_go.Billing.Service.Balances.{
  find_account-set_balance_self, find_account-append_self,
}
use microservices_go.Billing.Running.{Tx, with_last, own, holds_key, key_lock}
use microservices_go.Billing.Concurrent.Rows.{find_account-user_id}

abbrev pub balance_of : Option Account → ℤ
balance_of none = pos 0
balance_of (some a) = a.balance

abbrev pub moved : TransactionType → ℤ → ℤ → ℤ
moved TransactionType.deposit x n = x +ℤ n
moved TransactionType.withdrawal x n = x -ℤ n

abbrev pub KeepsRow : Option Account → Account → Type 0
KeepsRow none row = Unit
KeepsRow (some a) row = row ≡ record a { balance = row.balance }

-- The row that a transaction has written is the one it has read, with the balance moved.
abbrev pub IsRow : TransactionType → String → ℤ → Option Account → Option Account → Type 0
IsRow kind user amount read none = Unit
IsRow kind user amount read (some row) =
    (row.user_id ≡ user) × (row.balance ≡ moved kind (balance_of read) amount) × KeepsRow read row

abbrev pub IsCovered : TransactionType → ℤ → Option Account → Type 0
IsCovered TransactionType.deposit amount read = Unit
IsCovered TransactionType.withdrawal amount read =
    (a : Account) × (read ≡ some a) × (amount ≤ℤ a.balance)

-- The row comes first, and the transaction is of its account and has a new key.
abbrev pub IsRecorded :
    TransactionType → ℤ → String → Option Account → Option Transaction → List Transaction → Type 0
IsRecorded kind amount key row none ts = Unit
IsRecorded kind amount key none (some t) ts = ⊥
IsRecorded kind amount key (some row) (some t) ts =
    (t.idempotency_key ≡ key)
    × (find_key key ts ≡ none)
    × (t.account_id ≡ row.id)
    × (t.type ≡ kind)
    × (t.amount ≡ amount)

-- A deposit announces its account and its amount, and a withdrawal nothing.
abbrev pub IsAnnounced : TransactionType → ℤ → Option Account → Option Event → Type 0
IsAnnounced kind amount row none = Unit
IsAnnounced TransactionType.withdrawal amount row (some e) = ⊥
IsAnnounced TransactionType.deposit amount none (some e) = ⊥
IsAnnounced TransactionType.deposit amount (some row) (some e) =
    (e.aggregate_id ≡ row.id) × (field "amount" e.payload ≡ some (num amount))

pub record TxOk (accounts : List Account) (transactions : List Transaction) (tx : Tx) : Type 0 where
  pub positive : pos 0 <ℤ tx.amount
  pub reads : find_account tx.user accounts ≡ tx.read
  pub covered : IsCovered tx.kind tx.amount tx.read
  pub written : IsRow tx.kind tx.user tx.amount tx.read tx.row
  pub recorded : IsRecorded tx.kind tx.amount tx.key tx.row tx.transaction transactions
  pub announced : IsAnnounced tx.kind tx.amount tx.row tx.event

module _ (env : Env) (user : String) (n : ℤ) (db : Database) where
  pub upserted :
      (id : String) (db' : Database) (row : Account)
      → top_up_account_tx env (record { user_id = user; amount = n }) db ≡ done (id, db')
      → find_account user db'.accounts ≡ some row
      → IsRow TransactionType.deposit user n (find_account user db.accounts) (some row)
  unfolding top_up_account_tx
  upserted id db' row h e = elim (Option-cases (find_account user db.accounts)) [
    | inl new ↦ ground (
      arith,
      pos_zero_add n,
      find_account-append_self db.accounts
          (record { id = env.uuid; user_id = user; balance = n; created_at = env.now }) new,
    )
    | inr (a, old) ↦ ground (
      arith,
      find_account-user_id user db.accounts a old,
      find_account-set_balance_self user (a.balance +ℤ n) db.accounts a old,
    )
  ]

  pub opened :
      (id : String) (db' : Database) (row : Account)
      → top_up_account_tx env (record { user_id = user; amount = n }) db ≡ done (id, db')
      → find_account user db'.accounts ≡ some row
      → find_account user db.accounts ≡ none
      → (row.id ≡ env.uuid) × (has_id env.uuid db.accounts ≡ false)
  unfolding top_up_account_tx
  opened id db' row h e new = ground (
    arith,
    find_account-append_self db.accounts
        (record { id = env.uuid; user_id = user; balance = n; created_at = env.now }) new,
  )

  pub debited :
      (a : Account) (db' : Database) (row : Account)
      → find_account user db.accounts ≡ some a
      → find_id a.id db.accounts ≡ some a
      → withdraw_account_tx env (record { amount = n; id = a.id }) db ≡ done db'
      → find_account user db'.accounts ≡ some row
      → IsRow TransactionType.withdrawal user n (some a) (some row)
  unfolding withdraw_account_tx
  debited a db' row found same h e = ground (
    arith,
    find_account-user_id user db.accounts a found,
    find_account-set_balance_self user (a.balance -ℤ n) db.accounts a found,
  )

pub selected :
    (env : Env) (user : String) (db : Database) (a : Account)
    → get_account_by_user_id_tx env user db ≡ done a
    → find_account user db.accounts ≡ some a
unfolding get_account_by_user_id_tx
selected env user db a h = ground arith

insert_cases :
    (env : Env) (params : InsertTransactionParams) (db db' : Database)
    → insert_transaction_tx env params db ≡ done db'
    → (find_key params.idempotency_key db.transactions ≡ none)
      × ((t : Transaction) × (t.idempotency_key ≡ params.idempotency_key)
          × (t.account_id ≡ params.account_id)
          × (t.type ≡ params.type)
          × (t.amount ≡ params.amount)
          × (db'.transactions ≡ db.transactions ++ t ∷ []))
unfolding insert_transaction_tx
insert_cases env params db db' h =
    elim (Option-cases (find_key params.idempotency_key db.transactions)) [
      | inl fresh ↦ (
        fresh,
        (
          record {
            id = db.next_id;
            account_id = params.account_id;
            amount = params.amount;
            type = params.type;
            idempotency_key = params.idempotency_key;
            created_at = env.now;
          },
          refl,
          refl,
          refl,
          refl,
          ground arith,
        ),
      )
      | inr (_, used) ↦ ground arith
    ]

-- InsertTransactionTx: the transaction has the key, which no committed one has.
pub inserted :
    (tx : Tx) (row : Account) (db db' : Database) (t : Transaction)
    → tx.row ≡ some row
    → tx.transaction ≡ none
    → insert_transaction_tx tx.env
        (record {
          account_id = row.id;
          amount = tx.amount;
          type = tx.kind;
          idempotency_key = tx.key;
        })
        (own tx db)
      ≡ done db'
    → db'.transactions ≡ db.transactions ++ t ∷ []
    → IsRecorded tx.kind tx.amount tx.key tx.row (some t) db.transactions
inserted tx row db db' t written new h e =
    let seen : with_last tx.transaction db.transactions ≡ db.transactions =
      ap (λ o. with_last o db.transactions) new in
    let (fresh, (u, key, account, type, amount, added)) = insert_cases tx.env _ (own tx db) db' h in
    let same : u ≡ t =
      last-injective db.transactions (ap (λ ts. ts ++ u ∷ []) (sym seen) ∙ sym added ∙ e) in
    rw (written, sym same) (key, ap (find_key tx.key) (sym seen) ∙ fresh, account, type, amount)

-- A commit of another user's row under another key.
pub other_row :
    (accounts accounts' : List Account) (ts ts' : List Transaction) (tx : Tx)
    → find_account tx.user accounts' ≡ find_account tx.user accounts
    → (holds_key tx.key tx ≢ 0 → find_key tx.key ts' ≡ find_key tx.key ts)
    → TxOk accounts ts tx
    → TxOk accounts' ts' tx
other_row accounts accounts' ts ts' tx same_row same_key ok = record {
  positive = ok.positive;
  reads = same_row ∙ ok.reads;
  covered = ok.covered;
  written = ok.written;
  recorded = kept tx.row tx.transaction same_key ok.recorded;
  announced = ok.announced;
}
  where
    kept :
        (row : Option Account) (t : Option Transaction)
        → (key_lock t tx.key tx.key ≢ 0 → find_key tx.key ts' ≡ find_key tx.key ts)
        → IsRecorded tx.kind tx.amount tx.key row t ts
        → IsRecorded tx.kind tx.amount tx.key row t ts'
    kept row none h r = tt
    kept none (some t) h r = absurd r
    kept (some a) (some t) h (keyed, fresh, account, type, amount) =
        (keyed, h (λ z. ground (arith, eq_iff tx.key tx.key)) ∙ fresh, account, type, amount)

-- InsertOutboxEventTx.
pub told :
    (insert_fails : Bool) (now : Time) (kind : TransactionType) (amount : ℤ) (row : Account)
    (payload : Payload) (o o' : Table) (e : Event)
    → kind ≡ TransactionType.deposit
    → field "amount" payload ≡ some (num amount)
    → insert_outbox_event_tx insert_fails now "AccountToppedUp" row.id payload o ≡ done o'
    → o'.rows ≡ o.rows ++ e ∷ []
    → IsAnnounced kind amount (some row) (some e)
unfolding insert_outbox_event_tx
told true now kind amount row payload o o' e deposits has h added = cc
told false now kind amount row payload o o' e deposits has h added =
    let same = last-injective o.rows (ap (λ (t : Table). t.rows) (done-injective h) ∙ added) in
    rw (deposits, sym same) (refl, has)
