-- ===== src/Billing/Concurrent/Written.antt =====
-- What a statement that succeeds has written (billing/repository/billing.go, pkg/outbox/pg_repo.go).
use microservices_go.Prelude.{
  ◌+◌, String, ℤ, ◌+ℤ◌, ◌-ℤ◌, none, some, [], ◌∷◌, ◌++◌, ◌≡◌, ◌≢◌, refl, ap, ◌∙◌, arith, ◌⊎◌, inl,
  inr, Option-cases,
}
use microservices_go.Errors.{done}
use microservices_go.Json.{Payload}
use microservices_go.Postgres.{CommitOutcome, committed, rolled_back, ack_lost}
use microservices_go.Outbox.{Table, Event, pending, insert_outbox_event_tx}
use microservices_go.Billing.Domain.{Account, Transaction, Database, Env, InsertTransactionParams}
use microservices_go.Billing.Repository.{
  find_account, top_up_account_tx, insert_transaction_tx, withdraw_account_tx,
}
use microservices_go.Billing.Service.Balances.{
  find_account-set_balance_self, find_account-append_self,
}
use microservices_go.Billing.Ledger.{IsValid}
use microservices_go.Billing.Ledger.Accounts.{find_account-find_id}
use microservices_go.Billing.Running.{install}
use microservices_go.Billing.Concurrent.Rows.{
  install-set_balance, install-append, find_account-user_id,
}

pub rolled_back-cases : (c : CommitOutcome) → (c ≡ rolled_back) ⊎ (c ≢ rolled_back)
rolled_back-cases committed = inr (λ h. cc)
rolled_back-cases rolled_back = inl refl
rolled_back-cases ack_lost = inr (λ h. cc)

-- The upsert writes a version of one row, and leaves the other tables.
pub upserted_row :
    (env : Env) (user : String) (n : ℤ) (db db' : Database) (id : String)
    → IsValid db
    → top_up_account_tx env (record { user_id = user; amount = n }) db ≡ done (id, db')
    → (row : Account) × (find_account user db'.accounts ≡ some row)
      × (id ≡ row.id)
      × (db' ≡ record db { accounts = install row db.accounts })
unfolding top_up_account_tx
upserted_row env user n db db' id v h = elim (Option-cases (find_account user db.accounts)) [
  | inl new ↦
      let row : Account = record {
        id = env.uuid;
        user_id = user;
        balance = n;
        created_at = env.now;
      } in
      let put : install row db.accounts ≡ db.accounts ++ row ∷ [] =
        install-append row db.accounts new in
      let there = find_account-append_self db.accounts row new in
      (row, ground arith, ground arith, ground (arith, put))
  | inr (a, old) ↦
      let row = record a { balance = a.balance +ℤ n } in
      let owner = find_account-user_id user db.accounts a old in
      let put =
        install-set_balance row a db.accounts v.ids
          (ap (λ u. find_account u db.accounts) owner ∙ old) refl in
      let there = find_account-set_balance_self user (a.balance +ℤ n) db.accounts a old in
      (row, ground arith, ground arith, ground (arith, put))
]

pub debited_row :
    (env : Env) (user : String) (n : ℤ) (a : Account) (db db' : Database)
    → IsValid db
    → find_account user db.accounts ≡ some a
    → withdraw_account_tx env (record { amount = n; id = a.id }) db ≡ done db'
    → (row : Account) × (find_account user db'.accounts ≡ some row)
      × (row.id ≡ a.id)
      × (db' ≡ record db { accounts = install row db.accounts })
unfolding withdraw_account_tx
debited_row env user n a db db' v old h =
    let row = record a { balance = a.balance -ℤ n } in
    let owner = find_account-user_id user db.accounts a old in
    let same = find_account-find_id user db.accounts a v.ids old in
    let put =
      install-set_balance row a db.accounts v.ids (ap (λ u. find_account u db.accounts) owner ∙ old)
        refl in
    let there = find_account-set_balance_self user (a.balance -ℤ n) db.accounts a old in
    (row, ground arith, refl, ground (arith, put))

pub inserted_row :
    (env : Env) (params : InsertTransactionParams) (db db' : Database)
    → insert_transaction_tx env params db ≡ done db'
    → (t : Transaction) × (db'
        ≡ record db { transactions = db.transactions ++ t ∷ []; next_id = db.next_id + 1 })
unfolding insert_transaction_tx
inserted_row env params db db' h = (
  record {
    id = db.next_id;
    account_id = params.account_id;
    amount = params.amount;
    type = params.type;
    idempotency_key = params.idempotency_key;
    created_at = env.now;
  },
  ground arith,
)

pub told_row :
    (env : Env) (account_id : String) (payload : Payload) (o o' : Table)
    → insert_outbox_event_tx env.outbox_fails env.now "AccountToppedUp" account_id payload o
      ≡ done o'
    → (e : Event) × (o' ≡ record { rows = o.rows ++ e ∷ []; next_id = o.next_id + 1 })
unfolding insert_outbox_event_tx
told_row env account_id payload o o' h = (
  record {
    id = o.next_id;
    aggregate_type = "account";
    aggregate_id = account_id;
    event_type = "AccountToppedUp";
    payload = payload;
    status = pending;
    error_text = none;
    created_at = env.now;
    processed_at = none;
  },
  ground arith,
)
