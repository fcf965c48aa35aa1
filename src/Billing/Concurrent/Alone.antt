-- ===== src/Billing/Concurrent/Alone.antt =====
-- A call with no other statement between its own is one call of the service
-- (billing/services/billing.go).
use mathlib.Core.Path.{subst}
use microservices_go.Prelude.{
  String, pos, leb_ℤ, ltb_ℤ, false, some, List, [], ◌∷◌, ◌++◌, ◌≡◌, ◌≢◌, refl, sym, ap, ◌∙◌, arith,
  ◌⊎◌, inl, inr, Bool-cases,
}
use microservices_go.Errors.{Result-cases, done}
use microservices_go.Postgres.{rolled_back}
use microservices_go.Outbox.{Table, insert_outbox_event_tx}
use microservices_go.Billing.Domain.{
  Account, TransactionType, Database, Env, DepositRequest, WithdrawRequest, InsertTransactionParams,
}
use microservices_go.Billing.Repository.{
  find_account, top_up_account_tx, insert_transaction_tx, get_account_by_user_id_tx,
  withdraw_account_tx,
}
use microservices_go.Billing.Service.{deposit, withdraw, deposit_payload}
use microservices_go.Billing.Bank.{Call}
use microservices_go.Billing.Running.{install, crediting, debiting}
use microservices_go.Billing.Concurrent.{
  State, upserts, selects, updates, records, announces, commits, Reach, later,
}
use microservices_go.Billing.Concurrent.Invariant.{selected}
use microservices_go.Billing.Concurrent.Written.{
  rolled_back-cases, upserted_row, debited_row, inserted_row, told_row,
}
use microservices_go.Billing.Concurrent.Serial.{concurrent_calls_refine_bank}

module _ (env : Env) (req : DepositRequest) (db : Database) (history : List Call) where
  abbrev deposit_entry : String → InsertTransactionParams
  deposit_entry account_id = record {
    account_id = account_id;
    amount = req.amount;
    type = TransactionType.deposit;
    idempotency_key = req.idempotency_key;
  }

  abbrev deposited : Database → State
  deposited db' = record {
    db = db';
    running = [];
    history = history ++ Call.deposit req.user_id req.idempotency_key req.amount ∷ [];
  }

  deposit_commits :
      (row : Account) (db' : Database) (o : Table)
      → Reach (record {
        db = db;
        running = crediting env req (find_account req.user_id db.accounts) row ∷ [];
        history = history;
      })
      → insert_transaction_tx env
          (deposit_entry row.id)
          (record db { accounts = install row db.accounts })
        ≡ done db'
      → insert_outbox_event_tx env.outbox_fails env.now "AccountToppedUp" row.id
          (deposit_payload env req)
          db.outbox
        ≡ done o
      → env.commit ≢ rolled_back
      → Reach (deposited (record db' { outbox = o }))
  deposit_commits row db' o r h2 h3 ne =
      let (t, e2) = inserted_row env _ _ db' h2 in
      let (e, e3) = told_row env row.id (deposit_payload env req) db.outbox o h3 in
      let tx0 = crediting env req (find_account req.user_id db.accounts) row in
      let tx1 = record tx0 { transaction = some t } in
      let r1 = later r (
        records [] [] tx0 row db' t refl refl refl refl h2
          (ap (λ (d : Database). d.transactions) e2)) in
      let r2 = later r1 (
        announces [] [] tx1 row t o e refl refl refl refl refl h3
          (ap (λ (u : Table). u.rows) e3)) in
      let r3 = later r2 (commits [] [] (record tx1 { event = some e }) t refl refl refl ne) in
      subst (λ d. Reach (deposited d)) (ground arith) r3

  deposit_inserts :
      (id : String) (db1 : Database)
      → leb_ℤ req.amount (pos 0) ≡ false
      → Reach (record { db = db; running = []; history = history })
      → env.begin_fails ≡ false
      → top_up_account_tx env (record { user_id = req.user_id; amount = req.amount }) db
        ≡ done (id, db1)
      → (db2 : Database) (o : Table) → insert_transaction_tx env (deposit_entry id) db1 ≡ done db2
      → insert_outbox_event_tx env.outbox_fails env.now "AccountToppedUp" id
          (deposit_payload env req)
          db2.outbox
        ≡ done o
      → env.commit ≢ rolled_back
      → Reach (deposited (record db2 { outbox = o }))
  deposit_inserts id db1 positive r begun h1 db2 o h2 h3 ne =
      let v = (concurrent_calls_refine_bank _ r).0 in
      let (row, found, same, e1) = upserted_row env req.user_id req.amount db db1 id v h1 in
      let (t, e2) = inserted_row env _ db1 db2 h2 in
      let kept : db2.outbox ≡ db.outbox = rw (e2, e1) refl in
      deposit_commits row db2 o
        (later r (upserts env req id db1 row begun positive refl refl h1 found))
        (subst
          (λ (x : String × Database). insert_transaction_tx env (deposit_entry x.0) x.1 ≡ done db2)
          (λ i. (same i, e1 i)) h2)
        (subst
          (λ (x : String × Table).
            insert_outbox_event_tx env.outbox_fails env.now "AccountToppedUp" x.0
              (deposit_payload env req) x.1
            ≡ done o)
          (λ i. (same i, kept i)) h3)
        ne

  -- A deposit of a positive amount, made where no transaction runs, leaves the database as it was,
  -- or its statements lead to the database that `deposit` returns and to one more committed call.
  pub deposit_alone :
      leb_ℤ req.amount (pos 0) ≡ false
      → Reach (record { db = db; running = []; history = history })
      → ((deposit env req db).1 ≡ db) ⊎ Reach (deposited (deposit env req db).1)
  unfolding deposit
  deposit_alone positive r = elim (Bool-cases env.begin_fails) [
    | inl fails ↦ inl (ground arith)
    | inr begun ↦
        elim (Result-cases
          (top_up_account_tx env (record { user_id = req.user_id; amount = req.amount }) db)) [
            | inl (e, h1) ↦ inl (ground arith)
            | inr ((id, db1), h1) ↦
                elim (Result-cases (insert_transaction_tx env (deposit_entry id) db1)) [
                  | inl (e, h2) ↦ inl (ground arith)
                  | inr (db2, h2) ↦
                      elim (Result-cases (
                        insert_outbox_event_tx env.outbox_fails env.now "AccountToppedUp" id
                          (deposit_payload env req) db2.outbox)) [
                            | inl (e, h3) ↦ inl (ground arith)
                            | inr (o, h3) ↦ elim (rolled_back-cases env.commit) [
                              | inl undone ↦ inl (ground arith)
                              | inr ne ↦ inr (
                                  subst (λ d. Reach (deposited d)) (ground arith)
                                    (deposit_inserts id db1 positive r begun h1 db2 o h2 h3 ne))
                            ]
                          ]
                ]
          ]
  ]

module _ (env : Env) (req : WithdrawRequest) (db : Database) (history : List Call) where
  abbrev withdrawal_entry : String → InsertTransactionParams
  withdrawal_entry account_id = record {
    account_id = account_id;
    amount = req.amount;
    type = TransactionType.withdrawal;
    idempotency_key = req.idempotency_key;
  }

  abbrev withdrawn : Database → State
  withdrawn db' = record {
    db = db';
    running = [];
    history = history ++ Call.withdraw req.user_id req.idempotency_key req.amount ∷ [];
  }

  withdraw_commits :
      (a : Account) (db1 db2 : Database)
      → leb_ℤ req.amount (pos 0) ≡ false
      → Reach (record { db = db; running = []; history = history })
      → env.begin_fails ≡ false
      → get_account_by_user_id_tx env req.user_id db ≡ done a
      → ltb_ℤ a.balance req.amount ≡ false
      → withdraw_account_tx env (record { amount = req.amount; id = a.id }) db ≡ done db1
      → insert_transaction_tx env (withdrawal_entry a.id) db1 ≡ done db2
      → env.commit ≢ rolled_back
      → Reach (withdrawn db2)
  withdraw_commits a db1 db2 positive r begun h enough h1 h2 ne =
      let v = (concurrent_calls_refine_bank _ r).0 in
      let (row, found, same, e1) =
        debited_row env req.user_id req.amount a db db1 v (selected env req.user_id db a h) h1 in
      let (t, e2) = inserted_row env _ db1 db2 h2 in
      let tx0 = debiting env req a in
      let tx1 = record tx0 { row = some row } in
      let r0 = later r (selects env req a begun positive refl h enough) in
      let r1 = later r0 (updates [] [] tx0 a db1 row refl refl refl refl h1 found) in
      let r2 = later r1 (
        records [] [] tx1 row db2 t refl refl refl refl
          (subst
            (λ (x : String × Database).
              insert_transaction_tx env (withdrawal_entry x.0) x.1 ≡ done db2)
            (λ i. (sym same i, e1 i)) h2)
          (ap (λ (d : Database). d.transactions) e2
            ∙ ap (λ (d : Database). d.transactions ++ t ∷ []) e1)) in
      let r3 = later r2 (commits [] [] (record tx1 { transaction = some t }) t refl refl refl ne) in
      subst (λ d. Reach (withdrawn d)) (ground arith) r3

  -- A withdrawal of a positive amount, made where no transaction runs, leaves the database as it
  -- was, or its statements lead to the database that `withdraw` returns and to one more committed
  -- call.
  pub withdraw_alone :
      leb_ℤ req.amount (pos 0) ≡ false
      → Reach (record { db = db; running = []; history = history })
      → ((withdraw env req db).1 ≡ db) ⊎ Reach (withdrawn (withdraw env req db).1)
  unfolding withdraw
  withdraw_alone positive r = elim (Bool-cases env.begin_fails) [
    | inl fails ↦ inl (ground arith)
    | inr begun ↦ elim (Result-cases (get_account_by_user_id_tx env req.user_id db)) [
      | inl (e, h) ↦ inl (ground arith)
      | inr (a, h) ↦ elim (Bool-cases (ltb_ℤ a.balance req.amount)) [
        | inl short ↦ inl (ground arith)
        | inr enough ↦
            elim (Result-cases
              (withdraw_account_tx env (record { amount = req.amount; id = a.id }) db)) [
                | inl (e, h1) ↦ inl (ground arith)
                | inr (db1, h1) ↦
                    elim (Result-cases (insert_transaction_tx env (withdrawal_entry a.id) db1)) [
                      | inl (e, h2) ↦ inl (ground arith)
                      | inr (db2, h2) ↦ elim (rolled_back-cases env.commit) [
                        | inl undone ↦ inl (ground arith)
                        | inr ne ↦ inr (
                            subst (λ d. Reach (withdrawn d)) (ground arith)
                              (withdraw_commits a db1 db2 positive r begun h enough h1 h2 ne))
                      ]
                    ]
              ]
      ]
    ]
  ]
