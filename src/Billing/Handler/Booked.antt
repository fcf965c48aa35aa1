-- ===== src/Billing/Handler/Booked.antt =====
-- What a call that was answered with success has booked (billing/grpc_handler.go,
-- billing/services/billing.go).
use mathlib.Core.Path.{subst}
use microservices_go.Prelude.{
  String, ◌≢◌, true, is_some, Option, none, some, List, [], ◌∷◌, ◌++◌, ◌≡◌, refl, sym, ap, ◌∙◌, ◌⊎◌,
  inl, inr, arith, Option-cases, eq_iff,
}
use microservices_go.Errors.{done}
use microservices_go.Outbox.{insert_outbox_event_tx}
use microservices_go.Billing.Domain.{
  Account, Transaction, TransactionType, Database, Env, DepositRequest, WithdrawRequest,
}
use microservices_go.Billing.Repository.{
  find_account, find_id, find_key, top_up_account_tx, insert_transaction_tx,
  get_account_by_user_id_tx, withdraw_account_tx,
}
use microservices_go.Billing.Service.{deposit, withdraw}
use microservices_go.Billing.Service.Balances.{find_account-set_balance_self}
use microservices_go.Billing.Service.Effect.{
  deposit_row, withdrawal_row, new_account, deposit_known_user, deposit_new_user,
  withdraw_known_user, withdraw_unknown_user,
}
use microservices_go.Billing.Service.Idempotency.{
  IsRecorded, deposit_ok-IsRecorded, withdraw_ok-IsRecorded,
}
use microservices_go.Billing.Handler.{Request, handle_deposit, handle_withdraw}
use microservices_go.Billing.Ledger.Preserved.{
  handle_deposit_passes, handle_withdraw_passes, deposit_request, withdraw_request,
}

-- The transaction of the key.
abbrev pub IsStored : String → Transaction → Database → Type 0
IsStored k t db = find_key k db.transactions ≡ some t

find_key-append_first :
    (k : String) (ts us : List Transaction) (t : Transaction)
    → find_key k ts ≡ some t
    → find_key k (ts ++ us) ≡ some t
find_key-append_first k [] us t h = cc
find_key-append_first k (s ∷ ts) us t h = ground (arith, find_key-append_first k ts us t)

find_key-append_new :
    (ts : List Transaction) (t : Transaction)
    → find_key t.idempotency_key ts ≡ none
    → find_key t.idempotency_key (ts ++ t ∷ []) ≡ some t
find_key-append_new [] t h = ground (arith, eq_iff t.idempotency_key t.idempotency_key)
find_key-append_new (s ∷ ts) t h = ground (arith, find_key-append_new ts t)

find_account-append_new :
    (accounts : List Account) (a : Account)
    → find_account a.user_id accounts ≡ none
    → find_account a.user_id (accounts ++ a ∷ []) ≡ some a
find_account-append_new [] a h = ground (arith, eq_iff a.user_id a.user_id)
find_account-append_new (b ∷ accounts) a h = ground (arith, find_account-append_new accounts a)

find_account-present :
    (u : String) (accounts : List Account) (a : Account)
    → find_account u accounts ≡ some a
    → find_id a.id accounts ≢ none
find_account-present u [] a h gone = cc
find_account-present u (b ∷ accounts) a h gone =
    ground (arith, find_account-present u accounts a, eq_iff b.id a.id)

deposit_keeps :
    (env : Env) (req : DepositRequest) (db : Database) (k : String) (t : Transaction)
    → IsStored k t db
    → IsStored k t (deposit env req db).1
unfolding deposit top_up_account_tx insert_transaction_tx insert_outbox_event_tx
deposit_keeps env req db k t h = grind (arith, find_key-append_first)

withdraw_keeps :
    (env : Env) (req : WithdrawRequest) (db : Database) (k : String) (t : Transaction)
    → IsStored k t db
    → IsStored k t (withdraw env req db).1
unfolding withdraw get_account_by_user_id_tx withdraw_account_tx insert_transaction_tx
withdraw_keeps env req db k t h = grind (arith, find_key-append_first)

pub handle_deposit_keeps :
    (env : Env) (user : Option String) (req : Request) (db : Database) (k : String)
    (t : Transaction)
    → IsStored k t db
    → IsStored k t (handle_deposit env user req db).1
unfolding handle_deposit
handle_deposit_keeps env none req db k t h = h
handle_deposit_keeps env (some u) req db k t h = elim (handle_deposit_passes env u req db) [
  | inl same ↦ subst (IsStored k t) (sym same) h
  | inr (_, e) ↦ subst (IsStored k t) (sym e) (deposit_keeps env (deposit_request u req) db k t h)
]

pub handle_withdraw_keeps :
    (env : Env) (user : Option String) (req : Request) (db : Database) (k : String)
    (t : Transaction)
    → IsStored k t db
    → IsStored k t (handle_withdraw env user req db).1
unfolding handle_withdraw
handle_withdraw_keeps env none req db k t h = h
handle_withdraw_keeps env (some u) req db k t h = elim (handle_withdraw_passes env u req db) [
  | inl same ↦ subst (IsStored k t) (sym same) h
  | inr e ↦ subst (IsStored k t) (sym e) (withdraw_keeps env (withdraw_request u req) db k t h)
]

-- A transaction of the amount and the type on the account that the user has in the database.
abbrev pub IsBooked : String → Request → TransactionType → Database → Transaction → Type 0
IsBooked u req type db t =
    (t.amount ≡ req.amount)
    × (t.type ≡ type)
    × ((a : Account) × (find_account u db.accounts ≡ some a) × (t.account_id ≡ a.id))

-- What a call that succeeded has left: the transaction that the key had, or a new one of the call.
abbrev pub Leaves : String → Request → TransactionType → (before after : Database) → Type 0
Leaves u req type before after =
    (t : Transaction) × IsStored req.idempotency_key t after
    × (IsStored req.idempotency_key t before
        ⊎ ((find_key req.idempotency_key before.transactions ≡ none) × IsBooked u req type after t))

-- A database without the key in which the key is recorded is another one.
unrecorded :
    (k : String) (db db' : Database)
    → find_key k db.transactions ≡ none
    → IsRecorded k db'
    → db' ≢ db
unrecorded k db db' new recorded same =
    let there = ap (λ d. is_some (find_key k d.transactions)) (sym same) ∙ recorded in
    absurd (ground arith)

module _ (env : Env) (u : String) (req : Request) (db : Database) where
  deposit_books :
      (deposit env (deposit_request u req) db).0 ≡ done tt
      → find_key req.idempotency_key db.transactions ≡ none
      → Leaves u req TransactionType.deposit db (deposit env (deposit_request u req) db).1
  deposit_books ok new = elim (Option-cases (find_account u db.accounts)) [
    | inl unknown ↦ elim (deposit_new_user env (deposit_request u req) db unknown) [
      | inl same ↦ absurd (unrecorded req.idempotency_key db _ new recorded same)
      | inr (e, _, _) ↦
          let t = deposit_row env (deposit_request u req) env.uuid db in
          let a = new_account env (deposit_request u req) in
          (
            t,
            ap (λ d. find_key req.idempotency_key d.transactions) e
                ∙ find_key-append_new db.transactions t new,
            inr (
              new,
              (
                refl,
                refl,
                (
                  a,
                  ap (λ d. find_account u d.accounts) e
                      ∙ find_account-append_new db.accounts a unknown,
                  refl,
                ),
              ),
            ),
          )
    ]
    | inr (a, found) ↦ elim (deposit_known_user env (deposit_request u req) db a found) [
      | inl same ↦ absurd (unrecorded req.idempotency_key db _ new recorded same)
      | inr (e, _) ↦
          let t = deposit_row env (deposit_request u req) a.id db in
          (
            t,
            ap (λ d. find_key req.idempotency_key d.transactions) e
                ∙ find_key-append_new db.transactions t new,
            inr (
              new,
              (
                refl,
                refl,
                (
                  _,
                  ap (λ d. find_account u d.accounts) e
                      ∙ find_account-set_balance_self u _ db.accounts a found,
                  refl,
                ),
              ),
            ),
          )
    ]
  ]
    where
      recorded : IsRecorded req.idempotency_key (deposit env (deposit_request u req) db).1
      recorded = deposit_ok-IsRecorded env (deposit_request u req) db ok

  withdraw_books :
      (withdraw env (withdraw_request u req) db).0 ≡ done tt
      → find_key req.idempotency_key db.transactions ≡ none
      → Leaves u req TransactionType.withdrawal db (withdraw env (withdraw_request u req) db).1
  withdraw_books ok new = elim (Option-cases (find_account u db.accounts)) [
    | inl unknown ↦ absurd (
        unrecorded req.idempotency_key db _ new recorded
          (withdraw_unknown_user env (withdraw_request u req) db unknown))
    | inr (a, found) ↦ elim (Option-cases (find_id a.id db.accounts)) [
      | inl gone ↦ absurd (find_account-present u db.accounts a found gone)
      | inr (b, stored) ↦
          elim (withdraw_known_user env (withdraw_request u req) db a b found stored) [
            | inl same ↦ absurd (unrecorded req.idempotency_key db _ new recorded same)
            | inr (e, _, _) ↦
                let t = withdrawal_row env (withdraw_request u req) a.id db in
                (
                  t,
                  ap (λ d. find_key req.idempotency_key d.transactions) e
                      ∙ find_key-append_new db.transactions t new,
                  inr (
                    new,
                    (
                      refl,
                      refl,
                      (
                        _,
                        ap (λ d. find_account u d.accounts) e
                            ∙ find_account-set_balance_self u _ db.accounts a found,
                        refl,
                      ),
                    ),
                  ),
                )
          ]
    ]
  ]
    where
      recorded : IsRecorded req.idempotency_key (withdraw env (withdraw_request u req) db).1
      recorded = withdraw_ok-IsRecorded env (withdraw_request u req) db ok

  deposit_answer :
      (handle_deposit env (some u) req db).0 ≡ done true
      → ((deposit env (deposit_request u req) db).0 ≡ done tt)
        × ((handle_deposit env (some u) req db).1 ≡ (deposit env (deposit_request u req) db).1)
  unfolding handle_deposit
  deposit_answer h = ground arith

  withdraw_answer :
      (handle_withdraw env (some u) req db).0 ≡ done true
      → ((withdraw env (withdraw_request u req) db).0 ≡ done tt)
        × ((handle_withdraw env (some u) req db).1 ≡ (withdraw env (withdraw_request u req) db).1)
  unfolding handle_withdraw
  withdraw_answer h = ground arith

  pub handle_deposit_ok :
      (handle_deposit env (some u) req db).0 ≡ done true
      → Leaves u req TransactionType.deposit db (handle_deposit env (some u) req db).1
  handle_deposit_ok h = elim (Option-cases (find_key req.idempotency_key db.transactions)) [
    | inr (t, old) ↦
        (t, handle_deposit_keeps env (some u) req db req.idempotency_key t old, inl old)
    | inl new ↦
        let (ok, e) = deposit_answer h in
        subst (Leaves u req TransactionType.deposit db) (sym e) (deposit_books ok new)
  ]

  pub handle_withdraw_ok :
      (handle_withdraw env (some u) req db).0 ≡ done true
      → Leaves u req TransactionType.withdrawal db (handle_withdraw env (some u) req db).1
  handle_withdraw_ok h = elim (Option-cases (find_key req.idempotency_key db.transactions)) [
    | inr (t, old) ↦
        (t, handle_withdraw_keeps env (some u) req db req.idempotency_key t old, inl old)
    | inl new ↦
        let (ok, e) = withdraw_answer h in
        subst (Leaves u req TransactionType.withdrawal db) (sym e) (withdraw_books ok new)
  ]
