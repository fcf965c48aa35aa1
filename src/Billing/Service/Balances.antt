-- ===== src/Billing/Service/Balances.antt =====
-- What a successful call of the billing service does to the balances
-- (billing/services/billing.go).
use microservices_go.Prelude.{
  String, ℤ, pos, ◌+ℤ◌, ◌-ℤ◌, ◌≤ℤ◌, ◌<ℤ◌, ◌≡◌, ◌≢◌, refl, true, false, none, some, List, [], ◌∷◌,
  ◌++◌, arith, in_int64, eq_iff,
}
use microservices_go.Errors.{done}
use microservices_go.Postgres.{committed}
use microservices_go.Outbox.{insert_outbox_event_tx}
use microservices_go.Billing.Domain.{Account, Database, Env, DepositRequest, WithdrawRequest}
use microservices_go.Billing.Repository.{
  find_account, find_id, has_id, set_balance, find_key, top_up_account_tx, insert_transaction_tx,
  get_account_by_user_id_tx, withdraw_account_tx,
}
use microservices_go.Billing.Service.{Reply, deposit, withdraw}
use microservices_go.Billing.Service.Effect.{
  deposit_row, withdrawal_row, topped_up_event, new_account, topped_up, opened_with, withdrawn,
}
use microservices_go.Billing.Ledger.{HasUniqueIds, IsValid}
use microservices_go.Billing.Ledger.Accounts.{find_account-has_id, find_account-find_id}

-- No statement fails, and the commit is acknowledged.
pub record IsClean (env : Env) : Type 0 where
  pub begins : env.begin_fails ≡ false
  pub account : env.account_fails ≡ false
  pub update : env.update_fails ≡ false
  pub insert : env.insert_fails ≡ false
  pub outbox : env.outbox_fails ≡ false
  pub rollback : env.rollback_fails ≡ false
  pub find : env.find_fails ≡ false
  pub commits : env.commit ≡ committed

set_balance_unknown :
    (i : String) (b : ℤ) (as' : List Account) → has_id i as' ≡ false → set_balance i b as' ≡ as'
set_balance_unknown i b [] h = refl
set_balance_unknown i b (a ∷ as') h = ground (arith, set_balance_unknown i b as')

pub find_account-set_balance_self :
    (u : String) (b : ℤ) (as' : List Account) (a : Account)
    → find_account u as' ≡ some a
    → find_account u (set_balance a.id b as') ≡ some (record a { balance = b })
find_account-set_balance_self u b [] a h = cc
find_account-set_balance_self u b (c ∷ as') a h =
    ground (arith, find_account-set_balance_self u b as' a, eq_iff c.id a.id)

pub find_account-set_balance_ne :
    (u v : String) (b : ℤ) (as' : List Account) (a : Account)
    → HasUniqueIds as'
    → find_account u as' ≡ some a
    → v ≢ u
    → find_account v (set_balance a.id b as') ≡ find_account v as'
find_account-set_balance_ne u v b [] a ids h ne = refl
find_account-set_balance_ne u v b (c ∷ as') a ids h ne = ground (
  arith,
  find_account-set_balance_ne u v b as' a ids.1,
  find_account-has_id u as' a,
  set_balance_unknown a.id b as',
  eq_iff c.id a.id,
  eq_iff c.user_id u,
  eq_iff c.user_id v,
)

pub find_account-append_self :
    (as' : List Account) (a : Account)
    → find_account a.user_id as' ≡ none
    → find_account a.user_id (as' ++ a ∷ []) ≡ some a
find_account-append_self [] a h = ground (arith, eq_iff a.user_id a.user_id)
find_account-append_self (c ∷ as') a h = ground (arith, find_account-append_self as' a)

pub find_account-append_ne :
    (v : String) (as' : List Account) (a : Account)
    → v ≢ a.user_id
    → find_account v (as' ++ a ∷ []) ≡ find_account v as'
find_account-append_ne v [] a ne = ground (arith, eq_iff a.user_id v)
find_account-append_ne v (c ∷ as') a ne = ground (arith, find_account-append_ne v as' a ne)

-- What a reply that has moved money to or from the user `u` shows: success, the new account of the
-- user, and every other user's account as it was.
pub record Moves (u : String) (a : Account) (db : Database) (r : Reply) : Type 0 where
  pub succeeds : r.0 ≡ done tt
  pub account : find_account u r.1.accounts ≡ some a
  pub others : (v : String) → v ≢ u → find_account v r.1.accounts ≡ find_account v db.accounts

module _ (env : Env) (req : DepositRequest) (db : Database) (clean : IsClean env) where
  deposit_known :
      (a : Account)
      → find_account req.user_id db.accounts ≡ some a
      → find_key req.idempotency_key db.transactions ≡ none
      → in_int64 (a.balance +ℤ req.amount) ≡ true
      → deposit env req db ≡ (done tt, topped_up env req a db)
  unfolding deposit top_up_account_tx insert_transaction_tx insert_outbox_event_tx
  deposit_known a found fresh fits = ground arith

  deposit_unknown :
      find_account req.user_id db.accounts ≡ none
      → has_id env.uuid db.accounts ≡ false
      → find_key req.idempotency_key db.transactions ≡ none
      → deposit env req db ≡ (done tt, opened_with env req db)
  unfolding deposit top_up_account_tx insert_transaction_tx insert_outbox_event_tx
  deposit_unknown unknown unused fresh = ground arith

  -- When no statement fails, a deposit with an unused key to an account of valid books whose new
  -- balance is a BIGINT succeeds: the balance grows by the amount, every other user's account
  -- stays, and the transaction and one pending outbox event are appended.
  pub deposit_credits :
      (a : Account)
      → IsValid db
      → find_account req.user_id db.accounts ≡ some a
      → find_key req.idempotency_key db.transactions ≡ none
      → in_int64 (a.balance +ℤ req.amount) ≡ true
      → let r = deposit env req db in
        Moves req.user_id (record a { balance = a.balance +ℤ req.amount }) db r
        × (r.1.transactions ≡ db.transactions ++ deposit_row env req a.id db ∷ [])
        × (r.1.outbox.rows ≡ db.outbox.rows ++ topped_up_event env req a.id db ∷ [])
  deposit_credits a v found fresh fits = rw (deposit_known a found fresh fits) (
    record {
      succeeds = refl;
      account = find_account-set_balance_self req.user_id _ db.accounts a found;
      others = λ w ne. find_account-set_balance_ne req.user_id w _ db.accounts a v.ids found ne;
    },
    refl,
    refl,
  )

  -- When no statement fails, the first deposit of a user, with an unused key and a generated id
  -- that is not taken, opens an account with the amount as its balance, leaves every other user's
  -- account, and appends the transaction and one pending outbox event.
  pub deposit_opens :
      find_account req.user_id db.accounts ≡ none
      → has_id env.uuid db.accounts ≡ false
      → find_key req.idempotency_key db.transactions ≡ none
      → let r = deposit env req db in
        Moves req.user_id (new_account env req) db r
        × (r.1.transactions ≡ db.transactions ++ deposit_row env req env.uuid db ∷ [])
        × (r.1.outbox.rows ≡ db.outbox.rows ++ topped_up_event env req env.uuid db ∷ [])
  deposit_opens unknown unused fresh = rw (deposit_unknown unknown unused fresh) (
    record {
      succeeds = refl;
      account = find_account-append_self db.accounts (new_account env req) unknown;
      others = λ w ne. find_account-append_ne w db.accounts (new_account env req) ne;
    },
    refl,
    refl,
  )

-- A covered withdrawal stays in the range of BIGINT.
pub covered_fits : (x y : ℤ) → in_int64 x ≡ true → pos 0 <ℤ y → y ≤ℤ x → in_int64 (x -ℤ y) ≡ true
unfolding ◌-ℤ◌
covered_fits x y h p c = ground arith

module _ (env : Env) (req : WithdrawRequest) (db : Database) (clean : IsClean env) where
  withdraw_covered :
      (a : Account)
      → find_account req.user_id db.accounts ≡ some a
      → find_id a.id db.accounts ≡ some a
      → find_key req.idempotency_key db.transactions ≡ none
      → req.amount ≤ℤ a.balance
      → in_int64 (a.balance -ℤ req.amount) ≡ true
      → withdraw env req db ≡ (done tt, withdrawn env req a a.balance db)
  unfolding withdraw get_account_by_user_id_tx withdraw_account_tx insert_transaction_tx
  withdraw_covered a found same fresh enough fits = ground arith

  -- When no statement fails, a withdrawal of a positive amount with an unused key from an account
  -- of valid books that covers it succeeds: the balance falls by the amount, every other user's
  -- account stays, the transaction is appended, and the outbox stays as it is.
  pub withdraw_debits :
      (a : Account)
      → IsValid db
      → find_account req.user_id db.accounts ≡ some a
      → find_key req.idempotency_key db.transactions ≡ none
      → in_int64 a.balance ≡ true
      → pos 0 <ℤ req.amount
      → req.amount ≤ℤ a.balance
      → let r = withdraw env req db in
        Moves req.user_id (record a { balance = a.balance -ℤ req.amount }) db r
        × (r.1.transactions ≡ db.transactions ++ withdrawal_row env req a.id db ∷ [])
        × (r.1.outbox ≡ db.outbox)
  withdraw_debits a v found fresh stored positive enough =
      rw
        (withdraw_covered a found (find_account-find_id req.user_id db.accounts a v.ids found) fresh
          enough (covered_fits a.balance req.amount stored positive enough))
        (
          record {
            succeeds = refl;
            account = find_account-set_balance_self req.user_id _ db.accounts a found;
            others =
                λ w ne. find_account-set_balance_ne req.user_id w _ db.accounts a v.ids found ne;
          },
          refl,
          refl,
        )
