-- ===== src/Billing/Ledger/Preserved.antt =====
-- The calls of the billing service keep its books (billing/services/billing.go and
-- billing/grpc_handler.go).
use microservices_go.Prelude.{
  String, ℤ, pos, ◌+ℤ◌, ◌-ℤ◌, ◌≤ℤ◌, ◌<ℤ◌, ◌≡◌, refl, false, Option, none, some, arith, int_laws,
  ltb_ℤ, sym, ◌⊎◌, inl, inr, Option-cases,
}
use microservices_go.Billing.Domain.{Account, Database, Env, DepositRequest, WithdrawRequest}
use microservices_go.Billing.Repository.{find_account, find_key, has_id}
use microservices_go.Billing.Service.{deposit, withdraw}
use microservices_go.Billing.Service.Effect.{
  deposit_row, withdrawal_row, topped_up_event, new_account, topped_up, opened_with, withdrawn,
  deposit_known_user, deposit_new_user, withdraw_known_user, withdraw_unknown_user,
}
use microservices_go.Billing.Handler.{Request, handle_deposit, handle_withdraw}
use microservices_go.Billing.Ledger.{IsBalanced, IsValid}
use microservices_go.Billing.Ledger.Accounts.{
  find_account-All, find_account-find_id, announced-append,
}
use microservices_go.Billing.Ledger.Books.{moved-IsValid, opened-IsValid}
use mathlib.Core.List.{append-nil}

-- The balance of an account of valid books is not negative.
pub solvent_account :
    (db : Database) (u : String) (a : Account)
    → IsValid db
    → find_account u db.accounts ≡ some a
    → pos 0 ≤ℤ a.balance
solvent_account db u a v found =
    (find_account-All (IsBalanced db.transactions) u db.accounts a v.books found).solvent

topped_up-IsValid :
    (env : Env) (req : DepositRequest) (db : Database) (a : Account)
    → pos 0 <ℤ req.amount
    → IsValid db
    → find_account req.user_id db.accounts ≡ some a
    → find_key req.idempotency_key db.transactions ≡ none
    → IsValid (topped_up env req a db)
topped_up-IsValid env req db a positive v found fresh =
    moved-IsValid db a (deposit_row env req a.id db) _ _ req.user_id (a.balance +ℤ req.amount) v
      found refl refl (omega (int_laws, solvent_account db req.user_id a v found)) fresh
      (announced-append db.outbox.rows (topped_up_event env req a.id db))

opened_with-IsValid :
    (env : Env) (req : DepositRequest) (db : Database)
    → pos 0 <ℤ req.amount
    → IsValid db
    → find_account req.user_id db.accounts ≡ none
    → has_id env.uuid db.accounts ≡ false
    → find_key req.idempotency_key db.transactions ≡ none
    → IsValid (opened_with env req db)
opened_with-IsValid env req db positive v unknown unused fresh =
    opened-IsValid db (new_account env req) (deposit_row env req env.uuid db) _ _ v unknown unused
      refl refl (omega arith) fresh
      (announced-append db.outbox.rows (topped_up_event env req env.uuid db))

deposit-IsValid :
    (env : Env) (req : DepositRequest) (db : Database)
    → pos 0 <ℤ req.amount
    → IsValid db
    → IsValid (deposit env req db).1
deposit-IsValid env req db positive v = elim (Option-cases (find_account req.user_id db.accounts)) [
  | inl unknown ↦ elim (deposit_new_user env req db unknown) [
    | inl same ↦ rw same v
    | inr (e, fresh, unused) ↦ rw e (opened_with-IsValid env req db positive v unknown unused fresh)
  ]
  | inr (a, found) ↦ elim (deposit_known_user env req db a found) [
    | inl same ↦ rw same v
    | inr (e, fresh) ↦ rw e (topped_up-IsValid env req db a positive v found fresh)
  ]
]

withdrawn-IsValid :
    (env : Env) (req : WithdrawRequest) (db : Database) (a : Account)
    → IsValid db
    → find_account req.user_id db.accounts ≡ some a
    → find_key req.idempotency_key db.transactions ≡ none
    → ltb_ℤ a.balance req.amount ≡ false
    → IsValid (withdrawn env req a a.balance db)
withdrawn-IsValid env req db a v found fresh enough =
    moved-IsValid db a (withdrawal_row env req a.id db) _ _ req.user_id (a.balance -ℤ req.amount) v
      found refl (omega int_laws) (covered a.balance req.amount enough) fresh (sym (append-nil _))
  where
    covered : (x y : ℤ) → ltb_ℤ x y ≡ false → pos 0 ≤ℤ x -ℤ y
    covered x y h = grind int_laws

withdraw-IsValid :
    (env : Env) (req : WithdrawRequest) (db : Database)
    → IsValid db
    → IsValid (withdraw env req db).1
withdraw-IsValid env req db v = elim (Option-cases (find_account req.user_id db.accounts)) [
  | inl unknown ↦ rw (withdraw_unknown_user env req db unknown) v
  | inr (a, found) ↦
      elim (withdraw_known_user env req db a a found
        (find_account-find_id req.user_id db.accounts a v.ids found)) [
          | inl same ↦ rw same v
          | inr (e, fresh, enough) ↦ rw e (withdrawn-IsValid env req db a v found fresh enough)
        ]
]

abbrev pub deposit_request : String → Request → DepositRequest
deposit_request u req = record {
  user_id = u;
  amount = req.amount;
  idempotency_key = req.idempotency_key;
}

abbrev pub withdraw_request : String → Request → WithdrawRequest
withdraw_request u req = record {
  user_id = u;
  amount = req.amount;
  idempotency_key = req.idempotency_key;
}

pub handle_deposit_passes :
    (env : Env) (u : String) (req : Request) (db : Database)
    → ((handle_deposit env (some u) req db).1 ≡ db)
      ⊎ ((pos 0 <ℤ req.amount)
          × ((handle_deposit env (some u) req db).1 ≡ (deposit env (deposit_request u req) db).1))
unfolding handle_deposit
handle_deposit_passes env u req db = ground arith

pub handle_withdraw_passes :
    (env : Env) (u : String) (req : Request) (db : Database)
    → ((handle_withdraw env (some u) req db).1 ≡ db)
      ⊎ ((handle_withdraw env (some u) req db).1 ≡ (withdraw env (withdraw_request u req) db).1)
unfolding handle_withdraw
handle_withdraw_passes env u req db = ground arith

-- A call of `Deposit`, by any user, with any request and any failure on the way, keeps the books
-- valid: balances that are the sums of their transactions and not negative, unique users, ids and
-- keys, transactions of existing accounts, and an outbox row for each deposit in order.
pub handle_deposit-IsValid :
    (env : Env) (user : Option String) (req : Request) (db : Database)
    → IsValid db
    → IsValid (handle_deposit env user req db).1
unfolding handle_deposit
handle_deposit-IsValid env none req db v = v
handle_deposit-IsValid env (some u) req db v = elim (handle_deposit_passes env u req db) [
  | inl same ↦ rw same v
  | inr (positive, e) ↦ rw e (deposit-IsValid env (deposit_request u req) db positive v)
]

-- A call of `Withdraw`, by any user, with any request and any failure on the way, keeps the books
-- valid; so it never overdraws an account.
pub handle_withdraw-IsValid :
    (env : Env) (user : Option String) (req : Request) (db : Database)
    → IsValid db
    → IsValid (handle_withdraw env user req db).1
unfolding handle_withdraw
handle_withdraw-IsValid env none req db v = v
handle_withdraw-IsValid env (some u) req db v = elim (handle_withdraw_passes env u req db) [
  | inl same ↦ rw same v
  | inr e ↦ rw e (withdraw-IsValid env (withdraw_request u req) db v)
]
