-- ===== src/System/Bounds.antt =====
-- That balances stay in the range of int64 (billing/repository/billing.go,
-- billing/services/billing.go).
use mathlib.Core.Path.{subst}
use microservices_go.Prelude.{
  String, ℤ, pos, ◌≤ℤ◌, ◌+ℤ◌, ◌-ℤ◌, in_int64, ◌≡◌, refl, sym, ap, ◌⊎◌, inl, inr, true, Option, none,
  some, List, [], ◌∷◌, ◌++◌, All, All-append, arith, str_eq, Option-cases, Bool-cases,
}
use microservices_go.Outbox.Worker.{EventPublisher}
use microservices_go.Outbox.{insert_outbox_event_tx}
use microservices_go.Billing.Domain.{
  Account, Transaction, Database, Env, DepositRequest, WithdrawRequest,
}
use microservices_go.Billing.Ledger.{IsBalanced}
use microservices_go.System.Delivery.{run_from_empty}
use microservices_go.Billing.Repository.{
  find_account, find_id, set_balance, top_up_account_tx, insert_transaction_tx,
  get_account_by_user_id_tx, withdraw_account_tx,
}
use microservices_go.Billing.Service.{deposit, withdraw}
use microservices_go.Billing.Handler.{Request, handle_deposit, handle_withdraw}
use microservices_go.Billing.Ledger.Preserved.{
  handle_deposit_passes, handle_withdraw_passes, deposit_request, withdraw_request,
}
use microservices_go.System.{Step, deposits, withdraws, batches, State, empty, step, run}

abbrev pub Fits : Account → Type 0
Fits a = in_int64 a.balance ≡ true

set_balance-Fits :
    (i : String) (b : ℤ) (accounts : List Account)
    → in_int64 b ≡ true
    → All Fits accounts
    → All Fits (set_balance i b accounts)
set_balance-Fits i b [] h all = tt
set_balance-Fits i b (a ∷ accounts) h all = elim (Bool-cases (str_eq a.id i)) [
  | inl own ↦ rw own (h, set_balance-Fits i b accounts h all.1)
  | inr other ↦ rw other (all.0, set_balance-Fits i b accounts h all.1)
]

-- The accounts after a call: those of before, those with one balance set to a fitting value, or
-- those of before and one with a fitting balance.
data Kept (before after : List Account) : Type 0 where
  same : after ≡ before → Kept before after
  changed :
      (i : String) (b : ℤ) → in_int64 b ≡ true → after ≡ set_balance i b before → Kept before after
  opened : (a : Account) → in_int64 a.balance ≡ true → after ≡ before ++ a ∷ [] → Kept before after

Kept-Fits : (before after : List Account) → Kept before after → All Fits before → All Fits after
Kept-Fits before after (same e) all = subst (All Fits) (sym e) all
Kept-Fits before after (changed i b h e) all =
    subst (All Fits) (sym e) (set_balance-Fits i b before h all)
Kept-Fits before after (opened a h e) all =
    subst (All Fits) (sym e) (All-append Fits before (a ∷ []) all (h, tt))

module _ (env : Env) (req : DepositRequest) (db : Database) where
  topped_up_fits :
      (a : Account)
      → find_account req.user_id db.accounts ≡ some a
      → ((deposit env req db).1.accounts ≡ db.accounts)
        ⊎ ((in_int64 (a.balance +ℤ req.amount) ≡ true)
            × ((deposit env req db).1.accounts
                ≡ set_balance a.id (a.balance +ℤ req.amount) db.accounts))
  unfolding deposit top_up_account_tx insert_transaction_tx insert_outbox_event_tx
  topped_up_fits a found = ground arith

  opened_fits :
      find_account req.user_id db.accounts ≡ none
      → let row : Account = record {
        id = env.uuid;
        user_id = req.user_id;
        balance = req.amount;
        created_at = env.now;
      } in
        ((deposit env req db).1.accounts ≡ db.accounts)
        ⊎ ((deposit env req db).1.accounts ≡ db.accounts ++ row ∷ [])
  unfolding deposit top_up_account_tx insert_transaction_tx insert_outbox_event_tx
  opened_fits unknown = ground arith

  deposit-Kept : in_int64 req.amount ≡ true → Kept db.accounts (deposit env req db).1.accounts
  deposit-Kept small = elim (Option-cases (find_account req.user_id db.accounts)) [
    | inl unknown ↦ elim (opened_fits unknown) [ inl e ↦ same e | inr e ↦ opened _ small e ]
    | inr (a, found) ↦ elim (topped_up_fits a found) [
      | inl e ↦ same e
      | inr (h, e) ↦ changed a.id (a.balance +ℤ req.amount) h e
    ]
  ]

module _ (env : Env) (req : WithdrawRequest) (db : Database) where
  withdrawn_fits :
      (a b : Account)
      → find_account req.user_id db.accounts ≡ some a
      → find_id a.id db.accounts ≡ some b
      → ((withdraw env req db).1.accounts ≡ db.accounts)
        ⊎ ((in_int64 (b.balance -ℤ req.amount) ≡ true)
            × ((withdraw env req db).1.accounts
                ≡ set_balance a.id (b.balance -ℤ req.amount) db.accounts))
  unfolding withdraw get_account_by_user_id_tx withdraw_account_tx insert_transaction_tx
  withdrawn_fits a b found stored = ground arith

  missing_fits :
      (a : Account)
      → find_account req.user_id db.accounts ≡ some a
      → find_id a.id db.accounts ≡ none
      → (withdraw env req db).1.accounts ≡ db.accounts
  unfolding withdraw get_account_by_user_id_tx withdraw_account_tx insert_transaction_tx
  missing_fits a found gone = ground arith

  unknown_fits :
      find_account req.user_id db.accounts ≡ none → (withdraw env req db).1.accounts ≡ db.accounts
  unfolding withdraw get_account_by_user_id_tx
  unknown_fits unknown = ground arith

  withdraw-Kept : Kept db.accounts (withdraw env req db).1.accounts
  withdraw-Kept = elim (Option-cases (find_account req.user_id db.accounts)) [
    | inl unknown ↦ same (unknown_fits unknown)
    | inr (a, found) ↦ elim (Option-cases (find_id a.id db.accounts)) [
      | inl gone ↦ same (missing_fits a found gone)
      | inr (b, stored) ↦ elim (withdrawn_fits a b found stored) [
        | inl e ↦ same e
        | inr (h, e) ↦ changed a.id (b.balance -ℤ req.amount) h e
      ]
    ]
  ]

handle_deposit-Kept :
    (env : Env) (user : Option String) (req : Request) (db : Database)
    → in_int64 req.amount ≡ true
    → Kept db.accounts (handle_deposit env user req db).1.accounts
unfolding handle_deposit
handle_deposit-Kept env none req db small = same refl
handle_deposit-Kept env (some u) req db small = elim (handle_deposit_passes env u req db) [
  | inl e ↦ same (ap (λ d. d.accounts) e)
  | inr (_, e) ↦
      subst (λ d. Kept db.accounts d.accounts) (sym e)
        (deposit-Kept env (deposit_request u req) db small)
]

handle_withdraw-Kept :
    (env : Env) (user : Option String) (req : Request) (db : Database)
    → Kept db.accounts (handle_withdraw env user req db).1.accounts
unfolding handle_withdraw
handle_withdraw-Kept env none req db = same refl
handle_withdraw-Kept env (some u) req db = elim (handle_withdraw_passes env u req db) [
  | inl e ↦ same (ap (λ d. d.accounts) e)
  | inr e ↦
      subst (λ d. Kept db.accounts d.accounts) (sym e)
        (withdraw-Kept env (withdraw_request u req) db)
]

-- The amounts of the deposits are int64, as the type of the request has it.
abbrev pub AmountsFit : List Step → Type 0
AmountsFit [] = Unit
AmountsFit (deposits env user req ∷ rest) = (in_int64 req.amount ≡ true) × AmountsFit rest
AmountsFit (withdraws env user req ∷ rest) = AmountsFit rest
AmountsFit (batches env ∷ rest) = AmountsFit rest

module _ {M : Type 0} (p : EventPublisher M) where
  run-Fits :
      (steps : List Step) (s : State M)
      → AmountsFit steps
      → All Fits s.db.accounts
      → All Fits (run p steps s).db.accounts
  unfolding run
  run-Fits [] s small all = all
  run-Fits (deposits env user req ∷ rest) s small all =
      run-Fits rest (step p (deposits env user req) s) small.1
        (Kept-Fits s.db.accounts _ (handle_deposit-Kept env user req s.db small.0) all)
  run-Fits (withdraws env user req ∷ rest) s small all =
      run-Fits rest (step p (withdraws env user req) s) small
        (Kept-Fits s.db.accounts _ (handle_withdraw-Kept env user req s.db) all)
  run-Fits (batches env ∷ rest) s small all = run-Fits rest (step p (batches env) s) small all

  -- From the empty database, whatever calls and batches follow and whatever fails, every balance is
  -- at least 0 and in the range of int64, where the amounts of the deposits are int64.
  pub run_balances_fit :
      (steps : List Step)
      → AmountsFit steps
      → All
          (λ a. (pos 0 ≤ℤ a.balance) × (in_int64 a.balance ≡ true))
          (run p steps (record { db = empty; sent = [] })).db.accounts
  run_balances_fit steps small =
      let s : State M = run p steps (record { db = empty; sent = [] }) in
      let valid = (run_from_empty p steps).0 in
      both s.db.transactions s.db.accounts valid.books
        (run-Fits steps (record { db = empty; sent = [] }) small tt)
    where
      both :
          (ts : List Transaction) (accounts : List Account)
          → All (IsBalanced ts) accounts
          → All Fits accounts
          → All (λ a. (pos 0 ≤ℤ a.balance) × (in_int64 a.balance ≡ true)) accounts
      both ts [] v h = tt
      both ts (a ∷ accounts) v h = ((v.0.solvent, h.0), both ts accounts v.1 h.1)
