-- ===== src/Billing/Bank/View.antt =====
-- The tables of the billing service as a bank, and the handlers as its calls
-- (billing/services/billing.go, billing/grpc_handler.go).
use mathlib.Core.Option
use mathlib.Core.Path.{fun_ext, subst}
use microservices_go.Prelude.{
  String, ℤ, pos, ◌+ℤ◌, ◌-ℤ◌, ◌≤ℤ◌, ◌<ℤ◌, int_laws, ltb_ℤ, ◌≡◌, sym, ap, ◌∙◌, Bool, false, Option,
  none, some, List, [], ◌∷◌, ◌++◌, str_eq, eq_iff, is_some, Bool-cases, Option-cases, ◌⊎◌, inl, inr,
  arith,
}
use microservices_go.Billing.Domain.{
  Account, Transaction, Database, Env, DepositRequest, WithdrawRequest,
}
use microservices_go.Billing.Repository.{find_account, find_key, set_balance}
use microservices_go.Billing.Service
use microservices_go.Billing.Service.Effect.{
  deposit_known_user, deposit_new_user, withdraw_known_user, withdraw_unknown_user, topped_up,
  opened_with, withdrawn, new_account, deposit_row, withdrawal_row,
}
use microservices_go.Billing.Service.Balances.{
  find_account-set_balance_self, find_account-set_balance_ne, find_account-append_self,
  find_account-append_ne,
}
use microservices_go.Billing.Handler.{Request, handle_deposit, handle_withdraw}
use microservices_go.Billing.Ledger.{IsValid, HasUniqueIds}
use microservices_go.Billing.Ledger.Accounts.{find_account-find_id}
use microservices_go.Billing.Ledger.Preserved.{
  handle_deposit_passes, deposit_request, withdraw_request,
}
use microservices_go.Billing.Bank.{
  Bank, Call, deposit, withdraw, or_zero, put, mark, apply, Enabled,
}

abbrev pub view : Database → Bank
view db = record {
  balance = λ u. Option.map (λ (a : Account). a.balance) (find_account u db.accounts);
  used = λ k. is_some (find_key k db.transactions);
}

pub same_bank :
    {f g : String → Option ℤ} {u v : String → Bool}
    → ((s : String) → f s ≡ g s)
    → ((s : String) → u s ≡ v s)
    → ◌≡◌ {A = Bank} (record { balance = f; used = u }) (record { balance = g; used = v })
same_bank p q = λ i. record { balance = fun_ext p i; used = fun_ext q i }

pub used-append :
    (k : String) (ts : List Transaction) (t : Transaction)
    → is_some (find_key k (ts ++ t ∷ [])) ≡ mark t.idempotency_key (λ i. is_some (find_key i ts)) k
used-append k [] t = ground arith
used-append k (s ∷ ts) t = ground (arith, used-append k ts t)

balance-set_balance :
    (u v : String) (b : ℤ) (accounts : List Account) (a : Account)
    → HasUniqueIds accounts
    → find_account u accounts ≡ some a
    → Option.map (λ (c : Account). c.balance) (find_account v (set_balance a.id b accounts))
      ≡ put u b (λ w. Option.map (λ (c : Account). c.balance) (find_account w accounts)) v
balance-set_balance u v b accounts a ids found = elim (Bool-cases (str_eq u v)) [
  | inl same ↦
      ground (arith, (eq_iff u v).0 same, find_account-set_balance_self u b accounts a found)
  | inr other ↦
      ground (arith, eq_iff u v, eq_iff v u, find_account-set_balance_ne u v b accounts a ids found)
]

balance-append :
    (v : String) (accounts : List Account) (a : Account)
    → find_account a.user_id accounts ≡ none
    → Option.map (λ (c : Account). c.balance) (find_account v (accounts ++ a ∷ []))
      ≡ put a.user_id a.balance
          (λ w. Option.map (λ (c : Account). c.balance) (find_account w accounts))
          v
balance-append v accounts a new = elim (Bool-cases (str_eq a.user_id v)) [
  | inl same ↦ ground (arith, (eq_iff a.user_id v).0 same, find_account-append_self accounts a new)
  | inr other ↦
      ground (arith, eq_iff a.user_id v, eq_iff v a.user_id, find_account-append_ne v accounts a)
]

view-topped_up :
    (env : Env) (req : DepositRequest) (a : Account) (db : Database)
    → IsValid db
    → find_account req.user_id db.accounts ≡ some a
    → view (topped_up env req a db)
      ≡ apply (deposit req.user_id req.idempotency_key req.amount) (view db)
view-topped_up env req a db v found =
    let own : or_zero ((view db).balance req.user_id) ≡ a.balance = ground arith in
    same_bank
      (λ u.
        balance-set_balance req.user_id u (a.balance +ℤ req.amount) db.accounts a v.ids found
        ∙ ap (λ x. put req.user_id (x +ℤ req.amount) (view db).balance u) (sym own))
      (λ k. used-append k db.transactions (deposit_row env req a.id db))

pub pos_zero_add : (n : ℤ) → pos 0 +ℤ n ≡ n
pos_zero_add n = grind int_laws

view-opened_with :
    (env : Env) (req : DepositRequest) (db : Database)
    → find_account req.user_id db.accounts ≡ none
    → view (opened_with env req db)
      ≡ apply (deposit req.user_id req.idempotency_key req.amount) (view db)
view-opened_with env req db unknown =
    let own : or_zero ((view db).balance req.user_id) ≡ pos 0 = ground arith in
    same_bank
      (λ u.
        balance-append u db.accounts (new_account env req) unknown
        ∙ ap (λ x. put req.user_id x (view db).balance u)
            (sym (pos_zero_add req.amount) ∙ ap (λ x. x +ℤ req.amount) (sym own)))
      (λ k. used-append k db.transactions (deposit_row env req env.uuid db))

view-withdrawn :
    (env : Env) (req : WithdrawRequest) (a : Account) (db : Database)
    → IsValid db
    → find_account req.user_id db.accounts ≡ some a
    → view (withdrawn env req a a.balance db)
      ≡ apply (withdraw req.user_id req.idempotency_key req.amount) (view db)
view-withdrawn env req a db v found =
    let own : or_zero ((view db).balance req.user_id) ≡ a.balance = ground arith in
    same_bank
      (λ u.
        balance-set_balance req.user_id u (a.balance -ℤ req.amount) db.accounts a v.ids found
        ∙ ap (λ x. put req.user_id (x -ℤ req.amount) (view db).balance u) (sym own))
      (λ k. used-append k db.transactions (withdrawal_row env req a.id db))

pub unused_key :
    (k : String) (db : Database) → find_key k db.transactions ≡ none → (view db).used k ≡ false
unused_key k db h = ground arith

-- A call has no effect, or it was enabled and has the effect of the bank's call.
abbrev pub Follows : Call → Database → Database → Type 0
Follows c db db' = (db' ≡ db) ⊎ (Enabled c (view db) × (view db' ≡ apply c (view db)))

deposit-Follows :
    (env : Env) (req : DepositRequest) (db : Database)
    → pos 0 <ℤ req.amount
    → IsValid db
    → Follows (deposit req.user_id req.idempotency_key req.amount) db (Service.deposit env req db).1
deposit-Follows env req db positive v = elim (Option-cases (find_account req.user_id db.accounts)) [
  | inl unknown ↦ elim (deposit_new_user env req db unknown) [
    | inl same ↦ inl same
    | inr (e, fresh, _) ↦ inr (
      (unused_key req.idempotency_key db fresh, positive),
      ap view e ∙ view-opened_with env req db unknown,
    )
  ]
  | inr (a, found) ↦ elim (deposit_known_user env req db a found) [
    | inl same ↦ inl same
    | inr (e, fresh) ↦ inr (
      (unused_key req.idempotency_key db fresh, positive),
      ap view e ∙ view-topped_up env req a db v found,
    )
  ]
]

pub not_below : (x y : ℤ) → ltb_ℤ x y ≡ false → y ≤ℤ x
not_below x y h = ground arith

withdraw-Follows :
    (env : Env) (req : WithdrawRequest) (db : Database)
    → pos 0 <ℤ req.amount
    → IsValid db
    → Follows
        (withdraw req.user_id req.idempotency_key req.amount)
        db
        (Service.withdraw env req db).1
withdraw-Follows env req db positive v =
    elim (Option-cases (find_account req.user_id db.accounts)) [
      | inl unknown ↦ inl (withdraw_unknown_user env req db unknown)
      | inr (a, found) ↦
          elim (withdraw_known_user env req db a a found
            (find_account-find_id req.user_id db.accounts a v.ids found)) [
              | inl same ↦ inl same
              | inr (e, fresh, enough) ↦ inr (
                (
                  unused_key req.idempotency_key db fresh,
                  positive,
                  (
                    a.balance,
                    ap (Option.map (λ (c : Account). c.balance)) found,
                    not_below a.balance req.amount enough,
                  ),
                ),
                ap view e ∙ view-withdrawn env req a db v found,
              )
            ]
    ]

handle_withdraw_cases :
    (env : Env) (u : String) (req : Request) (db : Database)
    → ((handle_withdraw env (some u) req db).1 ≡ db)
      ⊎ ((pos 0 <ℤ req.amount)
          × ((handle_withdraw env (some u) req db).1
              ≡ (Service.withdraw env (withdraw_request u req) db).1))
unfolding handle_withdraw
handle_withdraw_cases env u req db = ground arith

pub handle_deposit-Follows :
    (env : Env) (u : String) (req : Request) (db : Database)
    → IsValid db
    → Follows (deposit u req.idempotency_key req.amount) db (handle_deposit env (some u) req db).1
handle_deposit-Follows env u req db v = elim (handle_deposit_passes env u req db) [
  | inl same ↦ inl same
  | inr (positive, e) ↦
      subst (Follows (deposit u req.idempotency_key req.amount) db) (sym e)
        (deposit-Follows env (deposit_request u req) db positive v)
]

pub handle_withdraw-Follows :
    (env : Env) (u : String) (req : Request) (db : Database)
    → IsValid db
    → Follows (withdraw u req.idempotency_key req.amount) db (handle_withdraw env (some u) req db).1
handle_withdraw-Follows env u req db v = elim (handle_withdraw_cases env u req db) [
  | inl same ↦ inl same
  | inr (positive, e) ↦
      subst (Follows (withdraw u req.idempotency_key req.amount) db) (sym e)
        (withdraw-Follows env (withdraw_request u req) db positive v)
]
