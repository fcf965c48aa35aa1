-- ===== src/Billing/Concurrent/Rows.antt =====
-- What the statements of one transaction make of the rows and of the locks
-- (billing/repository/billing.go).
use microservices_go.Prelude.{
  ℕ, ◌+◌, String, false, none, some, List, [], ◌∷◌, ◌++◌, str_eq, eq_iff, if◌then◌else◌, ◌≡◌, refl,
  arith,
}
use microservices_go.Billing.Domain.{Account, Transaction}
use microservices_go.Billing.Repository.{find_account, find_key, has_id, set_balance}
use microservices_go.Billing.Ledger.{HasUniqueIds}
use microservices_go.Billing.Ledger.Accounts.{find_account-has_id}
use microservices_go.Billing.Running.{Tx, install, total}

abbrev pub id_count : String → List Account → ℕ
id_count i [] = 0
id_count i (a ∷ as') = (if str_eq a.id i then 1 else 0) + id_count i as'

pub find_account-install :
    (row : Account) (v : String) (as' : List Account)
    → find_account v (install row as')
      ≡ (if str_eq row.user_id v then some row else find_account v as')
find_account-install row v [] = refl
find_account-install row v (a ∷ as') = ground (
  arith,
  find_account-install row v as',
  eq_iff a.user_id row.user_id,
  eq_iff a.user_id v,
  eq_iff row.user_id v,
)

-- An update keeps the ids, a new row adds its own.
pub id_count-install_old :
    (row : Account) (i : String) (as' : List Account) (a : Account)
    → find_account row.user_id as' ≡ some a
    → row.id ≡ a.id
    → id_count i (install row as') ≡ id_count i as'
id_count-install_old row i [] a h e = cc
id_count-install_old row i (b ∷ as') a h e = ground (arith, id_count-install_old row i as' a)

pub id_count-install_new :
    (row : Account) (i : String) (as' : List Account)
    → find_account row.user_id as' ≡ none
    → id_count i (install row as') ≡ (if str_eq row.id i then 1 else 0) + id_count i as'
id_count-install_new row i [] h = refl
id_count-install_new row i (b ∷ as') h = ground (arith, id_count-install_new row i as')

pub has_id-id_count : (i : String) (as' : List Account) → has_id i as' ≡ false → id_count i as' ≡ 0
has_id-id_count i [] h = refl
has_id-id_count i (a ∷ as') h = ground (arith, has_id-id_count i as')

pub find_account-user_id :
    (u : String) (as' : List Account) (a : Account) → find_account u as' ≡ some a → a.user_id ≡ u
find_account-user_id u [] a h = cc
find_account-user_id u (b ∷ as') a h =
    ground (arith, find_account-user_id u as' a, eq_iff b.user_id u)

pub find_key-append :
    (k : String) (ts : List Transaction) (t : Transaction)
    → str_eq t.idempotency_key k ≡ false
    → find_key k (ts ++ t ∷ []) ≡ find_key k ts
find_key-append k [] t h = ground arith
find_key-append k (u ∷ ts) t h = ground (arith, find_key-append k ts t)

-- One transaction among those that run.
pub total-split :
    (f : Tx → ℕ) (before after : List Tx) (tx : Tx)
    → total f (before ++ tx ∷ after) ≡ f tx + total f (before ++ after)
total-split f [] after tx = refl
total-split f (b ∷ before) after tx = omega (arith, total-split f before after tx)

-- With unique ids, the version of a row is put in its place as by the statement itself.
install_other :
    (row : Account) (accounts : List Account)
    → has_id row.id accounts ≡ false
    → set_balance row.id row.balance accounts ≡ accounts
install_other row [] h = refl
install_other row (a ∷ as') h = ground (arith, install_other row as')

pub install-set_balance :
    (row a : Account) (accounts : List Account)
    → HasUniqueIds accounts
    → find_account row.user_id accounts ≡ some a
    → row ≡ record a { balance = row.balance }
    → install row accounts ≡ set_balance a.id row.balance accounts
install-set_balance row a [] h found same = cc
install-set_balance row a (b ∷ as') h found same = ground (
  arith,
  install-set_balance row a as' h.1,
  install_other row as',
  find_account-has_id row.user_id as' a,
  eq_iff b.id a.id,
)

pub install-append :
    (row : Account) (accounts : List Account)
    → find_account row.user_id accounts ≡ none
    → install row accounts ≡ accounts ++ row ∷ []
install-append row [] h = refl
install-append row (a ∷ as') h = ground (arith, install-append row as')

pub id_count-has_id : (i : String) (as' : List Account) → id_count i as' ≡ 0 → has_id i as' ≡ false
id_count-has_id i [] h = refl
id_count-has_id i (a ∷ as') h = ground (arith, id_count-has_id i as')
