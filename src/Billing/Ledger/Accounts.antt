-- ===== src/Billing/Ledger/Accounts.antt =====
-- How the tables of the billing service change under the updates of billing/repository/billing.go.
use microservices_go.Prelude.{
  String, ℤ, pos, ◌+ℤ◌, ◌≤ℤ◌, ◌≡◌, ◌≢◌, refl, true, false, none, some, List, [], ◌∷◌, ◌++◌, arith,
  eq_iff, All, ap,
}
use microservices_go.Outbox.{Event}
use microservices_go.Json.{field}
use microservices_go.Billing.Domain.{Account, Transaction}
use microservices_go.Billing.Repository.{find_account, find_id, has_id, set_balance, find_key}
use microservices_go.Billing.Ledger.{
  signed, net, net-append, IsBalanced, HasUniqueUsers, HasUniqueIds, HasUniqueKeys, deposits,
  announced,
}

pub find_account-All {ℓ} :
    (P : Account → Type ℓ) (u : String) (as' : List Account) (a : Account)
    → All P as'
    → find_account u as' ≡ some a
    → P a
find_account-All P u [] a h e = cc
find_account-All P u (b ∷ as') a h e = grind (arith, find_account-All P u as' a h.1)

pub find_account-has_id :
    (u : String) (as' : List Account) (a : Account)
    → find_account u as' ≡ some a
    → has_id a.id as' ≡ true
find_account-has_id u [] a e = cc
find_account-has_id u (b ∷ as') a e =
    ground (arith, find_account-has_id u as' a, eq_iff b.id a.id, eq_iff b.user_id u)

-- With unique ids the primary key of a found account leads back to it.
pub find_account-find_id :
    (u : String) (as' : List Account) (a : Account)
    → HasUniqueIds as'
    → find_account u as' ≡ some a
    → find_id a.id as' ≡ some a
find_account-find_id u [] a h e = cc
find_account-find_id u (b ∷ as') a h e =
    ground (arith, find_account-find_id u as' a h.1, find_account-has_id u as' a, eq_iff b.id a.id)

-- A balance that is set.

pub has_id-set_balance :
    (k i : String) (b : ℤ) (as' : List Account) → has_id k (set_balance i b as') ≡ has_id k as'
has_id-set_balance k i b [] = refl
has_id-set_balance k i b (a ∷ as') = ground (arith, has_id-set_balance k i b as')

find_account-set_balance-none :
    (u i : String) (b : ℤ) (as' : List Account)
    → find_account u as' ≡ none
    → find_account u (set_balance i b as') ≡ none
find_account-set_balance-none u i b [] h = refl
find_account-set_balance-none u i b (a ∷ as') h =
    ground (arith, find_account-set_balance-none u i b as')

pub set_balance-HasUniqueUsers :
    (i : String) (b : ℤ) (as' : List Account)
    → HasUniqueUsers as'
    → HasUniqueUsers (set_balance i b as')
set_balance-HasUniqueUsers i b [] h = tt
set_balance-HasUniqueUsers i b (a ∷ as') h = ground (
  arith,
  find_account-set_balance-none a.user_id i b as' h.0,
  set_balance-HasUniqueUsers i b as' h.1,
)

pub set_balance-HasUniqueIds :
    (i : String) (b : ℤ) (as' : List Account)
    → HasUniqueIds as'
    → HasUniqueIds (set_balance i b as')
set_balance-HasUniqueIds i b [] h = tt
set_balance-HasUniqueIds i b (a ∷ as') h =
    ground (arith, has_id-set_balance a.id i b as', set_balance-HasUniqueIds i b as' h.1)

-- A transaction of the account `i` and the balance that it leads to.
pub set_balance-IsBalanced :
    (i : String) (b : ℤ) (ts : List Transaction) (t : Transaction) (as' : List Account)
    → t.account_id ≡ i
    → b ≡ net i ts +ℤ signed t
    → pos 0 ≤ℤ b
    → All (IsBalanced ts) as'
    → All (IsBalanced (ts ++ t ∷ [])) (set_balance i b as')
set_balance-IsBalanced i b ts t [] p q r h = tt
set_balance-IsBalanced i b ts t (a ∷ as') p q r h = ground (
  arith,
  net-append a.id ts t,
  net-append i ts t,
  eq_iff a.id i,
  eq_iff t.account_id a.id,
  eq_iff t.account_id i,
  h.0,
  set_balance-IsBalanced i b ts t as' p q r h.1,
)

-- A new account.

pub has_id-append_some :
    (k : String) (as' bs : List Account) → has_id k as' ≡ true → has_id k (as' ++ bs) ≡ true
has_id-append_some k [] bs h = cc
has_id-append_some k (a ∷ as') bs h = ground (arith, has_id-append_some k as' bs)

pub has_id-append_last : (as' : List Account) (a : Account) → has_id a.id (as' ++ a ∷ []) ≡ true
has_id-append_last [] a = ground (arith, eq_iff a.id a.id)
has_id-append_last (b ∷ as') a = ground (arith, has_id-append_last as' a)

has_id-append_false :
    (k : String) (as' : List Account) (a : Account)
    → has_id k as' ≡ false
    → a.id ≢ k
    → has_id k (as' ++ a ∷ []) ≡ false
has_id-append_false k [] a h ne = ground (arith, eq_iff a.id k)
has_id-append_false k (b ∷ as') a h ne = ground (arith, has_id-append_false k as' a)

find_account-append_none :
    (u : String) (as' : List Account) (a : Account)
    → find_account u as' ≡ none
    → a.user_id ≢ u
    → find_account u (as' ++ a ∷ []) ≡ none
find_account-append_none u [] a h ne = ground (arith, eq_iff a.user_id u)
find_account-append_none u (b ∷ as') a h ne = ground (arith, find_account-append_none u as' a)

pub append-HasUniqueUsers :
    (as' : List Account) (a : Account)
    → find_account a.user_id as' ≡ none
    → HasUniqueUsers as'
    → HasUniqueUsers (as' ++ a ∷ [])
append-HasUniqueUsers [] a e h = (refl, tt)
append-HasUniqueUsers (b ∷ as') a e h = ground (
  arith,
  eq_iff b.user_id a.user_id,
  find_account-append_none b.user_id as' a h.0,
  append-HasUniqueUsers as' a,
)

pub append-HasUniqueIds :
    (as' : List Account) (a : Account)
    → has_id a.id as' ≡ false
    → HasUniqueIds as'
    → HasUniqueIds (as' ++ a ∷ [])
append-HasUniqueIds [] a e h = (refl, tt)
append-HasUniqueIds (b ∷ as') a e h =
    ground (arith, eq_iff b.id a.id, has_id-append_false b.id as' a h.0, append-HasUniqueIds as' a)

-- No transaction belongs to an account that does not exist.
pub net_unknown :
    (i : String) (as' : List Account) (ts : List Transaction)
    → has_id i as' ≡ false
    → All (λ t. has_id t.account_id as' ≡ true) ts
    → net i ts ≡ pos 0
net_unknown i as' [] e h = refl
net_unknown i as' (t ∷ ts) e h = ground (arith, eq_iff t.account_id i, net_unknown i as' ts e h.1)

pub append-IsBalanced :
    (ts : List Transaction) (t : Transaction) (as' : List Account)
    → has_id t.account_id as' ≡ false
    → All (IsBalanced ts) as'
    → All (IsBalanced (ts ++ t ∷ [])) as'
append-IsBalanced ts t [] e h = tt
append-IsBalanced ts t (a ∷ as') e h = ground (
  arith,
  net-append a.id ts t,
  eq_iff t.account_id a.id,
  eq_iff a.id t.account_id,
  h.0,
  append-IsBalanced ts t as',
)

-- A new transaction.

find_key-append_none :
    (k : String) (ts : List Transaction) (t : Transaction)
    → find_key k ts ≡ none
    → t.idempotency_key ≢ k
    → find_key k (ts ++ t ∷ []) ≡ none
find_key-append_none k [] t h ne = ground (arith, eq_iff t.idempotency_key k)
find_key-append_none k (u ∷ ts) t h ne = ground (arith, find_key-append_none k ts t)

pub append-HasUniqueKeys :
    (ts : List Transaction) (t : Transaction)
    → find_key t.idempotency_key ts ≡ none
    → HasUniqueKeys ts
    → HasUniqueKeys (ts ++ t ∷ [])
append-HasUniqueKeys [] t e h = (refl, tt)
append-HasUniqueKeys (u ∷ ts) t e h = ground (
  arith,
  eq_iff u.idempotency_key t.idempotency_key,
  find_key-append_none u.idempotency_key ts t h.0,
  append-HasUniqueKeys ts t,
)

pub deposits-append :
    (ts : List Transaction) (t : Transaction)
    → deposits (ts ++ t ∷ []) ≡ deposits ts ++ deposits (t ∷ [])
deposits-append [] t = refl
deposits-append (u ∷ ts) t = ground (arith, deposits-append ts t)

pub announced-append :
    (es : List Event) (e : Event) → announced (es ++ e ∷ []) ≡ announced es ++ announced (e ∷ [])
announced-append [] e = refl
announced-append (f ∷ es) e =
    ap (λ l. (f.aggregate_id, field "amount" f.payload) ∷ l) (announced-append es e)
