-- ===== src/Billing/Bank.antt =====
-- What the billing service promises, without its tables: a bank of balances that each request key
-- moves at most once (billing/services/billing.go and billing/grpc_handler.go implement it).
pub mod View
pub mod Replay
use microservices_go.Prelude.{
  String, ℤ, pos, ◌+ℤ◌, ◌-ℤ◌, ◌≤ℤ◌, ◌<ℤ◌, ◌≡◌, Bool, true, false, Option, none, some, List, [], ◌∷◌,
  str_eq, if◌then◌else◌,
}

-- The balances of the users that have an account, and the keys that were used.
pub record Bank : Type 0 where
  pub balance : String → Option ℤ
  pub used : String → Bool

pub data Call : Type 0 where
  deposit : (user key : String) → ℤ → Call
  withdraw : (user key : String) → ℤ → Call

-- The bank before the first call.
abbrev pub nobody : Bank
nobody = record { balance = λ u. none; used = λ k. false }

abbrev pub or_zero : Option ℤ → ℤ
or_zero none = pos 0
or_zero (some x) = x

abbrev pub put : String → ℤ → (String → Option ℤ) → String → Option ℤ
put u x f v = if str_eq u v then some x else f v

abbrev pub mark : String → (String → Bool) → String → Bool
mark k f i = if str_eq k i then true else f i

-- What a call does when it works.
abbrev pub apply : Call → Bank → Bank
apply (deposit u k n) b = record {
  balance = put u (or_zero (b.balance u) +ℤ n) b.balance;
  used = mark k b.used;
}
apply (withdraw u k n) b = record {
  balance = put u (or_zero (b.balance u) -ℤ n) b.balance;
  used = mark k b.used;
}

-- When a call may work: its key is unused, its amount positive, and a withdrawal is covered by the
-- balance of an account.
abbrev pub Enabled : Call → Bank → Type 0
Enabled (deposit u k n) b = (b.used k ≡ false) × (pos 0 <ℤ n)
Enabled (withdraw u k n) b =
    (b.used k ≡ false) × (pos 0 <ℤ n) × ((x : ℤ) × (b.balance u ≡ some x) × (n ≤ℤ x))

unfoldable pub replay : List Call → Bank → Bank
replay [] b = b
replay (c ∷ cs) b = replay cs (apply c b)

abbrev pub AllEnabled : List Call → Bank → Type 0
AllEnabled [] b = Unit
AllEnabled (c ∷ cs) b = Enabled c b × AllEnabled cs (apply c b)

-- The calls that work, out of those that are made.
abbrev pub pick : List Bool → List Call → List Call
pick [] cs = []
pick (w ∷ ws) [] = []
pick (w ∷ ws) (c ∷ cs) = if w then c ∷ pick ws cs else pick ws cs
