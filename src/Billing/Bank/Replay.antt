-- ===== src/Billing/Bank/Replay.antt =====
-- One more call after others.
use microservices_go.Prelude.{
  ℕ, ◌+◌, ◌≤◌, String, str_eq, eq_iff, if◌then◌else◌, arith, List, [], ◌∷◌, ◌++◌, ◌≡◌, refl,
}
use microservices_go.Billing.Bank.{
  Bank, Call, deposit, withdraw, apply, Enabled, replay, AllEnabled,
}

pub replay-append :
    (cs : List Call) (c : Call) (b : Bank) → replay (cs ++ c ∷ []) b ≡ apply c (replay cs b)
unfolding replay
replay-append [] c b = refl
replay-append (d ∷ cs) c b = replay-append cs c (apply d b)

pub AllEnabled-append :
    (cs : List Call) (c : Call) (b : Bank)
    → AllEnabled cs b
    → Enabled c (replay cs b)
    → AllEnabled (cs ++ c ∷ []) b
unfolding replay
AllEnabled-append [] c b h e = (e, tt)
AllEnabled-append (d ∷ cs) c b h e = (h.0, AllEnabled-append cs c (apply d b) h.1 e)

abbrev pub key_of : Call → String
key_of (deposit u k n) = k
key_of (withdraw u k n) = k

-- How many calls have a key.
abbrev pub uses : String → List Call → ℕ
uses k [] = 0
uses k (c ∷ cs) = (if str_eq (key_of c) k then 1 else 0) + uses k cs

-- The calls that were enabled have different keys.
pub uses_once :
    (k : String) (cs : List Call) (b : Bank)
    → AllEnabled cs b
    → uses k cs ≤ (if b.used k then 0 else 1)
uses_once k [] b h = omega arith
uses_once k (deposit u j n ∷ cs) b h =
    ground (arith, uses_once k cs (apply (deposit u j n) b) h.1, h.0.0, eq_iff j k)
uses_once k (withdraw u j n ∷ cs) b h =
    ground (arith, uses_once k cs (apply (withdraw u j n) b) h.1, h.0.0, eq_iff j k)
