-- ===== src/Errors.antt =====
-- Go's error values as the services build and test them: package-level values made by
-- `errors.New`, `fmt.Errorf` with and without `%w`, PostgreSQL errors and gRPC status errors
-- (billing/repository/billing.go, billing/services/billing.go, auth/repository/auth.go,
-- auth/grpc_handler.go, notification/internal/repository/notification.go,
-- notification/internal/worker/broker.go). An error's text is kept where a client sees it.
use microservices_go.Prelude.{
  ℕ, String, Bool, true, false, Option, none, some, ◌==◌, ◌≡◌, refl, ◌⊎◌, inl, inr,
}

-- The package-level error variables. Each call of `errors.New` makes a value of its own, so the
-- two `ErrAccountNotFound` of billing are different, and so are two `ErrUserAlreadyExists` of auth.
pub data Sentinel : Type 0 where
  idempotency_conflict transaction_not_found account_not_found : Sentinel
  insufficient_funds service_account_not_found : Sentinel
  user_already_exists user_not_found token_not_found : Sentinel
  service_user_already_exists service_invalid_input : Sentinel
  duplicate_message fatal : Sentinel
  no_rows tx_closed : Sentinel
  open_state : Sentinel

abbrev tag : Sentinel → ℕ
tag idempotency_conflict = 0
tag transaction_not_found = 1
tag account_not_found = 2
tag insufficient_funds = 3
tag service_account_not_found = 4
tag user_already_exists = 5
tag user_not_found = 6
tag token_not_found = 7
tag service_user_already_exists = 8
tag service_invalid_input = 9
tag duplicate_message = 10
tag fatal = 11
tag no_rows = 12
tag tx_closed = 13
tag open_state = 14

-- The gRPC codes that the services name, and `unknown` for every other one.
pub data Code : Type 0 where
  ok invalid_argument not_found failed_precondition permission_denied unauthenticated : Code
  resource_exhausted already_exists unavailable deadline_exceeded unimplemented internal : Code
  unknown : Code

pub data GoError : Type 0 where
  sentinel : Sentinel → GoError
  message : String → GoError
  wrap : String → GoError → GoError
  pg : (code constraint : String) → GoError
  status : Code → String → GoError

-- `errors.Is(err, target)`: the chain of wrapped errors is searched.
abbrev pub is : GoError → Sentinel → Bool
is (sentinel s) target = tag s == tag target
is (wrap _ err) target = is err target
is _ target = false

-- `errors.As(err, &pgErr)`: the code and the constraint of the first PostgreSQL error.
abbrev pub as_pg : GoError → Option (String × String)
as_pg (pg code constraint) = some (code, constraint)
as_pg (wrap _ err) = as_pg err
as_pg _ = none

-- A result and an error, of which Go's callers read one.
pub data Result {ℓ} (A : Type ℓ) : Type ℓ where
  done : A → Result A
  fail : GoError → Result A

-- What a function leaves that may call log.Fatalf, which ends the process.
pub data Outcome (A : Type 0) : Type 0 where
  exits : Outcome A
  returns : Result A → Outcome A

abbrev pub is_done {ℓ} : {A : Type ℓ} → Result A → Bool
is_done (done _) = true
is_done (fail _) = false

pub done-injective {ℓ} : {A : Type ℓ} {a b : A} → done a ≡ done b → a ≡ b
done-injective h = cc

pub Result-cases {ℓ} :
    {A : Type ℓ} (r : Result A) → ((e : GoError) × (r ≡ fail e)) ⊎ ((a : A) × (r ≡ done a))
Result-cases (fail e) = inl (e, refl)
Result-cases (done a) = inr (a, refl)

-- if err != nil { return ..., err }
infixl 5 ◌>>=◌ ◌>>◌
abbrev pub ◌>>=◌ : {A B : Type 0} → Result A → (A → Result B) → Result B
done a >>= f = f a
fail e >>= f = fail e

abbrev pub ◌>>◌ : {B : Type 0} → Result (Unit {0}) → Result B → Result B
m >> k = m >>= λ _. k

-- if !ok { return ..., err }
abbrev pub require : Bool → GoError → Result (Unit {0})
require true e = done tt
require false e = fail e

pub >>=-eq-done :
    {A B : Type 0} (m : Result A) (f : A → Result B) {b : B}
    → (m >>= f) ≡ done b
    → (a : A) × (m ≡ done a) × (f a ≡ done b)
>>=-eq-done (done a) f h = (a, refl, h)
>>=-eq-done (fail e) f h = cc
