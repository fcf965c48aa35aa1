-- ===== src/Gateway/Breaker.antt =====
-- gateway/lib/breaker/breaker.go. The circuit breaker itself is gobreaker's: what it admits is an
-- argument, and what the gateway configures is modelled.
use microservices_go.Prelude.{ℕ, String, Bool, true, false, Option, none, some, leb}
use microservices_go.Errors.{
  GoError, Code, invalid_argument, not_found, failed_precondition, permission_denied,
  unauthenticated, already_exists, Result, fail,
}
use microservices_go.Gateway.Response.{FromError}

abbrev pub counts_as_success : Code → Bool
counts_as_success invalid_argument = true
counts_as_success not_found = true
counts_as_success already_exists = true
counts_as_success unauthenticated = true
counts_as_success permission_denied = true
counts_as_success failed_precondition = true
counts_as_success _ = false

-- Settings.IsSuccessful, on an error or nil.
unfoldable pub is_successful : FromError → Option GoError → Bool
is_successful from_error none = true
is_successful from_error (some err) = elim (from_error err) [
  | none ↦ false
  | some (c, _) ↦ counts_as_success c
]

-- Settings.ReadyToTrip, on the number of consecutive failures.
unfoldable pub ready_to_trip : ℕ → Bool
ready_to_trip consecutive_failures = leb 5 consecutive_failures

pub record Settings : Type 0 where
  pub name : String
  pub max_requests : ℕ
  pub interval : ℕ
  pub timeout_seconds : ℕ

unfoldable pub new_standard_circuit_breaker : String → Settings
new_standard_circuit_breaker name = record {
  name = name;
  max_requests = 1;
  interval = 0;
  timeout_seconds = 60;
}

-- What the breaker says to a call: `none` runs it, `some err` refuses it.
abbrev pub CircuitBreaker : Type 0
CircuitBreaker = Option GoError

abbrev pub execute {ℓ} : {A : Type ℓ} → CircuitBreaker → Result A → Result A
execute none call = call
execute (some err) call = fail err
