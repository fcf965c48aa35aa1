-- ===== src/Tests/Gateway.antt =====
-- Examples for gateway/ and pkg/infrastructure/interceptors: one request with a token.
use microservices_go.Prelude.{
  ℕ, ◌+◌, ◌≤◌, ◌<◌, String, ℤ, pos, Bool, true, false, Option, none, some, List, [], ◌∷◌, ◌++◌,
  Bytes, codes, ltb, if◌then◌else◌, All, ◌≡◌, ◌≢◌, ◌↔◌, ◌⊎◌, refl, arith, eq_iff, bytes_eq_iff,
}
use microservices_go.Errors.{message, status, not_found, internal, Result, done, fail}
use microservices_go.Billing.Handler.{handle_withdraw}
use microservices_go.Gateway.Response.{FromError, handle_grpc_error}
use microservices_go.Gateway.Breaker.{is_successful}
use microservices_go.Gateway.Handlers.{BillingClient, BillingRequest, withdrawal_handler}
use microservices_go.Gateway.Replies.{ReadsStatus, is_successful_iff, missing_account_is_a_failure}
use microservices_go.Gateway.Middleware.Request.{Request}
use microservices_go.Gateway.Middleware.Jwt.{
  PublicKey, Claim, MapClaims, Token, SigningMethod, JwtLibrary, key_for, enrich, validate_token,
}
use microservices_go.Gateway.Middleware.Jwt.Accepts.{
  Passed, Bears, by_library, validate_token-Passed,
}
use microservices_go.Gateway.Middleware.Limiter.{Counters, RedisEnv, rate_key}
use microservices_go.Interceptor.{
  ServerContext, is_public, with_user, auth_interceptor, user_id_from_context,
}
use microservices_go.Interceptor.Identity.{identity_is_subject}
use microservices_go.Tests.Billing.{clean, books}

abbrev pub from_error : FromError
from_error (status c m) = some (c, m)
from_error _ = none

pub from_error-ReadsStatus : ReadsStatus from_error
from_error-ReadsStatus = record { reads = λ c m. refl }

is_successful_iff_example :
    (is_successful from_error (some (status not_found "user not found")) ≡ true)
    ↔ ((handle_grpc_error from_error (status not_found "user not found")).status_code < 429)
is_successful_iff_example =
    is_successful_iff from_error not_found "user not found" from_error-ReadsStatus

-- A client that reaches the billing service on behalf of a user without an account.
abbrev bobs_client : BillingClient
bobs_client = record {
  deposit = λ req. fail (message "not used");
  withdraw = λ req.
      (handle_withdraw clean (some "bob")
        (record { amount = req.amount; idempotency_key = req.idempotency_key }) books).0;
}

abbrev ten : BillingRequest
ten = record { amount = pos 10; idempotency_key = "k9" }

missing_account_is_a_failure_example :
    ((withdrawal_handler from_error none bobs_client (some ten)).status_code ≡ 500)
    × (bobs_client.withdraw ten ≡ fail (status internal "internal server error"))
    × (is_successful from_error (some (status internal "internal server error")) ≡ false)
missing_account_is_a_failure_example =
    missing_account_is_a_failure from_error bobs_client clean "bob" ten books from_error-ReadsStatus
      refl refl refl (omega arith) refl

-- A library that verifies one token, which is a refresh token.
abbrev claims : MapClaims
claims = record {
  token_type = Claim.text "refresh";
  sub = Claim.text "user-1";
  roles = Claim.items (some "user" ∷ none ∷ some "admin" ∷ []);
}

abbrev token : Token
token = record { method = SigningMethod.rsa; valid = true; claims = some claims }

abbrev pub library : JwtLibrary
library = record { parse = λ key t. some token; get_subject = λ c. some "user-1" }

abbrev pub request : Request
request = record {
  authorization = codes "Bearer" ++ (32 ∷ codes "abc");
  remote_addr = codes "10.0.0.1:4000";
  user_id = none;
  user_roles = none;
  outgoing = [];
}

abbrev pub passed : Request
passed = enrich request "user-1" ("user" ∷ "admin" ∷ [])

pub request_passes : validate_token library [] request ≡ done passed
unfolding validate_token microservices_go.Gateway.Middleware.Jwt.bearer_token
    microservices_go.Prelude.split_space
request_passes = refl

validate_token-Passed_example : Passed library [] request passed
validate_token-Passed_example = validate_token-Passed library [] request passed request_passes

pub bears : Bears library [] request "user-1"
bears = record {
  token_str = codes "abc";
  token = token;
  claims = claims;
  header = refl;
  word = ((λ e. omega arith), ((λ e. omega arith), ((λ e. omega arith), tt)));
  parsed = refl;
  valid = refl;
  mapped = refl;
  subject = by_library refl;
  named = λ e. ground (arith, eq_iff "user-1" "");
}

-- uuid.Parse, as far as the example needs it.
abbrev parse_uuid : String → Option String
parse_uuid s = some s

abbrev show_user : ServerContext → Result String
show_user ctx = user_id_from_context ctx

identity_is_subject_example :
    let ctx : ServerContext = record { metadata = some passed.outgoing; user_id = none } in
    (auth_interceptor parse_uuid "/auth.AuthService/GetMe" show_user ctx
      ≡ show_user (with_user ctx "user-1"))
    × (user_id_from_context (with_user ctx "user-1") ≡ done "user-1")
unfolding is_public
identity_is_subject_example =
    identity_is_subject library [] request passed "user-1" parse_uuid "/auth.AuthService/GetMe"
      "user-1" show_user bears request_passes refl refl refl

abbrev pub redis : RedisEnv
redis = record { incr_fails = false; expire_fails = false }

-- Nine requests of the address of `request` have been counted.
abbrev pub counters : Counters
counters = (rate_key (codes "10.0.0.1:4000"), 9, some 60) ∷ []
