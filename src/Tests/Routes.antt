-- ===== src/Tests/Routes.antt =====
-- Examples for the routes of gateway/main.go: a deposit by HTTP, up to the billing service.
use microservices_go.Prelude.{
  String, pos, ◌+ℤ◌, ◌-ℤ◌, ◌<ℤ◌, ◌≤ℤ◌, true, Option, none, some, [], ◌∷◌, ◌≡◌, ◌⊎◌, refl, arith,
  eq_iff, List, codes,
}
use microservices_go.Errors.{message, fail}
use microservices_go.Billing.Repository.{find_account}
use microservices_go.Gateway.Response.{http_error, send_json, success, text}
use microservices_go.Gateway.Handlers.{AuthClient, BillingRequest}
use microservices_go.Gateway.Middleware.Request.{Request}
use microservices_go.Gateway.Middleware.Jwt.Accepts.{Passed}
use microservices_go.Gateway.Middleware.Limiter.Window.{
  Arrival, answers, answers_to, answers_within_limit,
}
use microservices_go.Gateway.Routes.{HttpRequest, Route, Gateway, handle, mux, global_handler}
use microservices_go.Gateway.Routes.Protected.{deposits, mux_protects}
use microservices_go.System.Http.Withdraw.{rpc_withdraw, withdraw_over_http}
use microservices_go.System.Http.{rpc_deposit, deposit_over_http}
use microservices_go.Tests.Billing.{clean, clean-IsClean, alice, books, books-IsValid}
use microservices_go.Tests.Gateway.{
  from_error, from_error-ReadsStatus, request, library, passed, bears, request_passes, redis,
  counters,
}

-- The second of two requests of an address that has one left, with a request of another between.
abbrev elsewhere : Request
elsewhere = record request { remote_addr = codes "10.0.0.2:4000" }

abbrev three : List Arrival
three = (redis, request) ∷ (redis, elsewhere) ∷ (redis, request) ∷ []

answers_within_limit_example :
    answers_to request.remote_addr three (answers 10 60 (λ r. http_error "next" 200) three counters)
    ≡ http_error "next" 200 ∷ http_error "Too may requests" 429 ∷ []
answers_within_limit_example =
    answers_within_limit 10 60 (λ r. http_error "next" 200) request.remote_addr three counters
      ((λ e. refl), ((λ e. refl), ((λ e. refl), tt)))

abbrev body : BillingRequest
body = record { amount = pos 30; idempotency_key = "k2" }

-- The id of the token's subject reads as that of alice.
abbrev parse_uuid : String → Option String
parse_uuid s = some "alice"

abbrev no_auth : AuthClient
no_auth = record {
  refresh = λ t. fail (message "not used");
  login = λ c. fail (message "not used");
  register = λ c. fail (message "not used");
  get_me = λ u. fail (message "not used");
}

abbrev gateway : Gateway
gateway = record {
  from_error = from_error;
  billing_cb = none;
  auth_cb = none;
  billing_client = λ md. record {
    deposit = λ q. (rpc_deposit parse_uuid clean md q books).0;
    withdraw = λ q. (rpc_withdraw parse_uuid clean md q books).0;
  };
  auth_client = λ md. no_auth;
  lib = library;
  public_key = [];
  unmatched = λ r. http_error "404 page not found" 404;
}

abbrev post_deposit : HttpRequest
post_deposit = record {
  method = "POST";
  path = "/deposit";
  base = request;
  refresh_body = none;
  credentials_body = none;
  deposit_body = some body;
  withdraw_body = none;
}

mux_protects_example :
    ((p : Request) × Passed library [] request p
      × (mux gateway post_deposit request ≡ handle gateway post_deposit Route.deposit p))
    ⊎ ((m : String) × (mux gateway post_deposit request ≡ http_error m 401))
mux_protects_example = mux_protects gateway post_deposit request Route.deposit deposits

deposit_over_http_example :
    let db' = (rpc_deposit parse_uuid clean passed.outgoing body books).1 in
    ((global_handler gateway redis post_deposit counters).0
      ≡ send_json 200 "success" (success true))
    × (find_account "alice" db'.accounts ≡ some (record alice { balance = pos 130 }))
    × (find_account "bob" db'.accounts ≡ find_account "bob" books.accounts)
unfolding ◌+ℤ◌
deposit_over_http_example =
    deposit_over_http gateway redis counters post_deposit passed parse_uuid clean books body
      "user-1" "alice" "bob" alice refl refl refl refl refl (omega arith) bears request_passes refl
      refl refl (omega arith) clean-IsClean books-IsValid refl refl refl
      (λ e. ground (arith, eq_iff "bob" "alice"))

-- A withdrawal of more than the balance.
abbrev large : BillingRequest
large = record { amount = pos 101; idempotency_key = "k2" }

abbrev post_withdraw : HttpRequest
post_withdraw = record post_deposit { path = "/withdraw"; withdraw_body = some large }

withdraw_over_http_example :
    let answer = (global_handler gateway redis post_withdraw counters).0 in
    let db' = (rpc_withdraw parse_uuid clean passed.outgoing large books).1 in
    ((pos 101 ≤ℤ pos 100)
      × (answer ≡ send_json 200 "success" (success true))
      × (find_account "alice" db'.accounts ≡ some (record alice { balance = pos 100 -ℤ pos 101 }))
      × (find_account "bob" db'.accounts ≡ find_account "bob" books.accounts))
    ⊎ ((pos 100 <ℤ pos 101)
        × (answer ≡ send_json 400 "error" (text "insufficient funds"))
        × (db' ≡ books))
withdraw_over_http_example =
    withdraw_over_http gateway redis counters post_withdraw passed parse_uuid clean books large
      "user-1" "alice" "bob" alice from_error-ReadsStatus refl refl refl refl refl (omega arith)
      bears request_passes refl refl refl (omega arith) clean-IsClean books-IsValid refl refl refl
      (λ e. ground (arith, eq_iff "bob" "alice"))
