-- ===== src/System/Http.antt =====
-- A call of the billing service from the gateway's HTTP route on (gateway/main.go,
-- gateway/handlers/billing.go, billing/main.go, billing/grpc_handler.go).
pub mod Withdraw
use microservices_go.Prelude.{
  ◌<◌, String, pos, ◌+ℤ◌, ◌<ℤ◌, in_int64, ◌≡◌, ◌≢◌, refl, ap, ◌∙◌, true, false, Option, none, some,
  List, [], arith,
}
use microservices_go.Errors.{Result, done, fail}
use microservices_go.Billing.Domain.{Account, Database, Env}
use microservices_go.Billing.Repository.{find_account, find_key}
use microservices_go.Billing.Service.{deposit}
use microservices_go.Billing.Service.Balances.{IsClean, deposit_credits}
use microservices_go.Billing.Handler
use microservices_go.Billing.Handler.{Response, handle_deposit}
use microservices_go.Billing.Ledger.{IsValid}
use microservices_go.Billing.Ledger.Preserved.{deposit_request}
use microservices_go.Gateway.Response.{send_json, success}
use microservices_go.Gateway.Handlers.{BillingRequest, deposit_handler}
use microservices_go.Gateway.Middleware.Request.{Request}
use microservices_go.Gateway.Middleware.Jwt.{validate_token, auth_middleware}
use microservices_go.Gateway.Middleware.Jwt.Accepts.{Bears}
use microservices_go.Gateway.Middleware.Limiter.{
  RedisEnv, Counters, count_of, rate_key, limit_answer,
}
use microservices_go.Gateway.Routes.{
  is_protected, HttpRequest, Route, route_of, Gateway, handle, mux, global_handler,
}
use microservices_go.Gateway.Routes.Protected.{mux_guarded}
use microservices_go.Interceptor.{ServerContext, is_public, with_user, auth_interceptor}
use microservices_go.Interceptor.Identity.{identity_is_subject}

-- The context of an incoming call, with the metadata that the client has sent.
abbrev pub incoming : List (String × String) → ServerContext
incoming md = record { metadata = some md; user_id = none }

-- The interceptor runs the handler with the context that it has made.
abbrev pub intercepted : Result ServerContext → (ServerContext → Response) → Database → Response
intercepted (fail err) handler db = (fail err, db)
intercepted (done ctx) handler db = handler ctx

abbrev pub to_request : BillingRequest → Handler.Request
to_request q = record { amount = q.amount; idempotency_key = q.idempotency_key }

-- The method Deposit of the server that billing/main.go registers, behind AuthInterceptor.
unfoldable pub rpc_deposit :
    (String → Option String) → Env → List (String × String) → BillingRequest → Database → Response
rpc_deposit parse env md q db =
    intercepted
      (auth_interceptor parse "/billing.BillingService/Deposit" (λ ctx. done ctx) (incoming md))
      (λ ctx. handle_deposit env ctx.user_id (to_request q) db) db

handle_deposit_done :
    (env : Env) (u : String) (q : BillingRequest) (db : Database)
    → pos 0 <ℤ q.amount
    → (deposit env (deposit_request u (to_request q)) db).0 ≡ done tt
    → handle_deposit env (some u) (to_request q) db
      ≡ (done true, (deposit env (deposit_request u (to_request q)) db).1)
unfolding handle_deposit
handle_deposit_done env u q db positive ok = ground arith

rpc_deposit_identified :
    (parse : String → Option String) (env : Env) (md : List (String × String)) (q : BillingRequest)
    (db : Database) (uid : String)
    → auth_interceptor parse "/billing.BillingService/Deposit" (λ ctx. done ctx) (incoming md)
      ≡ done (with_user (incoming md) uid)
    → rpc_deposit parse env md q db ≡ handle_deposit env (some uid) (to_request q) db
unfolding rpc_deposit
rpc_deposit_identified parse env md q db uid e =
    ap (λ c. intercepted c (λ ctx. handle_deposit env ctx.user_id (to_request q) db) db) e

billing_is_guarded : is_public "/billing.BillingService/Deposit" ≡ false
unfolding is_public
billing_is_guarded = refl

deposit_path : route_of "POST" "/deposit" ≡ some Route.deposit
unfolding route_of
deposit_path = refl

-- A protected route for a request that the rate limiter admits and whose token is valid.
pub guarded_route :
    (g : Gateway) (renv : RedisEnv) (counters : Counters) (r : HttpRequest) (passed : Request)
    (route : Route)
    → route_of r.method r.path ≡ some route
    → is_protected g route ≡ true
    → renv.incr_fails ≡ false
    → count_of (rate_key r.base.remote_addr) counters < 50
    → validate_token g.lib g.public_key r.base ≡ done passed
    → (global_handler g renv r counters).0 ≡ handle g r route passed
unfolding global_handler auth_middleware
guarded_route g renv counters r passed route found guarded up below ok =
    limit_answer 50 60 (mux g r) renv r.base counters up
    ∙ ground (arith, below, mux_guarded g r r.base route found guarded, ok)

-- The route of a request with a method and a path.
pub found_route :
    (method path : String) (r : HttpRequest)
    → r.method ≡ method
    → r.path ≡ path
    → route_of r.method r.path ≡ route_of method path
found_route method path r m p = ap (λ x. route_of x r.path) m ∙ ap (route_of method) p

-- A deposit over HTTP: a request POST /deposit of a positive amount with a verified token whose
-- claims name a subject that is a UUID, within the rate limit, with the breaker closed and no
-- statement failing, on valid books with an account of that subject, an unused key and a sum that
-- is a BIGINT. The client of the gateway reaches the billing service. Then the answer is 200 and
-- success, the account of the subject that the token's claims name has the amount more, and every
-- other user's account is as it was.
pub deposit_over_http :
    (g : Gateway) (renv : RedisEnv) (counters : Counters) (r : HttpRequest) (passed : Request)
    (parse : String → Option String) (env : Env) (db : Database) (q : BillingRequest)
    (sub uid other : String) (a : Account)
    → r.method ≡ "POST"
    → r.path ≡ "/deposit"
    → r.deposit_body ≡ some q
    → r.base.outgoing ≡ []
    → renv.incr_fails ≡ false
    → count_of (rate_key r.base.remote_addr) counters < 50
    → Bears g.lib g.public_key r.base sub
    → validate_token g.lib g.public_key r.base ≡ done passed
    → parse sub ≡ some uid
    → g.billing_cb ≡ none
    → (g.billing_client passed.outgoing).deposit q ≡ (rpc_deposit parse env passed.outgoing q db).0
    → pos 0 <ℤ q.amount
    → IsClean env
    → IsValid db
    → find_account uid db.accounts ≡ some a
    → find_key q.idempotency_key db.transactions ≡ none
    → in_int64 (a.balance +ℤ q.amount) ≡ true
    → other ≢ uid
    → let db' = (rpc_deposit parse env passed.outgoing q db).1 in
      ((global_handler g renv r counters).0 ≡ send_json 200 "success" (success true))
      × (find_account uid db'.accounts ≡ some (record a { balance = a.balance +ℤ q.amount }))
      × (find_account other db'.accounts ≡ find_account other db.accounts)
unfolding deposit_handler
deposit_over_http g renv counters r passed parse env db q sub uid other a post path body unsent up
      below bears ok uuid closed serves positive clean v found fresh fits ne =
    let credited =
      (deposit_credits env (deposit_request uid (to_request q)) db clean a v found fresh fits).0 in
    let known =
      (identity_is_subject g.lib g.public_key r.base passed sub parse
        "/billing.BillingService/Deposit" uid (λ ctx. done ctx) bears ok unsent billing_is_guarded
        uuid).0 in
    let called : rpc_deposit parse env passed.outgoing q db
        ≡ (done true, (deposit env (deposit_request uid (to_request q)) db).1) =
      rpc_deposit_identified parse env passed.outgoing q db uid known
      ∙ handle_deposit_done env uid q db positive credited.succeeds in
    let replied : (g.billing_client passed.outgoing).deposit q ≡ done true =
      serves ∙ ap (λ x. x.0) called in
    (
      guarded_route g renv counters r passed Route.deposit
            (found_route "POST" "/deposit" r post path ∙ deposit_path) refl up below ok
          ∙ ground arith,
      ap (λ x. find_account uid x.1.accounts) called ∙ credited.account,
      ap (λ x. find_account other x.1.accounts) called ∙ credited.others other ne,
    )
