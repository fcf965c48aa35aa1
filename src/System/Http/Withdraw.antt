-- ===== src/System/Http/Withdraw.antt =====
-- A withdrawal from the gateway's HTTP route on (gateway/main.go, gateway/handlers/billing.go,
-- billing/main.go, billing/grpc_handler.go).
use microservices_go.Prelude.{
  ◌<◌, String, pos, ◌-ℤ◌, ◌<ℤ◌, ◌≤ℤ◌, leb_ℤ, in_int64, ◌≡◌, ◌≢◌, refl, ap, ◌∙◌, ◌⊎◌, inl, inr, true,
  false, Bool-cases, Option, none, some, List, [], arith,
}
use microservices_go.Errors.{done, fail, status, failed_precondition}
use microservices_go.Billing.Domain.{Account, Database, Env}
use microservices_go.Billing.Repository.{find_account, find_key, get_account_by_user_id_tx}
use microservices_go.Billing.Service.{withdraw}
use microservices_go.Billing.Service.Balances.{IsClean, withdraw_debits}
use microservices_go.Billing.Handler.{Response, handle_withdraw}
use microservices_go.Billing.Ledger.{IsValid}
use microservices_go.Billing.Ledger.Preserved.{withdraw_request}
use microservices_go.Gateway.Response.{text, send_json, success}
use microservices_go.Gateway.Replies.{ReadsStatus, handle_status}
use microservices_go.Gateway.Handlers.{BillingRequest, withdrawal_handler}
use microservices_go.Gateway.Middleware.Request.{Request}
use microservices_go.Gateway.Middleware.Jwt.{validate_token}
use microservices_go.Gateway.Middleware.Jwt.Accepts.{Bears}
use microservices_go.Gateway.Middleware.Limiter.{RedisEnv, Counters, count_of, rate_key}
use microservices_go.Gateway.Routes.{HttpRequest, Route, route_of, Gateway, global_handler}
use microservices_go.Interceptor.{is_public, with_user, auth_interceptor}
use microservices_go.Interceptor.Identity.{identity_is_subject}
use microservices_go.System.Http.{incoming, intercepted, to_request, guarded_route, found_route}

-- The method Withdraw of the server that billing/main.go registers, behind AuthInterceptor.
unfoldable pub rpc_withdraw :
    (String → Option String) → Env → List (String × String) → BillingRequest → Database → Response
rpc_withdraw parse env md q db =
    intercepted
      (auth_interceptor parse "/billing.BillingService/Withdraw" (λ ctx. done ctx) (incoming md))
      (λ ctx. handle_withdraw env ctx.user_id (to_request q) db) db

rpc_withdraw_identified :
    (parse : String → Option String) (env : Env) (md : List (String × String)) (q : BillingRequest)
    (db : Database) (uid : String)
    → auth_interceptor parse "/billing.BillingService/Withdraw" (λ ctx. done ctx) (incoming md)
      ≡ done (with_user (incoming md) uid)
    → rpc_withdraw parse env md q db ≡ handle_withdraw env (some uid) (to_request q) db
unfolding rpc_withdraw
rpc_withdraw_identified parse env md q db uid e =
    ap (λ c. intercepted c (λ ctx. handle_withdraw env ctx.user_id (to_request q) db) db) e

handle_withdraw_done :
    (env : Env) (u : String) (q : BillingRequest) (db : Database)
    → pos 0 <ℤ q.amount
    → (withdraw env (withdraw_request u (to_request q)) db).0 ≡ done tt
    → handle_withdraw env (some u) (to_request q) db
      ≡ (done true, (withdraw env (withdraw_request u (to_request q)) db).1)
unfolding handle_withdraw
handle_withdraw_done env u q db positive ok = ground arith

handle_withdraw_short :
    (env : Env) (u : String) (q : BillingRequest) (db : Database) (a : Account)
    → IsClean env
    → pos 0 <ℤ q.amount
    → find_account u db.accounts ≡ some a
    → a.balance <ℤ q.amount
    → handle_withdraw env (some u) (to_request q) db
      ≡ (fail (status failed_precondition "insufficient funds"), db)
unfolding handle_withdraw withdraw get_account_by_user_id_tx
handle_withdraw_short env u q db a clean positive found low =
    ground (arith, clean.begins, clean.account)

is_guarded : is_public "/billing.BillingService/Withdraw" ≡ false
unfolding is_public
is_guarded = refl

withdraw_path : route_of "POST" "/withdraw" ≡ some Route.withdraw
unfolding route_of
withdraw_path = refl

-- A withdrawal over HTTP: a request POST /withdraw of a positive amount with a verified token
-- whose claims name a subject that is a UUID, within the rate limit, with the breaker closed and
-- no statement failing, on valid books with an account of that subject whose balance is an int64,
-- and an unused key. The client of the gateway reaches the billing service. Then either the
-- balance covers the amount, the answer is 200 and success, the account of the subject that the
-- token's claims name has the amount less, and every other user's account is as it was; or it
-- does not, the answer is 400 with the text "insufficient funds", and the database is as it was.
pub withdraw_over_http :
    (g : Gateway) (renv : RedisEnv) (counters : Counters) (r : HttpRequest) (passed : Request)
    (parse : String → Option String) (env : Env) (db : Database) (q : BillingRequest)
    (sub uid other : String) (a : Account)
    → ReadsStatus g.from_error
    → r.method ≡ "POST"
    → r.path ≡ "/withdraw"
    → r.withdraw_body ≡ some q
    → r.base.outgoing ≡ []
    → renv.incr_fails ≡ false
    → count_of (rate_key r.base.remote_addr) counters < 50
    → Bears g.lib g.public_key r.base sub
    → validate_token g.lib g.public_key r.base ≡ done passed
    → parse sub ≡ some uid
    → g.billing_cb ≡ none
    → (g.billing_client passed.outgoing).withdraw q
      ≡ (rpc_withdraw parse env passed.outgoing q db).0
    → pos 0 <ℤ q.amount
    → IsClean env
    → IsValid db
    → find_account uid db.accounts ≡ some a
    → find_key q.idempotency_key db.transactions ≡ none
    → in_int64 a.balance ≡ true
    → other ≢ uid
    → let answer = (global_handler g renv r counters).0 in
      let db' = (rpc_withdraw parse env passed.outgoing q db).1 in
      ((q.amount ≤ℤ a.balance)
        × (answer ≡ send_json 200 "success" (success true))
        × (find_account uid db'.accounts ≡ some (record a { balance = a.balance -ℤ q.amount }))
        × (find_account other db'.accounts ≡ find_account other db.accounts))
      ⊎ ((a.balance <ℤ q.amount)
          × (answer ≡ send_json 400 "error" (text "insufficient funds"))
          × (db' ≡ db))
unfolding withdrawal_handler
withdraw_over_http g renv counters r passed parse env db q sub uid other a reads post path body
      unsent up below bears ok uuid closed serves positive clean v found fresh stored ne =
    let routed =
      guarded_route g renv counters r passed Route.withdraw
        (found_route "POST" "/withdraw" r post path ∙ withdraw_path) refl up below ok in
    let known =
      (identity_is_subject g.lib g.public_key r.base passed sub parse
        "/billing.BillingService/Withdraw" uid (λ ctx. done ctx) bears ok unsent is_guarded
        uuid).0 in
    let called = rpc_withdraw_identified parse env passed.outgoing q db uid known in
    elim (Bool-cases (leb_ℤ q.amount a.balance)) [
      | inl enough ↦
          let debited =
            (withdraw_debits env (withdraw_request uid (to_request q)) db clean a v found fresh
              stored positive (ground arith)).0 in
          let paid = called ∙ handle_withdraw_done env uid q db positive debited.succeeds in
          let replied : (g.billing_client passed.outgoing).withdraw q ≡ done true =
            serves ∙ ap (λ x. x.0) paid in
          inl (
            ground arith,
            routed ∙ ground arith,
            ap (λ x. find_account uid x.1.accounts) paid ∙ debited.account,
            ap (λ x. find_account other x.1.accounts) paid ∙ debited.others other ne,
          )
      | inr short ↦
          let low : a.balance <ℤ q.amount = ground arith in
          let refused = called ∙ handle_withdraw_short env uid q db a clean positive found low in
          let replied : (g.billing_client passed.outgoing).withdraw q
              ≡ fail (status failed_precondition "insufficient funds") =
            serves ∙ ap (λ x. x.0) refused in
          inr (
            low,
            routed
                ∙ ground (
                  arith,
                  handle_status g.from_error failed_precondition "insufficient funds" reads,
                ),
            ap (λ x. x.1) refused,
          )
    ]
