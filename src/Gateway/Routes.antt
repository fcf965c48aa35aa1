-- ===== src/Gateway/Routes.antt =====
-- The routes of gateway/main.go. How http.ServeMux answers a request that no pattern matches, and
-- how a body is decoded into the type of each handler, are arguments; the connections are the
-- clients that are made of them, which send the metadata of the request's context.
pub mod Protected
use microservices_go.Prelude.{
  ℕ, String, Bool, true, false, ◌&&◌, ◌||◌, Option, none, some, List, str_eq, if◌then◌else◌,
}
use microservices_go.Gateway.Response.{HttpResponse, FromError}
use microservices_go.Gateway.Breaker.{CircuitBreaker}
use microservices_go.Gateway.Handlers
use microservices_go.Gateway.Handlers.{
  AuthClient, BillingClient, BillingRequest, Credentials, get_me, withdrawal_handler,
  deposit_handler,
}
use microservices_go.Gateway.Middleware.Request.{Request}
use microservices_go.Gateway.Middleware.Jwt.{JwtLibrary, PublicKey, auth_middleware}
use microservices_go.Gateway.Middleware.Limiter.{RedisEnv, Counters, rate_limit_middleware}

-- A request: its method and path, what the middleware reads, and its body as each handler decodes
-- it.
pub record HttpRequest : Type 0 where
  pub method : String
  pub path : String
  pub base : Request
  pub refresh_body : Option String
  pub credentials_body : Option Credentials
  pub deposit_body : Option BillingRequest
  pub withdraw_body : Option BillingRequest

pub data Route : Type 0 where
  register login refresh me deposit withdraw : Route

-- A pattern with GET matches HEAD too.
unfoldable pub route_of : (method path : String) → Option Route
route_of method path =
    if str_eq method "POST" && str_eq path "/register"
    then some Route.register
    else if str_eq method "POST" && str_eq path "/login"
    then some Route.login
    else if str_eq method "POST" && str_eq path "/refresh"
    then some Route.refresh
    else if (str_eq method "GET" || str_eq method "HEAD") && str_eq path "/me"
    then some me
    else if str_eq method "POST" && str_eq path "/deposit"
    then some deposit
    else if str_eq method "POST" && str_eq path "/withdraw"
    then some withdraw
    else none

-- What main puts together.
pub record Gateway : Type 0 where
  pub from_error : FromError
  pub billing_cb : CircuitBreaker
  pub auth_cb : CircuitBreaker
  pub billing_client : List (String × String) → BillingClient
  pub auth_client : List (String × String) → AuthClient
  pub lib : JwtLibrary
  pub public_key : PublicKey
  pub unmatched : HttpRequest → HttpResponse

module _ (g : Gateway) where
  -- The handlers of the routes, behind their middleware.
  abbrev pub handle : HttpRequest → Route → Request → HttpResponse
  handle r Route.register q =
      Handlers.register g.from_error g.auth_cb (g.auth_client q.outgoing) r.credentials_body
  handle r Route.login q =
      Handlers.login g.from_error g.auth_cb (g.auth_client q.outgoing) r.credentials_body
  handle r Route.refresh q =
      Handlers.refresh g.from_error g.auth_cb (g.auth_client q.outgoing) r.refresh_body
  handle r me q = get_me g.from_error g.auth_cb (g.auth_client q.outgoing) q.user_id
  handle r deposit q =
      deposit_handler g.from_error g.billing_cb (g.billing_client q.outgoing) r.deposit_body
  handle r withdraw q =
      withdrawal_handler g.from_error g.billing_cb (g.billing_client q.outgoing) r.withdraw_body

  -- The routes that main wraps in AuthMiddleware.
  abbrev pub is_protected : Route → Bool
  is_protected me = true
  is_protected deposit = true
  is_protected withdraw = true
  is_protected Route.register = false
  is_protected Route.login = false
  is_protected Route.refresh = false

  abbrev pub serve : HttpRequest → Route → Request → HttpResponse
  serve r route q =
      if is_protected route
      then auth_middleware g.lib g.public_key (handle r route) q
      else handle r route q

  unfoldable pub mux : HttpRequest → Request → HttpResponse
  mux r q = elim (route_of r.method r.path) [ none ↦ g.unmatched r | some route ↦ serve r route q ]

  -- The rate limiter stands before all routes: 50 requests in 60 seconds.
  unfoldable pub global_handler : RedisEnv → HttpRequest → Counters → HttpResponse × Counters
  global_handler env r counters = rate_limit_middleware 50 60 (mux r) env r.base counters
