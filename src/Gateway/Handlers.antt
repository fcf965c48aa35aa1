-- ===== src/Gateway/Handlers.antt =====
-- gateway/handlers/auth.go and gateway/handlers/billing.go. The services are reached through the
-- generated gRPC clients, which are arguments; a request body that does not decode is `none`.
use microservices_go.Prelude.{String, ℤ, Bool, Option, none, some, List, if◌then◌else◌}
use microservices_go.Errors.{GoError, Result, done, fail, is, open_state}
use microservices_go.Gateway.Response.{
  HttpResponse, FromError, send_json, handle_grpc_error, text, tokens, session, profile, success,
}
use microservices_go.Gateway.Breaker.{CircuitBreaker, execute}

pub record RefreshResponse : Type 0 where
  pub access_token : String
  pub refresh_token : String

-- LoginResponse and RegisterResponse of contracts/auth.proto, as far as they are read.
pub record SessionResponse : Type 0 where
  pub id : String
  pub email : String
  pub created_at : String
  pub access_token : String
  pub refresh_token : String

pub record GetMeResponse : Type 0 where
  pub id : String
  pub email : String
  pub created_at : String
  pub roles : List String

pub record Credentials : Type 0 where
  pub email : String
  pub password : String

-- The fields of a request that the gateway passes on to the billing service.
pub record BillingRequest : Type 0 where
  pub amount : ℤ
  pub idempotency_key : String

pub record AuthClient : Type 0 where
  pub refresh : String → Result RefreshResponse
  pub login : Credentials → Result SessionResponse
  pub register : Credentials → Result SessionResponse
  pub get_me : Unit {0} → Result GetMeResponse

pub record BillingClient : Type 0 where
  pub deposit : BillingRequest → Result Bool
  pub withdraw : BillingRequest → Result Bool

module _ (from_error : FromError) (cb : CircuitBreaker) where
  -- The branch on an error of the breaker's call.
  unfoldable pub on_error : GoError → HttpResponse
  on_error err =
      if is err open_state
      then send_json 503 "error" (text "service unavailable. Try again later")
      else handle_grpc_error from_error err

  abbrev pub refresh_reply : Result RefreshResponse → HttpResponse
  refresh_reply (fail err) = on_error err
  refresh_reply (done resp) = send_json 200 "success" (tokens resp.access_token resp.refresh_token)

  unfoldable pub refresh : AuthClient → Option String → HttpResponse
  unfolding on_error send_json handle_grpc_error
  refresh client none = send_json 400 "error" (text "invalid JSON body")
  refresh client (some refresh_token) = refresh_reply (execute cb (client.refresh refresh_token))

  abbrev pub login_reply : Result SessionResponse → HttpResponse
  login_reply (fail err) = on_error err
  login_reply (done resp) =
      send_json 200 "success"
        (session resp.id resp.email resp.created_at resp.access_token resp.refresh_token)

  unfoldable pub login : AuthClient → Option Credentials → HttpResponse
  unfolding on_error send_json handle_grpc_error
  login client none = send_json 400 "error" (text "invalid JSON body")
  login client (some req) = login_reply (execute cb (client.login req))

  abbrev pub register_reply : Result SessionResponse → HttpResponse
  register_reply (fail err) = on_error err
  register_reply (done resp) =
      send_json 201 "success"
        (session resp.id resp.email resp.created_at resp.access_token resp.refresh_token)

  unfoldable pub register : AuthClient → Option Credentials → HttpResponse
  unfolding on_error send_json handle_grpc_error
  register client none = send_json 400 "error" (text "invalid JSON body")
  register client (some req) = register_reply (execute cb (client.register req))

  abbrev pub get_me_reply : Result GetMeResponse → HttpResponse
  get_me_reply (fail err) = on_error err
  get_me_reply (done res) =
      send_json 200 "success" (profile res.id res.email res.created_at res.roles)

  -- The argument is the user id that the middleware has put into the context.
  unfoldable pub get_me : AuthClient → Option String → HttpResponse
  unfolding on_error send_json handle_grpc_error
  get_me client none = send_json 401 "error" (text "invalid user id")
  get_me client (some _) = get_me_reply (execute cb (client.get_me tt))

  abbrev pub billing_reply : Result Bool → HttpResponse
  billing_reply (fail err) = on_error err
  billing_reply (done succeeded) = send_json 200 "success" (success succeeded)

  unfoldable pub withdrawal_handler : BillingClient → Option BillingRequest → HttpResponse
  unfolding on_error send_json handle_grpc_error
  withdrawal_handler client none = send_json 400 "error" (text "invalid json body")
  withdrawal_handler client (some req) = billing_reply (execute cb (client.withdraw req))

  unfoldable pub deposit_handler : BillingClient → Option BillingRequest → HttpResponse
  unfolding on_error send_json handle_grpc_error
  deposit_handler client none = send_json 400 "error" (text "invalid json body")
  deposit_handler client (some req) = billing_reply (execute cb (client.deposit req))
