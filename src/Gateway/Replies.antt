-- ===== src/Gateway/Replies.antt =====
-- What a client of the gateway is told about errors, and what the circuit breakers count
-- (pkg/utils/grpc/error.go, gateway/lib/breaker/breaker.go, gateway/handlers).
use microservices_go.Prelude.{
  ◌≤◌, ◌<◌, String, pos, ◌<ℤ◌, true, false, none, some, ◌≡◌, ◌↔◌, refl, arith,
}
use mathlib.Core.Path.{subst}
use microservices_go.Errors.{status, Code, ok, internal, fail}
use microservices_go.Billing.Domain.{Database}
use microservices_go.Billing.Domain
use microservices_go.Billing.Repository.{find_account, get_account_by_user_id_tx}
use microservices_go.Billing.Service.{withdraw}
use microservices_go.Billing.Handler.{handle_withdraw}
use microservices_go.Gateway.Response.{FromError, handle_grpc_error, code_response, send_json}
use microservices_go.Gateway.Breaker.{is_successful, counts_as_success}
use microservices_go.Gateway.Handlers.{BillingClient, BillingRequest, withdrawal_handler}

-- status.FromError reads back the code and the message of a status error.
pub record ReadsStatus (from_error : FromError) : Type 0 where
  pub reads : (c : Code) (m : String) → from_error (status c m) ≡ some (c, m)

code_response-client :
    (c : Code) (m : String) → (counts_as_success c ≡ true) ↔ ((code_response c m).status_code < 429)
unfolding send_json
code_response-client ok m = ground arith
code_response-client c m = ground arith

pub handle_status :
    (from_error : FromError) (c : Code) (m : String)
    → ReadsStatus from_error
    → handle_grpc_error from_error (status c m) ≡ code_response c m
unfolding handle_grpc_error
handle_status from_error c m r = rw (r.reads c m, handle_grpc_error)

pub is_successful_status :
    (from_error : FromError) (c : Code) (m : String)
    → ReadsStatus from_error
    → is_successful from_error (some (status c m)) ≡ counts_as_success c
unfolding is_successful
is_successful_status from_error c m r = rw (r.reads c m, is_successful)

-- A circuit breaker counts an error of a service as a success exactly when the gateway answers it
-- with a status below 429, that is 400, 401, 403, 404 or 409.
pub is_successful_iff :
    (from_error : FromError) (c : Code) (m : String)
    → ReadsStatus from_error
    → (is_successful from_error (some (status c m)) ≡ true)
      ↔ ((handle_grpc_error from_error (status c m)).status_code < 429)
is_successful_iff from_error c m r =
    rw (is_successful_status from_error c m r, handle_status from_error c m r)
      (code_response-client c m)

masked :
    (c : Code) (m n : String)
    → 500 ≤ (code_response c m).status_code
    → code_response c m ≡ code_response c n
unfolding send_json
masked ok m n h = refl
masked c m n h = ground arith

-- Two status errors of one code that the gateway answers with a status of 500 or more get the same
-- answer: the message of the service does not reach the client.
pub server_errors_are_masked :
    (from_error : FromError) (c : Code) (m n : String)
    → ReadsStatus from_error
    → 500 ≤ (handle_grpc_error from_error (status c m)).status_code
    → handle_grpc_error from_error (status c m) ≡ handle_grpc_error from_error (status c n)
server_errors_are_masked from_error c m n r h =
    rw (handle_status from_error c m r, handle_status from_error c n r)
      (masked c m n (subst (λ x. 500 ≤ x.status_code) (handle_status from_error c m r) h))

-- When the account can be read, a withdrawal of a positive amount by a user without an account is
-- answered with 500 and counts as a failure of the breaker, where a client of the breaker that
-- admits the call reaches the billing service.
pub missing_account_is_a_failure :
    (from_error : FromError) (client : BillingClient) (env : Domain.Env) (u : String)
    (req : BillingRequest) (db : Database)
    → ReadsStatus from_error
    → client.withdraw req
      ≡ (handle_withdraw env
          (some u)
          (record { amount = req.amount; idempotency_key = req.idempotency_key })
          db).0
    → env.begin_fails ≡ false
    → env.account_fails ≡ false
    → pos 0 <ℤ req.amount
    → find_account u db.accounts ≡ none
    → ((withdrawal_handler from_error none client (some req)).status_code ≡ 500)
      × (client.withdraw req ≡ fail (status internal "internal server error"))
      × (is_successful from_error (some (status internal "internal server error")) ≡ false)
unfolding withdrawal_handler handle_withdraw withdraw get_account_by_user_id_tx is_successful
missing_account_is_a_failure from_error client env u req db r serves b f positive missing =
    let served : client.withdraw req ≡ fail (status internal "internal server error") =
      ground arith in
    let read = r.reads internal "internal server error" in (ground arith, served, ground arith)
