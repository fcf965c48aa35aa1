-- ===== src/Billing/Handler.antt =====
-- billing/grpc_handler.go. The context carries the user id that the interceptor has put there.
pub mod Replies
pub mod Booked
use microservices_go.Prelude.{String, ℤ, pos, leb_ℤ, Bool, true, Option, none, some, if◌then◌else◌}
use microservices_go.Errors.{
  GoError, message, status, is, Result, done, fail, invalid_argument, failed_precondition,
  not_found, internal, insufficient_funds, service_account_not_found,
}
use microservices_go.Billing.Domain.{Database, Env}
use microservices_go.Billing.Service.{deposit, withdraw}

-- A request of contracts/billing.proto: DepositRequest and WithdrawRequest have these fields.
pub record Request : Type 0 where
  pub amount : ℤ
  pub idempotency_key : String

-- A response with its field `success`, or an error.
abbrev pub Response : Type 0
Response = Result Bool × Database

abbrev deposit_response : Result (Unit {0}) × Database → Response
deposit_response (done _, db) = (done true, db)
deposit_response (fail err, db) = (fail (status internal "internal server error"), db)

unfoldable pub handle_deposit : Env → Option String → Request → Database → Response
handle_deposit env none req db = (fail (message "no user_id present"), db)
handle_deposit env (some user_id) req db =
    if leb_ℤ req.amount (pos 0)
    then (fail (status invalid_argument "amount must be greater than 0"), db)
    else deposit_response (
        deposit env
          (record { user_id = user_id; amount = req.amount; idempotency_key = req.idempotency_key })
          db)

-- The switch on the error of the service.
abbrev withdraw_error : GoError → GoError
withdraw_error err =
    if is err insufficient_funds
    then status failed_precondition "insufficient funds"
    else if is err service_account_not_found
    then status not_found "account not found"
    else status internal "internal server error"

abbrev withdraw_response : Result (Unit {0}) × Database → Response
withdraw_response (done _, db) = (done true, db)
withdraw_response (fail err, db) = (fail (withdraw_error err), db)

unfoldable pub handle_withdraw : Env → Option String → Request → Database → Response
handle_withdraw env none req db = (fail (message "no user_id present"), db)
handle_withdraw env (some user_id) req db =
    if leb_ℤ req.amount (pos 0)
    then (fail (status invalid_argument "amount must be greater than 0"), db)
    else withdraw_response (
        withdraw env
          (record { user_id = user_id; amount = req.amount; idempotency_key = req.idempotency_key })
          db)
