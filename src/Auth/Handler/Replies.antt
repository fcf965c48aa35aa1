-- ===== src/Auth/Handler/Replies.antt =====
-- What a client of the auth service is told about errors, at the service and behind the gateway
-- (auth/grpc_handler.go, pkg/utils/grpc/error.go, gateway/handlers/auth.go).
use microservices_go.Prelude.{true, false, ◌≡◌, ◌↔◌, arith}
use microservices_go.Errors.{
  GoError, is, service_user_already_exists, service_invalid_input, already_exists, invalid_argument,
  internal,
}
use microservices_go.Auth.Handler.{Texts, handle_grpc_err}
use microservices_go.Gateway.Response.{FromError, handle_grpc_error, send_json}
use microservices_go.Gateway.Replies.{ReadsStatus}

-- An error of the auth service reaches the gateway's client as 409 exactly if it is, or wraps,
-- the service's ErrUserAlreadyExists, as 400 exactly if it is ErrInvalidInput and not that, and as
-- 500 otherwise, where status.FromError reads a status error back.
pub handle_grpc_err_codes :
    (from_error : FromError) (texts : Texts) (err : GoError)
    → ReadsStatus from_error
    → let answer = handle_grpc_error from_error (handle_grpc_err texts err) in
      ((answer.status_code ≡ 409) ↔ (is err service_user_already_exists ≡ true))
      × ((answer.status_code ≡ 400)
          ↔ ((is err service_user_already_exists ≡ false) × (is err service_invalid_input ≡ true)))
      × ((answer.status_code ≡ 500)
          ↔ ((is err service_user_already_exists ≡ false) × (is err service_invalid_input ≡ false)))
unfolding handle_grpc_err handle_grpc_error send_json
handle_grpc_err_codes from_error texts err r =
    let exists_read = r.reads already_exists (texts.errorf err) in
    let invalid_read = r.reads invalid_argument (texts.errorf err) in
    let internal_read = r.reads internal "internal server error" in
    (
      (λ h. ground arith, λ h. ground arith),
      (λ h. ground arith, λ h. ground arith),
      (λ h. ground arith, λ h. ground arith),
    )
