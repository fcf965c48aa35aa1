-- ===== src/Gateway/Response.antt =====
-- HTTP responses, and the translation of gRPC errors (pkg/utils/api/api.go and
-- pkg/utils/grpc/error.go).
use microservices_go.Prelude.{ℕ, String, Bool, Option, none, some, List}
use microservices_go.Errors.{
  GoError, Code, ok, invalid_argument, not_found, failed_precondition, permission_denied,
  unauthenticated, resource_exhausted, already_exists, unavailable, deadline_exceeded,
  unimplemented, internal, unknown,
}

-- The field `data` of the JSON bodies that the handlers send.
pub data Data : Type 0 where
  text : String → Data
  tokens : (access_token refresh_token : String) → Data
  session : (id email created_at access_token refresh_token : String) → Data
  profile : (id email created_at : String) → (roles : List String) → Data
  success : Bool → Data

-- SendJSON's envelope, or the plain text of http.Error.
pub data HttpBody : Type 0 where
  json : (status : String) → Data → HttpBody
  plain : String → HttpBody

pub record HttpResponse : Type 0 where
  pub status_code : ℕ
  pub content_type : String
  pub body : HttpBody

unfoldable pub send_json : ℕ → String → Data → HttpResponse
send_json status_code status d = record {
  status_code = status_code;
  content_type = "application/json";
  body = json status d;
}

unfoldable pub http_error : String → ℕ → HttpResponse
http_error message status_code = record {
  status_code = status_code;
  content_type = "text/plain; charset=utf-8";
  body = plain message;
}

-- status.FromError belongs to the gRPC library: `none` where the error carries no status.
abbrev pub FromError : Type 0
FromError = GoError → Option (Code × String)

abbrev pub code_response : Code → String → HttpResponse
code_response invalid_argument m = send_json 400 "error" (text m)
code_response not_found m = send_json 404 "error" (text m)
code_response failed_precondition m = send_json 400 "error" (text m)
code_response permission_denied m = send_json 403 "error" (text m)
code_response unauthenticated m = send_json 401 "error" (text m)
code_response resource_exhausted m = send_json 429 "error" (text m)
code_response already_exists m = send_json 409 "error" (text m)
code_response unavailable m = send_json 503 "error" (text "service is temporarily unavailable")
code_response deadline_exceeded m = send_json 504 "error" (text "request timeout")
code_response unimplemented m = send_json 501 "error" (text "method not implemented")
code_response ok m = send_json 500 "error" (text "internal server error")
code_response internal m = send_json 500 "error" (text "internal server error")
code_response unknown m = send_json 500 "error" (text "internal server error")

unfoldable pub handle_grpc_error : FromError → GoError → HttpResponse
unfolding send_json
handle_grpc_error from_error err = elim (from_error err) [
  | none ↦ send_json 500 "error" (text "internal server error")
  | some (c, m) ↦ code_response c m
]
