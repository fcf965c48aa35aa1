-- ===== src/Auth/Handler.antt =====
-- auth/grpc_handler.go, over the interface of auth/services, which is not in the repository: the
-- service is an argument, and so are the text of its errors and the format of times.
pub mod Replies
use microservices_go.Prelude.{String, Option, none, some, List, if◌then◌else◌}
use microservices_go.Errors.{
  GoError, status, is, Result, done, fail, service_user_already_exists, service_invalid_input,
  already_exists, invalid_argument, internal, unauthenticated,
}
use microservices_go.Postgres.{Time}

pub record GetUserByIdResponse : Type 0 where
  pub id : String
  pub email : String
  pub created_at : Option Time

pub record GetMeResponse : Type 0 where
  pub id : String
  pub email : String
  pub created_at : Option Time
  pub roles : List String

pub record TokensResponse : Type 0 where
  pub access_token : String
  pub refresh_token : String

-- LoginResponse and RegisterResponse.
pub record SessionResponse : Type 0 where
  pub id : String
  pub email : String
  pub created_at : Option Time
  pub access_token : String
  pub refresh_token : String

pub record Credentials : Type 0 where
  pub email : String
  pub password : String

pub record AuthService : Type 0 where
  pub get_user_by_id : String → Result GetUserByIdResponse
  pub get_me : String → Result GetMeResponse
  pub refresh : String → Result TokensResponse
  pub login : Credentials → Result SessionResponse
  pub register : Credentials → Result SessionResponse

-- `errorf` is the text that status.Errorf makes of an error's, and `format` is Format(time.RFC3339).
pub record Texts : Type 0 where
  pub errorf : GoError → String
  pub format : Time → String

-- The messages of contracts/auth.proto.
pub data Reply : Type 0 where
  found : (id email created_at : String) → Reply
  profile : (id email created_at : String) → (roles : List String) → Reply
  tokens : (access_token refresh_token : String) → Reply
  session : (id email created_at access_token refresh_token : String) → Reply

-- A call of Format on a nil time panics.
pub data Outcome : Type 0 where
  panics : Outcome
  returns : Result Reply → Outcome

unfoldable pub handle_grpc_err : Texts → GoError → GoError
handle_grpc_err texts err =
    if is err service_user_already_exists
    then status already_exists (texts.errorf err)
    else if is err service_invalid_input
    then status invalid_argument (texts.errorf err)
    else status internal "internal server error"

abbrev pub formatted : Texts → Option Time → (String → Reply) → Outcome
formatted texts none reply = panics
formatted texts (some t) reply = returns (done (reply (texts.format t)))

module _ (texts : Texts) where
  abbrev pub session_reply : Result SessionResponse → Outcome
  unfolding handle_grpc_err
  session_reply (fail err) = returns (fail (handle_grpc_err texts err))
  session_reply (done res) =
      formatted texts res.created_at
        (λ at. session res.id res.email at res.access_token res.refresh_token)

  abbrev pub user_reply : Result GetUserByIdResponse → Outcome
  unfolding handle_grpc_err
  user_reply (fail err) = returns (fail (handle_grpc_err texts err))
  user_reply (done res) = formatted texts res.created_at (λ at. found res.id res.email at)

  abbrev pub profile_reply : Result GetMeResponse → Outcome
  unfolding handle_grpc_err
  profile_reply (fail err) = returns (fail (handle_grpc_err texts err))
  profile_reply (done res) =
      formatted texts res.created_at (λ at. profile res.id res.email at res.roles)

  abbrev pub tokens_reply : Result TokensResponse → Outcome
  unfolding handle_grpc_err
  tokens_reply (fail err) = returns (fail (handle_grpc_err texts err))
  tokens_reply (done res) = returns (done (tokens res.access_token res.refresh_token))

  unfoldable pub get_user_by_id : AuthService → String → Outcome
  get_user_by_id service user_id = user_reply (service.get_user_by_id user_id)

  -- The argument is the user id of the context.
  unfoldable pub get_me : AuthService → Option String → Outcome
  get_me service none = returns (fail (status unauthenticated "no user id in metadata"))
  get_me service (some user_id) = profile_reply (service.get_me user_id)

  unfoldable pub refresh : AuthService → String → Outcome
  refresh service token = tokens_reply (service.refresh token)

  unfoldable pub login : AuthService → Credentials → Outcome
  login service req = session_reply (service.login req)

  unfoldable pub register : AuthService → Credentials → Outcome
  register service req = session_reply (service.register req)
