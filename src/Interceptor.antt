-- ===== src/Interceptor.antt =====
-- The authentication of the gRPC servers (pkg/infrastructure/interceptors/auth.go). Parsing a UUID
-- belongs to its library and is an argument; a parsed id is kept in its canonical text.
pub mod Identity
use microservices_go.Prelude.{
  String, Bool, true, false, ◌||◌, Option, none, some, List, [], ◌∷◌, str_eq, if◌then◌else◌,
}
use microservices_go.Errors.{message, status, unauthenticated, Result, done, fail}

-- The incoming metadata, and the value under UserIDKey.
pub record ServerContext : Type 0 where
  pub metadata : Option (List (String × String))
  pub user_id : Option String

unfoldable pub is_public : String → Bool
is_public full_method =
    str_eq full_method "/auth.AuthService/Login"
    || str_eq full_method "/auth.AuthService/Register"
    || str_eq full_method "/auth.AuthService/Refresh"
    || str_eq full_method "/auth.AuthService/GetUserById"

-- md.Get(key)
abbrev pub values : String → List (String × String) → List String
values key [] = []
values key ((k, v) ∷ md) = if str_eq k key then v ∷ values key md else values key md

abbrev pub with_user : ServerContext → String → ServerContext
with_user ctx uid = record ctx { user_id = some uid }

abbrev pub parsed_user {ℓ} :
    {R : Type ℓ} → (ServerContext → Result R) → ServerContext → Option String → Result R
parsed_user handler ctx none = fail (status unauthenticated "invalid user id format")
parsed_user handler ctx (some uid) = handler (with_user ctx uid)

abbrev pub first_user {ℓ} :
    {R : Type ℓ}
    → (String → Option String)
    → (ServerContext → Result R)
    → ServerContext
    → List String
    → Result R
first_user parse handler ctx [] = fail (status unauthenticated "no user id in metadata")
first_user parse handler ctx (id ∷ _) =
    if str_eq id ""
    then fail (status unauthenticated "no user id in metadata")
    else parsed_user handler ctx (parse id)

-- `parse` is uuid.Parse.
unfoldable pub auth_interceptor {ℓ} :
    {R : Type ℓ}
    → (String → Option String)
    → String
    → (ServerContext → Result R)
    → ServerContext
    → Result R
auth_interceptor parse full_method handler ctx =
    if is_public full_method then handler ctx else elim ctx.metadata [
      | none ↦ fail (status unauthenticated "metadata missing")
      | some md ↦ first_user parse handler ctx (values "x-user-id" md)
    ]

unfoldable pub user_id_from_context : ServerContext → Result String
user_id_from_context ctx = elim ctx.user_id [
  | none ↦ fail (message "invalid user id format")
  | some uid ↦ done uid
]
