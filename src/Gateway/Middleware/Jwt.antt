-- ===== src/Gateway/Middleware/Jwt.antt =====
-- gateway/middleware/jwt.go. Parsing and verification belong to the JWT library, which is an
-- argument; so is the public key.
pub mod Accepts
use microservices_go.Prelude.{
  ℕ, String, Bool, true, false, not, Option, none, some, List, [], ◌∷◌, ◌++◌, Bytes, codes,
  bytes_eq, split_space, contains_text, str_eq, if◌then◌else◌,
}
use microservices_go.Errors.{GoError, message, Result, done, fail, ◌>>=◌, ◌>>◌, require}
use microservices_go.Gateway.Response.{HttpResponse, http_error}
use microservices_go.Gateway.Middleware.Request.{Request}

abbrev pub PublicKey : Type 0
PublicKey = Bytes

-- token.Method: an RSA method, or another one.
pub data SigningMethod : Type 0 where
  rsa other : SigningMethod

-- A claim of a MapClaims. The items of an array that are no texts are `none`.
pub data Claim : Type 0 where
  missing other : Claim
  text : String → Claim
  items : List (Option String) → Claim

pub record MapClaims : Type 0 where
  pub token_type : Claim
  pub sub : Claim
  pub roles : Claim

-- `claims` is `none` if they are no MapClaims.
pub record Token : Type 0 where
  pub method : SigningMethod
  pub valid : Bool
  pub claims : Option MapClaims

-- jwt.Parse, which asks its second argument for the key, and MapClaims.GetSubject.
pub record JwtLibrary : Type 0 where
  pub parse : (SigningMethod → Option PublicKey) → Bytes → Option Token
  pub get_subject : MapClaims → Option String

-- The key function that is passed to jwt.Parse.
abbrev pub key_for : PublicKey → SigningMethod → Option PublicKey
key_for public_key rsa = some public_key
key_for public_key SigningMethod.other = none

-- The two parts of the header.
abbrev pub bearer_parts : List Bytes → Result Bytes
bearer_parts (scheme ∷ token_str ∷ []) =
    if bytes_eq scheme (codes "Bearer") then done token_str else fail (message "invalid token")
bearer_parts parts = fail (message "invalid token")

unfoldable pub bearer_token : Bytes → Result Bytes
bearer_token auth_header = do
  require (not (bytes_eq auth_header [])) (message "no auth header")
  require (contains_text (codes "Bearer") auth_header) (message "invalid token")
  bearer_parts (split_space auth_header)

abbrev pub valid_token : Option Token → Result Token
valid_token none = fail (message "invalid token")
valid_token (some token) = if token.valid then done token else fail (message "invalid token")

abbrev pub claims_of : Option MapClaims → Result MapClaims
claims_of none = fail (message "invalid token claims")
claims_of (some claims) = done claims

-- claims["sub"].(string)
abbrev pub raw_subject : Claim → Result String
raw_subject (text s) =
    if str_eq s "" then fail (message "user_id (sub) is missing from token") else done s
raw_subject _ = fail (message "user_id (sub) is missing from token")

abbrev pub subject_or : Option String → Claim → Result String
subject_or none raw = raw_subject raw
subject_or (some sub) raw = if str_eq sub "" then raw_subject raw else done sub

-- The loop over the roles, and the type test before it.
abbrev pub role_texts : List (Option String) → List String
role_texts [] = []
role_texts (none ∷ rest) = role_texts rest
role_texts (some role ∷ rest) = role ∷ role_texts rest

abbrev pub roles_of : Claim → List String
roles_of (items l) = role_texts l
roles_of _ = []

abbrev pub enrich : Request → String → List String → Request
enrich r sub roles = record r {
  user_id = some sub;
  user_roles = some roles;
  outgoing = r.outgoing ++ ("x-user-id", sub) ∷ [];
}

unfoldable pub validate_token : JwtLibrary → PublicKey → Request → Result Request
validate_token lib public_key r = do
  token_str ← bearer_token r.authorization
  token ← valid_token (lib.parse (key_for public_key) token_str)
  claims ← claims_of token.claims
  sub ← subject_or (lib.get_subject claims) claims.sub
  done (enrich r sub (roles_of claims.roles))

abbrev pub text_of : GoError → String
text_of (message s) = s
text_of _ = ""

-- AuthMiddleware: `next` is the handler behind it.
unfoldable pub auth_middleware :
    JwtLibrary → PublicKey → (Request → HttpResponse) → Request → HttpResponse
auth_middleware lib public_key next r = elim (validate_token lib public_key r) [
  | fail err ↦ http_error (text_of err) 401
  | done enriched ↦ next enriched
]
