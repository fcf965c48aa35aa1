-- ===== src/Gateway/Middleware/Jwt/Accepts.antt =====
-- Which requests the gateway lets through (gateway/middleware/jwt.go).
use microservices_go.Prelude.{
  String, true, not, Option, none, some, List, [], ◌∷◌, ◌++◌, Bytes, codes, bytes_eq, bytes_eq_iff,
  split_space, join_space, join_space-split_space, split_space_word, contains_text, eq_iff, ◌≡◌,
  ◌≢◌, ◌⊎◌, inl, inr, sym, ap, ◌∙◌, arith, All, Option-cases, Bool-cases, str_eq,
}
use microservices_go.Errors.{message, done, >>=-eq-done, done-injective, require}
use microservices_go.Gateway.Middleware.Request.{Request}
use microservices_go.Gateway.Middleware.Jwt.{
  PublicKey, Claim, MapClaims, Token, JwtLibrary, key_for, bearer_parts, bearer_token, valid_token,
  claims_of, raw_subject, subject_or, roles_of, validate_token,
}

bearer_parts-two :
    (parts : List Bytes) (t : Bytes) → bearer_parts parts ≡ done t → parts ≡ codes "Bearer" ∷ t ∷ []
bearer_parts-two [] t h = cc
bearer_parts-two (a ∷ []) t h = cc
bearer_parts-two (a ∷ b ∷ []) t h = ground (arith, bytes_eq_iff a (codes "Bearer"))
bearer_parts-two (a ∷ b ∷ c ∷ rest) t h = cc

bearer_token-header : (h t : Bytes) → bearer_token h ≡ done t → h ≡ codes "Bearer" ++ (32 ∷ t)
unfolding bearer_token
bearer_token-header h t e =
    let (_, _, rest) = >>=-eq-done (require (not (bytes_eq h [])) (message "no auth header")) _ e in
    let (_, _, parts) =
      >>=-eq-done (require (contains_text (codes "Bearer") h) (message "invalid token")) _ rest in
    sym (join_space-split_space h) ∙ ap join_space (bearer_parts-two (split_space h) t parts)

-- The subject that the claims name: the one that GetSubject gives, or the text of the claim `sub`
-- where GetSubject fails or gives the empty one.
pub data Names (lib : JwtLibrary) (claims : MapClaims) (sub : String) : Type 0 where
  by_library : lib.get_subject claims ≡ some sub → Names lib claims sub
  by_claim :
      (lib.get_subject claims ≡ none) ⊎ (lib.get_subject claims ≡ some "")
      → claims.sub ≡ Claim.text sub
      → Names lib claims sub

raw_subject-text : (c : Claim) (s : String) → raw_subject c ≡ done s → c ≡ Claim.text s
raw_subject-text Claim.missing s h = cc
raw_subject-text Claim.other s h = cc
raw_subject-text (Claim.text t) s h = ground arith
raw_subject-text (Claim.items l) s h = cc

subject_or-Names :
    (lib : JwtLibrary) (claims : MapClaims) (s : String)
    → subject_or (lib.get_subject claims) claims.sub ≡ done s
    → Names lib claims s
subject_or-Names lib claims s h = elim (Option-cases (lib.get_subject claims)) [
  | inl e ↦
      by_claim (inl e)
        (raw_subject-text claims.sub s (ap (λ o. subject_or o claims.sub) (sym e) ∙ h))
  | inr (t, e) ↦ given t e (ap (λ o. subject_or o claims.sub) (sym e) ∙ h)
]
  where
    given :
        (t : String)
        → lib.get_subject claims ≡ some t
        → subject_or (some t) claims.sub ≡ done s
        → Names lib claims s
    given t e k = elim (Bool-cases (str_eq t "")) [
      | inl empty ↦
          by_claim (inr (e ∙ ground (arith, eq_iff t "")))
            (raw_subject-text claims.sub s (ground arith))
      | inr named ↦ by_library (e ∙ ground arith)
    ]

Names-subject_or :
    (lib : JwtLibrary) (claims : MapClaims) (s : String)
    → s ≢ ""
    → Names lib claims s
    → subject_or (lib.get_subject claims) claims.sub ≡ done s
Names-subject_or lib claims s ne (by_library e) = ground (arith, eq_iff s "")
Names-subject_or lib claims s ne (by_claim (inl e) c) = ground (arith, eq_iff s "")
Names-subject_or lib claims s ne (by_claim (inr e) c) = ground (arith, eq_iff s "", eq_iff "" "")

subject_or-ne : (o : Option String) (c : Claim) (s : String) → subject_or o c ≡ done s → s ≢ ""
subject_or-ne none c s h = ground (arith, eq_iff s "")
subject_or-ne (some t) c s h = ground (arith, eq_iff s "", eq_iff t "")

-- What a request that passed has shown: the header is "Bearer", a space and a token, which the
-- library has verified with the public key through the RSA key function, and whose claims name the
-- subject that the request then carries.
pub record Passed (lib : JwtLibrary) (key : PublicKey) (r passed : Request) : Type 0 where
  pub token_str : Bytes
  pub token : Token
  pub claims : MapClaims
  pub sub : String
  pub header : r.authorization ≡ codes "Bearer" ++ (32 ∷ token_str)
  pub parsed : lib.parse (key_for key) token_str ≡ some token
  pub valid : token.valid ≡ true
  pub mapped : token.claims ≡ some claims
  pub subject : Names lib claims sub
  pub named : sub ≢ ""
  pub enriched : passed ≡ record r {
    user_id = some sub;
    user_roles = some (roles_of claims.roles);
    outgoing = r.outgoing ++ ("x-user-id", sub) ∷ [];
  }

valid_token-done :
    (o : Option Token) (t : Token) → valid_token o ≡ done t → (o ≡ some t) × (t.valid ≡ true)
valid_token-done none t h = cc
valid_token-done (some u) t h = ground arith

claims_of-done : (o : Option MapClaims) (c : MapClaims) → claims_of o ≡ done c → o ≡ some c
claims_of-done none c h = cc
claims_of-done (some d) c h = cc

-- A request passes only with a header of two parts, "Bearer" and a token that the JWT library has
-- verified with the RSA key and whose claims name a subject that is not empty: the one of
-- GetSubject, or the text of the claim sub where GetSubject fails or gives an empty one. The request
-- then carries that subject as its user, with the texts among the roles, and sends it to the
-- services as x-user-id.
pub validate_token-Passed :
    (lib : JwtLibrary) (key : PublicKey) (r passed : Request)
    → validate_token lib key r ≡ done passed
    → Passed lib key r passed
unfolding validate_token
validate_token-Passed lib key r passed h =
    let (t, e1, h1) = >>=-eq-done (bearer_token r.authorization) _ h in
    let (token, e2, h2) = >>=-eq-done (valid_token (lib.parse (key_for key) t)) _ h1 in
    let (claims, e3, h3) = >>=-eq-done (claims_of token.claims) _ h2 in
    let (sub, e4, h4) = >>=-eq-done (subject_or (lib.get_subject claims) claims.sub) _ h3 in
    let (parsed, valid) = valid_token-done (lib.parse (key_for key) t) token e2 in
    record {
      token_str = t;
      token = token;
      claims = claims;
      sub = sub;
      header = bearer_token-header r.authorization t e1;
      parsed = parsed;
      valid = valid;
      mapped = claims_of-done token.claims claims e3;
      subject = subject_or-Names lib claims sub e4;
      named = subject_or-ne (lib.get_subject claims) claims.sub sub e4;
      enriched = sym (done-injective h4);
    }

-- A bearer header of a token without spaces gives the token.
pub bearer_token_word :
    (t : Bytes) → All (λ c. c ≢ 32) t → bearer_token (codes "Bearer" ++ (32 ∷ t)) ≡ done t
unfolding bearer_token split_space
bearer_token_word t h = rw (split_space_word t h)

-- What the Authorization header of a request says: "Bearer", a space and a token without spaces,
-- which the library verifies with the public key and whose claims name the subject.
pub record Bears (lib : JwtLibrary) (key : PublicKey) (r : Request) (sub : String) : Type 0 where
  pub token_str : Bytes
  pub token : Token
  pub claims : MapClaims
  pub header : r.authorization ≡ codes "Bearer" ++ (32 ∷ token_str)
  pub word : All (λ c. c ≢ 32) token_str
  pub parsed : lib.parse (key_for key) token_str ≡ some token
  pub valid : token.valid ≡ true
  pub mapped : token.claims ≡ some claims
  pub subject : Names lib claims sub
  pub named : sub ≢ ""

-- The converse: such a token passes, whatever its type.
pub validate_token_passes :
    (lib : JwtLibrary) (key : PublicKey) (r : Request) (sub : String) (b : Bears lib key r sub)
    → validate_token lib key r
      ≡ done (record r {
        user_id = some sub;
        user_roles = some (roles_of b.claims.roles);
        outgoing = r.outgoing ++ ("x-user-id", sub) ∷ [];
      })
unfolding validate_token
validate_token_passes lib key r sub b = ground (
  arith,
  bearer_token_word b.token_str b.word,
  b.header,
  b.parsed,
  b.valid,
  b.mapped,
  Names-subject_or lib b.claims sub b.named b.subject,
)
