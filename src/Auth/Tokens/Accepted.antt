-- ===== src/Auth/Tokens/Accepted.antt =====
-- From the tokens of auth/tokens/tokens.go to the gateway's ValidateToken
-- (gateway/middleware/jwt.go).
use microservices_go.Prelude.{
  ◌<◌, String, ℤ, true, Option, none, some, List, [], ◌∷◌, ◌++◌, map, Bytes, codes, All, str_eq,
  eq_iff, ◌≡◌, ◌≢◌, refl, sym, arith, if◌then◌else◌,
}
use mathlib.Core.Path.{subst}
use microservices_go.Errors.{Result, done, fail}
use microservices_go.Postgres.{Time}
use microservices_go.Auth.Domain.{User}
use microservices_go.Auth.Tokens.{
  TokenPair, Manager, Claims, Signer, World, random_hex, claims_for, signed, generate,
  generate_pair,
}
use microservices_go.Errors.{returns}
use microservices_go.Gateway.Middleware.Request.{Request}
use microservices_go.Gateway.Middleware.Jwt.{
  PublicKey, Claim, missing, text, items, MapClaims, rsa, JwtLibrary, key_for, role_texts, roles_of,
  enrich, validate_token,
}
use microservices_go.Gateway.Middleware.Jwt.Accepts.{by_library, validate_token_passes}

-- The JSON of Claims as a parser reads it: an empty subject and an empty list of roles are left
-- out.
abbrev pub roles_claim : List String → Claim
roles_claim [] = missing
roles_claim (r ∷ rs) = items (map some (r ∷ rs))

abbrev pub map_claims : Claims → MapClaims
map_claims c = record {
  token_type = text c.token_type;
  sub = if str_eq c.subject "" then missing else text c.subject;
  roles = roles_claim c.roles;
}

-- A library that verifies, at the time `at` and with the public key, what the signer signs: the
-- token is valid until it expires, it has no space, and the subject is its claim.
pub record Verifies {K : Type 0} (signer : Signer K) (lib : JwtLibrary) (key : PublicKey)
    (private : Bytes) (at : Time) : Type 0 where
  pub verified :
      (k : K) (c : Claims) (t : Bytes)
      → signer.parse_rsa_private_key private ≡ some k
      → signer.signed_string k c ≡ done t
      → at < c.expires_at
      → lib.parse (key_for key) t
        ≡ some (record { method = rsa; valid = true; claims = some (map_claims c) })
  pub word :
      (k : K) (c : Claims) (t : Bytes) → signer.signed_string k c ≡ done t → All (λ x. x ≢ 32) t
  pub subject : (c : MapClaims) (s : String) → c.sub ≡ text s → lib.get_subject c ≡ some s

role_texts-map : (rs : List String) → role_texts (map some rs) ≡ rs
role_texts-map [] = refl
role_texts-map (r ∷ rs) = rw (role_texts-map rs)

roles_of-claim : (rs : List String) → roles_of (roles_claim rs) ≡ rs
roles_of-claim [] = refl
roles_of-claim (r ∷ rs) = role_texts-map (r ∷ rs)

-- A request that bears a token.
abbrev pub bearing : Request → Bytes → Request
bearing r t = record r { authorization = codes "Bearer" ++ (32 ∷ t) }

module _ {K : Type 0} (signer : Signer K) (lib : JwtLibrary) (key : PublicKey) where
  signed-done :
      (o : Option K) (c : Claims) (t : Bytes) (e : Time)
      → signed signer o c ≡ returns (done (t, e))
      → (k : K) × (o ≡ some k) × (signer.signed_string k c ≡ done t) × (c.expires_at ≡ e)
  signed-done none c t e h = cc
  signed-done (some k) c t e h =
      let (sig, expiry) = made (signer.signed_string k c) refl in (k, refl, sig, expiry)
    where
      made :
          (s : Result Bytes)
          → signer.signed_string k c ≡ s
          → (signer.signed_string k c ≡ done t) × (c.expires_at ≡ e)
      made (fail err) q = ground arith
      made (done u) q = (ground arith, ground arith)

  -- A token that is made is signed with the key, over claims of the user, the type and the roles.
  generate-done :
      (m : Manager) (w : World) (user_id token_type : String) (ttl : ℤ) (private : Bytes)
      (roles : List String) (t : Bytes) (e : Time)
      → generate signer m w user_id token_type ttl private roles ≡ returns (done (t, e))
      → (jti : String) × (let c = claims_for m w user_id token_type ttl roles jti in
          (k : K) × (signer.parse_rsa_private_key private ≡ some k)
          × (signer.signed_string k c ≡ done t)
          × (c.expires_at ≡ e))
  unfolding generate random_hex
  generate-done m w user_id token_type ttl private roles t e h = drawn w.random refl
    where
      Made : String → Type 0
      Made jti =
          let c = claims_for m w user_id token_type ttl roles jti in
          (k : K) × (signer.parse_rsa_private_key private ≡ some k)
          × (signer.signed_string k c ≡ done t)
          × (c.expires_at ≡ e)

      drawn : (o : Option Bytes) → w.random ≡ o → (jti : String) × Made jti
      drawn none q = ("", signed-done (signer.parse_rsa_private_key private) _ t e (ground arith))
      drawn (some b) q =
          (w.hex b, signed-done (signer.parse_rsa_private_key private) _ t e (ground arith))

  generate_passes :
      (m : Manager) (w : World) (user_id token_type : String) (ttl : ℤ) (private : Bytes)
      (roles : List String) (at e : Time) (t : Bytes) (r : Request)
      → Verifies signer lib key private at
      → generate signer m w user_id token_type ttl private roles ≡ returns (done (t, e))
      → user_id ≢ ""
      → at < e
      → validate_token lib key (bearing r t) ≡ done (enrich (bearing r t) user_id roles)
  generate_passes m w user_id token_type ttl private roles at e t r v made named fresh =
      let (jti, (k, parsed, sig, expiry)) =
        generate-done m w user_id token_type ttl private roles t e made in
      let c : Claims = claims_for m w user_id token_type ttl roles jti in
      let named_claim : (map_claims c).sub ≡ text user_id = ground (arith, eq_iff user_id "") in
      subst (λ rs. validate_token lib key (bearing r t) ≡ done (enrich (bearing r t) user_id rs))
        (roles_of-claim roles)
        (validate_token_passes lib key (bearing r t) user_id (record {
          token_str = t;
          token = record { method = rsa; valid = true; claims = some (map_claims c) };
          claims = map_claims c;
          header = refl;
          word = v.word k c t sig;
          parsed = v.verified k c t parsed sig (subst (λ x. at < x) (sym expiry) fresh);
          valid = refl;
          mapped = refl;
          subject = by_library (v.subject (map_claims c) user_id named_claim);
          named = named;
        }))

  generate_pair-done :
      (m : Manager) (first second : World) (user : User) (pair : TokenPair) (a b : Time)
      → generate_pair signer m first second user ≡ returns (done pair)
      → pair.access_expires_at ≡ some a
      → pair.refresh_expires_at ≡ some b
      → (generate signer m first user.id "access" m.access_ttl m.private_key_bytes user.roles
          ≡ returns (done (pair.access_token, a)))
        × (generate signer m second user.id "refresh" m.refresh_ttl m.private_key_bytes user.roles
            ≡ returns (done (pair.refresh_token, b)))
  unfolding generate_pair
  generate_pair-done m first second user pair a b h ea eb = ground arith

  -- Both tokens of a pair, the refresh token no less than the access token, let a request pass the
  -- gateway until they expire, as the user with the user's roles, where the JWT library verifies
  -- what was signed and the user has an id.
  pub generate_pair_passes :
      (m : Manager) (first second : World) (user : User) (pair : TokenPair) (at a b : Time)
      (r : Request)
      → Verifies signer lib key m.private_key_bytes at
      → generate_pair signer m first second user ≡ returns (done pair)
      → user.id ≢ ""
      → pair.access_expires_at ≡ some a
      → pair.refresh_expires_at ≡ some b
      → at < a
      → at < b
      → let access = bearing r pair.access_token in
        let refresh = bearing r pair.refresh_token in
        (validate_token lib key access ≡ done (enrich access user.id user.roles))
        × (validate_token lib key refresh ≡ done (enrich refresh user.id user.roles))
  generate_pair_passes m first second user pair at a b r v made named ea eb fa fb =
      let (access, refresh) = generate_pair-done m first second user pair a b made ea eb in
      (
        generate_passes m first user.id "access" m.access_ttl m.private_key_bytes user.roles at a
            pair.access_token r v access named fa,
        generate_passes m second user.id "refresh" m.refresh_ttl m.private_key_bytes user.roles at b
            pair.refresh_token r v refresh named fb,
      )
