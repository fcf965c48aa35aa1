-- ===== src/Auth/Tokens.antt =====
-- auth/tokens/tokens.go. Signing and key parsing belong to the JWT library, time and hexadecimal
-- text to Go's: they are arguments.
pub mod Accepted
use microservices_go.Prelude.{String, ℤ, Option, none, some, List, Bytes}
use microservices_go.Errors.{GoError, wrap, Result, done, fail, Outcome, exits, returns}
use microservices_go.Postgres.{Time}
use microservices_go.Auth.Domain.{User}

pub record TokenPair : Type 0 where
  pub access_token : Bytes
  pub refresh_token : Bytes
  pub access_expires_at : Option Time
  pub refresh_expires_at : Option Time

-- Manager, in the fields that its methods read.
pub record Manager : Type 0 where
  pub access_ttl : ℤ
  pub refresh_ttl : ℤ
  pub issuer : String
  pub private_key_bytes : Bytes

-- Claims, with the registered claims that are set.
pub record Claims : Type 0 where
  pub token_type : String
  pub roles : List String
  pub id : String
  pub subject : String
  pub issuer : String
  pub issued_at : Time
  pub expires_at : Time

-- ParseRSAPrivateKeyFromPEM, and SignedString of a token with the method RS256.
pub record Signer (K : Type 0) : Type 0 where
  pub parse_rsa_private_key : Bytes → Option K
  pub signed_string : K → Claims → Result Bytes

-- What one call meets: the clock, time.Add, the random bytes (`none` is an error), and
-- hex.EncodeToString.
pub record World : Type 0 where
  pub now : Time
  pub add : Time → ℤ → Time
  pub random : Option Bytes
  pub hex : Bytes → String

-- An error of the random source is not passed on.
unfoldable pub random_hex : World → Result String
random_hex w = elim w.random [ none ↦ done "" | some b ↦ done (w.hex b) ]

abbrev pub claims_for :
    Manager → World → (user_id token_type : String) → ℤ → List String → String → Claims
claims_for m w user_id token_type ttl roles jti = record {
  token_type = token_type;
  roles = roles;
  id = jti;
  subject = user_id;
  issuer = m.issuer;
  issued_at = w.now;
  expires_at = w.add w.now ttl;
}

module _ {K : Type 0} (signer : Signer K) where
  abbrev pub signed : Option K → Claims → Outcome (Bytes × Time)
  signed none claims = exits
  signed (some private_key) claims = elim (signer.signed_string private_key claims) [
    | fail err ↦ returns (fail (wrap "sign token" err))
    | done t ↦ returns (done (t, claims.expires_at))
  ]

  unfoldable pub generate :
      Manager
      → World
      → (user_id token_type : String) → ℤ
      → Bytes
      → List String
      → Outcome (Bytes × Time)
  generate m w user_id token_type ttl private_key_bytes roles = elim (random_hex w) [
    | fail err ↦ returns (fail (wrap "generate jti" err))
    | done jti ↦
        signed (signer.parse_rsa_private_key private_key_bytes)
          (claims_for m w user_id token_type ttl roles jti)
  ]

  -- The two calls of generate meet the world one after the other.
  unfoldable pub generate_pair : Manager → (first second : World) → User → Outcome TokenPair
  generate_pair m first second user =
      elim (generate m first user.id "access" m.access_ttl m.private_key_bytes user.roles) [
        | exits ↦ exits
        | returns (fail err) ↦ returns (fail (wrap "generate access token" err))
        | returns (done (access_token, access_expires_at)) ↦
            elim (generate m second user.id "refresh" m.refresh_ttl m.private_key_bytes
              user.roles) [
                | exits ↦ exits
                | returns (fail err) ↦ returns (fail (wrap "generate refresh token" err))
                | returns (done (refresh_token, refresh_expires_at)) ↦ returns (
                    done (record {
                      access_token = access_token;
                      refresh_token = refresh_token;
                      access_expires_at = some access_expires_at;
                      refresh_expires_at = some refresh_expires_at;
                    }))
              ]
      ]
