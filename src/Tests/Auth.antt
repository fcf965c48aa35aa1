-- ===== src/Tests/Auth.antt =====
-- Examples for auth/: a user with one refresh token, and an empty database.
use mathlib.Core.List.{Memᴰ}
use microservices_go.Prelude.{
  String, pos, true, false, Option, none, some, List, [], ◌∷◌, All, Bytes, bytes_eq, str_eq, ◌&&◌,
  if◌then◌else◌, ◌⊎◌, inl, inr, ◌≡◌, ◌≢◌, refl, arith, eq_iff,
}
use microservices_go.Errors.{message, Result, done, fail}
use microservices_go.Auth.Domain.{
  TokenRow, User, UserRow, CreateUserParams, SaveTokenParams, Database, Env,
}
use microservices_go.Auth.Repository.{register_tx, get_user_by_email}
use microservices_go.Auth.Refresh.{
  save_refresh_tx, mark_token_as_consumed_tx, get_token_for_update_tx, session_of, new_token,
  revoke_all_user_tokens_tx,
}
use microservices_go.Auth.Repository.Users.{register_tx_then_get}
use microservices_go.Auth.Refresh.Sessions.{
  IsLive, IsNoSession, revoke_all_user_tokens_tx_closes, saved_token_is_consumed_once,
}
use microservices_go.Auth.Cleanup.{tick, stop, start_cleanup_worker}
use microservices_go.Auth.Cleanup.Live.{
  live_rows, All-Memᴰ, ScansTable, start_cleanup_worker_keeps_live,
}
use microservices_go.Auth.Cleanup.Drain.{IsCalm, IsClean, start_cleanup_worker_drains}
use microservices_go.Auth.Tokens.{
  TokenPair, Manager, Claims, Signer, World, generate, random_hex, generate_pair,
}
use microservices_go.Errors.{returns}
use microservices_go.Auth.Tokens.Accepted.{map_claims, Verifies, bearing, generate_pair_passes}
use microservices_go.Auth.Handler.{Texts}
use microservices_go.Gateway.Middleware.Jwt.{
  Claim, Token, rsa, JwtLibrary, key_for, enrich, validate_token,
}
use microservices_go.Tests.Gateway.{request}

abbrev env : Env
env = record {
  exec_fails = false;
  role_fails = false;
  rejects_role = λ i. false;
  revoked_default = false;
  scan = λ rows. rows;
  array_agg = λ cs. cs;
  locked = [];
  uuid = "user-1";
  now = 50;
}

abbrev empty : Database
empty = record { users = []; roles = ("role-1", "user") ∷ []; user_roles = []; tokens = [] }

abbrev carol : CreateUserParams
carol = record { email = "carol@example.com"; password_hash = "hash" }

abbrev carol_row : UserRow
carol_row = record {
  id = "user-1";
  email = "carol@example.com";
  password_hash = "hash";
  created_at = some 50;
}

abbrev carol_user : User
carol_user = record {
  id = "user-1";
  email = "carol@example.com";
  password = "hash";
  created_at = some 50;
  roles = "user" ∷ [];
}

abbrev with_carol : Database
with_carol = record empty { users = carol_row ∷ []; user_roles = ("user-1", some "role-1") ∷ [] }

carol_registered : register_tx env carol empty ≡ done (carol_user, with_carol)
unfolding register_tx
carol_registered = refl

register_tx_then_get_example :
    get_user_by_email env "carol@example.com" with_carol ≡ done carol_user
register_tx_then_get_example =
    register_tx_then_get env env carol empty with_carol carol_user "role-1" carol_registered refl
      refl refl refl refl

abbrev session : SaveTokenParams
session = record {
  user_id = "user-1";
  token = "h1";
  user_agent = "";
  ip_address = "";
  expires_at = some 100;
  revoked = false;
  consumed_at = none;
  revoked_by = "";
}

abbrev with_session : Database
with_session = record with_carol { tokens = new_token env session ∷ [] }

session_saved : save_refresh_tx env session with_carol ≡ done with_session
unfolding save_refresh_tx
session_saved = refl

saved_token_is_consumed_once_example :
    let t = session_of (new_token env session) in
    (get_token_for_update_tx env "h1" with_session ≡ done t)
    × ((used : Database) × (mark_token_as_consumed_tx env "h1" "h2" with_session ≡ done used)
        × (get_token_for_update_tx env "h1" used
            ≡ done (record t { consumed_at = some 50; revoked = true; revoked_by = some "h2" })))
saved_token_is_consumed_once_example =
    saved_token_is_consumed_once env env env session "h2" with_carol with_session session_saved refl
      refl

abbrev closed_session : Database
closed_session = record with_carol {
  tokens = record (new_token env session) { revoked = true } ∷ [];
}

session_revoked : revoke_all_user_tokens_tx env "user-1" with_session ≡ done closed_session
unfolding revoke_all_user_tokens_tx
session_revoked = refl

revoke_all_user_tokens_tx_closes_example :
    let r = new_token env session in
    (IsLive 50 "user-1" r
      × (get_token_for_update_tx env "h1" closed_session
          ≡ done (session_of (record r { revoked = true }))))
    ⊎ (IsNoSession 50 "user-1" r
        × (get_token_for_update_tx env "h1" closed_session ≡ done (session_of r)))
revoke_all_user_tokens_tx_closes_example =
    revoke_all_user_tokens_tx_closes env env "user-1" "h1" with_session closed_session
      (new_token env session) session_revoked refl refl

env-ScansTable : ScansTable env
env-ScansTable rows = All-Memᴰ (λ r. Memᴰ r rows) rows (λ r m. m)

start_cleanup_worker_keeps_live_example :
    live_rows 60 (start_cleanup_worker 100 (tick env ∷ tick env ∷ stop ∷ []) with_session).tokens
    ≡ live_rows 60 with_session.tokens
start_cleanup_worker_keeps_live_example =
    start_cleanup_worker_keeps_live 100 (tick env ∷ tick env ∷ stop ∷ []) with_session 60
      (env-ScansTable, omega arith, (env-ScansTable, omega arith, tt)) (refl, tt)

abbrev texts : Texts
texts = record { errorf = λ e. "user already exists"; format = λ t. "2025-01-01T00:00:00Z" }

abbrev manager : Manager
manager = record {
  access_ttl = pos 10;
  refresh_ttl = pos 10;
  issuer = "billing-auth-microservice";
  private_key_bytes = [];
}

abbrev world : World
world = record { now = 50; add = λ t d. 60; random = some []; hex = λ b. "00" }

-- A signer for one user with one role, whose tokens are a letter, and a library that reads them.
abbrev sign_claims : (token_type subject : String) → List String → Result Bytes
sign_claims token_type subject [] = fail (message "claims")
sign_claims token_type subject (_ ∷ _ ∷ _) = fail (message "claims")
sign_claims token_type subject (role ∷ []) =
    if str_eq subject "user-1" && str_eq role "user"
    then if str_eq token_type "access"
      then done (97 ∷ [])
      else if str_eq token_type "refresh"
      then done (114 ∷ [])
      else fail (message "type")
    else fail (message "claims")

abbrev signer : Signer Bytes
signer = record {
  parse_rsa_private_key = λ b. some b;
  signed_string = λ k c. sign_claims c.token_type c.subject c.roles;
}

abbrev read_token : String → Token
read_token token_type = record {
  method = rsa;
  valid = true;
  claims = some (record {
    token_type = Claim.text token_type;
    sub = Claim.text "user-1";
    roles = Claim.items (some "user" ∷ []);
  });
}

abbrev subject_claim : Claim → Option String
subject_claim (Claim.text s) = some s
subject_claim _ = none

abbrev library : JwtLibrary
library = record {
  parse = λ key t.
      if bytes_eq t (97 ∷ []) then some (read_token "access") else some (read_token "refresh");
  get_subject = λ c. subject_claim c.sub;
}

signed_claims :
    (token_type subject : String) (roles : List String) (t : Bytes)
    → sign_claims token_type subject roles ≡ done t
    → (subject ≡ "user-1")
      × (roles ≡ "user" ∷ [])
      × (((token_type ≡ "access") × (t ≡ 97 ∷ [])) ⊎ ((token_type ≡ "refresh") × (t ≡ 114 ∷ [])))
signed_claims token_type subject [] t h = cc
signed_claims token_type subject (_ ∷ _ ∷ _) t h = cc
signed_claims token_type subject (role ∷ []) t h = ground (
  arith,
  eq_iff subject "user-1",
  eq_iff role "user",
  eq_iff token_type "access",
  eq_iff token_type "refresh",
)

signer-Verifies : Verifies signer library [] [] 55
signer-Verifies = record {
  verified =
      λ k c t parsed sig fresh. read c t (signed_claims c.token_type c.subject c.roles t sig);
  word = λ k c t sig. no_space t (signed_claims c.token_type c.subject c.roles t sig).2;
  subject = λ c s h. rw h refl;
}
  where
    read :
        (c : Claims) (t : Bytes)
        → (c.subject ≡ "user-1")
          × (c.roles ≡ "user" ∷ [])
          × (((c.token_type ≡ "access") × (t ≡ 97 ∷ []))
              ⊎ ((c.token_type ≡ "refresh") × (t ≡ 114 ∷ [])))
        → library.parse (key_for []) t
          ≡ some (record { method = rsa; valid = true; claims = some (map_claims c) })
    read c t (sub, roles, inl (ty, letter)) = rw (sub, roles, ty, letter) refl
    read c t (sub, roles, inr (ty, letter)) = rw (sub, roles, ty, letter) refl

    no_space :
        {P Q : Type 0} (t : Bytes)
        → (P × (t ≡ 97 ∷ [])) ⊎ (Q × (t ≡ 114 ∷ []))
        → All (λ x. x ≢ 32) t
    no_space t (inl (_, letter)) = rw letter ((λ e. ground arith), tt)
    no_space t (inr (_, letter)) = rw letter ((λ e. ground arith), tt)

abbrev pair : TokenPair
pair = record {
  access_token = 97 ∷ [];
  refresh_token = 114 ∷ [];
  access_expires_at = some 60;
  refresh_expires_at = some 60;
}

pair_made : generate_pair signer manager world world carol_user ≡ returns (done pair)
unfolding generate_pair generate random_hex
pair_made = refl

generate_pair_passes_example :
    let access = bearing request (97 ∷ []) in
    let refresh = bearing request (114 ∷ []) in
    (validate_token library [] access ≡ done (enrich access "user-1" ("user" ∷ [])))
    × (validate_token library [] refresh ≡ done (enrich refresh "user-1" ("user" ∷ [])))
generate_pair_passes_example =
    generate_pair_passes signer library [] manager world world carol_user pair 55 60 60 request
      signer-Verifies pair_made (λ e. ground (arith, eq_iff "user-1" "")) refl refl (omega arith)
      (omega arith)

-- Two expired sessions, and ticks that each delete one.
abbrev stale : String → TokenRow
stale i = record (new_token env session) { id = i; expires_at = some 40 }

abbrev backlog : Database
backlog = record with_carol { tokens = stale "t1" ∷ stale "t2" ∷ [] }

env-IsCalm : IsCalm 50 50 env
env-IsCalm = record {
  works = refl;
  unlocked = refl;
  begun = omega arith;
  ended = omega arith;
  inside = env-ScansTable;
  complete = λ rows r m. m;
  once = λ rows d. d;
}

start_cleanup_worker_drains_example :
    IsClean 50 (start_cleanup_worker 1 (tick env ∷ tick env ∷ []) backlog).tokens
start_cleanup_worker_drains_example =
    start_cleanup_worker_drains 50 50 1 (tick env ∷ tick env ∷ []) backlog (omega arith)
      (env-IsCalm, (env-IsCalm, tt)) ((refl, tt), (tt, tt)) (omega arith)
