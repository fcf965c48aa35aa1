-- ===== src/Auth/Refresh.antt =====
-- The statements of auth/repository/auth.go on refresh tokens, over the tables.
pub mod Sessions
use microservices_go.Prelude.{
  ℕ, String, Bool, true, false, ◌&&◌, not, Option, none, some, List, [], ◌∷◌, ◌++◌, map, length,
  take, keep, codes, ltb, str_eq, is_some, if◌then◌else◌,
}
use microservices_go.Errors.{message, pg, sentinel, wrap, Result, done, fail, token_not_found}
use microservices_go.Postgres.{Time}
use microservices_go.Auth.Domain.{SaveTokenParams, TokenRow, SessionToken, Database, Env}
use microservices_go.Auth.Repository.{find_user}

-- WHERE token_hash = $1, on a unique column.
abbrev pub find_hash : String → List TokenRow → Option TokenRow
find_hash h [] = none
find_hash h (r ∷ rs) = if str_eq r.token_hash h then some r else find_hash h rs

-- INSERT INTO refresh_tokens: the other columns get their defaults.
abbrev pub new_token : Env → SaveTokenParams → TokenRow
new_token env params = record {
  id = env.uuid;
  user_id = params.user_id;
  token_hash = params.token;
  expires_at = params.expires_at;
  consumed_at = none;
  revoked = env.revoked_default;
  revoked_by = none;
}

abbrev insert_token : Env → SaveTokenParams → Database → Result Database
insert_token env params db =
    if env.exec_fails
    then fail (message "exec")
    else if ltb 64 (length (codes params.token))
    then fail (pg "22001" "")
    else if is_some (find_hash params.token db.tokens)
    then fail (pg "23505" "refresh_tokens_token_hash_key")
    else if not (is_some (find_user params.user_id db.users))
    then fail (pg "23503" "refresh_tokens_user_id_fkey")
    else done (record db { tokens = db.tokens ++ new_token env params ∷ [] })

abbrev wrapped : String → Result Database → Result Database
wrapped text (done db) = done db
wrapped text (fail e) = fail (wrap text e)

unfoldable pub save_refresh_tx : Env → SaveTokenParams → Database → Result Database
save_refresh_tx env params db = wrapped "save refresh tx failed" (insert_token env params db)

unfoldable pub save_refresh : Env → SaveTokenParams → Database → Result Database
save_refresh env params db = wrapped "insert token" (insert_token env params db)

abbrev pub consume_row : Time → (old_hash new_hash : String) → TokenRow → TokenRow
consume_row now old_hash new_hash r =
    if str_eq r.token_hash old_hash
    then record r { consumed_at = some now; revoked = true; revoked_by = some new_hash }
    else r

unfoldable pub mark_token_as_consumed_tx :
    Env → (old_hash new_hash : String) → Database → Result Database
mark_token_as_consumed_tx env old_hash new_hash db =
    if env.exec_fails
    then fail (wrap "mark token as consumed" (message "exec"))
    else done (record db { tokens = map (consume_row env.now old_hash new_hash) db.tokens })

-- expires_at > NOW() and expires_at < NOW(), which are not true of NULL.
abbrev pub is_after : Time → Option Time → Bool
is_after now none = false
is_after now (some t) = ltb now t

abbrev pub is_expired : Time → Option Time → Bool
is_expired now none = false
is_expired now (some t) = ltb t now

abbrev pub is_open : Time → String → TokenRow → Bool
is_open now user_id r = str_eq r.user_id user_id && not r.revoked && is_after now r.expires_at

abbrev pub revoke_row : Time → String → TokenRow → TokenRow
revoke_row now user_id r = if is_open now user_id r then record r { revoked = true } else r

unfoldable pub revoke_all_user_tokens_tx : Env → String → Database → Result Database
revoke_all_user_tokens_tx env user_id db =
    if env.exec_fails
    then fail (wrap "revoke all user tokens" (message "exec"))
    else done (record db { tokens = map (revoke_row env.now user_id) db.tokens })

abbrev pub session_of : TokenRow → SessionToken
session_of r = record {
  id = r.id;
  user_id = r.user_id;
  expires_at = r.expires_at;
  consumed_at = r.consumed_at;
  revoked = r.revoked;
  revoked_by = r.revoked_by;
}

unfoldable pub get_token_for_update_tx : Env → String → Database → Result SessionToken
get_token_for_update_tx env hash_str db =
    if env.exec_fails
    then fail (wrap "get token for update" (message "query row"))
    else elim (find_hash hash_str db.tokens) [
      | none ↦ fail (sentinel token_not_found)
      | some r ↦ done (session_of r)
    ]

abbrev pub is_member : List String → String → Bool
is_member [] i = false
is_member (j ∷ js) i = if str_eq j i then true else is_member js i

-- The rows that the inner SELECT takes.
abbrev pub chosen : Env → ℕ → List TokenRow → List TokenRow
chosen env limit rows =
    take limit (
      keep (λ r. is_expired env.now r.expires_at && not (is_member env.locked r.id))
        (env.scan rows))

abbrev pub delete_ids : List String → List TokenRow → List TokenRow
delete_ids ids rows = keep (λ r. not (is_member ids r.id)) rows

unfoldable pub delete_expired_tokens : Env → ℕ → Database → Result Database
delete_expired_tokens env limit db =
    if env.exec_fails
    then fail (wrap "delete expired tokens" (message "exec"))
    else done
        (record db { tokens = delete_ids (map (λ r. r.id) (chosen env limit db.tokens)) db.tokens })
