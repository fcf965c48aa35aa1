-- ===== src/Auth/Refresh/Sessions.antt =====
-- What the statements do to refresh tokens (auth/repository/auth.go).
use microservices_go.Prelude.{
  String, true, false, none, some, List, [], ◌∷◌, ◌++◌, map, str_eq, eq_iff, ltb, ◌<◌, ◌≤◌, ◌≡◌,
  ◌≢◌, ◌⊎◌, inl, inr, refl, sym, ap, ◌∙◌, arith, Bool-cases, Option-cases,
}
use microservices_go.Errors.{done}
use microservices_go.Postgres.{Time}
use microservices_go.Auth.Domain.{SaveTokenParams, TokenRow, Database, Env}
use microservices_go.Auth.Refresh.{
  find_hash, save_refresh_tx, mark_token_as_consumed_tx, consume_row, revoke_all_user_tokens_tx,
  revoke_row, get_token_for_update_tx, session_of, new_token,
}

find_hash-revoke :
    (now : Time) (u hash_str : String) (rows : List TokenRow) (r : TokenRow)
    → find_hash hash_str rows ≡ some r
    → find_hash hash_str (map (revoke_row now u) rows) ≡ some (revoke_row now u r)
find_hash-revoke now u hash_str [] r h = cc
find_hash-revoke now u hash_str (s ∷ rows) r h =
    ground (arith, find_hash-revoke now u hash_str rows r)

-- The token of a user that may still be used at a time.
abbrev pub IsLive : Time → String → TokenRow → Type 0
IsLive now u r =
    (r.user_id ≡ u) × (r.revoked ≡ false) × ((t : Time) × (r.expires_at ≡ some t) × (now < t))

-- It is another user's, revoked, or without a later expiry.
abbrev pub IsNoSession : Time → String → TokenRow → Type 0
IsNoSession now u r =
    (r.user_id ≢ u)
    ⊎ (r.revoked ≡ true)
    ⊎ (r.expires_at ≡ none)
    ⊎ ((t : Time) × (r.expires_at ≡ some t) × (t ≤ now))

revoke_row-cases :
    (now : Time) (u : String) (r : TokenRow)
    → (IsLive now u r × (revoke_row now u r ≡ record r { revoked = true }))
      ⊎ (IsNoSession now u r × (revoke_row now u r ≡ r))
revoke_row-cases now u r = elim (Bool-cases (str_eq r.user_id u)) [
  | inr other ↦ inr (inl (ground (arith, eq_iff r.user_id u)), ground arith)
  | inl own ↦ elim (Bool-cases r.revoked) [
    | inl gone ↦ inr (inr (inl gone), ground arith)
    | inr usable ↦ elim (Option-cases r.expires_at) [
      | inl never ↦ inr (inr (inr (inl never)), ground arith)
      | inr (t, e) ↦ elim (Bool-cases (ltb now t)) [
        | inl later ↦
            inl ((ground (arith, eq_iff r.user_id u), usable, (t, e, ground arith)), ground arith)
        | inr past ↦ inr (inr (inr (inr (t, e, ground arith))), ground arith)
      ]
    ]
  ]
]

-- After the tokens of a user are revoked, the token of a hash is read back as revoked and otherwise
-- as it was, if it was that user's, not revoked and with a later expiry; it is read back as it was,
-- if it was another user's, revoked already, or without a later expiry.
pub revoke_all_user_tokens_tx_closes :
    (env reader : Env) (u hash_str : String) (db db' : Database) (r : TokenRow)
    → revoke_all_user_tokens_tx env u db ≡ done db'
    → reader.exec_fails ≡ false
    → find_hash hash_str db.tokens ≡ some r
    → (IsLive env.now u r
        × (get_token_for_update_tx reader hash_str db'
            ≡ done (session_of (record r { revoked = true }))))
      ⊎ (IsNoSession env.now u r
          × (get_token_for_update_tx reader hash_str db' ≡ done (session_of r)))
unfolding revoke_all_user_tokens_tx get_token_for_update_tx
revoke_all_user_tokens_tx_closes env reader u hash_str db db' r h up found =
    let after : record db { tokens = map (revoke_row env.now u) db.tokens } ≡ db' = ground arith in
    let kept : find_hash hash_str db'.tokens ≡ some (revoke_row env.now u r) =
      ap (λ d. find_hash hash_str d.tokens) (sym after)
      ∙ find_hash-revoke env.now u hash_str db.tokens r found in
    elim (revoke_row-cases env.now u r) [
      | inl (live, same) ↦ inl (live, rw (up, kept, same) refl)
      | inr (ended, same) ↦ inr (ended, rw (up, kept, same) refl)
    ]

find_hash-append_last :
    (rows : List TokenRow) (r : TokenRow)
    → find_hash r.token_hash rows ≡ none
    → find_hash r.token_hash (rows ++ r ∷ []) ≡ some r
find_hash-append_last [] r h = ground (arith, eq_iff r.token_hash r.token_hash)
find_hash-append_last (s ∷ rows) r h = ground (arith, find_hash-append_last rows r)

find_hash-consume :
    (now : Time) (old new : String) (rows : List TokenRow) (r : TokenRow)
    → find_hash old rows ≡ some r
    → find_hash old (map (consume_row now old new) rows)
      ≡ some (record r { consumed_at = some now; revoked = true; revoked_by = some new })
find_hash-consume now old new [] r h = cc
find_hash-consume now old new (s ∷ rows) r h = ground (arith, find_hash-consume now old new rows r)

saved_row :
    (env : Env) (params : SaveTokenParams) (db db' : Database)
    → save_refresh_tx env params db ≡ done db'
    → (find_hash params.token db.tokens ≡ none)
      × (db' ≡ record db { tokens = db.tokens ++ new_token env params ∷ [] })
unfolding save_refresh_tx
saved_row env params db db' h = (ground arith, ground arith)

-- The life of a refresh token: once it is saved it is read back under its hash, not consumed; and
-- once it has been marked as consumed it is read back as revoked, with the hash of its successor,
-- so that a second use is seen.
pub saved_token_is_consumed_once :
    (env at reader : Env) (params : SaveTokenParams) (successor : String) (db saved : Database)
    → save_refresh_tx env params db ≡ done saved
    → at.exec_fails ≡ false
    → reader.exec_fails ≡ false
    → let t = session_of (new_token env params) in
      (get_token_for_update_tx reader params.token saved ≡ done t)
      × ((used : Database) × (mark_token_as_consumed_tx at params.token successor saved ≡ done used)
          × (get_token_for_update_tx reader params.token used
              ≡ done (record t {
                consumed_at = some at.now;
                revoked = true;
                revoked_by = some successor;
              })))
unfolding get_token_for_update_tx mark_token_as_consumed_tx
saved_token_is_consumed_once env at reader params successor db saved h up up' =
    let (new, after) = saved_row env params db saved h in
    let found : find_hash params.token saved.tokens ≡ some (new_token env params) =
      ap (λ d. find_hash params.token d.tokens) after
      ∙ find_hash-append_last db.tokens (new_token env params) new in
    (
      ground arith,
      (
        record saved { tokens = map (consume_row at.now params.token successor) saved.tokens },
        ground arith,
        ground (
          arith,
          find_hash-consume at.now params.token successor saved.tokens (new_token env params) found,
        ),
      ),
    )
