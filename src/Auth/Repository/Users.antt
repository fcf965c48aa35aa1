-- ===== src/Auth/Repository/Users.antt =====
-- Registration, and reading users back (auth/repository/auth.go).
use microservices_go.Prelude.{
  is_some, String, true, false, Option, none, some, List, [], ◌∷◌, ◌++◌, str_eq, eq_iff, ◌≡◌, refl,
  sym, ap, ◌∙◌, ◌↔◌, arith, length, codes, ltb, Bool-cases, inl, inr,
}
use mathlib.Core.List.{append-nil, append_assoc}
use microservices_go.Errors.{sentinel, user_already_exists, done, fail}
use microservices_go.Auth.Domain.{User, UserRow, CreateUserParams, Database, Env}
use microservices_go.Auth.Repository.{
  find_email, role_codes, codes_of, joined_codes, ids_of_code, register_tx, get_user_by_email,
}

find_email-append_last :
    (us : List UserRow) (u : UserRow)
    → find_email u.email us ≡ none
    → find_email u.email (us ++ u ∷ []) ≡ some u
find_email-append_last [] u h = ground (arith, eq_iff u.email u.email)
find_email-append_last (v ∷ us) u h = ground (arith, find_email-append_last us u)

role_codes-append :
    (roles : List (String × String)) (u i : String) (l : List (String × Option String))
    → role_codes roles u (l ++ (u, some i) ∷ []) ≡ role_codes roles u l ++ codes_of i roles
role_codes-append roles u i [] = ground (arith, eq_iff u u, append-nil (codes_of i roles))
role_codes-append roles u i ((v, j) ∷ l) = elim (Bool-cases (str_eq v u)) [
  | inl own ↦ rw own (
      ap (λ r. joined_codes roles j ++ r) (role_codes-append roles u i l)
      ∙ sym (append_assoc (joined_codes roles j) (role_codes roles u l) (codes_of i roles)))
  | inr other ↦ rw other (role_codes-append roles u i l)
]

-- Registration fails with ErrUserAlreadyExists exactly when the statement runs on an email of at
-- most 255 characters that a user has already.
pub register_tx_exists :
    (env : Env) (params : CreateUserParams) (db : Database)
    → (register_tx env params db ≡ fail (sentinel user_already_exists)) ↔ (
        (env.exec_fails ≡ false)
        × (ltb 255 (length (codes params.email)) ≡ false)
        × (is_some (find_email params.email db.users) ≡ true))
unfolding register_tx
register_tx_exists env params db = (λ h. ground arith, λ (a, b, c). ground arith)

-- What a registration that succeeds leaves, when one role has the code "user".
register_tx-done :
    (env : Env) (params : CreateUserParams) (db db' : Database) (u : User) (i : String)
    → register_tx env params db ≡ done (u, db')
    → ids_of_code "user" db.roles ≡ i ∷ []
    → let row : UserRow = record {
      id = env.uuid;
      email = params.email;
      password_hash = params.password_hash;
      created_at = some env.now;
    } in
      (find_email params.email db.users ≡ none)
      × (u ≡ record {
        id = env.uuid;
        email = params.email;
        password = params.password_hash;
        created_at = some env.now;
        roles = "user" ∷ [];
      })
      × (db' ≡ record db {
        users = db.users ++ row ∷ [];
        user_roles = db.user_roles ++ (env.uuid, some i) ∷ [];
      })
unfolding register_tx
register_tx-done env params db db' u i h only = (ground arith, ground arith, ground arith)

-- A user who has been registered is found by the email as registration returned it, password hash
-- and roles included, when exactly one role has the code "user", its id has no other code, no role
-- was left under the new id, and array_agg keeps a single element.
pub register_tx_then_get :
    (env reader : Env) (params : CreateUserParams) (db db' : Database) (u : User) (i : String)
    → register_tx env params db ≡ done (u, db')
    → ids_of_code "user" db.roles ≡ i ∷ []
    → codes_of i db.roles ≡ "user" ∷ []
    → role_codes db.roles env.uuid db.user_roles ≡ []
    → reader.exec_fails ≡ false
    → reader.array_agg ("user" ∷ []) ≡ "user" ∷ []
    → get_user_by_email reader params.email db' ≡ done u
unfolding get_user_by_email
register_tx_then_get env reader params db db' u i h only code fresh up single =
    let (new, user, after) = register_tx-done env params db db' u i h only in
    let row : UserRow = record {
      id = env.uuid;
      email = params.email;
      password_hash = params.password_hash;
      created_at = some env.now;
    } in
    let found = find_email-append_last db.users row new in
    let codes_now = role_codes-append db.roles env.uuid i db.user_roles in
    let agg : reader.array_agg
          (role_codes db.roles env.uuid (db.user_roles ++ (env.uuid, some i) ∷ []))
        ≡ "user" ∷ [] =
      ap reader.array_agg (codes_now ∙ ap (λ l. l ++ codes_of i db.roles) fresh ∙ code) ∙ single in
    ap (get_user_by_email reader params.email) after
    ∙ rw (up, found) (rw agg refl)
    ∙ ap done (sym user)
