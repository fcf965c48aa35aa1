-- ===== src/Auth/Repository.antt =====
-- The statements of auth/repository/auth.go on users, over the tables.
pub mod Users
use microservices_go.Prelude.{
  is_some, ℕ, String, Bool, true, false, ◌&&◌, not, Option, none, some, List, [], ◌∷◌, ◌++◌, map,
  length, take, keep, codes, ltb, str_eq, if◌then◌else◌,
}
use microservices_go.Errors.{
  GoError, message, pg, sentinel, wrap, is, Result, done, fail, user_already_exists, user_not_found,
  token_not_found, no_rows,
}
use microservices_go.Postgres.{Time}
use microservices_go.Auth.Domain.{
  User, CreateUserParams, SaveTokenParams, UserRow, TokenRow, SessionToken, Database, Env,
}

-- WHERE u.id = $1 and WHERE u.email = $1, on unique columns.
abbrev pub find_user : String → List UserRow → Option UserRow
find_user i [] = none
find_user i (u ∷ us) = if str_eq u.id i then some u else find_user i us

abbrev pub find_email : String → List UserRow → Option UserRow
find_email e [] = none
find_email e (u ∷ us) = if str_eq u.email e then some u else find_email e us

-- The codes of the roles with an id, and the ids of the roles with a code.
abbrev pub codes_of : String → List (String × String) → List String
codes_of i [] = []
codes_of i ((j, c) ∷ rs) = if str_eq j i then c ∷ codes_of i rs else codes_of i rs

abbrev pub ids_of_code : String → List (String × String) → List String
ids_of_code c [] = []
ids_of_code c ((j, d) ∷ rs) = if str_eq d c then j ∷ ids_of_code c rs else ids_of_code c rs

abbrev pub joined_codes : List (String × String) → Option String → List String
joined_codes roles none = []
joined_codes roles (some i) = codes_of i roles

-- The two joins, and the filter on codes that are not null.
abbrev pub role_codes :
    List (String × String) → String → List (String × Option String) → List String
role_codes roles u [] = []
role_codes roles u ((v, i) ∷ rest) =
    if str_eq v u then joined_codes roles i ++ role_codes roles u rest else role_codes roles u rest

abbrev user_of : Env → Database → String → UserRow → User
user_of env db password u = record {
  id = u.id;
  email = u.email;
  password = password;
  created_at = u.created_at;
  roles = env.array_agg (role_codes db.roles u.id db.user_roles);
}

unfoldable pub get_user_by_id : Env → String → Database → Result User
get_user_by_id env user_id db =
    if env.exec_fails
    then fail (wrap "failed to query user" (message "query row"))
    else elim (find_user user_id db.users) [
      | none ↦ fail (sentinel user_not_found)
      | some u ↦ done (user_of env db "" u)
    ]

unfoldable pub get_user_by_email : Env → String → Database → Result User
get_user_by_email env email db =
    if env.exec_fails
    then fail (wrap "get user by email" (message "query row"))
    else elim (find_email email db.users) [
      | none ↦ fail (sentinel user_not_found)
      | some u ↦ done (user_of env db u.password_hash u)
    ]

-- A conflict on the email inserts nothing, so that RETURNING gives no row.
abbrev insert_user : Env → CreateUserParams → Database → Result UserRow
insert_user env params db =
    if env.exec_fails
    then fail (message "query row")
    else if ltb 255 (length (codes params.email))
    then fail (pg "22001" "")
    else if is_some (find_email params.email db.users)
    then fail (sentinel no_rows)
    else if is_some (find_user env.uuid db.users)
    then fail (pg "23505" "users_pkey")
    else done (record {
      id = env.uuid;
      email = params.email;
      password_hash = params.password_hash;
      created_at = some env.now;
    })

-- SELECT id FROM roles WHERE code = 'user', as a value: NULL if there is none.
abbrev pub scalar : List String → Result (Option String)
scalar [] = done none
scalar (i ∷ []) = done (some i)
scalar (_ ∷ _ ∷ _) = fail (pg "21000" "")

abbrev insert_role : Env → String → Database → Result Database
insert_role env user_id db =
    if env.role_fails then fail (message "exec") else elim (scalar (ids_of_code "user" db.roles)) [
      | fail e ↦ fail e
      | done role_id ↦
          if env.rejects_role role_id
          then fail (pg "23502" "")
          else done (record db { user_roles = db.user_roles ++ (user_id, role_id) ∷ [] })
    ]

abbrev insert_user_error : GoError → GoError
insert_user_error e = if is e no_rows then sentinel user_already_exists else wrap "insert user" e

abbrev registered : UserRow → Database → User × Database
registered u db = (
  record {
    id = u.id;
    email = u.email;
    password = u.password_hash;
    created_at = u.created_at;
    roles = "user" ∷ [];
  },
  db,
)

unfoldable pub register_tx : Env → CreateUserParams → Database → Result (User × Database)
register_tx env params db = elim (insert_user env params db) [
  | fail e ↦ fail (insert_user_error e)
  | done u ↦ elim (insert_role env u.id (record db { users = db.users ++ u ∷ [] })) [
    | fail e ↦ fail (wrap "assign default role" e)
    | done db' ↦ done (registered u db')
  ]
]
