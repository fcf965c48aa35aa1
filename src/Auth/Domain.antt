-- ===== src/Auth/Domain.antt =====
-- auth/domain/user.go, and the tables that auth/migrations and the statements of
-- auth/repository/auth.go describe.
use microservices_go.Prelude.{String, Bool, Option, List}
use microservices_go.Postgres.{Time}

pub record User : Type 0 where
  pub id : String
  pub email : String
  pub password : String
  pub created_at : Option Time
  pub roles : List String

pub record CreateUserParams : Type 0 where
  pub email : String
  pub password_hash : String

pub record SaveTokenParams : Type 0 where
  pub user_id : String
  pub token : String
  pub user_agent : String
  pub ip_address : String
  pub expires_at : Option Time
  pub revoked : Bool
  pub consumed_at : Option Time
  pub revoked_by : String

-- A row of `users`.
pub record UserRow : Type 0 where
  pub id : String
  pub email : String
  pub password_hash : String
  pub created_at : Option Time

-- A row of `refresh_tokens`, in the columns that the statements name.
pub record TokenRow : Type 0 where
  pub id : String
  pub user_id : String
  pub token_hash : String
  pub expires_at : Option Time
  pub consumed_at : Option Time
  pub revoked : Bool
  pub revoked_by : Option String

-- domain.Token, in the fields that GetTokenForUpdateTx fills.
pub record SessionToken : Type 0 where
  pub id : String
  pub user_id : String
  pub expires_at : Option Time
  pub consumed_at : Option Time
  pub revoked : Bool
  pub revoked_by : Option String

-- `roles` holds ids and codes, `user_roles` users and role ids.
pub record Database : Type 0 where
  pub users : List UserRow
  pub roles : List (String × String)
  pub user_roles : List (String × Option String)
  pub tokens : List TokenRow

-- What the database does during one statement. No migration declares the tables `roles` and
-- `user_roles` and the columns `revoked`, `consumed_at` and `revoked_by`: whether a row of
-- `user_roles` is rejected and the default of `revoked` are arguments. So are the orders that SQL
-- leaves open: that of the rows a DELETE meets, and that of array_agg.
pub record Env : Type 0 where
  pub exec_fails : Bool
  pub role_fails : Bool
  pub rejects_role : Option String → Bool
  pub revoked_default : Bool
  pub scan : List TokenRow → List TokenRow
  pub array_agg : List String → List String
  pub locked : List String
  pub uuid : String
  pub now : Time
