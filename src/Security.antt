-- ===== src/Security.antt =====
-- pkg/utils/security/hash.go. bcrypt is an argument.
use microservices_go.Prelude.{ℕ, Bool, Bytes}
use microservices_go.Errors.{Result, is_done}

-- GenerateFromPassword(password, cost), and CompareHashAndPassword(hashed, password).
pub record Bcrypt : Type 0 where
  pub generate_from_password : Bytes → ℕ → Result Bytes
  pub compare_hash_and_password : (hashed password : Bytes) → Result (Unit {0})

unfoldable pub hash : Bcrypt → Bytes → Result Bytes
hash bcrypt plain = bcrypt.generate_from_password plain 14

unfoldable pub verify_hash : Bcrypt → (hashed plain : Bytes) → Bool
verify_hash bcrypt hashed plain = is_done (bcrypt.compare_hash_and_password hashed plain)
