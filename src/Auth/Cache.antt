-- ===== src/Auth/Cache.antt =====
-- auth/repository/redis/cache.go. The Redis client is an argument: its two commands on a state of its
-- own, with the state after each.
use microservices_go.Prelude.{ℕ, String}
use microservices_go.Errors.{Result}

-- A time.Duration, in nanoseconds.
abbrev pub Duration : Type 0
Duration = ℕ

pub record Client (S V : Type 0) : Type 0 where
  pub get : String → S → Result String × S
  pub set : String → V → Duration → S → Result (Unit {0}) × S

pub record CacheRedis (S V : Type 0) : Type 0 where
  pub redis : Client S V

module _ {S V : Type 0} where
  unfoldable pub new_token_cache : Client S V → CacheRedis S V
  new_token_cache redis = record { redis = redis }

  unfoldable pub get : CacheRedis S V → (key : String) → S → Result String × S
  get c key s = c.redis.get key s

  unfoldable pub set :
      CacheRedis S V → (key : String) → V → (expiration : Duration) → S → Result (Unit {0}) × S
  set c key value expiration s = c.redis.set key value expiration s
