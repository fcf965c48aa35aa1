-- ===== src/Config/AuthConfig/Loaded.antt =====
-- Which configurations the auth service starts with (auth/config/config.go).
use microservices_go.Prelude.{◌≤◌, some, length, ◌≡◌, ◌↔◌, arith}
use microservices_go.Errors.{done, returns}
use microservices_go.Config.Environment.{parse_env_text}
use microservices_go.Config.AuthConfig.{Config, System, load}

-- The durations and the key file could be read, and both secrets have at least 32 bytes; the other
-- fields are read from the environment.
pub record Loads (os : System) (cfg : Config) : Type 0 where
  pub access_ttl :
      os.parse_duration (parse_env_text os.getenv "ACCESS_TTL" "15m") ≡ some cfg.auth.access_ttl
  pub refresh_ttl :
      os.parse_duration (parse_env_text os.getenv "REFRESH_TTL" "720h") ≡ some cfg.auth.refresh_ttl
  pub access_secret : parse_env_text os.getenv "AUTH_ACCESS_SECRET" "" ≡ cfg.auth.access_secret
  pub refresh_secret : parse_env_text os.getenv "AUTH_REFRESH_SECRET" "" ≡ cfg.auth.refresh_secret
  pub access_long : 32 ≤ length cfg.auth.access_secret
  pub refresh_long : 32 ≤ length cfg.auth.refresh_secret
  pub issuer : parse_env_text os.getenv "AUTH_ISSUER" "billing-auth-microservice" ≡ cfg.auth.issuer
  pub key : os.read_file "private.pem" ≡ some cfg.auth.private_key_bytes
  pub redis : parse_env_text os.getenv "REDIS_URL" "localhost:6379" ≡ cfg.redis_url
  pub broker : parse_env_text os.getenv "BROKER_URL" "" ≡ cfg.broker_url

-- Load gives a configuration exactly if both durations parse, both secrets have at least 32 bytes
-- and the private key can be read, and it is the one that the environment and the file say.
pub load_iff : (os : System) (cfg : Config) → (load os ≡ returns (done cfg)) ↔ Loads os cfg
unfolding load
load_iff os cfg = (λ h. read h, λ l. ground arith)
  where
    read : load os ≡ returns (done cfg) → Loads os cfg
    read h = record {
      access_ttl = ground arith;
      refresh_ttl = ground arith;
      access_secret = ground arith;
      refresh_secret = ground arith;
      access_long = ground arith;
      refresh_long = ground arith;
      issuer = ground arith;
      key = ground arith;
      redis = ground arith;
      broker = ground arith;
    }
