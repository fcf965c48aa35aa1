-- ===== src/Config/AuthConfig.antt =====
-- auth/config/config.go. The file and the reading of durations are arguments.
pub mod Loaded
use microservices_go.Prelude.{ℕ, ℤ, String, Option, none, some, Bytes, length, ltb, if◌then◌else◌}
use microservices_go.Errors.{message, wrap, Result, done, fail, Outcome, exits, returns}
use microservices_go.Config.Environment.{Environment, parse_env_text}

pub record AuthConfig : Type 0 where
  pub access_secret : Bytes
  pub refresh_secret : Bytes
  pub access_ttl : ℤ
  pub refresh_ttl : ℤ
  pub issuer : Bytes
  pub private_key_bytes : Bytes

pub record Config : Type 0 where
  pub auth : AuthConfig
  pub redis_url : Bytes
  pub broker_url : Bytes

-- The environment, after godotenv has filled it from .env, time.ParseDuration, and os.ReadFile.
pub record System : Type 0 where
  pub getenv : Environment
  pub parse_duration : Bytes → Option ℤ
  pub read_file : String → Option Bytes

infixl 5 ◌>>=◌
abbrev pub ◌>>=◌ : {A B : Type 0} → Outcome A → (A → Outcome B) → Outcome B
exits >>= f = exits
returns (fail e) >>= f = returns (fail e)
returns (done a) >>= f = f a

abbrev pub or_fail : {A : Type 0} → Option A → String → Outcome A
or_fail none text = returns (fail (wrap text (message "parse")))
or_fail (some a) text = returns (done a)

abbrev pub or_exit : {A : Type 0} → Option A → Outcome A
or_exit none = exits
or_exit (some a) = returns (done a)

abbrev pub long_enough : Bytes → String → Outcome Bytes
long_enough secret text =
    if ltb (length secret) 32 then returns (fail (message text)) else returns (done secret)

unfoldable pub load : System → Outcome Config
load os = do
  access_ttl ←
      or_fail (os.parse_duration (parse_env_text os.getenv "ACCESS_TTL" "15m"))
        "failed to parse ACCESS_TTL"
  refresh_ttl ←
      or_fail (os.parse_duration (parse_env_text os.getenv "REFRESH_TTL" "720h"))
        "failed to parse REFRESH_TTL"
  access_secret ←
      long_enough (parse_env_text os.getenv "AUTH_ACCESS_SECRET" "")
        "access secret must be at least 16 bytes"
  refresh_secret ←
      long_enough (parse_env_text os.getenv "AUTH_REFRESH_SECRET" "")
        "refresh secret must be at least 16 bytes"
  private_key_bytes ← or_exit (os.read_file "private.pem")
  returns (
      done (record {
        redis_url = parse_env_text os.getenv "REDIS_URL" "localhost:6379";
        broker_url = parse_env_text os.getenv "BROKER_URL" "";
        auth = record {
          access_secret = access_secret;
          refresh_secret = refresh_secret;
          access_ttl = access_ttl;
          refresh_ttl = refresh_ttl;
          issuer = parse_env_text os.getenv "AUTH_ISSUER" "billing-auth-microservice";
          private_key_bytes = private_key_bytes;
        };
      }))
