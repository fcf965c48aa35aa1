-- ===== src/Tests/Config.antt =====
-- Examples for pkg/utils/env and auth/config.
use microservices_go.Prelude.{◌<◌, pos, none, some, [], codes, decimal_int, ◌≡◌, ◌≢◌, ◌↔◌, ◌⊎◌}
use microservices_go.Errors.{done, returns}
use microservices_go.Config.Environment.{Environment, Value, int, parse_env_with_fallback}
use microservices_go.Config.Environment.Reads.{type_of, parse_env_keeps_type}
use microservices_go.Config.AuthConfig.{Config, System, load}
use microservices_go.Config.AuthConfig.Loaded.{Loads, load_iff}

-- Every variable is set to "7".
abbrev sevens : Environment
sevens name = decimal_int (pos 7)

parse_env_keeps_type_example :
    let fallback : Value Unit Unit = int (pos 5000) in
    let v = parse_env_with_fallback (λ s. none) sevens "REFRESH_WORKER_LIMIT" fallback in
    (type_of v ≡ 1) × ((v ≡ fallback) ⊎ ((decimal_int (pos 7) ≢ []) × (1 < 4)))
parse_env_keeps_type_example =
    parse_env_keeps_type {F = Unit} {O = Unit} (λ s. none) sevens "REFRESH_WORKER_LIMIT"
      (int (pos 5000))

-- Every variable is set to the same text of 32 bytes.
abbrev os : System
os = record {
  getenv = λ name. codes "0123456789abcdef0123456789abcdef";
  parse_duration = λ s. some (pos 900);
  read_file = λ name. some (codes "key");
}

abbrev config : Config
config = record {
  redis_url = codes "0123456789abcdef0123456789abcdef";
  broker_url = codes "0123456789abcdef0123456789abcdef";
  auth = record {
    access_secret = codes "0123456789abcdef0123456789abcdef";
    refresh_secret = codes "0123456789abcdef0123456789abcdef";
    access_ttl = pos 900;
    refresh_ttl = pos 900;
    issuer = codes "0123456789abcdef0123456789abcdef";
    private_key_bytes = codes "key";
  };
}

load_iff_example : (load os ≡ returns (done config)) ↔ Loads os config
load_iff_example = load_iff os config
