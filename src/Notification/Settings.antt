-- ===== src/Notification/Settings.antt =====
-- notification/internal/config/config.go. cleanenv.ReadConfig, which fills the record from the file
-- and the environment, is an argument.
use microservices_go.Prelude.{String, ℤ}
use microservices_go.Errors.{Result, done, fail, wrap}

pub record NotificationConfig : Type 0 where
  pub db_url : String
  pub broker_url : String
  pub smtp_port : ℤ
  pub smtp_email : String
  pub smtp_host : String
  pub smtp_pass : String

unfoldable pub new_config :
    (read_config : String → Result NotificationConfig) → (path : String) → Result NotificationConfig
new_config read_config path = elim (read_config path) [
  | fail err ↦ fail (wrap "failed to read config" err)
  | done res ↦ done res
]
