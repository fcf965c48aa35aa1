-- ===== src/Process/Mains.antt =====
-- auth/main.go, billing/main.go, notification/cmd/main.go and gateway/main.go. A pool is created and
-- pinged by pkg/utils/storage/postgres.go.
pub mod Shutdown
use microservices_go.Prelude.{ℤ, pos, String, true, false, [], ◌∷◌, bytes_eq, if◌then◌else◌}
use microservices_go.Config.Environment.{parse_env_text, parse_env_int}
use microservices_go.Process.{
  Resource, pool, redis, broker, channel, billing_conn, auth_conn, signals, load_env, load_config,
  create_pool, ping_pool, ping_redis, dial_broker, open_channel, declare_exchange, listen,
  dial_billing, dial_auth, read_key, parse_key, until_signal, background, opens, declares,
  starts_outbox_worker, starts_cleanup_worker, starts_consumer, serves, stops_server,
  waits_for_consumer, Ending, signal, crash, done, fatally, printing, quietly, Main, proceed, ◌>>=◌,
  ◌>>◌, need, fatal, act, defer, environment, ending,
}

-- storage.NewPool
abbrev pub new_pool : Main (Unit {0})
new_pool = do need create_pool; need ping_pool; act (opens pool)

-- The select at the end of a server's main.
abbrev pub until_end : Ending → Main (Unit {0})
until_end signal = act stops_server
until_end crash = fatal
until_end done = fatal

unfoldable pub auth_main : Main (Unit {0})
auth_main = do
  need load_config
  new_pool
  defer (quietly pool)
  act (opens redis)
  defer (fatally redis)
  need ping_redis
  need dial_broker
  act (opens broker)
  defer (fatally broker)
  act (opens signals)
  defer (quietly signals)
  need open_channel
  act (opens channel)
  defer (fatally channel)
  need declare_exchange
  act (declares "auth.events")
  act (starts_outbox_worker "auth.events" until_signal)
  getenv ← environment
  act (starts_cleanup_worker until_signal (parse_env_int getenv "REFRESH_WORKER_LIMIT" (pos 5000)))
  need listen
  act (serves ":50052")
  e ← ending
  until_end e

unfoldable pub billing_main : Main (Unit {0})
billing_main = do
  need load_env
  getenv ← environment
  if bytes_eq (parse_env_text getenv "DATABASE_URL" "") [] then fatal else new_pool
  need dial_broker
  act (opens broker)
  defer (fatally broker)
  act (opens signals)
  defer (quietly signals)
  need open_channel
  act (opens channel)
  defer (fatally channel)
  need declare_exchange
  act (declares "billing.events")
  act (starts_outbox_worker "billing.events" background)
  need listen
  act (serves ":50051")
  e ← ending
  until_end e

-- The consumer's error ends the process; its end without an error ends main.
abbrev pub until_consumed : Ending → Main (Unit {0})
until_consumed signal = act waits_for_consumer
until_consumed crash = fatal
until_consumed done = proceed

unfoldable pub notification_main : Main (Unit {0})
notification_main = do
  need load_config
  new_pool
  defer (quietly pool)
  need dial_broker
  act (opens broker)
  defer (fatally broker)
  need dial_auth
  act (opens auth_conn)
  defer (fatally auth_conn)
  act (opens signals)
  defer (quietly signals)
  act (
      starts_consumer "notification.events" "#" ("billing.events" ∷ "auth.events" ∷ [])
        until_signal)
  e ← ending
  until_consumed e

-- ListenAndServe returns with an error only.
unfoldable pub gateway_main : Main (Unit {0})
gateway_main = do
  act (opens redis)
  defer (fatally redis)
  need ping_redis
  need dial_billing
  act (opens billing_conn)
  defer (printing billing_conn)
  need dial_auth
  act (opens auth_conn)
  defer (printing auth_conn)
  need read_key
  need parse_key
  act (serves ":8080")
  fatal
