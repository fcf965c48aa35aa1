-- ===== src/Process/Mains/Shutdown.antt =====
-- When the mains return, and what they have closed (auth/main.go, billing/main.go,
-- notification/cmd/main.go, gateway/main.go).
use microservices_go.Prelude.{
  ℤ, pos, false, List, [], ◌∷◌, ◌++◌, All, ◌≡◌, ◌≢◌, ◌↔◌, ◌⊎◌, arith, bytes_eq,
}
use microservices_go.Config.Environment.{parse_env_text, parse_env_int}
use microservices_go.Process.{
  pool, redis, broker, channel, auth_conn, signals, Call, load_env, load_config, create_pool,
  ping_pool, ping_redis, dial_broker, open_channel, declare_exchange, listen, dial_auth, close,
  until_signal, background, Action, opens, closes, declares, starts_outbox_worker,
  starts_cleanup_worker, starts_consumer, serves, stops_server, waits_for_consumer, signal, done,
  World, returned, run_deferred, run_main,
}
use microservices_go.Process.Mains.{auth_main, billing_main, notification_main, gateway_main}

-- None of the calls fails.
abbrev pub Works : World → List Call → Type 0
Works w calls = All (λ c. w.fails c ≡ false) calls

-- What main does between a start and a shutdown that meet no error.
abbrev pub auth_log : ℤ → List Action
auth_log limit =
    opens pool
    ∷ opens redis
    ∷ opens broker
    ∷ opens signals
    ∷ opens channel
    ∷ declares "auth.events"
    ∷ starts_outbox_worker "auth.events" until_signal
    ∷ starts_cleanup_worker until_signal limit
    ∷ serves ":50052"
    ∷ stops_server
    ∷ closes channel
    ∷ closes signals
    ∷ closes broker
    ∷ closes redis
    ∷ closes pool
    ∷ []

abbrev pub auth_calls : List Call
auth_calls =
    load_config
    ∷ create_pool
    ∷ ping_pool
    ∷ ping_redis
    ∷ dial_broker
    ∷ open_channel
    ∷ declare_exchange
    ∷ listen
    ∷ close channel
    ∷ close broker
    ∷ close redis
    ∷ []

auth_main_returns :
    (w : World) (log : List Action)
    → (run_main auth_main w ≡ returned log) ↔ (
        Works w auth_calls
        × (w.ending ≡ signal)
        × (log ≡ auth_log (parse_env_int w.getenv "REFRESH_WORKER_LIMIT" (pos 5000))))
unfolding run_main auth_main run_deferred
auth_main_returns w log = (λ h. ground arith, λ h. ground arith)

abbrev pub billing_log : List Action
billing_log =
    opens pool
    ∷ opens broker
    ∷ opens signals
    ∷ opens channel
    ∷ declares "billing.events"
    ∷ starts_outbox_worker "billing.events" background
    ∷ serves ":50051"
    ∷ stops_server
    ∷ closes channel
    ∷ closes signals
    ∷ closes broker
    ∷ []

abbrev pub billing_calls : List Call
billing_calls =
    load_env
    ∷ create_pool
    ∷ ping_pool
    ∷ dial_broker
    ∷ open_channel
    ∷ declare_exchange
    ∷ listen
    ∷ close channel
    ∷ close broker
    ∷ []

billing_main_returns :
    (w : World) (log : List Action)
    → (run_main billing_main w ≡ returned log) ↔ (
        Works w billing_calls
        × (w.ending ≡ signal)
        × (bytes_eq (parse_env_text w.getenv "DATABASE_URL" "") [] ≡ false)
        × (log ≡ billing_log))
unfolding run_main billing_main run_deferred
billing_main_returns w log = (λ h. ground arith, λ h. ground arith)

-- The end of the notification service: the consumer has ended by itself, or main waits for it.
abbrev pub notification_log : List Action → List Action
notification_log wait =
    opens pool
    ∷ opens broker
    ∷ opens auth_conn
    ∷ opens signals
    ∷ starts_consumer "notification.events" "#" ("billing.events" ∷ "auth.events" ∷ []) until_signal
    ∷ (wait ++ (closes signals ∷ closes auth_conn ∷ closes broker ∷ closes pool ∷ []))

abbrev pub notification_calls : List Call
notification_calls =
    load_config
    ∷ create_pool
    ∷ ping_pool
    ∷ dial_broker
    ∷ dial_auth
    ∷ close auth_conn
    ∷ close broker
    ∷ []

notification_main_returns :
    (w : World) (log : List Action)
    → (run_main notification_main w ≡ returned log) ↔ (
        Works w notification_calls
        × (((w.ending ≡ signal) × (log ≡ notification_log (waits_for_consumer ∷ [])))
            ⊎ ((w.ending ≡ done) × (log ≡ notification_log []))))
unfolding run_main notification_main run_deferred
notification_main_returns w log = (λ h. ground arith, λ h. ground arith)

gateway_main_fails : (w : World) (log : List Action) → run_main gateway_main w ≢ returned log
unfolding run_main gateway_main
gateway_main_fails w log h = ground arith

-- The mains of auth, billing and notification return exactly if no call of theirs fails and a
-- signal comes before a crash (for billing, if a database URL is set; for notification, also if the
-- consumer ends without an error). They have then done exactly this: opened their connections, with
-- the exchange declared before the outbox worker starts, and closed them in the reverse order, but
-- for the pool of billing, which is never closed, and whose outbox worker no signal ends. The main
-- of the gateway never returns, so that its deferred closes do not run.
pub mains_return :
    (w : World) (log : List Action)
    → ((run_main auth_main w ≡ returned log) ↔ (
        Works w auth_calls
        × (w.ending ≡ signal)
        × (log ≡ auth_log (parse_env_int w.getenv "REFRESH_WORKER_LIMIT" (pos 5000)))))
      × ((run_main billing_main w ≡ returned log) ↔ (
          Works w billing_calls
          × (w.ending ≡ signal)
          × (bytes_eq (parse_env_text w.getenv "DATABASE_URL" "") [] ≡ false)
          × (log ≡ billing_log)))
      × ((run_main notification_main w ≡ returned log) ↔ (
          Works w notification_calls
          × (((w.ending ≡ signal) × (log ≡ notification_log (waits_for_consumer ∷ [])))
              ⊎ ((w.ending ≡ done) × (log ≡ notification_log [])))))
      × (run_main gateway_main w ≢ returned log)
mains_return w log = (
  auth_main_returns w log,
  billing_main_returns w log,
  notification_main_returns w log,
  gateway_main_fails w log,
)
