-- ===== src/Tests/Process.antt =====
-- Examples for the main programs: every call works, and a signal ends the process.
use microservices_go.Prelude.{pos, false, [], ◌∷◌, bytes_eq, decimal_int, ◌≡◌, ◌≢◌, ◌↔◌, ◌⊎◌}
use microservices_go.Config.Environment.{parse_env_text, parse_env_int}
use microservices_go.Process.{World, returned, signal, done, run_main, waits_for_consumer}
use microservices_go.Process.Mains.{auth_main, billing_main, notification_main, gateway_main}
use microservices_go.Process.Mains.Shutdown.{
  Works, auth_calls, auth_log, billing_calls, billing_log, notification_calls, notification_log,
  mains_return,
}

abbrev world : World
world = record { getenv = λ name. decimal_int (pos 7); fails = λ c. false; ending = signal }

mains_return_example :
    ((run_main auth_main world ≡ returned billing_log) ↔ (
      Works world auth_calls
      × (signal ≡ signal)
      × (billing_log ≡ auth_log (parse_env_int world.getenv "REFRESH_WORKER_LIMIT" (pos 5000)))))
    × ((run_main billing_main world ≡ returned billing_log) ↔ (
        Works world billing_calls
        × (signal ≡ signal)
        × (bytes_eq (parse_env_text world.getenv "DATABASE_URL" "") [] ≡ false)
        × (billing_log ≡ billing_log)))
    × ((run_main notification_main world ≡ returned billing_log) ↔ (
        Works world notification_calls
        × (((signal ≡ signal) × (billing_log ≡ notification_log (waits_for_consumer ∷ [])))
            ⊎ ((signal ≡ done) × (billing_log ≡ notification_log [])))))
    × (run_main gateway_main world ≢ returned billing_log)
mains_return_example = mains_return world billing_log
