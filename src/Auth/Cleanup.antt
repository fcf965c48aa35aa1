-- ===== src/Auth/Cleanup.antt =====
-- auth/lib/workers/refresh.go: the worker that deletes expired refresh tokens every five minutes.
pub mod Live
pub mod Deletion
pub mod Drain
use microservices_go.Prelude.{ℕ, List, [], ◌∷◌}
use microservices_go.Errors.{Result, done, fail}
use microservices_go.Auth.Domain.{Database, Env}
use microservices_go.Auth.Refresh.{delete_expired_tokens}

-- What `select` receives: a tick of the timer, or the end of the context.
pub data Signal : Type 0 where
  tick : Env → Signal
  stop : Signal

-- An error is printed only.
abbrev pub cleaned : Database → Result Database → Database
cleaned before (done after) = after
cleaned before (fail _) = before

-- The loop of the worker; with the signals used up it waits.
unfoldable pub start_cleanup_worker : ℕ → List Signal → Database → Database
start_cleanup_worker limit [] db = db
start_cleanup_worker limit (stop ∷ _) db = db
start_cleanup_worker limit (tick env ∷ rest) db =
    start_cleanup_worker limit rest (cleaned db (delete_expired_tokens env limit db))
