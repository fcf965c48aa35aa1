-- ===== src/Lib.antt =====
-- A billing system of four Go services. The gateway (gateway/) serves HTTP: it validates tokens
-- and limits requests, and calls the auth service (auth/) and the billing service (billing/) over
-- gRPC, through circuit breakers. Billing keeps accounts and transactions in PostgreSQL; with
-- each deposit it writes a row of an outbox table in the same transaction. A worker (pkg/outbox/)
-- publishes the rows to RabbitMQ (pkg/broker/), and the notification service (notification/)
-- consumes the messages, remembers them in an inbox table, and sends e-mails.
--
-- The files and the code:
-- - Errors: Go's error values, errors.Is and errors.As, and gRPC status errors. Package-level
--   errors are different values even where their texts agree.
-- - Postgres, Json: what a database can do to a transaction, and JSON objects and their decoding.
-- - Outbox: pkg/outbox/pg_repo.go. `query_outbox_events_tx`, `insert_outbox_event_tx` and
--   `mark_events_as_processed_tx` are the methods of those names. Outbox/Worker:
--   pkg/outbox/worker.go, with `process_outbox_batch` and the loop `start_outbox_worker`; its
--   children hold what a batch may do (Safety), what it gets done (Progress), and runs of many
--   batches (Drain). Outbox/Concurrent is several workers on one table: each query, each call of
--   Publish and each end of a transaction is a step. Outbox/Concurrent/Alone compares the steps of
--   one batch with `process_outbox_batch`.
-- - Billing: Domain is billing/domain, Repository is billing/repository/billing.go, Service is
--   billing/services/billing.go (`deposit`, `withdraw`, `handle_idempotency_error`), Handler is
--   billing/grpc_handler.go. Billing/Ledger says what valid books are and that calls keep them.
--   Billing/Bank is the abstract bank: what each user owns and which keys are spent.
--   Billing/Running and Billing/Concurrent are the statements of deposits and withdrawals, one step
--   each, interleaved; Billing/Concurrent/Alone compares them with the calls of Service.
-- - Broker: pkg/broker/broker.go.
-- - Notification: Email is notification/internal/service, Inbox is
--   notification/internal/repository, Payloads and Consumer are notification/internal/worker
--   (`handle_message`, and the loop `consume`), Topology is what StartConsume declares, Start is
--   StartConsume with the failures of its calls. EndToEnd follows a deposit from billing to the
--   consumer. Notification/Concurrent is several consumers on one queue and one inbox: the INSERT,
--   the e-mail, and the commit with the settlement of a delivery are steps.
-- - Gateway: Response is pkg/utils/api and pkg/utils/grpc, Breaker is gateway/lib/breaker,
--   Handlers is gateway/handlers, Middleware is gateway/middleware, Routes is what
--   gateway/main.go puts together.
-- - Interceptor: pkg/infrastructure/interceptors/auth.go. Interceptor/Identity follows a caller
--   from the gateway to a handler of a service.
-- - Auth: Domain is auth/domain, Repository and Refresh are auth/repository/auth.go on users and
--   on refresh tokens, Cleanup is auth/lib/workers/refresh.go, Tokens is auth/tokens/tokens.go,
--   Handler is auth/grpc_handler.go over the interface of auth/services. Tokens/Accepted follows
--   a token to the gateway.
-- - Config: Environment is pkg/utils/env/env.go, AuthConfig is auth/config/config.go.
-- - Process: the main programs auth/main.go, billing/main.go, notification/cmd/main.go and
--   gateway/main.go: what can fail, what is started, what is deferred, and how the process ends.
--   storage.NewPool (pkg/utils/storage/postgres.go) is part of them.
-- - Auth/Cache is auth/repository/redis/cache.go, Security is pkg/utils/security/hash.go and
--   Notification/Settings is notification/internal/config/config.go: single calls of libraries.
-- - System: the handlers of billing and the outbox worker, taking turns on one database in any
--   order, as billing/main.go runs them. System/Refinement relates these runs to the bank,
--   System/Bounds to the range of int64; System/Durability follows an acknowledged call to the end
--   of a run, and System/Http starts at the routes of the gateway. System/Distributed puts together
--   Billing/Concurrent, Outbox/Concurrent, the publisher of Broker and Notification/Concurrent.
-- - Tests: the examples.
--
-- A function that changes state takes the state and returns the new one with its reply. What the
-- outside does is an argument: a record `Env` (or `BatchEnv`) says which statement of a request
-- fails, how the commit ends, and what the server's clock and generators give. A commit can
-- succeed, be undone, or be carried out with its acknowledgement lost. A transaction works on a
-- copy of the tables that a commit installs, so a rollback is the old state; the calls of Service
-- are whole, and Billing/Concurrent interleaves their statements under the row locks and unique
-- keys that PostgreSQL holds for them at READ COMMITTED. Rows that another worker has locked are
-- an argument of the outbox query of a whole batch, and Outbox/Concurrent
-- computes. `publish_error` of a batch says at which events the connection to RabbitMQ fails, so an
-- event that one batch could not send may go out in the next. The publisher waits for no
-- confirmation: a message that PublishWithContext has taken may be lost in System/Distributed. Times
-- are whole seconds, so that jwt.NewNumericDate has nothing to cut off. Amounts are integers, and a sum that leaves the range of BIGINT is an error of the
-- server. The messages and e-mails that go out are part of the result. Loops run over the list of
-- what their `select` receives, so none needs fuel; the limit of a batch is the 100 of the
-- source. Printing a number n in decimal recurs on fuel n + 1, which is more than its digits.
--
-- Third-party code is an argument, with its documented behaviour as hypotheses: the JWT library,
-- the UUID parser, the gRPC clients and status.FromError, the verdict of the circuit breaker, the
-- AMQP channel, JSON encoding, the SMTP dialer, time parsing, bcrypt, go-redis and cleanenv. The
-- constraints of the inbox table, which no migration declares, are one too.
--
-- A main is a sequence of calls that a world lets fail or not; log.Fatalf ends the process
-- without the deferred calls, and so does os.ReadFile's error in Load of the auth configuration.
--
-- Not modelled: the package auth/services, which is not in the repository, and with it the calls of
-- the cache and of the hashing functions; the generated contracts; log lines. System/Distributed
-- has the messages of billing only: those of auth count their ids on their own. Of json.Unmarshal,
-- keys that agree but for their case, a body that is `null`, and the error of a key that a later
-- equal key replaces.
pub mod Prelude
pub mod Errors
pub mod Postgres
pub mod Json
pub mod Outbox
pub mod Billing
pub mod Broker
pub mod Notification
pub mod Gateway
pub mod Interceptor
pub mod Config
pub mod Process
pub mod Security
pub mod Auth
pub mod System
pub mod Tests
