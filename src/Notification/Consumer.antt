-- ===== src/Notification/Consumer.antt =====
-- The consumer of the notification service (notification/internal/worker/broker.go): one delivery
-- is handled in a transaction on the inbox, and then settled.
pub mod Deduplication
pub mod AtMostOnce
pub mod Settlements
pub mod Endings
use microservices_go.Prelude.{
  ℕ, String, ℤ, Bool, true, false, Option, none, some, List, [], ◌∷◌, ◌++◌, Bytes, bytes_eq, str_eq,
  if◌then◌else◌,
}
use microservices_go.Errors.{
  GoError, message, sentinel, wrap, is, Result, done, fail, duplicate_message, fatal,
}
use microservices_go.Postgres.{Time, CommitOutcome, committed, rolled_back, ack_lost}
use microservices_go.Json.{Body, malformed, object, field, text_field, int64_field, time_field}
use microservices_go.Notification.Payloads.{Env, Delivery, Notice, topped_up, registered, decode}
use microservices_go.Notification.Email.{
  Email, Dialer, send_welcome_email, send_deposit_success_email,
}
use microservices_go.Notification.Inbox.{
  Inbox, Constraint, SaveProcessedMessageParams, save_processed_message_tx,
}

abbrev pub aggregate_of : Notice → String
aggregate_of (topped_up payload) = payload.user_id
aggregate_of (registered payload) = payload.user_id

abbrev wrapped : Result Email → Result Email
wrapped (done e) = done e
wrapped (fail err) = fail (wrap "handleMessage" err)

-- The second switch: the e-mail of the event.
unfoldable pub notify : Env → Notice → Result Email
unfolding send_welcome_email send_deposit_success_email
notify env (topped_up payload) = elim (env.get_user_by_id payload.user_id) [
  | fail err ↦ fail (wrap "failed to get user by gRPC" err)
  | done email ↦ wrapped (send_deposit_success_email env.dialer email payload.amount)
]
notify env (registered payload) = wrapped (send_welcome_email env.dialer payload.email)

-- What a delivery leaves: its error, the inbox, and the e-mails with the ids of their events.
pub record Reply : Type 0 where
  pub result : Result (Unit {0})
  pub inbox : Inbox
  pub sent : List (Bytes × Email)

abbrev pub stopped : GoError → Inbox → Reply
stopped err inbox = record { result = fail err; inbox = inbox; sent = [] }

abbrev pub skipped : Inbox → Reply
skipped inbox = record { result = done tt; inbox = inbox; sent = [] }

-- The e-mail has gone out before the commit.
abbrev pub commit : Env → Bytes → Email → (before after : Inbox) → Reply
commit env id email before after = elim env.commit [
  | committed ↦ record { result = done tt; inbox = after; sent = (id, email) ∷ [] }
  | rolled_back ↦ record {
    result = fail (wrap "failed to commit transaction" (message "commit"));
    inbox = before;
    sent = (id, email) ∷ [];
  }
  | ack_lost ↦ record {
    result = fail (wrap "failed to commit transaction" (message "commit"));
    inbox = after;
    sent = (id, email) ∷ [];
  }
]

abbrev pub params_of : Delivery → Notice → SaveProcessedMessageParams
params_of msg notice = record {
  event_id = msg.message_id;
  aggregate_id = aggregate_of notice;
  aggregate_type = "account";
  event_type = msg.routing_key;
}

abbrev pub save_failed : GoError → Inbox → Reply
save_failed err inbox =
    if is err duplicate_message
    then skipped inbox
    else stopped (wrap "failed to save inbox" err) inbox

-- The transaction of a known event.
unfoldable pub process : Constraint → Env → Delivery → Notice → Inbox → Reply
process violates env msg notice inbox =
    if env.begin_fails
    then stopped (wrap "failed to begin transaction" (message "begin")) inbox
    else elim (save_processed_message_tx violates env.exec_fails env.now (params_of msg notice)
        inbox) [
          | fail err ↦ save_failed err inbox
          | done inbox' ↦ elim (notify env notice) [
            | fail err ↦ stopped err inbox
            | done email ↦ commit env msg.message_id email inbox inbox'
          ]
        ]

unfoldable pub handle_message : Constraint → Env → Delivery → Inbox → Reply
handle_message violates env msg inbox =
    if bytes_eq msg.message_id []
    then stopped (message "empty event id") inbox
    else elim (decode env msg) [
      | fail err ↦ stopped err inbox
      | done none ↦ skipped inbox
      | done (some notice) ↦ process violates env msg notice inbox
    ]

-- How a delivery is settled with the broker.
pub data Settlement : Type 0 where
  ack dead_letter requeue : Settlement

abbrev pub settle : Result (Unit {0}) → Settlement
settle (done _) = ack
settle (fail err) = if is err fatal then dead_letter else requeue

-- What the select of the loop receives.
pub data Input : Type 0 where
  deliver : Env → Delivery → Input
  closed : Input
  stop : Input

-- What a run of the loop leaves. While it waits for more, `result` is `none`.
pub record Run : Type 0 where
  pub result : Option (Result (Unit {0}))
  pub inbox : Inbox
  pub sent : List (Bytes × Email)
  pub settled : List Settlement

abbrev pub ended : Option (Result (Unit {0})) → Inbox → Run
ended r inbox = record { result = r; inbox = inbox; sent = []; settled = [] }

-- The run of one delivery and of those behind it.
abbrev pub prepend : Reply → Run → Run
prepend r run = record run { sent = r.sent ++ run.sent; settled = settle r.result ∷ run.settled }

unfoldable pub consume : Constraint → List Input → Inbox → Run
consume violates [] inbox = ended none inbox
consume violates (stop ∷ _) inbox = ended (some (done tt)) inbox
consume violates (closed ∷ _) inbox = ended (some (fail (message "rabbit channel closed"))) inbox
consume violates (deliver env msg ∷ rest) inbox =
    let r = handle_message violates env msg inbox in
    let later = prepend r (consume violates rest r.inbox) in
    if bytes_eq msg.message_id []
    then ended (some (fail (message "no event id in message payload"))) inbox
    else later
