-- ===== src/Notification/EndToEnd.antt =====
-- From a deposit to its notice: the outbox row of billing/services/billing.go, the message of
-- pkg/broker/broker.go, and what notification/internal/worker/broker.go decodes.
use microservices_go.Prelude.{
  String, in_int64, true, false, some, [], ◌∷◌, ◌++◌, ◌≡◌, ◌≢◌, refl, ◌∙◌, arith, eq_iff, bytes_eq,
  bytes_eq_iff, decimal, decimal-ne_nil,
}
use microservices_go.Errors.{done}
use microservices_go.Postgres.{Time, committed}
use microservices_go.Json.{object}
use microservices_go.Broker.{Message, RabbitPublisher, publish, message_for}
use microservices_go.Billing.Domain.{Database, DepositRequest}
use microservices_go.Billing.Domain
use microservices_go.Billing.Service.{deposit_payload}
use microservices_go.Billing.Service.Effect.{topped_up_event}
use microservices_go.Notification.Email.{deposit_email, send_deposit_success_email}
use microservices_go.Notification.Inbox.{
  Inbox, Constraint, has_event, SaveProcessedMessageParams, save_processed_message_tx,
}
use microservices_go.Notification.Consumer.{ack, settle, skipped, process, notify, handle_message}
use microservices_go.Notification.Consumer.Deduplication.{UniqueEventId, has_event-append_last}
use microservices_go.Notification.Payloads.{
  Env, Delivery, Notice, topped_up, decode, unmarshal_deposit,
}

-- What the broker delivers for a message.
abbrev pub delivery_of : Message → Delivery
delivery_of m = record { message_id = m.message_id; routing_key = m.routing_key; body = m.body }

-- The message of a deposit.
abbrev pub deposit_message :
    RabbitPublisher → Domain.Env → DepositRequest → String → Database → Message
deposit_message rp env req account_id db =
    message_for rp.exchange (topped_up_event env req account_id db)
      (object (deposit_payload env req))

published :
    (rp : RabbitPublisher) (env : Domain.Env) (req : DepositRequest) (account_id : String)
    (db : Database)
    → rp.marshal (deposit_payload env req) ≡ done (object (deposit_payload env req))
    → rp.send (deposit_message rp env req account_id db) ≡ done tt
    → publish rp (topped_up_event env req account_id db)
      ≡ done (deposit_message rp env req account_id db)
unfolding publish
published rp env req account_id db encodes sends = ground arith

-- The notice of a deposit.
abbrev pub notice_of : DepositRequest → Time → Notice
notice_of req t =
    topped_up (record {
      user_id = req.user_id;
      amount = req.amount;
      tx_type = "deposit";
      timestamp = some t;
    })

noticed :
    (rp : RabbitPublisher) (env : Domain.Env) (req : DepositRequest) (account_id : String)
    (db : Database) (consumer : Env) (t : Time)
    → in_int64 req.amount ≡ true
    → req.user_id ≢ ""
    → consumer.parse_time env.timestamp ≡ some t
    → decode consumer (delivery_of (deposit_message rp env req account_id db))
      ≡ done (some (notice_of req t))
unfolding decode unmarshal_deposit
noticed rp env req account_id db consumer t fits named reads = ground (arith, eq_iff req.user_id "")

-- The event of a deposit, once JSON encoding keeps its payload and the broker accepts the message,
-- reaches the consumer as the notice of the same user, amount and time. (Numbers of a payload pass
-- through float64, so encoding keeps amounts up to 2^53.)
pub deposit_is_noticed :
    (rp : RabbitPublisher) (env : Domain.Env) (req : DepositRequest) (account_id : String)
    (db : Database) (consumer : Env) (t : Time)
    → rp.marshal (deposit_payload env req) ≡ done (object (deposit_payload env req))
    → rp.send (
        message_for rp.exchange
          (topped_up_event env req account_id db)
          (object (deposit_payload env req)))
      ≡ done tt
    → in_int64 req.amount ≡ true
    → req.user_id ≢ ""
    → consumer.parse_time env.timestamp ≡ some t
    → (m : Message) × (publish rp (topped_up_event env req account_id db) ≡ done m)
      × (decode consumer (delivery_of m)
          ≡ done (
              some (
                topped_up (record {
                  user_id = req.user_id;
                  amount = req.amount;
                  tx_type = "deposit";
                  timestamp = some t;
                }))))
deposit_is_noticed rp env req account_id db consumer t encodes sends fits named reads = (
  deposit_message rp env req account_id db,
  published rp env req account_id db encodes sends,
  noticed rp env req account_id db consumer t fits named reads,
)

-- The row of the inbox for the event of a deposit.
abbrev pub inbox_params : Message → DepositRequest → SaveProcessedMessageParams
inbox_params m req = record {
  event_id = m.message_id;
  aggregate_id = req.user_id;
  aggregate_type = "account";
  event_type = m.routing_key;
}

-- In a consumer's world where nothing fails, a delivery that decodes as the notice of a deposit and
-- violates no constraint sends one e-mail with the amount to the address of the user, is remembered
-- and acknowledged.
notice_is_mailed :
    (violates : Constraint) (consumer : Env) (m : Message) (req : DepositRequest) (t : Time)
    (inbox : Inbox) (mail : String)
    → bytes_eq m.message_id [] ≡ false
    → decode consumer (delivery_of m) ≡ done (some (notice_of req t))
    → consumer.begin_fails ≡ false
    → consumer.exec_fails ≡ false
    → consumer.commit ≡ committed
    → consumer.get_user_by_id req.user_id ≡ done mail
    → consumer.dialer.dial_and_send (deposit_email consumer.dialer mail req.amount) ≡ done tt
    → violates (inbox_params m req) inbox ≡ false
    → handle_message violates consumer (delivery_of m) inbox ≡ record {
      result = done tt;
      inbox = inbox ++ record { params = inbox_params m req; processed_at = consumer.now } ∷ [];
      sent = (m.message_id, deposit_email consumer.dialer mail req.amount) ∷ [];
    }
unfolding handle_message process save_processed_message_tx notify send_deposit_success_email
notice_is_mailed violates consumer m req t inbox mail named decoded begins execs commits user mails
      new =
    ground arith

-- A delivery whose row is in the inbox already is acknowledged, and nothing else happens.
duplicate_is_skipped :
    (violates : Constraint) (consumer : Env) (m : Message) (req : DepositRequest) (t : Time)
    (inbox : Inbox)
    → bytes_eq m.message_id [] ≡ false
    → decode consumer (delivery_of m) ≡ done (some (notice_of req t))
    → consumer.begin_fails ≡ false
    → consumer.exec_fails ≡ false
    → violates (inbox_params m req) inbox ≡ true
    → handle_message violates consumer (delivery_of m) inbox ≡ skipped inbox
unfolding handle_message process save_processed_message_tx
duplicate_is_skipped violates consumer m req t inbox named decoded begins execs old = ground arith

-- The event of a deposit ends as one e-mail. Where JSON encoding keeps its payload, the broker
-- accepts the message, the amount is an int64, the user has an id, and nothing fails in the
-- consumer's world, whose inbox has a unique constraint on the event id and not yet this id: the
-- publisher gives a message whose delivery sends the e-mail with the amount to the address that the
-- auth service gives for the user, is remembered and acknowledged; and the same delivery once more
-- is acknowledged, sends nothing and leaves the inbox.
pub deposit_is_mailed :
    (rp : RabbitPublisher) (env : Domain.Env) (req : DepositRequest) (account_id : String)
    (db : Database) (violates : Constraint) (consumer : Env) (t : Time) (inbox : Inbox)
    (mail : String)
    → rp.marshal (deposit_payload env req) ≡ done (object (deposit_payload env req))
    → rp.send (
        message_for rp.exchange
          (topped_up_event env req account_id db)
          (object (deposit_payload env req)))
      ≡ done tt
    → in_int64 req.amount ≡ true
    → req.user_id ≢ ""
    → consumer.parse_time env.timestamp ≡ some t
    → UniqueEventId violates
    → has_event (decimal db.outbox.next_id) inbox ≡ false
    → consumer.begin_fails ≡ false
    → consumer.exec_fails ≡ false
    → consumer.commit ≡ committed
    → consumer.get_user_by_id req.user_id ≡ done mail
    → consumer.dialer.dial_and_send (deposit_email consumer.dialer mail req.amount) ≡ done tt
    → (m : Message) × (publish rp (topped_up_event env req account_id db) ≡ done m)
      × (let first = handle_message violates consumer (delivery_of m) inbox in
          let again = handle_message violates consumer (delivery_of m) first.inbox in
          (settle first.result ≡ ack)
          × (first.sent ≡ (m.message_id, deposit_email consumer.dialer mail req.amount) ∷ [])
          × (has_event m.message_id first.inbox ≡ true)
          × (again ≡ skipped first.inbox))
deposit_is_mailed rp env req account_id db violates consumer t inbox mail encodes sends fits named
      reads unique new begins execs commits user mails =
    let m = deposit_message rp env req account_id db in
    let id_named : bytes_eq m.message_id [] ≡ false =
      ground (arith, bytes_eq_iff m.message_id [], decimal-ne_nil db.outbox.next_id) in
    let decoded = noticed rp env req account_id db consumer t fits named reads in
    let first =
      notice_is_mailed violates consumer m req t inbox mail id_named decoded begins execs commits
        user mails (unique.only_id (inbox_params m req) inbox ∙ new) in
    let stored =
      has_event-append_last inbox
        (record { params = inbox_params m req; processed_at = consumer.now }) in
    (
      m,
      published rp env req account_id db encodes sends,
      rw first (
        refl,
        refl,
        stored,
        duplicate_is_skipped violates consumer m req t _ id_named decoded begins execs
            (unique.only_id (inbox_params m req) _ ∙ stored),
      ),
    )
