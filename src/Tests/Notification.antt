-- ===== src/Tests/Notification.antt =====
-- Examples for notification/ and pkg/broker: one deposit, on its way from the outbox to the e-mail.
use microservices_go.Prelude.{
  ◌≤◌, pos, true, false, is_some, none, some, [], ◌∷◌, decimal, bytes_eq, ◌≡◌, ◌↔◌, refl, arith,
  eq_iff,
}
use microservices_go.Errors.{done}
use microservices_go.Postgres.{committed, rolled_back}
use microservices_go.Json.{object}
use microservices_go.Outbox.{Event}
use microservices_go.Broker.{Message, RabbitPublisher, publish}
use microservices_go.Billing.Service.{deposit_payload}
use microservices_go.Billing.Service.Effect.{topped_up_event}
use microservices_go.Notification.Email.{Dialer, deposit_email}
use microservices_go.Notification.Inbox.{Constraint, has_event}
use microservices_go.Notification.Payloads.{Env, Delivery}
use microservices_go.Notification.Consumer.{
  deliver, stop, consume, handle_message, settle, ack, dead_letter, skipped,
}
use microservices_go.Notification.Consumer.Deduplication.{UniqueEventId}
use microservices_go.Notification.Consumer.AtMostOnce.{times, consume_at_most_once}
use microservices_go.Notification.Consumer.Settlements.{IsBad, IsForeign, dead_letter_iff}
use microservices_go.Notification.EndToEnd.{delivery_of, deposit_is_mailed}
use microservices_go.Notification.Topology.{
  declare, dead_letter_queues, dead_letters_reach_no_queue,
}
use microservices_go.Notification.Consumer.Endings.{end_of, EndsBehind, consume_ends}
use microservices_go.Notification.Start.{open_channel, plan, start_consume}
use microservices_go.Notification.Start.Ready.{
  calls_of, ReadsWhenReady, start_consume-ReadsWhenReady,
}
use microservices_go.Tests.Billing.{clean, books, deposit_of}

abbrev pub rabbit : RabbitPublisher
rabbit = record { exchange = "billing.events"; marshal = λ p. done (object p); send = λ m. done tt }

abbrev pub dialer : Dialer
dialer = record { username = "noreply"; dial_and_send = λ e. done tt }

abbrev pub world : Env
world = record {
  begin_fails = false;
  exec_fails = false;
  commit = committed;
  now = 30;
  get_user_by_id = λ u. done "alice@example.com";
  dialer = dialer;
  parse_time = λ s. some 20;
}

abbrev undone : Env
undone = record world { commit = rolled_back }

-- A unique constraint on the column `event_id`.
abbrev pub unique_event_id : Constraint
unique_event_id params inbox = has_event params.event_id inbox

abbrev event : Event
event = topped_up_event clean (deposit_of "alice" "k2") "acc-1" books

abbrev pub delivery : Delivery
delivery = record {
  message_id = decimal 2;
  routing_key = "AccountToppedUp";
  body = object (deposit_payload clean (deposit_of "alice" "k2"));
}

pub unique_event_id-UniqueEventId : UniqueEventId unique_event_id
unique_event_id-UniqueEventId = record { only_id = λ params inbox. refl }

deposit_is_mailed_example :
    (m : Message) × (publish rabbit event ≡ done m)
    × (let first = handle_message unique_event_id world (delivery_of m) [] in
        let again = handle_message unique_event_id world (delivery_of m) first.inbox in
        (settle first.result ≡ ack)
        × (first.sent ≡ (m.message_id, deposit_email dialer "alice@example.com" (pos 30)) ∷ [])
        × (has_event m.message_id first.inbox ≡ true)
        × (again ≡ skipped first.inbox))
deposit_is_mailed_example =
    deposit_is_mailed rabbit clean (deposit_of "alice" "k2") "acc-1" books unique_event_id world 20
      [] "alice@example.com" refl refl refl (λ e. ground (arith, eq_iff "alice" "")) refl
      unique_event_id-UniqueEventId refl refl refl refl refl refl

consume_at_most_once_example :
    times
      (decimal 2)
      (consume unique_event_id
        (deliver world delivery ∷ deliver world delivery ∷ stop ∷ [])
        []).sent
    ≤ 1
consume_at_most_once_example =
    consume_at_most_once unique_event_id unique_event_id-UniqueEventId
      (deliver world delivery ∷ deliver world delivery ∷ stop ∷ []) [] (decimal 2)
      (λ e. cc, (λ e. cc, tt))

world-IsForeign : IsForeign world
world-IsForeign = record { users = λ u err h. cc; mails = λ e err h. cc }

dead_letter_iff_example :
    (settle (handle_message unique_event_id world delivery []).result ≡ dead_letter)
    ↔ ((bytes_eq (decimal 2) [] ≡ false) × IsBad world delivery)
dead_letter_iff_example = dead_letter_iff unique_event_id world delivery [] world-IsForeign

dead_letters_reach_no_queue_example :
    let t = declare "notification.events" "#" ("billing.events" ∷ "auth.events" ∷ []) in
    dead_letter_queues "notification.events" t t.queues ≡ []
dead_letters_reach_no_queue_example =
    dead_letters_reach_no_queue "notification.events" "#" ("billing.events" ∷ "auth.events" ∷ []) (
      λ e. ground (arith, eq_iff "billing.events" "notification.dlx"),
      (λ e. ground (arith, eq_iff "auth.events" "notification.dlx"), tt),
    )

start_consume-ReadsWhenReady_example :
    let start =
      start_consume unique_event_id
        (λ c. false)
        "notification.events"
        "#"
        ("billing.events" ∷ "auth.events" ∷ [])
        (deliver world delivery ∷ stop ∷ [])
        [] in
    ReadsWhenReady
      (λ c. false)
      (open_channel
        ∷ calls_of (plan "notification.events" "#" ("billing.events" ∷ "auth.events" ∷ [])))
      (declare "notification.events" "#" ("billing.events" ∷ "auth.events" ∷ []))
      (consume unique_event_id (deliver world delivery ∷ stop ∷ []) [])
      []
      start
    × (start.channel_closed ≡ is_some start.run.result)
start_consume-ReadsWhenReady_example =
    start_consume-ReadsWhenReady unique_event_id (λ c. false) "notification.events" "#"
      ("billing.events" ∷ "auth.events" ∷ []) (deliver world delivery ∷ stop ∷ []) []

delivery_goes_on : end_of (deliver world delivery) ≡ none
unfolding decimal
delivery_goes_on = refl

consume_ends_example :
    let so_far = consume unique_event_id (deliver world delivery ∷ []) [] in
    (so_far.result ≡ none)
    × EndsBehind
        (done tt)
        (deliver world delivery ∷ [])
        so_far
        (consume unique_event_id (deliver world delivery ∷ stop ∷ deliver world delivery ∷ []) [])
consume_ends_example =
    consume_ends unique_event_id (deliver world delivery ∷ []) (deliver world delivery ∷ []) stop
      (done tt) [] (delivery_goes_on, tt) refl
