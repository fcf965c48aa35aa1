-- ===== src/Notification/Start.antt =====
-- StartConsume as a whole (notification/internal/worker/broker.go): the calls of the RabbitMQ client,
-- each of which can fail, and then the loop. The broker answers QueueDeclare with the name it was
-- given.
pub mod Ready
use Prim.Native.String.{◌++◌ as str_append}
use microservices_go.Prelude.{
  ℕ, String, Bool, true, false, Option, none, some, List, [], ◌∷◌, ◌++◌, map, is_some,
  if◌then◌else◌,
}
use microservices_go.Errors.{message, wrap, Result, done, fail}
use microservices_go.Notification.Inbox.{Inbox, Constraint}
use microservices_go.Notification.Consumer.{Input, Run, ended, consume}
use microservices_go.Notification.Topology.{QueueDecl, ExchangeDecl, Binding}

pub data AmqpCall : Type 0 where
  open_channel : AmqpCall
  queue_declare : QueueDecl → AmqpCall
  queue_bind : Binding → AmqpCall
  qos : (prefetch_count : ℕ) → AmqpCall
  exchange_declare : ExchangeDecl → AmqpCall
  start_delivery : (queue consumer : String) → AmqpCall

-- Calls with the texts of their errors.
abbrev pub Plan : Type 0
Plan = List (AmqpCall × String)

-- The loop over the exchanges, and the calls behind it.
abbrev pub bind_plan : (queue key : String) → List String → Plan → Plan
bind_plan queue key [] rest = rest
bind_plan queue key (exchange ∷ exchanges) rest =
    (
      queue_bind (record { queue = queue; key = key; exchange = exchange }),
      str_append "failed to bind queue to exchange " exchange,
    )
    ∷ bind_plan queue key exchanges rest

-- The calls behind the bindings of the queue.
abbrev pub delivery_plan : (queue_name : String) → Plan
delivery_plan queue_name =
    (qos 10, "failed to set qos")
    ∷ (
      exchange_declare (record { name = "dlx.events"; kind = "direct"; durable = true }),
      "failed to declare dlx exchange",
    )
    ∷ (
      queue_declare (record {
        name = "dlq.notification.events";
        durable = true;
        dead_letter_exchange = none;
      }),
      "failed to declare dlq",
    )
    ∷ (
      queue_bind (record { queue = "dlq.notification.events"; key = ""; exchange = "dlx.events" }),
      "failed to bind dlq queue",
    )
    ∷ (start_delivery queue_name "notification_worker_1", "failed to register consumer")
    ∷ []

abbrev pub plan : (queue_name routing_key : String) → List String → Plan
plan queue_name routing_key exchange_names =
    (
      queue_declare (record {
        name = queue_name;
        durable = true;
        dead_letter_exchange = some "notification.dlx";
      }),
      "failed to declare queue",
    )
    ∷ bind_plan queue_name routing_key exchange_names (delivery_plan queue_name)

-- The calls up to the first that fails: its error, and those that were made before.
unfoldable pub perform : (AmqpCall → Bool) → Plan → Result (Unit {0}) × List AmqpCall
perform fails [] = (done tt, [])
perform fails ((call, text) ∷ rest) =
    let (r, made) = perform fails rest in
    if fails call then (fail (wrap text (message "amqp")), []) else (r, call ∷ made)

-- The calls that were made, whether the deferred Close of the channel has run, and the loop.
pub record Start : Type 0 where
  pub made : List AmqpCall
  pub channel_closed : Bool
  pub run : Run

abbrev pub consuming : Constraint → List Input → Inbox → Result (Unit {0}) × List AmqpCall → Start
consuming violates inputs inbox (fail err, made) = record {
  made = open_channel ∷ made;
  channel_closed = true;
  run = ended (some (fail err)) inbox;
}
consuming violates inputs inbox (done _, made) =
    let run = consume violates inputs inbox in
    record { made = open_channel ∷ made; channel_closed = is_some run.result; run = run }

unfoldable pub start_consume :
    Constraint
    → (AmqpCall → Bool)
    → (queue_name routing_key : String) → List String
    → List Input
    → Inbox
    → Start
unfolding perform
start_consume violates fails queue_name routing_key exchange_names inputs inbox =
    if fails open_channel
    then record {
      made = [];
      channel_closed = false;
      run = ended (some (fail (wrap "failed to open channel for consumer" (message "amqp")))) inbox;
    }
    else consuming violates inputs inbox
        (perform fails (plan queue_name routing_key exchange_names))
