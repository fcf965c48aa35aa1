-- ===== src/Broker.antt =====
-- The publisher of the outbox (pkg/broker/broker.go). The channel belongs to the RabbitMQ client
-- and JSON encoding to Go's library: both are arguments.
use microservices_go.Prelude.{String, Bool, true, false, Bytes, decimal}
use microservices_go.Errors.{wrap, Result, done, fail}
use microservices_go.Json.{Payload, Body}
use microservices_go.Outbox.{Event}
use microservices_go.Outbox.Worker.{EventPublisher}

-- The arguments of PublishWithContext and the fields of amqp.Publishing that are set.
pub record Message : Type 0 where
  pub exchange : String
  pub routing_key : String
  pub mandatory : Bool
  pub immediate : Bool
  pub content_type : String
  pub body : Body
  pub message_id : Bytes
  pub persistent : Bool

-- `send` is what the channel answers to a message when the connection holds; an error of the
-- connection comes with the call of the worker.
pub record RabbitPublisher : Type 0 where
  pub exchange : String
  pub marshal : Payload → Result Body
  pub send : Message → Result (Unit {0})

abbrev pub message_for : String → Event → Body → Message
message_for exchange e body = record {
  exchange = exchange;
  routing_key = e.event_type;
  mandatory = false;
  immediate = false;
  content_type = "application/json";
  body = body;
  message_id = decimal e.id;
  persistent = true;
}

-- The message is named in the result for the record of what was sent.
unfoldable pub publish : RabbitPublisher → Event → Result Message
publish p e = elim (p.marshal e.payload) [
  | fail err ↦ fail (wrap "failed to marshal payload" err)
  | done body ↦ elim (p.send (message_for p.exchange e body)) [
    | fail err ↦ fail (wrap "failed to publish to rabbitmq" err)
    | done _ ↦ done (message_for p.exchange e body)
  ]
]

abbrev pub rabbit_publisher : RabbitPublisher → EventPublisher Message
rabbit_publisher p = record { publish = publish p }
