-- ===== src/Notification/Topology.antt =====
-- The queues, exchanges and bindings that `StartConsume` declares before it reads
-- (notification/internal/worker/broker.go). The calls of the RabbitMQ client that fail end it with
-- an error.
use microservices_go.Prelude.{
  String, Bool, true, Option, none, some, List, [], ◌∷◌, ◌++◌, str_eq, if◌then◌else◌, All, ◌≡◌, ◌≢◌,
  refl, arith, eq_iff,
}

pub record QueueDecl : Type 0 where
  pub name : String
  pub durable : Bool
  pub dead_letter_exchange : Option String

pub record ExchangeDecl : Type 0 where
  pub name : String
  pub kind : String
  pub durable : Bool

pub record Binding : Type 0 where
  pub queue : String
  pub key : String
  pub exchange : String

pub record Topology : Type 0 where
  pub queues : List QueueDecl
  pub exchanges : List ExchangeDecl
  pub bindings : List Binding

-- The loop over `exchangeNames`.
abbrev pub bind_all : String → String → List String → List Binding
bind_all queue key [] = []
bind_all queue key (exchange ∷ rest) =
    record { queue = queue; key = key; exchange = exchange } ∷ bind_all queue key rest

-- The declarations of one call that does not fail.
unfoldable pub declare : (queue_name routing_key : String) → List String → Topology
declare queue_name routing_key exchange_names = record {
  queues =
      record { name = queue_name; durable = true; dead_letter_exchange = some "notification.dlx" }
      ∷ record { name = "dlq.notification.events"; durable = true; dead_letter_exchange = none }
      ∷ [];
  exchanges = record { name = "dlx.events"; kind = "direct"; durable = true } ∷ [];
  bindings =
      bind_all queue_name routing_key exchange_names
      ++ record { queue = "dlq.notification.events"; key = ""; exchange = "dlx.events" } ∷ [];
}

-- The queues that an exchange is bound to.
abbrev pub bound_to : String → List Binding → List String
bound_to exchange [] = []
bound_to exchange (b ∷ bs) =
    if str_eq b.exchange exchange then b.queue ∷ bound_to exchange bs else bound_to exchange bs

-- The queues that the dead letters of a declared queue can reach.
abbrev pub dead_letter_queues : String → Topology → List QueueDecl → List String
dead_letter_queues name t [] = []
dead_letter_queues name t (q ∷ qs) =
    if str_eq q.name name
    then elim q.dead_letter_exchange [ none ↦ [] | some x ↦ bound_to x t.bindings ]
    else dead_letter_queues name t qs

bound_to-bind_all :
    (x queue key : String) (names : List String) (bs : List Binding)
    → All (λ n. n ≢ x) names
    → bound_to x (bind_all queue key names ++ bs) ≡ bound_to x bs
bound_to-bind_all x queue key [] bs h = refl
bound_to-bind_all x queue key (n ∷ names) bs h =
    ground (arith, eq_iff n x, bound_to-bind_all x queue key names bs h.1)

-- Unless it is bound to an exchange named notification.dlx itself, the consumer's queue sends its
-- dead letters to an exchange that no queue is bound to: they reach no queue, and not the declared
-- dead letter queue.
pub dead_letters_reach_no_queue :
    (queue_name routing_key : String) (exchange_names : List String)
    → All (λ n. n ≢ "notification.dlx") exchange_names
    → let t = declare queue_name routing_key exchange_names in
      dead_letter_queues queue_name t t.queues ≡ []
unfolding declare
dead_letters_reach_no_queue queue_name routing_key exchange_names h = ground (
  arith,
  eq_iff queue_name queue_name,
  eq_iff "dlx.events" "notification.dlx",
  bound_to-bind_all "notification.dlx" queue_name routing_key exchange_names
      (record { queue = "dlq.notification.events"; key = ""; exchange = "dlx.events" } ∷ []) h,
)
