-- ===== src/System/Distributed.antt =====
-- The services in several processes each: billing/, whose statements interleave, the outbox workers of
-- pkg/outbox/ on its database, the messages of pkg/broker/, and the consumers of notification/ on one
-- queue. The publisher waits for no confirmation, so a message may be lost after Publish has returned;
-- what the auth service sends is left out.
pub mod Projections
pub mod Keys
pub mod Kept
pub mod Delivered
use microservices_go.Prelude.{ℕ, Bool, Option, Bytes, List, [], ◌∷◌, ◌++◌, if◌then◌else◌, ◌≡◌}
use microservices_go.Errors.{GoError, done, fail}
use microservices_go.Outbox.{Event, query_outbox_events_tx}
use microservices_go.Outbox.Worker.{BatchEnv, attempt, batch_limit, mark_published}
use microservices_go.Outbox.Concurrent.{Batch, held, is_undone}
use microservices_go.Broker.{Message, RabbitPublisher, rabbit_publisher}
use microservices_go.Notification.Payloads.{Delivery}
use microservices_go.Notification.Inbox.{Constraint}
use microservices_go.Notification.EndToEnd.{delivery_of}
use microservices_go.Billing
use microservices_go.Notification

-- The billing service with its database, the running batches, the ids of the messages for which
-- Publish has returned no error with those of them whose batch was undone, the ids of the messages
-- that the broker has lost, and the notification service.
pub record State : Type 0 where
  pub bill : Billing.Concurrent.State
  pub batches : List Batch
  pub sent : List ℕ
  pub undone : List ℕ
  pub lost : List Bytes
  pub mail : Notification.Concurrent.State

-- A message comes into the queue.
abbrev pub arrive : Delivery → Notification.Concurrent.State → Notification.Concurrent.State
arrive m s = record s { published = m ∷ s.published; ready = s.ready ++ m ∷ [] }

abbrev pub initial : State
initial = record {
  bill = Billing.Concurrent.initial;
  batches = [];
  sent = [];
  undone = [];
  lost = [];
  mail = Notification.Concurrent.initial;
}

-- A step of the billing service that is none of its workers'.
abbrev pub IsCall : {s t : Billing.Concurrent.State} → Billing.Concurrent.Step s t → Type 0
IsCall (Billing.Concurrent.works env ids) = ⊥
IsCall _ = Unit

-- A step of the consumers.
abbrev pub IsHandling :
    (violates : Constraint) {s t : Notification.Concurrent.State}
    → Notification.Concurrent.Step violates s t
    → Type 0
IsHandling violates (Notification.Concurrent.publishes msg) = ⊥
IsHandling violates _ = Unit

module _ (rp : RabbitPublisher) (violates : Constraint) where
  pub data Step : State → State → Type 0 where
    calls :
        {s : State} (b : Billing.Concurrent.State) (st : Billing.Concurrent.Step s.bill b)
        → IsCall st
        → Step s (record s { bill = b })
    begins :
        {s : State} (env : BatchEnv) (es : List Event)
        → query_outbox_events_tx env.query_fails env.scan_fails
            (held s.batches)
            batch_limit
            s.bill.db.outbox
          ≡ done es
        → Step s (record s { batches = record { ids = []; failed = []; rest = es } ∷ s.batches })
    -- PublishWithContext returns no error, and the message is in the queue or, as nothing confirms
    -- it, lost.
    publishes :
        {s : State} (error : Option GoError) (lost : Bool) (before after : List Batch)
        (ids failed : List ℕ) (e : Event) (rest : List Event) (m : Message)
        → s.batches ≡ before ++ record { ids = ids; failed = failed; rest = e ∷ rest } ∷ after
        → attempt (rabbit_publisher rp) error e ≡ done m
        → Step s (record s {
          batches =
              before ++ record { ids = ids ++ e.id ∷ []; failed = failed; rest = rest } ∷ after;
          sent = s.sent ++ e.id ∷ [];
          lost = if lost then m.message_id ∷ s.lost else s.lost;
          mail = if lost then s.mail else arrive (delivery_of m) s.mail;
        })
    misses :
        {s : State} (error : Option GoError) (before after : List Batch) (ids failed : List ℕ)
        (e : Event) (rest : List Event) (err : GoError)
        → s.batches ≡ before ++ record { ids = ids; failed = failed; rest = e ∷ rest } ∷ after
        → attempt (rabbit_publisher rp) error e ≡ fail err
        → Step s (record s {
          batches =
              before ++ record { ids = ids; failed = failed ++ e.id ∷ []; rest = rest } ∷ after;
        })
    ends :
        {s : State} (env : BatchEnv) (before after : List Batch) (ids failed : List ℕ)
        → s.batches ≡ before ++ record { ids = ids; failed = failed; rest = [] } ∷ after
        → Step s (record s {
          bill = record (s.bill) {
            db = record (s.bill.db) { outbox = mark_published env s.bill.db.outbox ids };
          };
          batches = before ++ after;
          undone = s.undone ++ (if is_undone env then ids else []);
        })
    dies :
        {s : State} (before after : List Batch) (b : Batch)
        → s.batches ≡ before ++ b ∷ after
        → Step s (record s { batches = before ++ after; undone = s.undone ++ b.ids })
    handles :
        {s : State} (m : Notification.Concurrent.State)
        (st : Notification.Concurrent.Step violates s.mail m)
        → IsHandling violates st
        → Step s (record s { mail = m })

  pub data Reach : State → Type 0 where
    start : Reach initial
    later : {s t : State} → Reach s → Step s t → Reach t
