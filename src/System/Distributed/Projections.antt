-- ===== src/System/Distributed/Projections.antt =====
-- Each part of the system by itself takes steps of its own (billing/services/billing.go,
-- pkg/outbox/worker.go, notification/internal/worker/broker.go).
use mathlib.Core.Path.{subst}
use microservices_go.Prelude.{
  ℕ, true, false, Option, none, some, List, [], ◌∷◌, ◌++◌, ◌≡◌, refl, sym, ap, ◌∙◌,
}
use microservices_go.Outbox.{Event, Table}
use microservices_go.Outbox.Concurrent.{Batch}
use microservices_go.Outbox
use microservices_go.Broker.{RabbitPublisher, rabbit_publisher}
use microservices_go.Notification.Inbox.{Constraint}
use microservices_go.Notification.EndToEnd.{delivery_of}
use microservices_go.Billing.Running.{Tx, with_last}
use microservices_go.Billing
use microservices_go.Billing.Concurrent.{
  upserts, selects, updates, records, announces, commits, aborts, works,
}
use microservices_go.Notification
use microservices_go.System.Distributed.{
  State, IsCall, calls, begins, publishes, misses, ends, dies, handles, Reach, start, later,
}

abbrev with_event : Option Event → List Event → List Event
with_event none es = es
with_event (some e) es = e ∷ es

-- The events of the transactions that run.
abbrev pub events_of : List Tx → List Event
events_of [] = []
events_of (tx ∷ txs) = with_event tx.event (events_of txs)

with_event-append :
    (o : Option Event) (es fs : List Event) → with_event o (es ++ fs) ≡ with_event o es ++ fs
with_event-append none es fs = refl
with_event-append (some e) es fs = refl

events_of-append : (txs more : List Tx) → events_of (txs ++ more) ≡ events_of txs ++ events_of more
events_of-append [] more = refl
events_of-append (tx ∷ txs) more =
    ap (with_event tx.event) (events_of-append txs more)
    ∙ with_event-append tx.event (events_of txs) (events_of more)

-- What the outbox workers see of the system.
abbrev pub box :
    Billing.Concurrent.State → List Batch → (sent undone : List ℕ) → Outbox.Concurrent.State
box b batches sent undone = record {
  table = b.db.outbox;
  inserting = events_of b.running;
  running = batches;
  sent = sent;
  undone = undone;
}

module _ (rp : RabbitPublisher) (batches : List Batch) (sent undone : List ℕ) where
  -- A state of the workers with a table and the rows of open transactions.
  abbrev Reaches : Table → List Event → Type 0
  Reaches table inserting = Outbox.Concurrent.Reach (rabbit_publisher rp) (record {
    table = table;
    inserting = inserting;
    running = batches;
    sent = sent;
    undone = undone;
  })

  same_events :
      (table : Table) (running before after : List Tx) (tx tx' : Tx)
      → running ≡ before ++ tx ∷ after
      → tx'.event ≡ tx.event
      → Reaches table (events_of running)
      → Reaches table (events_of (before ++ tx' ∷ after))
  same_events table running before after tx tx' at same r =
      subst (Reaches table)
        (ap events_of at
          ∙ events_of-append before (tx ∷ after)
          ∙ ap (λ o. events_of before ++ with_event o (events_of after)) (sym same)
          ∙ sym (events_of-append before (tx' ∷ after)))
        r

  committed :
      (table : Table) (running before after : List Tx) (tx : Tx)
      → running ≡ before ++ tx ∷ after
      → Reaches table (events_of running)
      → Reaches
          (record table { rows = with_last tx.event table.rows })
          (events_of (before ++ after))
  committed table running before after tx at r =
      ended tx.event (ap events_of at ∙ events_of-append before (tx ∷ after))
    where
      ended :
          (o : Option Event)
          → events_of running ≡ events_of before ++ with_event o (events_of after)
          → Reaches (record table { rows = with_last o table.rows }) (events_of (before ++ after))
      ended none e = subst (Reaches table) (e ∙ sym (events_of-append before after)) r
      ended (some x) e =
          subst (Reaches (record table { rows = table.rows ++ x ∷ [] }))
            (sym (events_of-append before after))
            (Outbox.Concurrent.later r
              (Outbox.Concurrent.commits (events_of before) (events_of after) x e))

  aborted :
      (table : Table) (running before after : List Tx) (tx : Tx)
      → running ≡ before ++ tx ∷ after
      → Reaches table (events_of running)
      → Reaches table (events_of (before ++ after))
  aborted table running before after tx at r =
      ended tx.event (ap events_of at ∙ events_of-append before (tx ∷ after))
    where
      ended :
          (o : Option Event)
          → events_of running ≡ events_of before ++ with_event o (events_of after)
          → Reaches table (events_of (before ++ after))
      ended none e = subst (Reaches table) (e ∙ sym (events_of-append before after)) r
      ended (some x) e = subst (Reaches table) (sym (events_of-append before after)) (
          Outbox.Concurrent.later r
            (Outbox.Concurrent.aborts (events_of before) (events_of after) x e))

  called :
      {s t : Billing.Concurrent.State} (st : Billing.Concurrent.Step s t)
      → IsCall st
      → Reaches s.db.outbox (events_of s.running)
      → Reaches t.db.outbox (events_of t.running)
  called (upserts env req id db row begun positive free new h e) c r = r
  called (selects env req a begun positive free h enough) c r = r
  called {s = s} (updates before after tx a db row h kind read new h' e) c r =
      same_events s.db.outbox s.running before after tx (record tx { row = some row }) h refl r
  called {s = s} (records before after tx row db t h written new free h' e) c r =
      same_events s.db.outbox s.running before after tx (record tx { transaction = some t }) h refl
        r
  called {s = s} (announces before after tx row t o e h kind written recorded quiet h' e') c r =
      subst (Reaches (record (s.db.outbox) { next_id = o.next_id }))
        (sym (events_of-append before (record tx { event = some e } ∷ after)))
        (Outbox.Concurrent.later r (
          Outbox.Concurrent.inserts tx.env.outbox_fails tx.env.now "AccountToppedUp" row.id _
            (events_of before) (events_of after) e o
            (ap events_of h
              ∙ events_of-append before (tx ∷ after)
              ∙ ap (λ x. events_of before ++ with_event x (events_of after)) quiet)
            h' e'))
  called {s = s} (commits before after tx t h recorded complete commit) c r =
      committed s.db.outbox s.running before after tx h r
  called {s = s} (aborts before after tx h) c r = aborted s.db.outbox s.running before after tx h r
  called (works env ids) c r = absurd c

module _ (rp : RabbitPublisher) (violates : Constraint) where
  pub bill_of : {s : State} → Reach rp violates s → Billing.Concurrent.Reach s.bill
  bill_of start = Billing.Concurrent.start
  bill_of (later r (calls b st c)) = Billing.Concurrent.later (bill_of r) st
  bill_of (later r (begins env es h)) = bill_of r
  bill_of (later r (publishes error lost before after ids failed e rest m h sends)) = bill_of r
  bill_of (later r (misses error before after ids failed e rest err h refused)) = bill_of r
  bill_of (later r (ends env before after ids failed h)) =
      Billing.Concurrent.later (bill_of r) (works env ids)
  bill_of (later r (dies before after b h)) = bill_of r
  bill_of (later r (handles m st c)) = bill_of r

  pub box_of :
      {s : State}
      → Reach rp violates s
      → Outbox.Concurrent.Reach (rabbit_publisher rp) (box s.bill s.batches s.sent s.undone)
  box_of start = Outbox.Concurrent.start
  box_of (later {s = s} r (calls b st c)) = called rp s.batches s.sent s.undone st c (box_of r)
  box_of (later r (begins env es h)) =
      Outbox.Concurrent.later (box_of r) (Outbox.Concurrent.begins env es h)
  box_of (later r (publishes error lost before after ids failed e rest m h sends)) =
      Outbox.Concurrent.later (box_of r)
        (Outbox.Concurrent.publishes error before after ids failed e rest m h sends)
  box_of (later r (misses error before after ids failed e rest err h refused)) =
      Outbox.Concurrent.later (box_of r)
        (Outbox.Concurrent.misses error before after ids failed e rest err h refused)
  box_of (later r (ends env before after ids failed h)) =
      Outbox.Concurrent.later (box_of r) (Outbox.Concurrent.ends env before after ids failed h)
  box_of (later r (dies before after b h)) =
      Outbox.Concurrent.later (box_of r) (Outbox.Concurrent.dies before after b h)
  box_of (later r (handles m st c)) = box_of r

  pub mail_of : {s : State} → Reach rp violates s → Notification.Concurrent.Reach violates s.mail
  mail_of start = Notification.Concurrent.start
  mail_of (later r (calls b st c)) = mail_of r
  mail_of (later r (begins env es h)) = mail_of r
  mail_of (later r (publishes error true before after ids failed e rest m h sends)) = mail_of r
  mail_of (later r (publishes error false before after ids failed e rest m h sends)) =
      Notification.Concurrent.later (mail_of r) (Notification.Concurrent.publishes (delivery_of m))
  mail_of (later r (misses error before after ids failed e rest err h refused)) = mail_of r
  mail_of (later r (ends env before after ids failed h)) = mail_of r
  mail_of (later r (dies before after b h)) = mail_of r
  mail_of (later r (handles m st c)) = Notification.Concurrent.later (mail_of r) st
