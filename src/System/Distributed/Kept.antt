-- ===== src/System/Distributed/Kept.antt =====
-- The system keeps the event types of its rows and the routing keys of its messages
-- (billing/services/billing.go, pkg/outbox/worker.go).
use mathlib.Core.Path.{subst}
use microservices_go.Prelude.{
  Bool, true, false, Option, none, some, if◌then◌else◌, ◌∙◌, List, [], ◌∷◌, ◌++◌, All, All-append,
  All-split, All-join,
}
use microservices_go.Outbox.{Event}
use microservices_go.Outbox.Concurrent.{Batch}
use microservices_go.Notification.EndToEnd.{delivery_of}
use microservices_go.Broker.{RabbitPublisher}
use microservices_go.Notification.Inbox.{Constraint}
use microservices_go.Billing.Running.{Tx, with_last}
use microservices_go.Billing
use microservices_go.Billing.Concurrent.{
  upserts, selects, updates, records, announces, commits, aborts, works,
}
use microservices_go.System.Distributed.{
  State, arrive, IsCall, Step, calls, begins, publishes, misses, ends, dies, handles, Reach, start,
  later,
}
use microservices_go.System.Distributed.Keys.{
  Known, Keyed, IsKeyed, inserted-Known, selected-Known, mark_published-Known, attempt-key,
  arrive-IsKeyed, handled-IsKeyed,
}

abbrev IsTold : Option Event → Type 0
IsTold none = Unit
IsTold (some e) = Known e

abbrev Tells : Tx → Type 0
Tells tx = IsTold tx.event

abbrev Knows : Billing.Concurrent.State → Type 0
Knows b = All Known b.db.outbox.rows × All Tells b.running

with_last-Known :
    (o : Option Event) (rows : List Event)
    → IsTold o
    → All Known rows
    → All Known (with_last o rows)
with_last-Known none rows h k = k
with_last-Known (some e) rows h k = All-append Known rows (e ∷ []) k (h, tt)

called-Knows :
    {s t : Billing.Concurrent.State} (st : Billing.Concurrent.Step s t)
    → IsCall st
    → Knows s
    → Knows t
called-Knows (upserts env req id db row begun positive free new h e) c (rows, open') =
    (rows, (tt, open'))
called-Knows (selects env req a begun positive free h enough) c (rows, open') = (rows, (tt, open'))
called-Knows (updates before after tx a db row h kind read new h' e) c (rows, open') =
    let (m, rest) = All-split Tells before after tx (subst (All Tells) h open') in
    (rows, All-join Tells before after (record tx { row = some row }) m rest)
called-Knows (records before after tx row db t h written new free h' e) c (rows, open') =
    let (m, rest) = All-split Tells before after tx (subst (All Tells) h open') in
    (rows, All-join Tells before after (record tx { transaction = some t }) m rest)
called-Knows {s = s} (announces before after tx row t o e h kind written recorded quiet h' e') c
      (rows, open') =
    let (_, rest) = All-split Tells before after tx (subst (All Tells) h open') in
    (
      rows,
      All-join Tells before after (record tx { event = some e })
          (inserted-Known tx.env.outbox_fails tx.env.now row.id _ s.db.outbox o e h' e') rest,
    )
called-Knows {s = s} (commits before after tx t h recorded complete commit) c (rows, open') =
    let (m, rest) = All-split Tells before after tx (subst (All Tells) h open') in
    (with_last-Known tx.event s.db.outbox.rows m rows, rest)
called-Knows (aborts before after tx h) c (rows, open') =
    (rows, (All-split Tells before after tx (subst (All Tells) h open')).1)
called-Knows (works env ids) c k = absurd c

-- The events that a batch has not tried yet.
abbrev Tries : Batch → Type 0
Tries b = All Known b.rest

record Keeps (s : State) : Type 0 where
  bill : Knows s.bill
  batches : All Tries s.batches
  mail : IsKeyed s.mail

module _ (rp : RabbitPublisher) (violates : Constraint) where
  Step-Keeps : {s t : State} → Step rp violates s t → Keeps s → Keeps t
  Step-Keeps (calls b st c) k = record {
    bill = called-Knows st c k.bill;
    batches = k.batches;
    mail = k.mail;
  }
  Step-Keeps {s = s} (begins env es h) k = record {
    bill = k.bill;
    batches =
        (selected-Known env.query_fails env.scan_fails _ s.bill.db.outbox es h k.bill.0, k.batches);
    mail = k.mail;
  }
  Step-Keeps {s = s} (publishes error lost before after ids failed e rest m h sends) k =
      let (known, others) = All-split Tries before after _ (subst (All Tries) h k.batches) in
      let b : Batch = record { ids = ids ++ e.id ∷ []; failed = failed; rest = rest } in
      record {
        bill = k.bill;
        batches = All-join Tries before after b known.1 others;
        mail = arrived lost (attempt-key rp error e m sends ∙ known.0) k.mail;
      }
    where
      arrived :
          (lost : Bool)
          → Keyed (delivery_of m)
          → IsKeyed s.mail
          → IsKeyed (if lost then s.mail else arrive (delivery_of m) s.mail)
      arrived true key mail = mail
      arrived false key mail = arrive-IsKeyed (delivery_of m) s.mail key mail
  Step-Keeps {s = s} (misses error before after ids failed e rest err h refused) k =
      let (known, others) = All-split Tries before after _ (subst (All Tries) h k.batches) in
      let b : Batch = record { ids = ids; failed = failed ++ e.id ∷ []; rest = rest } in
      record {
        bill = k.bill;
        batches = All-join Tries before after b known.1 others;
        mail = k.mail;
      }
  Step-Keeps {s = s} (ends env before after ids failed h) k = record {
    bill = (mark_published-Known env s.bill.db.outbox ids k.bill.0, k.bill.1);
    batches = (All-split Tries before after _ (subst (All Tries) h k.batches)).1;
    mail = k.mail;
  }
  Step-Keeps {s = s} (dies before after b h) k = record {
    bill = k.bill;
    batches = (All-split Tries before after b (subst (All Tries) h k.batches)).1;
    mail = k.mail;
  }
  Step-Keeps (handles m st c) k = record {
    bill = k.bill;
    batches = k.batches;
    mail = handled-IsKeyed violates st c k.mail;
  }

  Reach-Keeps : {s : State} → Reach rp violates s → Keeps s
  Reach-Keeps start = record { bill = (tt, tt); batches = tt; mail = (tt, tt, tt) }
  Reach-Keeps (later r st) = Step-Keeps st (Reach-Keeps r)

  pub Reach-IsKeyed : {s : State} → Reach rp violates s → IsKeyed s.mail
  Reach-IsKeyed r = let k = Reach-Keeps r in k.mail
