-- ===== src/System/Distributed/Delivered.antt =====
-- From a deposit to its e-mail, with every part of the system in several processes
-- (billing/services/billing.go, pkg/outbox/worker.go, pkg/broker/broker.go,
-- notification/internal/worker/broker.go).
use microservices_go.Prelude.{
  ℕ, ◌+◌, ◌≤◌, ◌==◌, Bool, true, false, Option, none, some, if◌then◌else◌, List, [], ◌∷◌, ◌++◌, All,
  bytes_eq, bytes_eq_iff, decimal, decimal-injective, ◌≡◌, refl, sym, ap, ◌∙◌, inl, inr, arith,
  Bool-cases,
}
use microservices_go.Errors.{GoError, done}
use microservices_go.Outbox.{Event}
use microservices_go.Outbox.Worker.{attempt}
use microservices_go.Outbox.Concurrent.{in_flight}
use microservices_go.Outbox.Concurrent.Counts.{
  count as sendings, count-append, pending_count, processed_count,
}
use microservices_go.Outbox.Concurrent.Once.{workers_send_once}
use microservices_go.Broker.{Message, RabbitPublisher, rabbit_publisher, publish}
use microservices_go.Billing.Ledger.{IsValid}
use microservices_go.Billing.Concurrent.Serial.{concurrent_calls_refine_bank}
use microservices_go.Notification.Inbox.{Inbox, Constraint, has_event}
use microservices_go.Notification.Payloads.{Delivery}
use microservices_go.Notification.Consumer.{Settlement, ack, dead_letter, requeue}
use microservices_go.Notification.Consumer.Deduplication.{UniqueEventId}
use microservices_go.Notification.Concurrent.{
  copies, settled, publishes, settles, saves, mails, gives_up, ends, dies,
}
use microservices_go.Notification.Concurrent.Counts.{count, rows, places}
use microservices_go.Notification.Concurrent.Keeping.{IsDone}
use microservices_go.Notification.Concurrent.Once.{consumers_send_once}
use microservices_go.Notification.EndToEnd.{delivery_of}
use microservices_go.Notification
use microservices_go.System.Distributed.{State, arrive, IsHandling, Reach, start, later}
use microservices_go.System.Distributed
use microservices_go.System.Distributed.Keys.{Keyed, Keyed-known}
use microservices_go.System.Distributed.Kept.{Reach-IsKeyed}
use microservices_go.System.Distributed.Projections.{bill_of, box_of, mail_of, box}

same_decimal : (a i : ℕ) → bytes_eq (decimal a) (decimal i) ≡ (a == i)
same_decimal a i = elim (Bool-cases (a == i)) [
  | inl same ↦
      let e : a ≡ i = ground arith in
      (bytes_eq_iff (decimal a) (decimal i)).1 (ap decimal e) ∙ sym same
  | inr other ↦ ground (arith, bytes_eq_iff (decimal a) (decimal i), decimal-injective a i)
]

-- A message has the id of its event.
attempt-id :
    (rp : RabbitPublisher) (error : Option GoError) (e : Event) (m : Message)
    → attempt (rabbit_publisher rp) error e ≡ done m
    → m.message_id ≡ decimal e.id
unfolding publish
attempt-id rp none e m h = ground arith
attempt-id rp (some err) e m h = cc

published-settled :
    (lost : Bool) (to : Settlement) (msg : Delivery) (s : Notification.Concurrent.State)
    → (settled lost to msg s).published ≡ s.published
published-settled true to msg s = refl
published-settled false ack msg s = refl
published-settled false dead_letter msg s = refl
published-settled false requeue msg s = refl

published-handled :
    (violates : Constraint) {s t : Notification.Concurrent.State}
    (st : Notification.Concurrent.Step violates s t)
    → IsHandling violates st
    → t.published ≡ s.published
published-handled violates (publishes msg) c = absurd c
published-handled violates {s = s} (settles env lost before after msg at named free silent) c =
    published-settled lost _ msg _
published-handled violates
      (saves env before after msg notice inbox at named known begun runs free h) c =
    refl
published-handled violates (mails before after h email at waits told) c = refl
published-handled violates {s = s} (gives_up lost before after h err at waits told) c =
    published-settled lost _ h.msg _
published-handled violates {s = s} (ends lost before after h at out) c =
    published-settled lost _ h.msg _
published-handled violates (dies before after h at) c = refl

-- An acknowledged message of the billing service is no ignored one.
known-done :
    (inbox : Inbox) (ms : List Delivery)
    → All (IsDone inbox) ms
    → All Keyed ms
    → All (λ m. has_event m.message_id inbox ≡ true) ms
known-done inbox [] d k = tt
known-done inbox (m ∷ ms) (inl stored, rest) k = (stored, known-done inbox ms rest k.1)
known-done inbox (m ∷ ms) (inr (env, ignored), rest) k = absurd (Keyed-known env m k.0 ignored)

module _ (rp : RabbitPublisher) (violates : Constraint) where
  matched :
      (i : ℕ) {s : State}
      → Reach rp violates s
      → copies (decimal i) s.mail.published + count (decimal i) s.lost ≡ sendings i s.sent
  matched i start = refl
  matched i (later r (Distributed.calls b st c)) = matched i r
  matched i (later r (Distributed.begins env es h)) = matched i r
  matched i
        (later {s = s} r
          (Distributed.publishes error lost before after ids failed e rest m h sends)) =
      let same : bytes_eq m.message_id (decimal i) ≡ (e.id == i) =
        ap (λ id. bytes_eq id (decimal i)) (attempt-id rp error e m sends) ∙ same_decimal e.id i in
      sent lost same (matched i r)
    where
      sent :
          (lost : Bool)
          → bytes_eq m.message_id (decimal i) ≡ (e.id == i)
          → copies (decimal i) s.mail.published + count (decimal i) s.lost ≡ sendings i s.sent
          → copies (decimal i) (if lost then s.mail else arrive (delivery_of m) s.mail).published
              + count (decimal i) (if lost then m.message_id ∷ s.lost else s.lost)
            ≡ sendings i (s.sent ++ e.id ∷ [])
      sent true same before_it = ground (arith, count-append i s.sent (e.id ∷ []))
      sent false same before_it = ground (arith, count-append i s.sent (e.id ∷ []))
  matched i (later r (Distributed.misses error before after ids failed e rest err h refused)) =
      matched i r
  matched i (later r (Distributed.ends env before after ids failed h)) = matched i r
  matched i (later r (Distributed.dies before after b h)) = matched i r
  matched i (later {s = s} r (Distributed.handles m st c)) =
      ap (λ ms. copies (decimal i) ms + count (decimal i) s.lost) (published-handled violates st c)
      ∙ matched i r

  -- With a unique constraint on the event id of the inbox, in any interleaving of the billing
  -- service's statements, the queries, calls of Publish and ends of its outbox workers, and the
  -- INSERTs, e-mails and ends of the consumers' transactions, with a connection that fails at one
  -- call and not at another, messages that the broker loses, other failures, and processes that die:
  -- the books are valid, so that the outbox has a row for each deposit in order; an event has at most
  -- one row, pending or PROCESSED; its messages that are ready, at work, acknowledged, rejected or
  -- lost are as many as its batches that were undone after they had sent it, one more exactly if its
  -- row is PROCESSED, and one more exactly if an open batch has sent it; its e-mails are as many as
  -- the transactions that were undone after they had sent one, one more exactly if the inbox has the
  -- event, which it has at most once, and one more exactly if an open transaction has sent one; and
  -- each acknowledged message has its event in the inbox.
  pub deposits_reach_mail :
      (i : ℕ) (s : State)
      → UniqueEventId violates
      → Reach rp violates s
      → let marked = processed_count i s.bill.db.outbox.rows in
        IsValid s.bill.db
        × (pending_count i s.bill.db.outbox.rows + marked ≤ 1)
        × (places (decimal i) s.mail + count (decimal i) s.lost
            ≡ sendings i s.undone + marked + sendings i (in_flight s.batches))
        × (marked + sendings i (in_flight s.batches) ≤ 1)
        × (count (decimal i) s.mail.sent
            ≡ count (decimal i) s.mail.undone
              + rows (decimal i) s.mail.inbox
              + count (decimal i) (Notification.Concurrent.in_flight s.mail.running))
        × (rows (decimal i) s.mail.inbox ≤ 1)
        × All (λ m. has_event m.message_id s.mail.inbox ≡ true) s.mail.acked
  deposits_reach_mail i s unique r =
      let books = (concurrent_calls_refine_bank s.bill (bill_of rp violates r)).0 in
      let (_, one_row, sent, one_open) =
        workers_send_once (rabbit_publisher rp) i (box s.bill s.batches s.sent s.undone)
          (box_of rp violates r) in
      let (once, mails_sent, stays, settled_well) =
        consumers_send_once violates unique s.mail (mail_of rp violates r) in
      (
        books,
        one_row,
        omega (arith, stays (decimal i), matched i r, sent),
        one_open,
        mails_sent (decimal i),
        omega (arith, once (decimal i)),
        known-done s.mail.inbox s.mail.acked settled_well (Reach-IsKeyed rp violates r).2,
      )
