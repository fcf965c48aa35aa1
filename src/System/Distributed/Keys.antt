-- ===== src/System/Distributed/Keys.antt =====
-- Every message of the billing service has the routing key of its event, from the outbox row to the
-- settlement (pkg/outbox/pg_repo.go, pkg/broker/broker.go, notification/internal/worker/broker.go).
use mathlib.Core.Path.{subst}
use microservices_go.Prelude.{
  ℕ, Bool, true, false, String, eq_iff, Option, none, some, List, [], ◌∷◌, ◌++◌, All, All-append,
  All-split, All-join, take-All, keep, leb, ◌≡◌, ◌≢◌, sym, ap, ◌∙◌, inl, inr, arith, Bool-cases,
  last-injective,
}
use microservices_go.Errors.{GoError, done, done-injective}
use microservices_go.Postgres.{Time}
use microservices_go.Json.{Payload}
use microservices_go.Outbox.{
  Event, Table, insert_by_id, order_by_id, selectable, insert_outbox_event_tx,
  query_outbox_events_tx,
}
use microservices_go.Outbox.Worker.{BatchEnv, attempt, batch_limit, mark_published}
use microservices_go.Outbox.Worker.Safety.{AllAdvanced, mark_published-AllAdvanced}
use microservices_go.Broker.{Message, RabbitPublisher, rabbit_publisher, publish}
use microservices_go.Notification.Inbox.{Constraint}
use microservices_go.Notification.Payloads.{Env, Delivery, decode}
use microservices_go.Notification.Consumer.{Settlement, ack, dead_letter, requeue}
use microservices_go.Notification.Concurrent.{
  Handler, settled, publishes, settles, saves, mails, gives_up, ends, dies,
}
use microservices_go.Notification
use microservices_go.System.Distributed.{arrive, IsHandling}

abbrev pub Known : Event → Type 0
Known e = e.event_type ≡ "AccountToppedUp"

abbrev pub Keyed : Delivery → Type 0
Keyed m = m.routing_key ≡ "AccountToppedUp"

-- The statements of the outbox.

pub inserted-Known :
    (insert_fails : Bool) (now : Time) (aggregate_id : String) (payload : Payload) (t t' : Table)
    (e : Event)
    → insert_outbox_event_tx insert_fails now "AccountToppedUp" aggregate_id payload t ≡ done t'
    → t'.rows ≡ t.rows ++ e ∷ []
    → Known e
unfolding insert_outbox_event_tx
inserted-Known true now aggregate_id payload t t' e h rows = cc
inserted-Known false now aggregate_id payload t t' e h rows =
    ap (λ (f : Event). f.event_type)
      (sym (last-injective t.rows (ap (λ (u : Table). u.rows) (done-injective h) ∙ rows)))

insert_by_id-Known :
    (e : Event) (es : List Event) → Known e → All Known es → All Known (insert_by_id e es)
insert_by_id-Known e [] k h = (k, tt)
insert_by_id-Known e (f ∷ fs) k h = elim (Bool-cases (leb e.id f.id)) [
  | inl below ↦ rw below (k, h)
  | inr above ↦ rw above (h.0, insert_by_id-Known e fs k h.1)
]

order_by_id-Known : (es : List Event) → All Known es → All Known (order_by_id es)
order_by_id-Known [] h = tt
order_by_id-Known (e ∷ es) h = insert_by_id-Known e (order_by_id es) h.0 (order_by_id-Known es h.1)

keep-Known : (q : Event → Bool) (es : List Event) → All Known es → All Known (keep q es)
keep-Known q [] h = tt
keep-Known q (e ∷ es) h = elim (Bool-cases (q e)) [
  | inl passes ↦ rw passes (h.0, keep-Known q es h.1)
  | inr drops ↦ rw drops (keep-Known q es h.1)
]

pub selected-Known :
    (query_fails scan_fails : Bool) (locked : List ℕ) (t : Table) (es : List Event)
    → query_outbox_events_tx query_fails scan_fails locked batch_limit t ≡ done es
    → All Known t.rows
    → All Known es
unfolding query_outbox_events_tx
selected-Known true scan_fails locked t es h k = cc
selected-Known false true locked t es h k = cc
selected-Known false false locked t es h k =
    subst (All Known) (done-injective h)
      (take-All Known batch_limit _ (keep-Known (selectable locked) _ (order_by_id-Known t.rows k)))

AllAdvanced-Known :
    (now : Time) (ids : List ℕ) (es fs : List Event)
    → AllAdvanced now ids es fs
    → All Known es
    → All Known fs
AllAdvanced-Known now ids [] [] h k = tt
AllAdvanced-Known now ids [] (f ∷ fs) h k = absurd h
AllAdvanced-Known now ids (e ∷ es) [] h k = absurd h
AllAdvanced-Known now ids (e ∷ es) (f ∷ fs) (inl same, rest) k =
    (ap (λ (g : Event). g.event_type) same ∙ k.0, AllAdvanced-Known now ids es fs rest k.1)
AllAdvanced-Known now ids (e ∷ es) (f ∷ fs) (inr (_, marked), rest) k =
    (ap (λ (g : Event). g.event_type) marked ∙ k.0, AllAdvanced-Known now ids es fs rest k.1)

pub mark_published-Known :
    (env : BatchEnv) (t : Table) (ids : List ℕ)
    → All Known t.rows
    → All Known (mark_published env t ids).rows
mark_published-Known env t ids k =
    AllAdvanced-Known env.now ids t.rows (mark_published env t ids).rows
      (mark_published-AllAdvanced env t ids) k

-- The messages.

pub attempt-key :
    (rp : RabbitPublisher) (error : Option GoError) (e : Event) (m : Message)
    → attempt (rabbit_publisher rp) error e ≡ done m
    → m.routing_key ≡ e.event_type
unfolding publish
attempt-key rp none e m h = ground arith
attempt-key rp (some err) e m h = cc

-- The consumers.

abbrev pub IsKeyed : Notification.Concurrent.State → Type 0
IsKeyed s = All Keyed s.ready × All (λ (h : Handler). Keyed h.msg) s.running × All Keyed s.acked

pub arrive-IsKeyed :
    (m : Delivery) (s : Notification.Concurrent.State) → Keyed m → IsKeyed s → IsKeyed (arrive m s)
arrive-IsKeyed m s h (ready, running, acked) =
    (All-append Keyed s.ready (m ∷ []) ready (h, tt), running, acked)

settled-IsKeyed :
    (lost : Bool) (to : Settlement) (msg : Delivery) (s : Notification.Concurrent.State)
    → Keyed msg
    → IsKeyed s
    → IsKeyed (settled lost to msg s)
settled-IsKeyed true to msg s m (ready, running, acked) =
    (All-append Keyed s.ready (msg ∷ []) ready (m, tt), running, acked)
settled-IsKeyed false ack msg s m (ready, running, acked) = (ready, running, (m, acked))
settled-IsKeyed false dead_letter msg s m k = k
settled-IsKeyed false requeue msg s m (ready, running, acked) =
    (All-append Keyed s.ready (msg ∷ []) ready (m, tt), running, acked)

working :
    (before after : List Handler) (h : Handler) (running : List Handler)
    → running ≡ before ++ h ∷ after
    → All (λ (g : Handler). Keyed g.msg) running
    → Keyed h.msg × All (λ (g : Handler). Keyed g.msg) (before ++ after)
working before after h running at k =
    All-split (λ (g : Handler). Keyed g.msg) before after h
      (subst (All (λ (g : Handler). Keyed g.msg)) at k)

pub handled-IsKeyed :
    (violates : Constraint) {s t : Notification.Concurrent.State}
    (st : Notification.Concurrent.Step violates s t)
    → IsHandling violates st
    → IsKeyed s
    → IsKeyed t
handled-IsKeyed violates (publishes msg) c k = absurd c
handled-IsKeyed violates {s = s} (settles env lost before after msg at named free silent) c
      (ready, running, acked) =
    let (m, rest) = All-split Keyed before after msg (subst (All Keyed) at ready) in
    settled-IsKeyed lost _ msg _ m (rest, running, acked)
handled-IsKeyed violates {s = s}
      (saves env before after msg notice inbox at named known begun runs free h) c
      (ready, running, acked) =
    let (m, rest) = All-split Keyed before after msg (subst (All Keyed) at ready) in
    (rest, (m, running), acked)
handled-IsKeyed violates {s = s} (mails before after h email at waits told) c
      (ready, running, acked) =
    let (m, rest) = working before after h s.running at running in
    let out : Handler = record h { mailed = true } in
    (ready, All-join (λ (g : Handler). Keyed g.msg) before after out m rest, acked)
handled-IsKeyed violates {s = s} (gives_up lost before after h err at waits told) c
      (ready, running, acked) =
    let (m, rest) = working before after h s.running at running in
    settled-IsKeyed lost _ h.msg _ m (ready, rest, acked)
handled-IsKeyed violates {s = s} (ends lost before after h at out) c (ready, running, acked) =
    let (m, rest) = working before after h s.running at running in
    settled-IsKeyed lost _ h.msg _ m (ready, rest, acked)
handled-IsKeyed violates {s = s} (dies before after h at) c (ready, running, acked) =
    let (m, rest) = working before after h s.running at running in
    (All-append Keyed s.ready (h.msg ∷ []) ready (m, tt), rest, acked)

-- A message with the key is of a known type.
pub Keyed-known : (env : Env) (m : Delivery) → Keyed m → decode env m ≢ done none
unfolding decode
Keyed-known env m k h = ground (arith, eq_iff m.routing_key "AccountToppedUp")
