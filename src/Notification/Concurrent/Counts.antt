-- ===== src/Notification/Concurrent/Counts.antt =====
-- How often an event id stands among messages and rows, and what one transaction makes of these
-- numbers (notification/internal/worker/broker.go).
use mathlib.Core.Path.{subst}
use microservices_go.Prelude.{
  ℕ, ◌+◌, false, List, [], ◌∷◌, ◌++◌, Bytes, bytes_eq, if◌then◌else◌, ◌≡◌, ◌≢◌, refl, sym, ap, ◌∙◌,
  arith,
}
use microservices_go.Errors.{Result, done, fail, GoError, wrap, message}
use microservices_go.Postgres.{CommitOutcome, committed, rolled_back, ack_lost}
use microservices_go.Notification.Payloads.{Env, Delivery, Notice}
use microservices_go.Notification.Email.{Email}
use microservices_go.Notification.Inbox.{
  Inbox, ProcessedEvent, Constraint, has_event, save_processed_message_tx,
}
use microservices_go.Notification.Consumer.{
  Reply, ack, notify, process, commit, stopped, params_of, settle,
}
use microservices_go.Notification.Consumer.Deduplication.{UniqueEventId}
use microservices_go.Notification.Concurrent.{Handler, messages, in_flight, copies, State}

abbrev pub rows : Bytes → Inbox → ℕ
rows i [] = 0
rows i (r ∷ rs) = (if bytes_eq r.params.event_id i then 1 else 0) + rows i rs

abbrev pub count : Bytes → List Bytes → ℕ
count i [] = 0
count i (j ∷ js) = (if bytes_eq j i then 1 else 0) + count i js

pub has_event-rows : (i : Bytes) (rs : Inbox) → rows i rs ≡ 0 → has_event i rs ≡ false
has_event-rows i [] h = refl
has_event-rows i (r ∷ rs) h = ground (arith, has_event-rows i rs)

pub rows-has_event : (i : Bytes) (rs : Inbox) → has_event i rs ≡ false → rows i rs ≡ 0
rows-has_event i [] h = refl
rows-has_event i (r ∷ rs) h = ground (arith, rows-has_event i rs)

module _ (i : Bytes) where
  pub count-append : (js ks : List Bytes) → count i (js ++ ks) ≡ count i js + count i ks
  count-append [] ks = omega arith
  count-append (j ∷ js) ks = omega (arith, count-append js ks)

  pub rows-append : (rs ss : Inbox) → rows i (rs ++ ss) ≡ rows i rs + rows i ss
  rows-append [] ss = omega arith
  rows-append (r ∷ rs) ss = omega (arith, rows-append rs ss)

  pub copies-append : (ms ns : List Delivery) → copies i (ms ++ ns) ≡ copies i ms + copies i ns
  copies-append [] ns = omega arith
  copies-append (m ∷ ms) ns = omega (arith, copies-append ms ns)

  pub copies-split :
      (before after : List Delivery) (m : Delivery)
      → copies i (before ++ m ∷ after) ≡ copies i (m ∷ []) + copies i (before ++ after)
  copies-split [] after m = omega arith
  copies-split (b ∷ before) after m = omega (arith, copies-split before after m)

  pub messages-split :
      (before after : List Handler) (h : Handler)
      → copies i (messages (before ++ h ∷ after))
        ≡ copies i (h.msg ∷ []) + copies i (messages (before ++ after))
  messages-split [] after h = omega arith
  messages-split (b ∷ before) after h = omega (arith, messages-split before after h)

  pub in_flight-split :
      (before after : List Handler) (h : Handler)
      → count i (in_flight (before ++ h ∷ after))
        ≡ (if h.mailed then copies i (h.msg ∷ []) else 0) + count i (in_flight (before ++ after))
  in_flight-split [] after h = ground arith
  in_flight-split (b ∷ before) after h = ground (arith, in_flight-split before after h)

  -- Where a message is after its settlement.
  abbrev pub places : State → ℕ
  places s = copies i s.ready + copies i (messages s.running) + copies i s.acked + copies i s.dead

-- The ways through the transaction of an event that is new.
pub data Outcome (env : Env) (id : Bytes) (inbox : Inbox) (r : Reply) : Type 0 where
  unsent : r.sent ≡ [] → r.inbox ≡ inbox → settle r.result ≢ ack → Outcome env id inbox r
  taken_back :
      (email : Email)
      → r.sent ≡ (id, email) ∷ []
      → env.commit ≡ rolled_back
      → r.inbox ≡ inbox
      → settle r.result ≢ ack
      → Outcome env id inbox r
  kept :
      (email : Email) (row : ProcessedEvent)
      → r.sent ≡ (id, email) ∷ []
      → env.commit ≢ rolled_back
      → row.params.event_id ≡ id
      → r.inbox ≡ inbox ++ row ∷ []
      → Outcome env id inbox r

pub fail-settle : (err : GoError) → settle (fail err) ≢ ack
fail-settle err h = ground arith

commit-Outcome :
    (env : Env) (id : Bytes) (email : Email) (inbox : Inbox) (row : ProcessedEvent)
    (c : CommitOutcome)
    → env.commit ≡ c
    → row.params.event_id ≡ id
    → Outcome env id inbox (commit env id email inbox (inbox ++ row ∷ []))
commit-Outcome env id email inbox row committed e own =
    rw e (kept email row refl (λ h. cc) own refl)
commit-Outcome env id email inbox row rolled_back e own = rw e (
    taken_back email refl refl refl
      (fail-settle (wrap "failed to commit transaction" (message "commit"))))
commit-Outcome env id email inbox row ack_lost e own = rw e (kept email row refl (λ h. cc) own refl)

pub process-Outcome :
    (violates : Constraint) (env : Env) (msg : Delivery) (notice : Notice) (inbox : Inbox)
    → UniqueEventId violates
    → env.begin_fails ≡ false
    → env.exec_fails ≡ false
    → has_event msg.message_id inbox ≡ false
    → Outcome env msg.message_id inbox (process violates env msg notice inbox)
unfolding process save_processed_message_tx
process-Outcome violates env msg notice inbox unique begun runs new =
    notified (notify env notice) refl
  where
    row : ProcessedEvent
    row = record { params = params_of msg notice; processed_at = env.now }

    notified :
        (n : Result Email)
        → notify env notice ≡ n
        → Outcome env msg.message_id inbox (process violates env msg notice inbox)
    notified (fail err) e =
        let free = unique.only_id (params_of msg notice) inbox in
        let same : process violates env msg notice inbox ≡ stopped err inbox = ground arith in
        subst (Outcome env msg.message_id inbox) (sym same) (unsent refl refl (fail-settle err))
    notified (done email) e =
        let free = unique.only_id (params_of msg notice) inbox in
        let same : process violates env msg notice inbox
            ≡ commit env msg.message_id email inbox (inbox ++ row ∷ []) =
          ground arith in
        subst (Outcome env msg.message_id inbox) (sym same)
          (commit-Outcome env msg.message_id email inbox row env.commit refl refl)

pub process-mailed :
    (violates : Constraint) (env : Env) (msg : Delivery) (notice : Notice) (inbox : Inbox)
    (email : Email)
    → UniqueEventId violates
    → env.begin_fails ≡ false
    → env.exec_fails ≡ false
    → has_event msg.message_id inbox ≡ false
    → notify env notice ≡ done email
    → (process violates env msg notice inbox).sent ≡ (msg.message_id, email) ∷ []
unfolding process save_processed_message_tx
process-mailed violates env msg notice inbox email unique begun runs new e =
    let free = unique.only_id (params_of msg notice) inbox in
    let row : ProcessedEvent = record { params = params_of msg notice; processed_at = env.now } in
    let same : process violates env msg notice inbox
        ≡ commit env msg.message_id email inbox (inbox ++ row ∷ []) =
      ground arith in
    ap (λ (r : Reply). r.sent) same ∙ committed_email env.commit refl
  where
    committed_email :
        (c : CommitOutcome)
        → env.commit ≡ c
        → (commit env msg.message_id email inbox
            (inbox ++ record { params = params_of msg notice; processed_at = env.now } ∷ [])).sent
          ≡ (msg.message_id, email) ∷ []
    committed_email committed e = rw e refl
    committed_email rolled_back e = rw e refl
    committed_email ack_lost e = rw e refl
