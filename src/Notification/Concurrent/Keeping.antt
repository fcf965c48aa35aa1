-- ===== src/Notification/Concurrent/Keeping.antt =====
-- What several consumers keep of the messages of one queue, and how the end of a delivery keeps it
-- (notification/internal/worker/broker.go).
use mathlib.Core.Path.{subst}
use microservices_go.Prelude.{
  ℕ, All-split, ◌+◌, ◌≤◌, Bool, true, false, List, [], ◌∷◌, ◌++◌, Bytes, bytes_eq, some, none, ◌≡◌,
  ◌≢◌, refl, sym, ap, ◌∙◌, ◌⊎◌, inl, inr, arith, Bool-cases, All, All-map, if◌then◌else◌,
}
use microservices_go.Errors.{done, Result-cases}
use microservices_go.Postgres.{CommitOutcome, committed, rolled_back, ack_lost}
use microservices_go.Notification.Payloads.{Env, Delivery, Notice, decode}
use microservices_go.Notification.Email.{Email}
use microservices_go.Notification.Inbox.{Inbox, Constraint, has_event, save_processed_message_tx}
use microservices_go.Notification.Consumer.{
  Reply, Settlement, ack, dead_letter, requeue, notify, process, handle_message, settle,
}
use microservices_go.Notification.Consumer.Deduplication.{UniqueEventId, has_event-append_some}
use microservices_go.Notification.Concurrent.{
  Handler, messages, in_flight, copies, State, settled, ids_of, undone_of,
}
use microservices_go.Notification.Concurrent.Counts.{
  rows, count, places, count-append, rows-append, copies-append, messages-split, in_flight-split,
  Outcome, unsent, taken_back, kept, process-Outcome,
}

-- An acknowledged message: its event is in the inbox, or it is of no known type.
abbrev pub IsDone : Inbox → Delivery → Type 0
IsDone inbox msg =
    (has_event msg.message_id inbox ≡ true) ⊎ ((env : Env) × (decode env msg ≡ done none))

abbrev pub IsOpen : Handler → Type 0
IsOpen h =
    (h.env.begin_fails ≡ false)
    × (h.env.exec_fails ≡ false)
    × (h.mailed ≡ true → (email : Email) × (notify h.env h.notice ≡ done email))

-- What the consumers keep, but for messages that stand in no place.
pub record Keeps (lost : List Delivery) (s : State) : Type 0 where
  pub once : (i : Bytes) → copies i (messages s.running) + rows i s.inbox ≤ 1
  pub sends :
      (i : Bytes)
      → count i s.sent ≡ count i s.undone + rows i s.inbox + count i (in_flight s.running)
  pub stays : (i : Bytes) → copies i s.published ≡ places i s + copies i lost
  pub finished : All (IsDone s.inbox) s.acked
  pub opened : All IsOpen s.running

pub settled-Keeps :
    (lost : Bool) (to : Settlement) (msg : Delivery) (s : State)
    → Keeps (msg ∷ []) s
    → (to ≡ ack → IsDone s.inbox msg)
    → Keeps [] (settled lost to msg s)
settled-Keeps true to msg s k h = record {
  once = k.once;
  sends = k.sends;
  stays = λ i. omega (arith, k.stays i, copies-append i s.ready (msg ∷ []));
  finished = k.finished;
  opened = k.opened;
}
settled-Keeps false ack msg s k h = record {
  once = k.once;
  sends = k.sends;
  stays = λ i. omega (arith, k.stays i);
  finished = (h refl, k.finished);
  opened = k.opened;
}
settled-Keeps false dead_letter msg s k h = record {
  once = k.once;
  sends = k.sends;
  stays = λ i. omega (arith, k.stays i);
  finished = k.finished;
  opened = k.opened;
}
settled-Keeps false requeue msg s k h = record {
  once = k.once;
  sends = k.sends;
  stays = λ i. omega (arith, k.stays i, copies-append i s.ready (msg ∷ []));
  finished = k.finished;
  opened = k.opened;
}

IsDone-append : (rs ss : Inbox) (msg : Delivery) → IsDone rs msg → IsDone (rs ++ ss) msg
IsDone-append rs ss msg (inl known) = inl (has_event-append_some msg.message_id rs ss known)
IsDone-append rs ss msg (inr ignored) = inr ignored

undone_sticks : (c : CommitOutcome) (ids : List Bytes) → c ≢ rolled_back → undone_of c ids ≡ []
undone_sticks committed ids ne = refl
undone_sticks rolled_back ids ne = absurd (ne refl)
undone_sticks ack_lost ids ne = refl

-- The transaction `h` with its reply `r`, before the settlement.
abbrev pub left : State → (h : Handler) → (others : List Handler) → Reply → State
left s h others r = record s {
  running = others;
  inbox = r.inbox;
  undone = s.undone ++ undone_of h.env.commit (ids_of r.sent);
}

module _ (s : State) (before after : List Handler) (h : Handler)
    (at : s.running ≡ before ++ h ∷ after) (k : Keeps [] s) where
  pub split_running :
      (i : Bytes)
      → copies i (messages s.running)
        ≡ copies i (h.msg ∷ []) + copies i (messages (before ++ after))
  split_running i = ap (λ hs. copies i (messages hs)) at ∙ messages-split i before after h

  pub others_open : IsOpen h × All IsOpen (before ++ after)
  others_open = All-split IsOpen before after h (subst (All IsOpen) at k.opened)

  pub split_flight :
      (i : Bytes)
      → count i (in_flight s.running)
        ≡ (if h.mailed then copies i (h.msg ∷ []) else 0) + count i (in_flight (before ++ after))
  split_flight i = ap (λ hs. count i (in_flight hs)) at ∙ in_flight-split i before after h

  -- A transaction whose e-mail is out ends with `more` of each id among the rows.
  left_with :
      (r : Reply) (more : Bytes → ℕ)
      → h.mailed ≡ true
      → ((i : Bytes)
          → copies i (h.msg ∷ []) ≡ count i (undone_of h.env.commit (ids_of r.sent)) + more i)
      → ((i : Bytes) → rows i r.inbox ≡ rows i s.inbox + more i)
      → ((msg : Delivery) → IsDone s.inbox msg → IsDone r.inbox msg)
      → Keeps (h.msg ∷ []) (left s h (before ++ after) r)
  left_with r more out sent grown still = record {
    once = λ i. omega (arith, k.once i, split_running i, grown i, sent i);
    sends = λ i. ground (
      arith,
      k.sends i,
      sent i,
      grown i,
      split_flight i,
      count-append i s.undone (undone_of h.env.commit (ids_of r.sent)),
    );
    stays = λ i. omega (arith, k.stays i, split_running i);
    finished = All-map (IsDone s.inbox) (IsDone r.inbox) still s.acked k.finished;
    opened = others_open.1;
  }

  pub left-Keeps :
      (r : Reply) (email : Email)
      → h.mailed ≡ true
      → r.sent ≡ (h.msg.message_id, email) ∷ []
      → Outcome h.env h.msg.message_id s.inbox r
      → Keeps (h.msg ∷ []) (left s h (before ++ after) r)
  left-Keeps r email out mail (unsent sent same _) = absurd (ground arith)
  left-Keeps r email out mail (taken_back email' sent undone same _) =
      left_with r (λ i. 0) out (λ i. rw (sent, undone) (omega arith)) (λ i. rw same (omega arith))
        (λ msg d. rw same d)
  left-Keeps r email out mail (kept email' row sent sticks own same) =
      left_with r (λ i. copies i (h.msg ∷ [])) out
        (λ i. rw (sent, undone_sticks h.env.commit (h.msg.message_id ∷ []) sticks) (omega arith))
        (λ i. rw same (
          omega (
            arith,
            rows-append i s.inbox (row ∷ []),
            ap (λ j. rows i (record row { params = record (row.params) { event_id = j } } ∷ []))
                own,
          )))
        (λ msg d. rw same (IsDone-append s.inbox (row ∷ []) msg d))

unsent_ack :
    (env : Env) (id : Bytes) (inbox : Inbox) (r : Reply)
    → Outcome env id inbox r
    → r.sent ≡ []
    → settle r.result ≢ ack
unsent_ack env id inbox r (unsent _ _ not_acked) silent = not_acked
unsent_ack env id inbox r (taken_back email sent _ _ _) silent = λ _. cc
unsent_ack env id inbox r (kept email row sent _ _ _) silent = λ _. cc

module _ (violates : Constraint) (unique : UniqueEventId violates) where
  fresh_ack :
      (env : Env) (msg : Delivery) (notice : Notice) (inbox : Inbox)
      → has_event msg.message_id inbox ≡ false
      → (process violates env msg notice inbox).sent ≡ []
      → settle (process violates env msg notice inbox).result ≢ ack
  unfolding process save_processed_message_tx
  fresh_ack env msg notice inbox new silent acked = elim (Bool-cases env.begin_fails) [
    | inl fails ↦ ground arith
    | inr begun ↦ elim (Bool-cases env.exec_fails) [
      | inl fails ↦ ground arith
      | inr runs ↦
          unsent_ack env msg.message_id inbox _
            (process-Outcome violates env msg notice inbox unique begun runs new) silent acked
    ]
  ]

  pub silent_ack :
      (env : Env) (msg : Delivery) (inbox : Inbox)
      → bytes_eq msg.message_id [] ≡ false
      → (handle_message violates env msg inbox).sent ≡ []
      → settle (handle_message violates env msg inbox).result ≡ ack
      → IsDone inbox msg
  unfolding handle_message process save_processed_message_tx
  silent_ack env msg inbox named silent acked = elim (Result-cases (decode env msg)) [
    | inl (err, e) ↦ ground arith
    | inr (none, e) ↦ inr (env, e)
    | inr (some notice, e) ↦ elim (Bool-cases (has_event msg.message_id inbox)) [
      | inl known ↦ inl known
      | inr new ↦ absurd (
          fresh_ack env msg notice inbox new
            (ap (λ (r : Reply). r.sent) (sym (processed notice e)) ∙ silent)
            (ap (λ (r : Reply). settle r.result) (sym (processed notice e)) ∙ acked))
    ]
  ]
    where
      processed :
          (notice : Notice)
          → decode env msg ≡ done (some notice)
          → handle_message violates env msg inbox ≡ process violates env msg notice inbox
      processed notice e = rw (named, e) refl
