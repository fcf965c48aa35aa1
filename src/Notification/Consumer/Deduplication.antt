-- ===== src/Notification/Consumer/Deduplication.antt =====
-- That an event is announced by one e-mail (notification/internal/worker/broker.go).
use microservices_go.Prelude.{
  true, false, Option, none, some, [], ◌∷◌, ◌++◌, Bytes, bytes_eq, bytes_eq_refl, ◌≡◌, ◌≢◌, refl,
  arith, ◌⊎◌, inl, inr, Bool-cases,
}
use microservices_go.Errors.{GoError, message, Result, done, fail}
use microservices_go.Postgres.{rolled_back}
use microservices_go.Notification.Email.{Email}
use microservices_go.Notification.Inbox.{
  Inbox, ProcessedEvent, Constraint, SaveProcessedMessageParams, has_event,
  save_processed_message_tx,
}
use microservices_go.Notification.Payloads.{Env, Delivery, Notice, decode}
use microservices_go.Notification.Consumer.{
  Reply, notify, handle_message, process, params_of, stopped, skipped,
}

-- The table has a unique constraint on the event id, and no other that an event can violate.
pub record UniqueEventId (violates : Constraint) : Type 0 where
  pub only_id :
      (params : SaveProcessedMessageParams) (inbox : Inbox)
      → violates params inbox ≡ has_event params.event_id inbox

pub has_event-append_some :
    (i : Bytes) (rs ss : Inbox) → has_event i rs ≡ true → has_event i (rs ++ ss) ≡ true
has_event-append_some i [] ss h = cc
has_event-append_some i (r ∷ rs) ss h = ground (arith, has_event-append_some i rs ss)

pub has_event-append_last :
    (rs : Inbox) (r : ProcessedEvent) → has_event r.params.event_id (rs ++ r ∷ []) ≡ true
has_event-append_last [] r = ground (arith, bytes_eq_refl r.params.event_id)
has_event-append_last (s ∷ rs) r = ground (arith, has_event-append_last rs r)

-- Whether the commit of a delivery is not undone.
abbrev pub Sticks : Env → Type 0
Sticks env = env.commit ≢ rolled_back

-- The three ways through a delivery.
pub handle_message_cases :
    (violates : Constraint) (env : Env) (msg : Delivery) (inbox : Inbox)
    → let r = handle_message violates env msg inbox in
      ((err : GoError) × (r ≡ stopped err inbox))
      ⊎ (r ≡ skipped inbox)
      ⊎ ((notice : Notice) × (r ≡ process violates env msg notice inbox))
unfolding handle_message
handle_message_cases violates env msg inbox = elim (Bool-cases (bytes_eq msg.message_id [])) [
  | inl empty ↦ inl (message "empty event id", rw empty)
  | inr named ↦ rw named (decoded (decode env msg) refl)
]
  where
    decoded :
        (d : Result (Option Notice))
        → decode env msg ≡ d
        → let r : Reply = elim (decode env msg) [
          | fail err ↦ stopped err inbox
          | done none ↦ skipped inbox
          | done (some notice) ↦ process violates env msg notice inbox
        ] in
          ((err : GoError) × (r ≡ stopped err inbox))
          ⊎ (r ≡ skipped inbox)
          ⊎ ((notice : Notice) × (r ≡ process violates env msg notice inbox))
    decoded (fail err) q = inl (err, rw q)
    decoded (done none) q = inr (inl (rw q))
    decoded (done (some notice)) q = inr (inr (notice, rw q))

-- What a delivery may do: nothing, or send one e-mail for an id that was new, which is in the inbox
-- from then on if the commit sticks.
pub record IsOnce (env : Env) (id : Bytes) (inbox : Inbox) (r : Reply) : Type 0 where
  pub grows : (i : Bytes) → has_event i inbox ≡ true → has_event i r.inbox ≡ true
  pub sends :
      (r.sent ≡ [])
      ⊎ ((email : Email) × (r.sent ≡ (id, email) ∷ [])
          × (has_event id inbox ≡ false)
          × (Sticks env → has_event id r.inbox ≡ true))

module _ (violates : Constraint) (unique : UniqueEventId violates) where
  process_grows :
      (env : Env) (msg : Delivery) (notice : Notice) (inbox : Inbox) (i : Bytes)
      → has_event i inbox ≡ true
      → has_event i (process violates env msg notice inbox).inbox ≡ true
  unfolding process save_processed_message_tx
  process_grows env msg notice inbox i h = ground (
    arith,
    has_event-append_some i inbox
        (record { params = params_of msg notice; processed_at = env.now } ∷ []) h,
  )

  process_silent :
      (env : Env) (msg : Delivery) (notice : Notice) (inbox : Inbox) (err : GoError)
      → notify env notice ≡ fail err
      → (process violates env msg notice inbox).sent ≡ []
  unfolding process save_processed_message_tx
  process_silent env msg notice inbox err q = ground arith

  process_sends :
      (env : Env) (msg : Delivery) (notice : Notice) (inbox : Inbox) (email : Email)
      → notify env notice ≡ done email
      → let r = process violates env msg notice inbox in
        (r.sent ≡ [])
        ⊎ ((r.sent ≡ (msg.message_id, email) ∷ [])
            × (has_event msg.message_id inbox ≡ false)
            × (Sticks env → has_event msg.message_id r.inbox ≡ true))
  unfolding process save_processed_message_tx
  process_sends env msg notice inbox email q = ground (
    arith,
    unique.only_id (params_of msg notice) inbox,
    has_event-append_last inbox (record { params = params_of msg notice; processed_at = env.now }),
  )

  process-IsOnce :
      (env : Env) (msg : Delivery) (notice : Notice) (inbox : Inbox)
      → IsOnce env msg.message_id inbox (process violates env msg notice inbox)
  process-IsOnce env msg notice inbox = record {
    grows = process_grows env msg notice inbox;
    sends = notified (notify env notice) refl;
  }
    where
      r : Reply
      r = process violates env msg notice inbox

      notified :
          (n : Result Email)
          → notify env notice ≡ n
          → (r.sent ≡ [])
            ⊎ ((email : Email) × (r.sent ≡ (msg.message_id, email) ∷ [])
                × (has_event msg.message_id inbox ≡ false)
                × (Sticks env → has_event msg.message_id r.inbox ≡ true))
      notified (fail err) q = inl (process_silent env msg notice inbox err q)
      notified (done email) q = elim (process_sends env msg notice inbox email q) [
        | inl silent ↦ inl silent
        | inr (sent, new, kept) ↦ inr (email, sent, new, kept)
      ]

  pub handle_message-IsOnce :
      (env : Env) (msg : Delivery) (inbox : Inbox)
      → IsOnce env msg.message_id inbox (handle_message violates env msg inbox)
  handle_message-IsOnce env msg inbox = elim (handle_message_cases violates env msg inbox) [
    | inl (err, e) ↦ rw e (record { grows = λ i h. h; sends = inl refl })
    | inr (inl e) ↦ rw e (record { grows = λ i h. h; sends = inl refl })
    | inr (inr (notice, e)) ↦ rw e (process-IsOnce env msg notice inbox)
  ]
