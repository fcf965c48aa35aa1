-- ===== src/Notification/Consumer/Settlements.antt =====
-- How the consumer settles a delivery (notification/internal/worker/broker.go).
use microservices_go.Prelude.{
  String, true, false, Option, none, some, [], ◌∷◌, bytes_eq, ◌≡◌, ◌↔◌, refl, arith, ◌⊎◌, inl, inr,
  Bool-cases, str_eq, eq_iff, Option-cases, ap, ◌∙◌,
}
use microservices_go.Errors.{GoError, wrap, sentinel, Result, done, fail, is, fatal}
use microservices_go.Postgres.{rolled_back}
use microservices_go.Notification.Email.{Email, deposit_email}
use microservices_go.Notification.Inbox.{Inbox, Constraint, save_processed_message_tx}
use microservices_go.Notification.Payloads.{
  Env, Delivery, Notice, DepositSuccessPayload, topped_up, registered, decode, unmarshal_deposit,
  unmarshal_registered,
}
use microservices_go.Notification.Consumer.{
  notify, handle_message, process, settle, dead_letter, requeue,
}

-- A delivery that no retry can help: its body does not decode, or a deposit names no user.
abbrev pub IsBad : Env → Delivery → Type 0
IsBad env msg =
    ((msg.routing_key ≡ "AccountToppedUp")
      × ((unmarshal_deposit env.parse_time msg.body ≡ none)
          ⊎ ((p : DepositSuccessPayload) × (unmarshal_deposit env.parse_time msg.body ≡ some p)
              × (p.user_id ≡ ""))))
    ⊎ ((msg.routing_key ≡ "AccountRegistered")
        × (unmarshal_registered env.parse_time msg.body ≡ none))

-- The errors of the auth service and of the SMTP server are not the worker's own ErrFatal.
pub record IsForeign (env : Env) : Type 0 where
  pub users : (u : String) (err : GoError) → env.get_user_by_id u ≡ fail err → is err fatal ≡ false
  pub mails :
      (e : Email) (err : GoError) → env.dialer.dial_and_send e ≡ fail err → is err fatal ≡ false

notify_not_fatal :
    (env : Env) (notice : Notice) (err : GoError)
    → IsForeign env
    → notify env notice ≡ fail err
    → is err fatal ≡ false
unfolding notify
notify_not_fatal env (topped_up p) err f h = found (env.get_user_by_id p.user_id) refl
  where
    sent :
        (email : String)
        → env.get_user_by_id p.user_id ≡ done email
        → (r : Result (Unit {0}))
        → env.dialer.dial_and_send (deposit_email env.dialer email p.amount) ≡ r
        → is err fatal ≡ false
    sent email q (fail e) m = ground (arith, f.mails (deposit_email env.dialer email p.amount) e m)
    sent email q (done _) m = ground arith

    found : (r : Result String) → env.get_user_by_id p.user_id ≡ r → is err fatal ≡ false
    found (fail e) q = ground (arith, f.users p.user_id e q)
    found (done email) q =
        sent email q (env.dialer.dial_and_send (deposit_email env.dialer email p.amount)) refl
notify_not_fatal env (registered p) err f h = grind (arith, f.mails)

process_not_fatal :
    (violates : Constraint) (env : Env) (msg : Delivery) (notice : Notice) (inbox : Inbox)
    → IsForeign env
    → settle (process violates env msg notice inbox).result ≡ dead_letter
    → ⊥
unfolding process save_processed_message_tx
process_not_fatal violates env msg notice inbox f h = notified (notify env notice) refl
  where
    notified : (n : Result Email) → notify env notice ≡ n → ⊥
    notified (fail err) q = ground (arith, notify_not_fatal env notice err f q)
    notified (done e) q = ground arith

abbrev unreadable : GoError
unreadable = wrap "failed to unmarshal" (sentinel fatal)

abbrev nobody : GoError
nobody = wrap "empty user id in payload" (sentinel fatal)

-- Decoding fails on the bad deliveries alone, and then with the fatal error.
decode_bad :
    (env : Env) (msg : Delivery)
    → IsBad env msg
    → (err : GoError) × (decode env msg ≡ fail err) × (is err fatal ≡ true)
unfolding decode
decode_bad env msg (inl (k, inl u)) =
    (unreadable, ground (arith, eq_iff msg.routing_key "AccountToppedUp"), refl)
decode_bad env msg (inl (k, inr (p, u, e))) =
    (nobody, ground (arith, eq_iff msg.routing_key "AccountToppedUp", eq_iff p.user_id ""), refl)
decode_bad env msg (inr (k, u)) = (unreadable, rw (k, decode) (rw u), refl)

decode_fails :
    (env : Env) (msg : Delivery) (err : GoError) → decode env msg ≡ fail err → IsBad env msg
unfolding decode
decode_fails env msg err h = elim (Option-cases (unmarshal_deposit env.parse_time msg.body)) [
  | inl none_read ↦
      ground (
        arith,
        eq_iff msg.routing_key "AccountToppedUp",
        eq_iff msg.routing_key "AccountRegistered",
      )
  | inr (p, q) ↦ elim (Bool-cases (str_eq msg.routing_key "AccountToppedUp")) [
    | inl top ↦ inl (
      (eq_iff msg.routing_key "AccountToppedUp").0 top,
      inr (p, q, ground (arith, eq_iff p.user_id "")),
    )
    | inr other ↦ inr (ground (arith, eq_iff msg.routing_key "AccountRegistered"), ground arith)
  ]
]

-- Where the other services' errors are not ErrFatal, a delivery goes to the dead letters exactly
-- when it has an event id and is bad: its body does not decode as its routing key demands, or it is
-- a deposit with an empty user id.
pub dead_letter_iff :
    (violates : Constraint) (env : Env) (msg : Delivery) (inbox : Inbox)
    → IsForeign env
    → (settle (handle_message violates env msg inbox).result ≡ dead_letter)
      ↔ ((bytes_eq msg.message_id [] ≡ false) × IsBad env msg)
unfolding handle_message
dead_letter_iff violates env msg inbox f = (
  λ h. elim (Bool-cases (bytes_eq msg.message_id [])) [
    | inl empty ↦ ground arith
    | inr named ↦ (named, decoded h named (decode env msg) refl)
  ],
  λ (named, bad). let (err, e, fatal_err) = decode_bad env msg bad in ground arith,
)
  where
    decoded :
        settle (handle_message violates env msg inbox).result ≡ dead_letter
        → bytes_eq msg.message_id [] ≡ false
        → (d : Result (Option Notice)) → decode env msg ≡ d
        → IsBad env msg
    decoded h named (fail err) q = decode_fails env msg err q
    decoded h named (done none) q = ground arith
    decoded h named (done (some notice)) q =
        absurd (process_not_fatal violates env msg notice inbox f (ground arith))

undone_reply :
    (violates : Constraint) (env : Env) (msg : Delivery) (inbox : Inbox) (e : Email)
    → env.commit ≡ rolled_back
    → (handle_message violates env msg inbox).sent ≡ (msg.message_id, e) ∷ []
    → let r = handle_message violates env msg inbox in
      (settle r.result ≡ requeue) × (r.inbox ≡ inbox)
unfolding handle_message process save_processed_message_tx
undone_reply violates env msg inbox e undone sent = ground arith

-- A delivery whose e-mail went out but whose commit was undone is requeued, and its inbox is as it
-- was: the same delivery in the same world sends the same e-mail again.
pub undone_commit_requeues :
    (violates : Constraint) (env : Env) (msg : Delivery) (inbox : Inbox) (e : Email)
    → env.commit ≡ rolled_back
    → (handle_message violates env msg inbox).sent ≡ (msg.message_id, e) ∷ []
    → let r = handle_message violates env msg inbox in
      (settle r.result ≡ requeue)
      × (r.inbox ≡ inbox)
      × ((handle_message violates env msg r.inbox).sent ≡ (msg.message_id, e) ∷ [])
undone_commit_requeues violates env msg inbox e undone sent =
    let r = handle_message violates env msg inbox in
    let (requeued, same) = undone_reply violates env msg inbox e undone sent in
    (requeued, same, ap (λ i. (handle_message violates env msg i).sent) same ∙ sent)
