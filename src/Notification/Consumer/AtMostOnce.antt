-- ===== src/Notification/Consumer/AtMostOnce.antt =====
-- That a run of the consumer announces an event once (notification/internal/worker/broker.go).
use microservices_go.Prelude.{
  ℕ, suc, ◌+◌, ◌≤◌, true, List, [], ◌∷◌, ◌++◌, Bytes, bytes_eq, bytes_eq_iff, ◌≡◌, refl, arith,
  if◌then◌else◌, inl, inr, Bool-cases,
}
use mathlib.Core.Path.{subst}
use microservices_go.Notification.Email.{Email}
use microservices_go.Notification.Inbox.{Inbox, Constraint, has_event}
use microservices_go.Notification.Payloads.{Env, Delivery}
use microservices_go.Notification.Consumer.Deduplication.{
  UniqueEventId, Sticks, IsOnce, handle_message-IsOnce,
}
use microservices_go.Notification.Consumer.{
  Reply, handle_message, consume, Input, deliver, closed, stop,
}

-- How often an event was announced.
abbrev pub times : Bytes → List (Bytes × Email) → ℕ
times i [] = 0
times i ((j, _) ∷ l) = if bytes_eq j i then suc (times i l) else times i l

times-append : (i : Bytes) (l m : List (Bytes × Email)) → times i (l ++ m) ≡ times i l + times i m
times-append i [] m = omega arith
times-append i (e ∷ l) m = ground (arith, times-append i l m)

-- The commits of a run that are not undone.
abbrev pub AllStick : List Input → Type 0
AllStick [] = Unit
AllStick (deliver env msg ∷ rest) = Sticks env × AllStick rest
AllStick (_ ∷ rest) = AllStick rest

module _ (violates : Constraint) (unique : UniqueEventId violates) where
  consume-deliver :
      (env : Env) (msg : Delivery) (rest : List Input) (inbox : Inbox) (i : Bytes)
      → let r = handle_message violates env msg inbox in
        times i (consume violates (deliver env msg ∷ rest) inbox).sent
        ≤ times i r.sent + times i (consume violates rest r.inbox).sent
  unfolding consume
  consume-deliver env msg rest inbox i =
      let r = handle_message violates env msg inbox in
      ground (arith, times-append i r.sent (consume violates rest r.inbox).sent)

  times_known :
      (env : Env) (id i : Bytes) (inbox : Inbox) (r : Reply)
      → IsOnce env id inbox r
      → has_event i inbox ≡ true
      → times i r.sent ≡ 0
  times_known env id i inbox r once h = elim once.sends [
    | inl silent ↦ rw silent
    | inr (email, sent, new, kept) ↦ rw sent (ground (arith, bytes_eq_iff id i))
  ]

  -- An event of the inbox is not announced again.
  consume_known :
      (inputs : List Input) (inbox : Inbox) (i : Bytes)
      → has_event i inbox ≡ true
      → times i (consume violates inputs inbox).sent ≡ 0
  unfolding consume
  consume_known [] inbox i h = refl
  consume_known (closed ∷ rest) inbox i h = refl
  consume_known (stop ∷ rest) inbox i h = refl
  consume_known (deliver env msg ∷ rest) inbox i h =
      let r = handle_message violates env msg inbox in
      let once = handle_message-IsOnce violates unique env msg inbox in
      omega (
        arith,
        consume_known rest r.inbox i (once.grows i h),
        times_known env msg.message_id i inbox r once h,
        consume-deliver env msg rest inbox i,
      )

  -- An e-mail now, or those of the rest: not both for one event.
  times_once :
      (env : Env) (id i : Bytes) (inbox : Inbox) (r : Reply) (later : ℕ)
      → IsOnce env id inbox r
      → Sticks env
      → (has_event i r.inbox ≡ true → later ≡ 0)
      → later ≤ 1
      → times i r.sent + later ≤ 1
  times_once env id i inbox r later once sticks spent le = elim once.sends [
    | inl silent ↦ rw silent (omega arith)
    | inr (email, sent, new, kept) ↦ elim (Bool-cases (bytes_eq id i)) [
      | inl same ↦
          let e = (bytes_eq_iff id i).0 same in
          rw (sent, times)
            (ground (arith, spent (subst (λ j. has_event j r.inbox ≡ true) e (kept sticks))))
      | inr other ↦ rw (sent, times) (ground arith)
    ]
  ]

  -- With a unique constraint on the event id of the inbox, and no other that an event can violate:
  -- however often the broker delivers an event, and whatever else fails, a run whose commits are not
  -- undone sends at most one e-mail for it.
  pub consume_at_most_once :
      (inputs : List Input) (inbox : Inbox) (i : Bytes)
      → AllStick inputs
      → times i (consume violates inputs inbox).sent ≤ 1
  unfolding consume
  consume_at_most_once [] inbox i s = omega arith
  consume_at_most_once (closed ∷ rest) inbox i s = omega arith
  consume_at_most_once (stop ∷ rest) inbox i s = omega arith
  consume_at_most_once (deliver env msg ∷ rest) inbox i s =
      let r = handle_message violates env msg inbox in
      omega (
        arith,
        consume-deliver env msg rest inbox i,
        times_once env msg.message_id i inbox r (times i (consume violates rest r.inbox).sent)
            (handle_message-IsOnce violates unique env msg inbox) s.0 (consume_known rest r.inbox i)
            (consume_at_most_once rest r.inbox i s.1),
      )
