-- ===== src/Notification/Consumer/Endings.antt =====
-- When the loop of the consumer returns (notification/internal/worker/broker.go).
use microservices_go.Prelude.{
  Option, none, some, List, [], ◌∷◌, ◌++◌, All, length, bytes_eq, if◌then◌else◌, ◌≡◌, refl, arith,
}
use microservices_go.Errors.{Result, message, done, fail}
use microservices_go.Notification.Inbox.{Inbox, Constraint}
use microservices_go.Notification.Consumer.{
  Input, deliver, closed, stop, Run, handle_message, consume,
}

-- What an input makes the loop return, if it ends it.
abbrev pub end_of : Input → Option (Result (Unit {0}))
end_of stop = some (done tt)
end_of closed = some (fail (message "rabbit channel closed"))
end_of (deliver env msg) =
    if bytes_eq msg.message_id []
    then some (fail (message "no event id in message payload"))
    else none

-- The loop has returned `r` behind the deliveries `before`, which are what it has settled.
abbrev pub EndsBehind : Result (Unit {0}) → List Input → (so_far run : Run) → Type 0
EndsBehind r before so_far run =
    (run.result ≡ some r)
    × (length run.settled ≡ length before)
    × (run.inbox ≡ so_far.inbox)
    × (run.sent ≡ so_far.sent)

-- However its deliveries fail, the loop returns at the first input that ends it, and not before:
-- at the end of the context without an error, and with an error when the channel is closed or a
-- delivery has no event id. It has then settled each delivery before that input once, and what
-- stands behind the input has no effect; without such an input it waits.
pub consume_ends :
    (violates : Constraint) (before rest : List Input) (last : Input) (r : Result (Unit {0}))
    (inbox : Inbox)
    → All (λ a. end_of a ≡ none) before
    → end_of last ≡ some r
    → let so_far = consume violates before inbox in
      (so_far.result ≡ none)
      × EndsBehind r before so_far (consume violates (before ++ last ∷ rest) inbox)
unfolding consume
consume_ends violates [] rest stop r inbox h e = (refl, (e, refl, refl, refl))
consume_ends violates [] rest closed r inbox h e = (refl, (e, refl, refl, refl))
consume_ends violates [] rest (deliver env msg) r inbox h e = ground arith
consume_ends violates (stop ∷ before) rest last r inbox h e = cc
consume_ends violates (closed ∷ before) rest last r inbox h e = cc
consume_ends violates (deliver env msg ∷ before) rest last r inbox h e =
    let reply = handle_message violates env msg inbox in
    ground (arith, consume_ends violates before rest last r reply.inbox h.1 e)
