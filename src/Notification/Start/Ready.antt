-- ===== src/Notification/Start/Ready.antt =====
-- The consumer reads only from a topology that is complete
-- (notification/internal/worker/broker.go).
use microservices_go.Prelude.{
  String, Bool, true, false, some, List, [], ◌∷◌, ◌++◌, All, is_some, if◌then◌else◌, ◌≡◌, refl, ap,
  ◌⊎◌, inl, inr, Bool-cases,
}
use microservices_go.Errors.{GoError, message, wrap, done, fail}
use microservices_go.Notification.Inbox.{Inbox, Constraint}
use microservices_go.Notification.Consumer.{Input, Run, ended, consume}
use microservices_go.Notification.Topology.{Topology, bind_all, declare}
use microservices_go.Notification.Start.{
  AmqpCall, open_channel, queue_declare, queue_bind, qos, exchange_declare, start_delivery, Plan,
  bind_plan, delivery_plan, plan, perform, Start, start_consume,
}

abbrev pub calls_of : Plan → List AmqpCall
calls_of [] = []
calls_of ((call, _) ∷ rest) = call ∷ calls_of rest

-- What calls have declared.
abbrev pub declared : List AmqpCall → Topology
declared [] = record { queues = []; exchanges = []; bindings = [] }
declared (queue_declare q ∷ rest) = let t = declared rest in record t { queues = q ∷ t.queues }
declared (exchange_declare x ∷ rest) =
    let t = declared rest in record t { exchanges = x ∷ t.exchanges }
declared (queue_bind b ∷ rest) = let t = declared rest in record t { bindings = b ∷ t.bindings }
declared (open_channel ∷ rest) = declared rest
declared (qos _ ∷ rest) = declared rest
declared (start_delivery _ _ ∷ rest) = declared rest

-- The call `c` fails, and those of `made` stand before it in `calls` and do not.
pub record StopsAt (fails : AmqpCall → Bool) (calls made : List AmqpCall) : Type 0 where
  pub call : AmqpCall
  pub behind : List AmqpCall
  pub refused : fails call ≡ true
  pub split : calls ≡ made ++ call ∷ behind
  pub accepted : All (λ c. fails c ≡ false) made

perform_cases :
    (fails : AmqpCall → Bool) (p : Plan)
    → (All (λ c. fails c ≡ false) (calls_of p) × (perform fails p ≡ (done tt, calls_of p)))
      ⊎ ((made : List AmqpCall) × (err : GoError) × StopsAt fails (calls_of p) made
          × (perform fails p ≡ (fail err, made)))
unfolding perform
perform_cases fails [] = inl (tt, refl)
perform_cases fails ((call, text) ∷ rest) = elim (Bool-cases (fails call)) [
  | inl bad ↦ inr (
    [],
    wrap text (message "amqp"),
    record { call = call; behind = calls_of rest; refused = bad; split = refl; accepted = tt },
    rw bad refl,
  )
  | inr good ↦ elim (perform_cases fails rest) [
    | inl (all, e) ↦ inl ((good, all), rw good (ap (λ x. (x.0, call ∷ x.1)) e))
    | inr (made, err, s, e) ↦ inr (
      call ∷ made,
      err,
      record {
        call = s.call;
        behind = s.behind;
        refused = s.refused;
        split = ap (λ l. call ∷ l) s.split;
        accepted = (good, s.accepted);
      },
      rw good (ap (λ x. (x.0, call ∷ x.1)) e),
    )
  ]
]

declared-bind_plan :
    (queue key : String) (exchanges : List String) (rest : Plan)
    → let t = declared (calls_of rest) in
      declared (calls_of (bind_plan queue key exchanges rest))
      ≡ record t { bindings = bind_all queue key exchanges ++ t.bindings }
declared-bind_plan queue key [] rest = refl
declared-bind_plan queue key (x ∷ exchanges) rest =
    ap {A = Topology}
      (λ t. record t { bindings = record { queue = queue; key = key; exchange = x } ∷ t.bindings })
      (declared-bind_plan queue key exchanges rest)

declared-plan :
    (queue_name routing_key : String) (exchange_names : List String)
    → declared (calls_of (plan queue_name routing_key exchange_names))
      ≡ declare queue_name routing_key exchange_names
unfolding declare
declared-plan queue_name routing_key exchange_names =
    ap {A = Topology}
      (λ t. record t {
        queues =
            record {
              name = queue_name;
              durable = true;
              dead_letter_exchange = some "notification.dlx";
            }
            ∷ t.queues;
      })
      (declared-bind_plan queue_name routing_key exchange_names (delivery_plan queue_name))

-- Either the calls `calls` succeed, the topology stands and `run` is the loop, or they stop at the
-- first that fails and `run` ends at once.
abbrev pub ReadsWhenReady :
    (fails : AmqpCall → Bool) (calls : List AmqpCall)
    → Topology
    → (loop : Run) → Inbox
    → Start
    → Type 0
ReadsWhenReady fails calls topology loop inbox start =
    (All (λ c. fails c ≡ false) calls
      × (start.made ≡ calls)
      × (declared start.made ≡ topology)
      × (start.run ≡ loop))
    ⊎ (StopsAt fails calls start.made
        × ((err : GoError) × (start.run ≡ ended (some (fail err)) inbox)))

-- Whatever calls of the RabbitMQ client fail: StartConsume reads deliveries, as `consume` does, only
-- if all calls succeed and have declared the topology of `declare`; otherwise it stops at the first
-- call that fails and returns an error, with nothing delivered and the inbox as it was. The channel
-- is closed exactly when it was opened and StartConsume has returned.
pub start_consume-ReadsWhenReady :
    (violates : Constraint) (fails : AmqpCall → Bool) (queue_name routing_key : String)
    (exchange_names : List String) (inputs : List Input) (inbox : Inbox)
    → let start = start_consume violates fails queue_name routing_key exchange_names inputs inbox in
      ReadsWhenReady fails
        (open_channel ∷ calls_of (plan queue_name routing_key exchange_names))
        (declare queue_name routing_key exchange_names)
        (consume violates inputs inbox)
        inbox
        start
      × (start.channel_closed ≡ (if fails open_channel then false else is_some start.run.result))
unfolding start_consume
start_consume-ReadsWhenReady violates fails queue routing_key exchanges inputs inbox =
    elim (Bool-cases (fails open_channel)) [
      | inl bad ↦ rw bad (
        inr (
          record {
            call = open_channel;
            behind = calls_of (plan queue routing_key exchanges);
            refused = bad;
            split = refl;
            accepted = tt;
          },
          (_, refl),
        ),
        refl,
      )
      | inr good ↦ elim (perform_cases fails (plan queue routing_key exchanges)) [
        | inl (all, e) ↦
            rw good (
              rw e (inl ((refl, all), refl, declared-plan queue routing_key exchanges, refl), refl))
        | inr (made, err, s, e) ↦ rw good (
            rw e (
              inr (
                record {
                  call = s.call;
                  behind = s.behind;
                  refused = s.refused;
                  split = ap (λ l. open_channel ∷ l) s.split;
                  accepted = (good, s.accepted);
                },
                (err, refl),
              ),
              refl,
            ))
      ]
    ]
