-- ===== src/Notification/Concurrent.antt =====
-- Several consumers of one queue on one inbox (notification/internal/worker/broker.go), as when the
-- notification service runs in several processes. The INSERT of a transaction holds its event id
-- until the transaction ends, and another that has the same id waits for it. A message that is
-- neither acknowledged nor rejected is delivered again. The INSERT, the e-mail, and the commit with
-- the settlement are steps of their own.
pub mod Counts
pub mod Keeping
pub mod Once
use microservices_go.Prelude.{
  ℕ, ◌+◌, Bool, true, false, List, [], ◌∷◌, ◌++◌, map, Bytes, bytes_eq, if◌then◌else◌, some, ◌≡◌,
}
use microservices_go.Errors.{GoError, done, fail}
use microservices_go.Postgres.{CommitOutcome, committed, rolled_back, ack_lost}
use microservices_go.Notification.Payloads.{Env, Delivery, Notice, decode}
use microservices_go.Notification.Email.{Email}
use microservices_go.Notification.Inbox.{Inbox, Constraint, save_processed_message_tx}
use microservices_go.Notification.Consumer.{
  Reply, Settlement, ack, dead_letter, requeue, notify, process, handle_message, params_of, settle,
}

-- A delivery whose row is inserted and whose transaction is open, before its e-mail or after it.
pub record Handler : Type 0 where
  pub env : Env
  pub msg : Delivery
  pub notice : Notice
  pub mailed : Bool

abbrev pub messages : List Handler → List Delivery
messages hs = map (λ (h : Handler). h.msg) hs

-- The ids of the e-mails whose transactions are still open.
abbrev pub in_flight : List Handler → List Bytes
in_flight [] = []
in_flight (h ∷ hs) = if h.mailed then h.msg.message_id ∷ in_flight hs else in_flight hs

abbrev pub copies : Bytes → List Delivery → ℕ
copies i [] = 0
copies i (m ∷ ms) = (if bytes_eq m.message_id i then 1 else 0) + copies i ms

-- The queue and what became of its messages, the open transactions, the inbox, and the ids of the
-- e-mails that went out, with those of them whose transaction was undone.
pub record State : Type 0 where
  pub published : List Delivery
  pub ready : List Delivery
  pub acked : List Delivery
  pub dead : List Delivery
  pub running : List Handler
  pub inbox : Inbox
  pub sent : List Bytes
  pub undone : List Bytes

-- The settlement reaches the broker, or it is lost and the message comes again.
abbrev pub settled : (lost : Bool) → Settlement → Delivery → State → State
settled true _ msg s = record s { ready = s.ready ++ msg ∷ [] }
settled false ack msg s = record s { acked = msg ∷ s.acked }
settled false dead_letter msg s = record s { dead = msg ∷ s.dead }
settled false requeue msg s = record s { ready = s.ready ++ msg ∷ [] }

abbrev pub ids_of : List (Bytes × Email) → List Bytes
ids_of [] = []
ids_of ((i, _) ∷ l) = i ∷ ids_of l

abbrev pub undone_of : CommitOutcome → List Bytes → List Bytes
undone_of committed ids = []
undone_of rolled_back ids = ids
undone_of ack_lost ids = []

abbrev pub initial : State
initial = record {
  published = [];
  ready = [];
  acked = [];
  dead = [];
  running = [];
  inbox = [];
  sent = [];
  undone = [];
}

module _ (violates : Constraint) where
  -- The rest of a delivery after its e-mail: the commit on the inbox as the others have left it, and
  -- the settlement.
  abbrev pub finish : (lost : Bool) → Handler → (others : List Handler) → State → State
  finish lost h others s =
      let r = process violates h.env h.msg h.notice s.inbox in
      settled lost (settle r.result) h.msg (record s {
        running = others;
        inbox = r.inbox;
        undone = s.undone ++ undone_of h.env.commit (ids_of r.sent);
      })

  pub data Step : State → State → Type 0 where
    publishes :
        {s : State} (msg : Delivery)
        → Step s (record s { published = msg ∷ s.published; ready = s.ready ++ msg ∷ [] })
    -- A delivery that ends without an e-mail, whose INSERT did not have to wait.
    settles :
        {s : State} (env : Env) (lost : Bool) (before after : List Delivery) (msg : Delivery)
        → s.ready ≡ before ++ msg ∷ after
        → bytes_eq msg.message_id [] ≡ false
        → ((notice : Notice)
            → decode env msg ≡ done (some notice)
            → env.begin_fails ≡ false
            → env.exec_fails ≡ false
            → copies msg.message_id (messages s.running) ≡ 0)
        → (handle_message violates env msg s.inbox).sent ≡ []
        → Step s (
            settled lost
              (settle (handle_message violates env msg s.inbox).result)
              msg
              (record s { ready = before ++ after }))
    -- A delivery up to its INSERT.
    saves :
        {s : State} (env : Env) (before after : List Delivery) (msg : Delivery) (notice : Notice)
        (inbox : Inbox)
        → s.ready ≡ before ++ msg ∷ after
        → bytes_eq msg.message_id [] ≡ false
        → decode env msg ≡ done (some notice)
        → env.begin_fails ≡ false
        → env.exec_fails ≡ false
        → copies msg.message_id (messages s.running) ≡ 0
        → save_processed_message_tx violates false env.now (params_of msg notice) s.inbox
          ≡ done inbox
        → Step s (record s {
          ready = before ++ after;
          running = record { env = env; msg = msg; notice = notice; mailed = false } ∷ s.running;
        })
    -- The e-mail goes out.
    mails :
        {s : State} (before after : List Handler) (h : Handler) (email : Email)
        → s.running ≡ before ++ h ∷ after
        → h.mailed ≡ false
        → notify h.env h.notice ≡ done email
        → Step s (record s {
          running = before ++ record h { mailed = true } ∷ after;
          sent = s.sent ++ h.msg.message_id ∷ [];
        })
    -- The e-mail fails, and the transaction is rolled back.
    gives_up :
        {s : State} (lost : Bool) (before after : List Handler) (h : Handler) (err : GoError)
        → s.running ≡ before ++ h ∷ after
        → h.mailed ≡ false
        → notify h.env h.notice ≡ fail err
        → Step s (settled lost (settle (fail err)) h.msg (record s { running = before ++ after }))
    ends :
        {s : State} (lost : Bool) (before after : List Handler) (h : Handler)
        → s.running ≡ before ++ h ∷ after
        → h.mailed ≡ true
        → Step s (finish lost h (before ++ after) s)
    -- The process dies before the e-mail, or between the e-mail and the commit.
    dies :
        {s : State} (before after : List Handler) (h : Handler)
        → s.running ≡ before ++ h ∷ after
        → Step s (record s {
          running = before ++ after;
          ready = s.ready ++ h.msg ∷ [];
          undone = s.undone ++ in_flight (h ∷ []);
        })

  pub data Reach : State → Type 0 where
    start : Reach initial
    later : {s t : State} → Reach s → Step s t → Reach t
