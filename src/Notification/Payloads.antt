-- ===== src/Notification/Payloads.antt =====
-- What the consumer receives and how it decodes it (notification/internal/worker/payloads.go and
-- the first switch of handleMessage in notification/internal/worker/broker.go).
use microservices_go.Prelude.{String, ℤ, Bool, Option, none, some, Bytes, str_eq, if◌then◌else◌}
use microservices_go.Errors.{sentinel, wrap, Result, done, fail, fatal}
use microservices_go.Postgres.{Time, CommitOutcome}
use microservices_go.Json.{Body, malformed, object, field, text_field, int64_field, time_field}
use microservices_go.Notification.Email.{Dialer}

pub record DepositSuccessPayload : Type 0 where
  pub user_id : String
  pub amount : ℤ
  pub tx_type : String
  pub timestamp : Option Time

pub record AccountRegisteredPayload : Type 0 where
  pub email : String
  pub user_id : String
  pub timestamp : Option Time

-- amqp.Delivery.
pub record Delivery : Type 0 where
  pub message_id : Bytes
  pub routing_key : String
  pub body : Body

-- The rest of the world during one delivery: the database, the auth service's GetUserById, which
-- gives the address of a user, the SMTP dialer, and the reading of time stamps.
pub record Env : Type 0 where
  pub begin_fails : Bool
  pub exec_fails : Bool
  pub commit : CommitOutcome
  pub now : Time
  pub get_user_by_id : String → Result String
  pub dialer : Dialer
  pub parse_time : String → Option Time

-- json.Unmarshal into the two payload types; `none` is an error.
infixl 5 ◌>>=◌
abbrev pub ◌>>=◌ : {A B : Type 0} → Option A → (A → Option B) → Option B
none >>= k = none
some a >>= k = k a

unfoldable pub unmarshal_deposit : (String → Option Time) → Body → Option DepositSuccessPayload
unmarshal_deposit parse malformed = none
unmarshal_deposit parse (object p) = do
  user_id ← text_field (field "user_id" p)
  amount ← int64_field (field "amount" p)
  tx_type ← text_field (field "tx_type" p)
  timestamp ← time_field parse (field "timestamp" p)
  some (record { user_id = user_id; amount = amount; tx_type = tx_type; timestamp = timestamp })

unfoldable pub unmarshal_registered :
    (String → Option Time) → Body → Option AccountRegisteredPayload
unmarshal_registered parse malformed = none
unmarshal_registered parse (object p) = do
  email ← text_field (field "email" p)
  user_id ← text_field (field "user_id" p)
  timestamp ← time_field parse (field "timestamp" p)
  some (record { email = email; user_id = user_id; timestamp = timestamp })

-- What the first switch makes of a delivery: an event type that is not known, an error, or the
-- decoded event.
pub data Notice : Type 0 where
  topped_up : DepositSuccessPayload → Notice
  registered : AccountRegisteredPayload → Notice

abbrev pub decode_topped_up : Option DepositSuccessPayload → Result (Option Notice)
decode_topped_up none = fail (wrap "failed to unmarshal" (sentinel fatal))
decode_topped_up (some payload) =
    if str_eq payload.user_id ""
    then fail (wrap "empty user id in payload" (sentinel fatal))
    else done (some (topped_up payload))

abbrev pub decode_registered : Option AccountRegisteredPayload → Result (Option Notice)
decode_registered none = fail (wrap "failed to unmarshal" (sentinel fatal))
decode_registered (some payload) = done (some (registered payload))

unfoldable pub decode : Env → Delivery → Result (Option Notice)
decode env msg =
    if str_eq msg.routing_key "AccountToppedUp"
    then decode_topped_up (unmarshal_deposit env.parse_time msg.body)
    else if str_eq msg.routing_key "AccountRegistered"
    then decode_registered (unmarshal_registered env.parse_time msg.body)
    else done none
