-- ===== src/Json.antt =====
-- JSON objects as the outbox stores them, the broker carries them and the consumer decodes them
-- (the `map[string]any` payload of billing/services/billing.go and pkg/outbox/worker.go).
use mathlib.Core.Option
use microservices_go.Postgres.{Time}
use microservices_go.Prelude.{
  String, ℤ, pos, in_int64, Option, none, some, List, [], ◌∷◌, str_eq, if◌then◌else◌,
}

-- `num` is a number with no fraction; `other` is a value that no field of a payload accepts.
pub data Value : Type 0 where
  null other : Value
  str : String → Value
  num : ℤ → Value

abbrev pub Payload : Type 0
Payload = List (String × Value)

-- The last entry of a key counts.
abbrev pub field_from : String → Option Value → Payload → Option Value
field_from k found [] = found
field_from k found ((j, v) ∷ p) = field_from k (if str_eq j k then some v else found) p

abbrev pub field : String → Payload → Option Value
field k p = field_from k none p

-- The bytes on the wire, as what a JSON parser makes of them: nothing, or an object.
pub data Body : Type 0 where
  malformed : Body
  object : Payload → Body

-- How json.Unmarshal fills a field of a struct: a missing key or `null` leaves the zero value, and
-- a value of another type is an error (`none`).
abbrev pub text_field : Option Value → Option String
text_field none = some ""
text_field (some null) = some ""
text_field (some (str s)) = some s
text_field (some _) = none

abbrev pub int64_field : Option Value → Option ℤ
int64_field none = some (pos 0)
int64_field (some null) = some (pos 0)
int64_field (some (num n)) = if in_int64 n then some n else none
int64_field (some _) = none

-- A *time.Time: `parse` reads RFC 3339.
abbrev pub time_field : (String → Option Time) → Option Value → Option (Option Time)
time_field parse none = some none
time_field parse (some null) = some none
time_field parse (some (str s)) = Option.map some (parse s)
time_field parse (some _) = none
