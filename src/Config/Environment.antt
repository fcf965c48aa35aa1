-- ===== src/Config/Environment.antt =====
-- pkg/utils/env/env.go. Reading a floating-point number belongs to Go's library and is an argument,
-- as is the environment: os.Getenv gives an empty text for a variable that is not set.
pub mod Reads
use microservices_go.Prelude.{
  ℕ, zero, suc, ◌+◌, ◌-◌, ◌*◌, ℤ, pos, negsuc, in_int64, Bool, true, false, ◌&&◌, Option, none,
  some, List, [], ◌∷◌, Bytes, String, codes, bytes_eq, ltb, leb, ◌==◌, if◌then◌else◌,
}

abbrev pub Environment : Type 0
Environment = String → Bytes

-- strconv.Atoi: an optional sign, then digits and nothing else, in the range of a 64-bit int.
abbrev pub is_digit : ℕ → Bool
is_digit c = leb 48 c && leb c 57

unfoldable pub digits_from : ℕ → Bytes → Option ℕ
digits_from acc [] = some acc
digits_from acc (c ∷ cs) =
    let rest = digits_from (acc * 10 + (c - 48)) cs in if is_digit c then rest else none

abbrev pub digits : Bytes → Option ℕ
digits [] = none
digits (c ∷ cs) = digits_from 0 (c ∷ cs)

abbrev pub negative : ℕ → ℤ
negative zero = pos 0
negative (suc n) = negsuc n

abbrev pub in_range : Option ℤ → Option ℤ
in_range none = none
in_range (some z) = if in_int64 z then some z else none

abbrev pub with_sign : (ℕ → ℤ) → Option ℕ → Option ℤ
with_sign sign none = none
with_sign sign (some n) = some (sign n)

unfoldable pub atoi : Bytes → Option ℤ
unfolding digits_from
atoi [] = none
atoi (c ∷ cs) =
    if c == 45
    then in_range (with_sign negative (digits cs))
    else if c == 43
    then in_range (with_sign pos (digits cs))
    else in_range (with_sign pos (digits (c ∷ cs)))

-- strconv.ParseBool.
abbrev pub one_of : List Bytes → Bytes → Bool
one_of [] s = false
one_of (t ∷ ts) s = if bytes_eq t s then true else one_of ts s

unfoldable pub parse_bool : Bytes → Option Bool
parse_bool s =
    if one_of (codes "1" ∷ codes "t" ∷ codes "T" ∷ codes "TRUE" ∷ codes "true" ∷ codes "True" ∷ [])
      s
    then some true
    else if one_of
        (codes "0" ∷ codes "f" ∷ codes "F" ∷ codes "FALSE" ∷ codes "false" ∷ codes "False" ∷ []) s
    then some false
    else none

-- A value of the type parameter T, by the cases of the type switch.
pub data Value (F O : Type 0) : Type 0 where
  text : Bytes → Value F O
  int : ℤ → Value F O
  bool : Bool → Value F O
  float64 : F → Value F O
  other : O → Value F O

abbrev pub or_else {ℓ κ} : {A : Type ℓ} {B : Type κ} → (A → B) → B → Option A → B
or_else f fallback none = fallback
or_else f fallback (some a) = f a

module _ {F O : Type 0} (parse_float : Bytes → Option F) where
  abbrev pub parsed : Bytes → Value F O → Value F O
  unfolding atoi parse_bool
  parsed val (text t) = text val
  parsed val (int n) = or_else int (int n) (atoi val)
  parsed val (bool b) = or_else bool (bool b) (parse_bool val)
  parsed val (float64 x) = or_else float64 (float64 x) (parse_float val)
  parsed val (other o) = other o

  unfoldable pub parse_env_with_fallback : Environment → String → Value F O → Value F O
  parse_env_with_fallback getenv name fallback =
      if bytes_eq (getenv name) [] then fallback else parsed (getenv name) fallback

-- The instances of T that the services use.
abbrev text_or : {F O : Type 0} → Bytes → Value F O → Bytes
text_or fallback (text t) = t
text_or fallback _ = fallback

abbrev int_or : {F O : Type 0} → ℤ → Value F O → ℤ
int_or fallback (int n) = n
int_or fallback _ = fallback

-- ParseEnvWithFallback[string] and ParseEnvWithFallback[int]; the type assertion at its end gives
-- the value of the same case.
unfoldable pub parse_env_text : Environment → String → String → Bytes
unfolding parse_env_with_fallback
parse_env_text getenv name fallback =
    text_or (codes fallback) (
      parse_env_with_fallback {F = Unit} {O = Unit} (λ s. none) getenv name (text (codes fallback)))

unfoldable pub parse_env_int : Environment → String → ℤ → ℤ
unfolding parse_env_with_fallback
parse_env_int getenv name fallback =
    int_or fallback
      (parse_env_with_fallback {F = Unit} {O = Unit} (λ s. none) getenv name (int fallback))
