-- ===== src/Config/Environment/Reads.antt =====
-- What ParseEnvWithFallback gives back (pkg/utils/env/env.go).
use Prim.Native.Nat.{◌/◌, ◌%◌}
use microservices_go.Prelude.{
  ℕ, zero, suc, ◌+◌, ◌-◌, ◌*◌, ◌<◌, ℤ, pos, negsuc, in_int64, true, Option, none, some, [], ◌∷◌,
  All, Bytes, String, bytes_eq, bytes_eq_iff, ◌==◌, ◌≡◌, ◌≢◌, refl, ap, ◌∙◌, arith, Bool-cases, ◌⊎◌,
  inl, inr, decimal, decimal_from, decimal_int, value_from, decimal-value, decimal-ne_nil,
}
use microservices_go.Config.Environment.{
  Environment, is_digit, digits_from, digits, parse_bool, in_range, atoi, Value, text, int, bool,
  float64, other, parsed, or_else, parse_env_with_fallback, parse_env_int,
}

digits_from-value :
    (acc : ℕ) (cs : Bytes)
    → All (λ c. is_digit c ≡ true) cs
    → digits_from acc cs ≡ some (value_from acc cs)
unfolding digits_from
digits_from-value acc [] h = refl
digits_from-value acc (c ∷ cs) h = rw h.0 (digits_from-value (acc * 10 + (c - 48)) cs h.1)

digit_of : (n : ℕ) → is_digit (48 + n % 10) ≡ true
digit_of n = ground arith

decimal_from-digits :
    (fuel n : ℕ) (rest : Bytes)
    → All (λ c. is_digit c ≡ true) rest
    → All (λ c. is_digit c ≡ true) (decimal_from fuel n rest)
unfolding decimal_from
decimal_from-digits zero n rest h = h
decimal_from-digits (suc fuel) n rest h = elim (Bool-cases (n / 10 == 0)) [
  | inl last ↦ rw last (digit_of n, h)
  | inr more ↦ rw more (decimal_from-digits fuel (n / 10) ((48 + n % 10) ∷ rest) (digit_of n, h))
]

decimal-digits : (n : ℕ) → All (λ c. is_digit c ≡ true) (decimal n)
unfolding decimal
decimal-digits n = decimal_from-digits (suc n) n [] tt

-- A text of digits reads as its value.
atoi_digits :
    (cs : Bytes) (n : ℕ)
    → cs ≢ []
    → All (λ c. is_digit c ≡ true) cs
    → value_from 0 cs ≡ n
    → atoi cs ≡ in_range (some (pos n))
unfolding atoi
atoi_digits [] n ne all v = absurd (ne refl)
atoi_digits (c ∷ cs) n ne all v =
    let read : digits (c ∷ cs) ≡ some n = digits_from-value 0 (c ∷ cs) all ∙ ap some v in
    ground (arith, all.0, read)

digits_nonempty :
    (cs : Bytes) (n : ℕ)
    → cs ≢ []
    → All (λ c. is_digit c ≡ true) cs
    → value_from 0 cs ≡ n
    → digits cs ≡ some n
digits_nonempty [] n ne all v = absurd (ne refl)
digits_nonempty (c ∷ cs) n ne all v = digits_from-value 0 (c ∷ cs) all ∙ ap some v

atoi_negative : (n : ℕ) → atoi (45 ∷ decimal (suc n)) ≡ in_range (some (negsuc n))
unfolding atoi
atoi_negative n =
    let read : digits (decimal (suc n)) ≡ some (suc n) =
      digits_nonempty (decimal (suc n)) (suc n) (decimal-ne_nil (suc n)) (decimal-digits (suc n))
        (decimal-value (suc n)) in
    ground (arith, read)

-- strconv.Atoi reads back what "%d" prints of a 64-bit int.
atoi-decimal_int : (n : ℤ) → in_int64 n ≡ true → atoi (decimal_int n) ≡ some n
unfolding decimal_int
atoi-decimal_int (pos n) h =
    atoi_digits (decimal n) n (decimal-ne_nil n) (decimal-digits n) (decimal-value n) ∙ ground arith
atoi-decimal_int (negsuc n) h = atoi_negative n ∙ ground arith

decimal_int-ne_nil : (n : ℤ) → decimal_int n ≢ []
unfolding decimal_int
decimal_int-ne_nil (pos n) h = decimal-ne_nil n h
decimal_int-ne_nil (negsuc n) h = cc

-- A variable that holds the decimal form of a 64-bit int is read as that int, whatever the
-- fallback.
pub parse_env_int_reads :
    (getenv : Environment) (name : String) (fallback n : ℤ)
    → getenv name ≡ decimal_int n
    → in_int64 n ≡ true
    → parse_env_int getenv name fallback ≡ n
unfolding parse_env_int parse_env_with_fallback parsed
parse_env_int_reads getenv name fallback n e h =
    ground (arith, atoi-decimal_int n h, decimal_int-ne_nil n, bytes_eq_iff (getenv name) [])

-- The case of a value: its Go type.
abbrev pub type_of : {F O : Type 0} → Value F O → ℕ
type_of (text _) = 0
type_of (int _) = 1
type_of (bool _) = 2
type_of (float64 _) = 3
type_of (other _) = 4

or_else-type :
    {A F O : Type 0} (f : A → Value F O) (fallback : Value F O) (o : Option A)
    → ((a : A) → type_of (f a) ≡ type_of fallback)
    → type_of (or_else f fallback o) ≡ type_of fallback
or_else-type f fallback none h = refl
or_else-type f fallback (some a) h = h a

parsed-type :
    {F O : Type 0} (parse_float : Bytes → Option F) (val : Bytes) (fallback : Value F O)
    → let v = parsed parse_float val fallback in
      (type_of v ≡ type_of fallback) × ((v ≡ fallback) ⊎ (type_of fallback < 4))
unfolding parsed
parsed-type parse_float val (text t) = (refl, inr (omega arith))
parsed-type parse_float val (int n) =
    (or_else-type int (int n) (atoi val) (λ a. refl), inr (omega arith))
parsed-type parse_float val (bool b) =
    (or_else-type bool (bool b) (parse_bool val) (λ a. refl), inr (omega arith))
parsed-type parse_float val (float64 x) =
    (or_else-type float64 (float64 x) (parse_float val) (λ a. refl), inr (omega arith))
parsed-type parse_float val (other o) = (refl, inl refl)

-- ParseEnvWithFallback gives a value of the fallback's type, so that its type assertion never
-- panics; and it gives another value than the fallback only for a variable that is set to a text
-- that is not empty, and for one of the four types that its switch lists.
pub parse_env_keeps_type :
    {F O : Type 0} (parse_float : Bytes → Option F) (getenv : Environment) (name : String)
    (fallback : Value F O)
    → let v = parse_env_with_fallback parse_float getenv name fallback in
      (type_of v ≡ type_of fallback)
      × ((v ≡ fallback) ⊎ ((getenv name ≢ []) × (type_of fallback < 4)))
unfolding parse_env_with_fallback
parse_env_keeps_type parse_float getenv name fallback =
    elim (Bool-cases (bytes_eq (getenv name) [])) [
      | inl unset ↦ rw unset (refl, inl refl)
      | inr set ↦
          let (same, other_or) = parsed-type parse_float (getenv name) fallback in
          rw set (
            same,
            elim other_or [
              | inl e ↦ inl e
              | inr few ↦ inr ((λ e. ground (arith, bytes_eq_iff (getenv name) [])), few)
            ],
          )
    ]
