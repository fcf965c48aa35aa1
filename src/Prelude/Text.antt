-- ===== src/Prelude/Text.antt =====
-- Text as a list of bytes, and the decimal form that `%d` prints.
use Prim.Native.Char.{code}
use Prim.Native.String.{String}
use Prim.Native.Nat.{ℕ, zero, suc, ◌+◌, ◌-◌, ◌*◌, ◌/◌, ◌%◌, ◌<◌}
use mathlib.Core.Path.{◌≡◌, refl, sym, ◌∙◌, ap}
use mathlib.Core.Logic.{◌↔◌, ◌≢◌, inl, inr}
use mathlib.Core.Bool.{Bool, true, false, ◌&&◌, ◌||◌}
use mathlib.Core.List.{List, [], ◌∷◌, ◌++◌}
use native.Mathlib.Omega.{arith}
use microservices_go.Prelude.Tests.{◌==◌, if◌then◌else◌, Bool-cases}
use microservices_go.Prelude.Lists.{All}
use microservices_go.Prelude.Int.{ℤ, pos, negsuc}

abbrev pub Bytes : Type 0
Bytes = List ℕ

-- The bytes of an ASCII literal.
abbrev pub codes : String → Bytes
codes String.[] = []
codes (String.◌∷◌ c s) = code c ∷ codes s

abbrev pub bytes_eq : Bytes → Bytes → Bool
bytes_eq [] [] = true
bytes_eq (a ∷ as') (b ∷ bs) = a == b && bytes_eq as' bs
bytes_eq _ _ = false

pub bytes_eq_refl : (b : Bytes) → bytes_eq b b ≡ true
bytes_eq_refl [] = refl
bytes_eq_refl (a ∷ as') = ground (arith, bytes_eq_refl as')

pub eq_of_bytes_eq : (a b : Bytes) → bytes_eq a b ≡ true → a ≡ b
eq_of_bytes_eq [] [] h = refl
eq_of_bytes_eq [] (b ∷ bs) h = cc
eq_of_bytes_eq (a ∷ as') [] h = cc
eq_of_bytes_eq (a ∷ as') (b ∷ bs) h = ground (arith, eq_of_bytes_eq as' bs)

pub bytes_eq_iff : (a b : Bytes) → (bytes_eq a b ≡ true) ↔ (a ≡ b)
bytes_eq_iff a b = (eq_of_bytes_eq a b, λ e. rw e (bytes_eq_refl b))

-- The digits of `n` before those that are there already; `fuel` is more than `n`.
unfoldable pub decimal_from : ℕ → ℕ → Bytes → Bytes
decimal_from zero n rest = rest
decimal_from (suc fuel) n rest =
    let more = decimal_from fuel (n / 10) ((48 + n % 10) ∷ rest) in
    if n / 10 == 0 then (48 + n % 10) ∷ rest else more

-- fmt.Sprintf("%d", n)
unfoldable pub decimal : ℕ → Bytes
unfolding decimal_from
decimal n = decimal_from (suc n) n []

unfoldable pub decimal_int : ℤ → Bytes
unfolding decimal
decimal_int (pos n) = decimal n
decimal_int (negsuc n) = 45 ∷ decimal (suc n)

-- The number that digits stand for, after a prefix that stands for `acc`.
abbrev pub value_from : ℕ → Bytes → ℕ
value_from acc [] = acc
value_from acc (c ∷ cs) = value_from (acc * 10 + (c - 48)) cs

decimal_from-value :
    (fuel n : ℕ) (rest : Bytes)
    → n < fuel
    → value_from 0 (decimal_from fuel n rest) ≡ value_from n rest
unfolding decimal_from
decimal_from-value zero n rest h = absurd (omega arith)
decimal_from-value (suc fuel) n rest h = elim (Bool-cases (n / 10 == 0)) [
  | inl last ↦ rw last (ap (λ m. value_from m rest) (small n (ground arith)))
  | inr more ↦ rw more (
      decimal_from-value fuel (n / 10) ((48 + n % 10) ∷ rest) (ground arith)
      ∙ ap (λ m. value_from m rest) (join n))
]
  where
    small : (m : ℕ) → m / 10 ≡ 0 → 0 * 10 + (48 + m % 10 - 48) ≡ m
    small m q = omega arith

    join : (m : ℕ) → m / 10 * 10 + (48 + m % 10 - 48) ≡ m
    join m = omega arith

pub decimal-value : (n : ℕ) → value_from 0 (decimal n) ≡ n
unfolding decimal
decimal-value n = decimal_from-value (suc n) n [] (omega arith)

-- Different numbers have different decimal forms.
pub decimal-injective : (m n : ℕ) → decimal m ≡ decimal n → m ≡ n
decimal-injective m n h = sym (decimal-value m) ∙ ap (value_from 0) h ∙ decimal-value n

-- strings.Split(s, " ")
abbrev pub prepend_byte : ℕ → List Bytes → List Bytes
prepend_byte c [] = (c ∷ []) ∷ []
prepend_byte c (p ∷ ps) = (c ∷ p) ∷ ps

unfoldable pub split_space : Bytes → List Bytes
split_space [] = [] ∷ []
split_space (c ∷ s) =
    let parts = split_space s in if c == 32 then [] ∷ parts else prepend_byte c parts

abbrev pub join_space : List Bytes → Bytes
join_space [] = []
join_space (p ∷ []) = p
join_space (p ∷ q ∷ ps) = p ++ (32 ∷ join_space (q ∷ ps))

split_space-cons : (s : Bytes) → (p : Bytes) × (ps : List Bytes) × (split_space s ≡ p ∷ ps)
unfolding split_space
split_space-cons [] = ([], [], refl)
split_space-cons (c ∷ s) = extended (split_space-cons s)
  where
    extended :
        (p : Bytes) × (ps : List Bytes) × (split_space s ≡ p ∷ ps)
        → (q : Bytes) × (qs : List Bytes) × (split_space (c ∷ s) ≡ q ∷ qs)
    extended (p, ps, e) = elim (Bool-cases (c == 32)) [
      | inl space ↦ ([], split_space s, rw space)
      | inr other ↦ (c ∷ p, ps, rw (other, e))
    ]

join_prepend :
    (c : ℕ) (p : Bytes) (ps : List Bytes) → join_space ((c ∷ p) ∷ ps) ≡ c ∷ join_space (p ∷ ps)
join_prepend c p [] = refl
join_prepend c p (q ∷ ps) = refl

-- Joining the parts gives the text back.
pub join_space-split_space : (s : Bytes) → join_space (split_space s) ≡ s
unfolding split_space
join_space-split_space [] = refl
join_space-split_space (c ∷ s) = joined (split_space-cons s) (join_space-split_space s)
  where
    joined :
        (p : Bytes) × (ps : List Bytes) × (split_space s ≡ p ∷ ps)
        → join_space (split_space s) ≡ s
        → join_space (split_space (c ∷ s)) ≡ c ∷ s
    joined (p, ps, e) ih =
        let whole : join_space (p ∷ ps) ≡ s = ap join_space (sym e) ∙ ih in
        elim (Bool-cases (c == 32)) [
          | inl space ↦
              let blank : c ≡ 32 = ground arith in
              rw (space, e) (ap (λ l. 32 ∷ l) whole ∙ ap (λ k. k ∷ s) (sym blank))
          | inr other ↦ rw (other, e) (join_prepend c p ps ∙ ap (λ l. c ∷ l) whole)
        ]

-- A text without a space is its only part.
pub split_space_word : (s : Bytes) → All (λ c. c ≢ 32) s → split_space s ≡ s ∷ []
unfolding split_space
split_space_word [] h = refl
split_space_word (c ∷ s) h = rw (split_space_word s h.1) (ground arith)

-- Whether `p` begins the text, and strings.Contains.
abbrev pub is_prefix : Bytes → Bytes → Bool
is_prefix [] s = true
is_prefix (a ∷ p) [] = false
is_prefix (a ∷ p) (c ∷ s) = a == c && is_prefix p s

abbrev pub contains_text : Bytes → Bytes → Bool
contains_text p [] = is_prefix p []
contains_text p (c ∷ s) = is_prefix p (c ∷ s) || contains_text p s

decimal_from-ne_nil : (fuel n c : ℕ) (rest : Bytes) → decimal_from fuel n (c ∷ rest) ≢ []
unfolding decimal_from
decimal_from-ne_nil zero n c rest h = cc
decimal_from-ne_nil (suc fuel) n c rest h = elim (Bool-cases (n / 10 == 0)) [
  | inl last ↦ ground arith
  | inr more ↦ decimal_from-ne_nil fuel (n / 10) (48 + n % 10) (c ∷ rest) (ground arith)
]

pub decimal-ne_nil : (n : ℕ) → decimal n ≢ []
unfolding decimal decimal_from
decimal-ne_nil n h = elim (Bool-cases (n / 10 == 0)) [
  | inl last ↦ ground arith
  | inr more ↦ decimal_from-ne_nil n (n / 10) (48 + n % 10) [] (ground arith)
]
