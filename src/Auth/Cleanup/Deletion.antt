-- ===== src/Auth/Cleanup/Deletion.antt =====
-- What the deletion of chosen rows takes off the expired rows (auth/repository/auth.go).
use mathlib.Core.List.{Memᴰ}
use microservices_go.Prelude.{
  ℕ, zero, suc, ◌+◌, ◌≤◌, String, Bool, true, false, List, [], ◌∷◌, map, keep, take, length,
  take-All, All, str_eq, eq_refl, ◌≡◌, ◌⊎◌, refl, sym, ap, ◌∙◌, arith, if◌then◌else◌, Bool-cases,
  inl, inr,
}
use microservices_go.Postgres.{Time}
use microservices_go.Auth.Domain.{TokenRow}
use microservices_go.Auth.Refresh.{is_expired, is_member, delete_ids}

-- The rows that are expired at a time.
abbrev pub expired_rows : Time → List TokenRow → ℕ
expired_rows at [] = 0
expired_rows at (r ∷ rows) = (if is_expired at r.expires_at then 1 else 0) + expired_rows at rows

-- A row with an id goes, and none else.
delete_one-le :
    (at : Time) (i : String) (rows : List TokenRow)
    → expired_rows at (delete_ids (i ∷ []) rows) ≤ expired_rows at rows
delete_one-le at i [] = omega arith
delete_one-le at i (r ∷ rows) = ground (arith, delete_one-le at i rows)

delete_one-expired :
    (at : Time) (e : TokenRow) (rows : List TokenRow)
    → is_expired at e.expires_at ≡ true
    → Memᴰ e rows
    → expired_rows at (delete_ids (e.id ∷ []) rows) + 1 ≤ expired_rows at rows
delete_one-expired at e [] dead m = elim m [ ]
delete_one-expired at e (r ∷ rows) dead (Memᴰ.head q) =
    let same : str_eq e.id r.id ≡ true =
      ap (λ (x : TokenRow). str_eq e.id x.id) (sym q) ∙ eq_refl e.id in
    let gone : is_expired at r.expires_at ≡ true =
      ap (λ (x : TokenRow). is_expired at x.expires_at) (sym q) ∙ dead in
    ground (arith, delete_one-le at e.id rows, same, gone)
delete_one-expired at e (r ∷ rows) dead (Memᴰ.tail m) =
    ground (arith, delete_one-expired at e rows dead m, delete_one-le at e.id rows)

delete_ids-cons :
    (i : String) (is : List String) (rows : List TokenRow)
    → delete_ids (i ∷ is) rows ≡ delete_ids is (delete_ids (i ∷ []) rows)
delete_ids-cons i is [] = refl
delete_ids-cons i is (r ∷ rows) = ground (arith, delete_ids-cons i is rows)

-- The row stays when another id is deleted.
delete_one-Memᴰ :
    (e : TokenRow) (i : String) (rows : List TokenRow)
    → str_eq i e.id ≡ false
    → Memᴰ e rows
    → Memᴰ e (delete_ids (i ∷ []) rows)
delete_one-Memᴰ e i [] ne m = elim m [ ]
delete_one-Memᴰ e i (r ∷ rows) ne (Memᴰ.head q) =
    let other : str_eq i r.id ≡ false = ap (λ (x : TokenRow). str_eq i x.id) (sym q) ∙ ne in
    rw other (Memᴰ.head q)
delete_one-Memᴰ e i (r ∷ rows) ne (Memᴰ.tail m) =
    let later = delete_one-Memᴰ e i rows ne m in
    elim (Bool-cases (str_eq i r.id)) [
      | inl hit ↦ rw hit later
      | inr miss ↦ rw miss (Memᴰ.tail later)
    ]

-- No two rows have the same id.
abbrev pub HasOtherIds : TokenRow → List TokenRow → Type 0
HasOtherIds e es = All (λ (f : TokenRow). str_eq e.id f.id ≡ false) es

abbrev pub AllDistinct : List TokenRow → Type 0
AllDistinct [] = Unit
AllDistinct (e ∷ es) = HasOtherIds e es × AllDistinct es

delete_none :
    (at : Time) (rows : List TokenRow) → expired_rows at (delete_ids [] rows) ≡ expired_rows at rows
delete_none at [] = refl
delete_none at (r ∷ rows) = omega (arith, delete_none at rows)

others_stay :
    (e : TokenRow) (es rows : List TokenRow)
    → HasOtherIds e es
    → All (λ f. Memᴰ f rows) es
    → All (λ f. Memᴰ f (delete_ids (e.id ∷ []) rows)) es
others_stay e [] rows others inside = tt
others_stay e (f ∷ es) rows others inside =
    (delete_one-Memᴰ f e.id rows others.0 inside.0, others_stay e es rows others.1 inside.1)

-- Deleting distinct expired rows of the table takes as many off the backlog.
pub delete_ids-expired :
    (at : Time) (es rows : List TokenRow)
    → AllDistinct es
    → All (λ e. Memᴰ e rows) es
    → All (λ (e : TokenRow). is_expired at e.expires_at ≡ true) es
    → expired_rows at (delete_ids (map (λ r. r.id) es) rows) + length es ≤ expired_rows at rows
delete_ids-expired at [] rows d inside dead = omega (arith, delete_none at rows)
delete_ids-expired at (e ∷ es) rows (others, d) (here, inside) (now_dead, dead) =
    let rest = delete_ids (e.id ∷ []) rows in
    let less = delete_ids-expired at es rest d (others_stay e es rows others inside) dead in
    ground (
      arith,
      delete_one-expired at e rows now_dead here,
      delete_ids-cons e.id (map (λ r. r.id) es) rows,
      less,
    )

pub keep-All {ℓ} :
    (P : TokenRow → Type ℓ) (p : TokenRow → Bool) (es : List TokenRow)
    → All P es
    → All P (keep p es)
keep-All P p [] h = tt
keep-All P p (e ∷ es) h = elim (Bool-cases (p e)) [
  | inl kept ↦ rw kept (h.0, keep-All P p es h.1)
  | inr dropped ↦ rw dropped (keep-All P p es h.1)
]

pub keep-AllDistinct :
    (p : TokenRow → Bool) (es : List TokenRow) → AllDistinct es → AllDistinct (keep p es)
keep-AllDistinct p [] d = tt
keep-AllDistinct p (e ∷ es) d = elim (Bool-cases (p e)) [
  | inl kept ↦ rw kept (keep-All _ p es d.0, keep-AllDistinct p es d.1)
  | inr dropped ↦ rw dropped (keep-AllDistinct p es d.1)
]

pub take-AllDistinct : (n : ℕ) (es : List TokenRow) → AllDistinct es → AllDistinct (take n es)
take-AllDistinct zero es d = tt
take-AllDistinct (suc n) [] d = tt
take-AllDistinct (suc n) (e ∷ es) d = (take-All _ n es d.0, take-AllDistinct n es d.1)

pub take-cases {ℓ} :
    {A : Type ℓ} (n : ℕ) (xs : List A) → (length (take n xs) ≡ n) ⊎ (take n xs ≡ xs)
take-cases zero xs = inl refl
take-cases (suc n) [] = inr refl
take-cases (suc n) (x ∷ xs) = elim (take-cases n xs) [
  | inl full ↦ inl (omega (arith, full))
  | inr all ↦ inr (ap (λ l. x ∷ l) all)
]

pub keep-Memᴰ :
    (p : TokenRow → Bool) (r : TokenRow) (es : List TokenRow)
    → p r ≡ true
    → Memᴰ r es
    → Memᴰ r (keep p es)
keep-Memᴰ p r [] h m = elim m [ ]
keep-Memᴰ p r (e ∷ es) h (Memᴰ.head q) =
    let kept : p e ≡ true = ap p (sym q) ∙ h in rw kept (Memᴰ.head q)
keep-Memᴰ p r (e ∷ es) h (Memᴰ.tail m) = elim (Bool-cases (p e)) [
  | inl kept ↦ rw kept (Memᴰ.tail (keep-Memᴰ p r es h m))
  | inr dropped ↦ rw dropped (keep-Memᴰ p r es h m)
]

pub Memᴰ-is_member :
    (r : TokenRow) (es : List TokenRow) → Memᴰ r es → is_member (map (λ e. e.id) es) r.id ≡ true
Memᴰ-is_member r [] m = elim m [ ]
Memᴰ-is_member r (e ∷ es) (Memᴰ.head q) =
    let same : str_eq e.id r.id ≡ true =
      ap (λ (x : TokenRow). str_eq x.id r.id) (sym q) ∙ eq_refl r.id in
    ground arith
Memᴰ-is_member r (e ∷ es) (Memᴰ.tail m) = ground (arith, Memᴰ-is_member r es m)

pub delete_ids-All {ℓ} :
    (P : TokenRow → Type ℓ) (ids : List String) (rows : List TokenRow)
    → All (λ (r : TokenRow). is_member ids r.id ≡ false → P r) rows
    → All P (delete_ids ids rows)
delete_ids-All P ids [] h = tt
delete_ids-All P ids (r ∷ rows) h = elim (Bool-cases (is_member ids r.id)) [
  | inl gone ↦ rw gone (delete_ids-All P ids rows h.1)
  | inr left ↦ rw left (h.0 left, delete_ids-All P ids rows h.1)
]
