-- ===== src/Outbox/Order.antt =====
-- The order of the events that a query delivers, and tables whose ids ascend
-- (pkg/outbox/pg_repo.go).
use microservices_go.Prelude.{
  take-All, ℕ, zero, suc, ◌≤◌, ◌<◌, ◌≡◌, refl, Bool, true, List, [], ◌∷◌, map, take, keep, All,
  All-map, arith, leb, Bool-cases, inl, inr,
}
use mathlib.Core.Path.{subst, sym}
use microservices_go.Postgres.{Time}
use microservices_go.Outbox.{Event, order_by_id, insert_by_id, mark_row}

-- Ascending ids, each row at most the rows behind it.
abbrev pub IsSorted : List Event → Type 0
IsSorted [] = Unit
IsSorted (e ∷ es) = All (λ f. e.id ≤ f.id) es × IsSorted es

-- Strictly ascending ids: what the serial column makes of a table that grows at its end.
abbrev pub IsAscending : List Event → Type 0
IsAscending [] = Unit
IsAscending (e ∷ es) = All (λ f. e.id < f.id) es × IsAscending es

insert_by_id-All :
    (n : ℕ) (e : Event) (es : List Event)
    → n ≤ e.id
    → All (λ f. n ≤ f.id) es
    → All (λ f. n ≤ f.id) (insert_by_id e es)
insert_by_id-All n e [] h hs = (h, tt)
insert_by_id-All n e (f ∷ es) h hs = ground (arith, insert_by_id-All n e es h hs.1)

insert_by_id-IsSorted : (e : Event) (es : List Event) → IsSorted es → IsSorted (insert_by_id e es)
insert_by_id-IsSorted e [] s = (tt, tt)
insert_by_id-IsSorted e (f ∷ es) s = elim (Bool-cases (leb e.id f.id)) [
  | inl below ↦ rw below (
    (ground arith, All-map (λ g. f.id ≤ g.id) (λ g. e.id ≤ g.id) (λ g h. ground arith) es s.0),
    s,
  )
  | inr above ↦
      rw above (insert_by_id-All f.id e es (ground arith) s.0, insert_by_id-IsSorted e es s.1)
]

pub order_by_id-IsSorted : (es : List Event) → IsSorted (order_by_id es)
order_by_id-IsSorted [] = tt
order_by_id-IsSorted (e ∷ es) = insert_by_id-IsSorted e (order_by_id es) (order_by_id-IsSorted es)

pub keep-All {ℓ} :
    (P : Event → Type ℓ) (p : Event → Bool) (es : List Event) → All P es → All P (keep p es)
keep-All P p [] h = tt
keep-All P p (e ∷ es) h = elim (Bool-cases (p e)) [
  | inl kept ↦ rw kept (h.0, keep-All P p es h.1)
  | inr dropped ↦ rw dropped (keep-All P p es h.1)
]

pub keep-IsSorted : (p : Event → Bool) (es : List Event) → IsSorted es → IsSorted (keep p es)
keep-IsSorted p [] s = tt
keep-IsSorted p (e ∷ es) s = elim (Bool-cases (p e)) [
  | inl kept ↦ rw kept (keep-All (λ f. e.id ≤ f.id) p es s.0, keep-IsSorted p es s.1)
  | inr dropped ↦ rw dropped (keep-IsSorted p es s.1)
]

pub take-IsSorted : (n : ℕ) (es : List Event) → IsSorted es → IsSorted (take n es)
take-IsSorted zero es s = tt
take-IsSorted (suc n) [] s = tt
take-IsSorted (suc n) (e ∷ es) s = (take-All (λ f. e.id ≤ f.id) n es s.0, take-IsSorted n es s.1)

pub keep-All_kept : (p : Event → Bool) (es : List Event) → All (λ e. p e ≡ true) (keep p es)
keep-All_kept p [] = tt
keep-All_kept p (e ∷ es) = elim (Bool-cases (p e)) [
  | inl kept ↦ rw kept (kept, keep-All_kept p es)
  | inr dropped ↦ rw dropped (keep-All_kept p es)
]

-- An ascending table is in the order that the query asks for.
pub order_by_id-ascending : (es : List Event) → IsAscending es → order_by_id es ≡ es
order_by_id-ascending [] a = refl
order_by_id-ascending (e ∷ es) a = rw (order_by_id-ascending es a.1) (insert_by_id-first e es a.0)
  where
    insert_by_id-first :
        (f : Event) (fs : List Event) → All (λ g. f.id < g.id) fs → insert_by_id f fs ≡ f ∷ fs
    insert_by_id-first f [] h = refl
    insert_by_id-first f (g ∷ fs) h = ground arith

-- Marking keeps the ids, and so the order.
pub map-mark_row-All :
    (now : Time) (ids : List ℕ) (n : ℕ) (es : List Event)
    → All (λ f. n < f.id) es
    → All (λ f. n < f.id) (map (mark_row now ids) es)
map-mark_row-All now ids n [] h = tt
map-mark_row-All now ids n (e ∷ es) h = ground (arith, map-mark_row-All now ids n es h.1)

pub mark_row-id : (now : Time) (ids : List ℕ) (e : Event) → (mark_row now ids e).id ≡ e.id
mark_row-id now ids e = ground arith

pub map-mark_row-IsAscending :
    (now : Time) (ids : List ℕ) (es : List Event)
    → IsAscending es
    → IsAscending (map (mark_row now ids) es)
map-mark_row-IsAscending now ids [] a = tt
map-mark_row-IsAscending now ids (e ∷ es) a = (
  subst (λ n. All (λ f. n < f.id) (map (mark_row now ids) es)) (sym (mark_row-id now ids e))
      (map-mark_row-All now ids e.id es a.0),
  map-mark_row-IsAscending now ids es a.1,
)
