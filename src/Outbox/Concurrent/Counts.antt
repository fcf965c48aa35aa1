-- ===== src/Outbox/Concurrent/Counts.antt =====
-- How often an id stands among rows, and what the statements and a batch make of these numbers
-- (pkg/outbox/pg_repo.go, pkg/outbox/worker.go).
use mathlib.Core.Path.{subst}
use microservices_go.Prelude.{
  last-injective, sym, ℕ, zero, suc, ◌+◌, ◌≤◌, ◌==◌, leb, String, Bool, true, false, not, ◌&&◌,
  List, [], ◌∷◌, ◌++◌, map, take, keep, if◌then◌else◌, ◌≡◌, refl, ap, ◌∙◌, arith, Bool-cases, inl,
  inr,
}
use microservices_go.Errors.{done, done-injective}
use microservices_go.Postgres.{Time}
use microservices_go.Json.{Payload}
use microservices_go.Outbox.{
  Event, Table, is_pending, contains, selectable, insert_by_id, order_by_id, mark_row,
  insert_outbox_event_tx, query_outbox_events_tx, mark_events_as_processed_tx,
}
use microservices_go.Outbox.Worker.{BatchEnv, batch_limit, mark_published}
use microservices_go.Outbox.Concurrent.{Batch, ids_of, held, in_flight, is_undone}

abbrev pub count : ℕ → List ℕ → ℕ
count i [] = 0
count i (n ∷ ns) = (if n == i then 1 else 0) + count i ns

-- The rows with an id that are pending, and those that are processed.
abbrev pub pending_count : ℕ → List Event → ℕ
pending_count i [] = 0
pending_count i (e ∷ es) = (if e.id == i && is_pending e.status then 1 else 0) + pending_count i es

abbrev pub processed_count : ℕ → List Event → ℕ
processed_count i [] = 0
processed_count i (e ∷ es) =
    (if e.id == i && not (is_pending e.status) then 1 else 0) + processed_count i es

-- A row that is inserted is pending and has the next id of the sequence.
pub inserted_event :
    (insert_fails : Bool) (now : Time) (event_type aggregate_id : String) (payload : Payload)
    (t t' : Table) (e : Event)
    → insert_outbox_event_tx insert_fails now event_type aggregate_id payload t ≡ done t'
    → t'.rows ≡ t.rows ++ e ∷ []
    → (e.id ≡ t.next_id) × (is_pending e.status ≡ true) × (t'.next_id ≡ t.next_id + 1)
unfolding insert_outbox_event_tx
inserted_event true now event_type aggregate_id payload t t' e h rows = cc
inserted_event false now event_type aggregate_id payload t t' e h rows =
    let same = last-injective t.rows (ap (λ (u : Table). u.rows) (done-injective h) ∙ rows) in
    (
      ap (λ (f : Event). f.id) (sym same),
      ap (λ (f : Event). is_pending f.status) (sym same),
      ap (λ (u : Table). u.next_id) (sym (done-injective h)),
    )

module _ (i : ℕ) where
  pub count-append : (xs ys : List ℕ) → count i (xs ++ ys) ≡ count i xs + count i ys
  count-append [] ys = omega arith
  count-append (x ∷ xs) ys = omega (arith, count-append xs ys)

  -- What a batch holds.
  pub batch_count :
      (b : Batch)
      → count i (b.ids ++ b.failed ++ ids_of b.rest)
        ≡ count i b.ids + count i b.failed + count i (ids_of b.rest)
  batch_count b =
      omega (arith, count-append (b.ids ++ b.failed) (ids_of b.rest), count-append b.ids b.failed)

  pub held-split :
      (before after : List Batch) (b : Batch)
      → count i (held (before ++ b ∷ after))
        ≡ count i b.ids
          + count i b.failed
          + count i (ids_of b.rest)
          + count i (held (before ++ after))
  held-split [] after b =
      omega (arith, count-append (b.ids ++ b.failed ++ ids_of b.rest) (held after), batch_count b)
  held-split (c ∷ before) after b =
      let mine = c.ids ++ c.failed ++ ids_of c.rest in
      omega (
        arith,
        held-split before after b,
        count-append mine (held (before ++ b ∷ after)),
        count-append mine (held (before ++ after)),
      )

  pub in_flight-split :
      (before after : List Batch) (b : Batch)
      → count i (in_flight (before ++ b ∷ after))
        ≡ count i b.ids + count i (in_flight (before ++ after))
  in_flight-split [] after b = count-append b.ids (in_flight after)
  in_flight-split (c ∷ before) after b = omega (
    arith,
    in_flight-split before after b,
    count-append c.ids (in_flight (before ++ b ∷ after)),
    count-append c.ids (in_flight (before ++ after)),
  )

  pub contains-count : (ns : List ℕ) → contains ns i ≡ leb 1 (count i ns)
  contains-count [] = ground arith
  contains-count (n ∷ ns) = ground (arith, contains-count ns)

  insert-pending :
      (e : Event) (es : List Event) → pending_count i (insert_by_id e es) ≡ pending_count i (e ∷ es)
  insert-pending e [] = refl
  insert-pending e (f ∷ fs) = elim (Bool-cases (leb e.id f.id)) [
    | inl below ↦ rw below refl
    | inr above ↦ rw above (omega (arith, insert-pending e fs))
  ]

  order-pending : (es : List Event) → pending_count i (order_by_id es) ≡ pending_count i es
  order-pending [] = refl
  order-pending (e ∷ es) = omega (arith, insert-pending e (order_by_id es), order-pending es)

  take-count : (n : ℕ) (es : List Event) → count i (ids_of (take n es)) ≤ count i (ids_of es)
  take-count zero es = omega arith
  take-count (suc n) [] = omega arith
  take-count (suc n) (e ∷ es) = omega (arith, take-count n es)

  same_id : (ns : List ℕ) (n : ℕ) → n == i ≡ true → contains ns n ≡ contains ns i
  same_id ns n e = ap (contains ns) (ground arith)

  keep-count :
      (locked : List ℕ) (es : List Event)
      → count i (ids_of (keep (selectable locked) es))
        ≤ (if contains locked i then 0 else pending_count i es)
  keep-count locked [] = ground arith
  keep-count locked (e ∷ es) = ground (arith, keep-count locked es, same_id locked e.id)

  pending-append :
      (es fs : List Event) → pending_count i (es ++ fs) ≡ pending_count i es + pending_count i fs
  pending-append [] fs = omega arith
  pending-append (e ∷ es) fs = omega (arith, pending-append es fs)

  processed-append :
      (es fs : List Event)
      → processed_count i (es ++ fs) ≡ processed_count i es + processed_count i fs
  processed-append [] fs = omega arith
  processed-append (e ∷ es) fs = omega (arith, processed-append es fs)

  pending-mark :
      (now : Time) (ids : List ℕ) (es : List Event)
      → pending_count i (map (mark_row now ids) es)
        ≡ (if contains ids i then 0 else pending_count i es)
  pending-mark now ids [] = ground arith
  pending-mark now ids (e ∷ es) = ground (arith, pending-mark now ids es, same_id ids e.id)

  processed-mark :
      (now : Time) (ids : List ℕ) (es : List Event)
      → processed_count i (map (mark_row now ids) es)
        ≡ (if contains ids i then pending_count i es else 0) + processed_count i es
  processed-mark now ids [] = ground arith
  processed-mark now ids (e ∷ es) = ground (arith, processed-mark now ids es, same_id ids e.id)

  pub selected :
      (query_fails scan_fails : Bool) (locked : List ℕ) (t : Table) (es : List Event)
      → query_outbox_events_tx query_fails scan_fails locked batch_limit t ≡ done es
      → count i (ids_of es) ≤ (if contains locked i then 0 else pending_count i t.rows)
  unfolding query_outbox_events_tx
  selected true scan_fails locked t es h = cc
  selected false true locked t es h = cc
  selected false false locked t es h =
      subst (λ l. count i (ids_of l) ≤ (if contains locked i then 0 else pending_count i t.rows))
        (done-injective h)
        (ground (
          arith,
          take-count batch_limit (keep (selectable locked) (order_by_id t.rows)),
          keep-count locked (order_by_id t.rows),
          order-pending t.rows,
        ))

  pub inserting-split :
      (before after : List Event) (e : Event)
      → count i (ids_of (before ++ e ∷ after))
        ≡ (if e.id == i then 1 else 0) + count i (ids_of (before ++ after))
  inserting-split [] after e = refl
  inserting-split (b ∷ before) after e = omega (arith, inserting-split before after e)

  -- The commit of a pending row.
  pub committed_row :
      (rows : List Event) (e : Event)
      → is_pending e.status ≡ true
      → (pending_count i (rows ++ e ∷ []) ≡ pending_count i rows + (if e.id == i then 1 else 0))
        × (processed_count i (rows ++ e ∷ []) ≡ processed_count i rows)
  committed_row rows e waits =
      (pending-append rows (e ∷ []) ∙ ground arith, processed-append rows (e ∷ []) ∙ ground arith)

  -- The row with the id is marked by a batch that has published `ids`.
  abbrev pub hit : BatchEnv → List ℕ → Bool
  hit env ids = not (is_undone env) && contains ids i

  pub marked :
      (env : BatchEnv) (ids : List ℕ) (t : Table)
      → let t' = mark_published env t ids in
        (pending_count i t'.rows ≡ (if hit env ids then 0 else pending_count i t.rows))
        × (processed_count i t'.rows
            ≡ (if hit env ids then pending_count i t.rows else 0) + processed_count i t.rows)
        × (t'.next_id ≡ t.next_id)
  unfolding mark_events_as_processed_tx
  marked env [] t = ground arith
  marked env (n ∷ ns) t =
      ground (arith, pending-mark env.now (n ∷ ns) t.rows, processed-mark env.now (n ∷ ns) t.rows)
