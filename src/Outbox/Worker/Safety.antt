-- ===== src/Outbox/Worker/Safety.antt =====
-- What a batch of the outbox worker may do to the table (pkg/outbox/worker.go).
use mathlib.Core.List.{Memᴰ}
use microservices_go.Prelude.{
  take-All, ℕ, ◌≤◌, ◌≡◌, ◌⊎◌, inl, inr, refl, Bool, true, false, Option, none, some, List, [], ◌∷◌,
  map, length, keep, length-take_le, All, All-map, arith, Bool-cases,
}
use mathlib.Core.Path.{subst}
use microservices_go.Errors.{GoError, Result, done, fail, done-injective}
use microservices_go.Postgres.{Time}
use microservices_go.Outbox.{
  Event, Table, contains, selectable, is_pending, processed, mark_row, order_by_id,
  query_outbox_events_tx, mark_events_as_processed_tx,
}
use microservices_go.Outbox.Order.{
  IsSorted, order_by_id-IsSorted, keep-IsSorted, take-IsSorted, keep-All_kept,
}
use microservices_go.Outbox.Worker.{
  EventPublisher, BatchEnv, batch_limit, attempt, publish_all, mark_published, publish_batch,
  process_outbox_batch, Outcome,
}

-- What a query delivers is in ascending order of the ids, holds only pending events that no other
-- transaction has locked, and is no longer than the limit.
pub query-IsSorted :
    (query_fails scan_fails : Bool) (locked : List ℕ) (limit : ℕ) (t : Table) (es : List Event)
    → query_outbox_events_tx query_fails scan_fails locked limit t ≡ done es
    → IsSorted es × All (λ e. selectable locked e ≡ true) es × (length es ≤ limit)
unfolding query_outbox_events_tx
query-IsSorted true scan_fails locked limit t es h = cc
query-IsSorted false true locked limit t es h = cc
query-IsSorted false false locked limit t es h =
    let chosen : List Event = keep (selectable locked) (order_by_id t.rows) in
    subst (λ l. IsSorted l × All (λ e. selectable locked e ≡ true) l × (length l ≤ limit))
      (done-injective h)
      (
        take-IsSorted limit chosen
            (keep-IsSorted (selectable locked) _ (order_by_id-IsSorted t.rows)),
        take-All (λ e. selectable locked e ≡ true) limit chosen
            (keep-All_kept (selectable locked) (order_by_id t.rows)),
        length-take_le limit chosen,
      )

-- The row `f` is the row `e`, or `e` marked as processed with its id among `ids`.
abbrev pub Advanced : Time → List ℕ → Event → Event → Type 0
Advanced now ids e f =
    (f ≡ e)
    ⊎ ((contains ids e.id ≡ true) × (f ≡ record e { status = processed; processed_at = some now }))

-- The same for two tables, row by row.
abbrev pub AllAdvanced : Time → List ℕ → List Event → List Event → Type 0
AllAdvanced now ids [] [] = Unit
AllAdvanced now ids (e ∷ es) (f ∷ fs) = Advanced now ids e f × AllAdvanced now ids es fs
AllAdvanced now ids _ _ = ⊥

AllAdvanced-refl : (now : Time) (ids : List ℕ) (es : List Event) → AllAdvanced now ids es es
AllAdvanced-refl now ids [] = tt
AllAdvanced-refl now ids (e ∷ es) = (inl refl, AllAdvanced-refl now ids es)

AllAdvanced-mark :
    (now : Time) (ids : List ℕ) (es : List Event)
    → AllAdvanced now ids es (map (mark_row now ids) es)
AllAdvanced-mark now ids [] = tt
AllAdvanced-mark now ids (e ∷ es) = (ground arith, AllAdvanced-mark now ids es)

pub mark_published-AllAdvanced :
    (env : BatchEnv) (t : Table) (ids : List ℕ)
    → AllAdvanced env.now ids t.rows (mark_published env t ids).rows
unfolding mark_events_as_processed_tx
mark_published-AllAdvanced env t ids =
    ground (arith, AllAdvanced-refl env.now ids t.rows, AllAdvanced-mark env.now ids t.rows)

module _ {M : Type 0} (p : EventPublisher M) where
  -- The id belongs to a pending event that was published, and its message is among `sent`.
  abbrev pub IsPublished : List M → ℕ → Type 0
  IsPublished sent i =
      (e : Event) × (m : M) × (e.id ≡ i)
      × (is_pending e.status ≡ true)
      × (p.publish e ≡ done m)
      × Memᴰ m sent

  attempt-done :
      (error : Option GoError) (e : Event) (m : M)
      → attempt p error e ≡ done m
      → p.publish e ≡ done m
  attempt-done none e m h = h
  attempt-done (some err) e m h = cc

  publish_all-IsPublished :
      (env : BatchEnv) (locked : List ℕ) (es : List Event)
      → All (λ e. selectable locked e ≡ true) es
      → let (ids, sent) = publish_all p env es in All (IsPublished sent) ids
  publish_all-IsPublished env locked [] h = tt
  publish_all-IsPublished env locked (e ∷ es) h =
      one e es (attempt p (env.publish_error e) e) refl (ground arith)
        (publish_all-IsPublished env locked es h.1)
    where
      one :
          (f : Event) (fs : List Event) (r : Result M)
          → attempt p (env.publish_error f) f ≡ r
          → is_pending f.status ≡ true
          → All (IsPublished (publish_all p env fs).1) (publish_all p env fs).0
          → All (IsPublished (publish_all p env (f ∷ fs)).1) (publish_all p env (f ∷ fs)).0
      one f fs (fail err) q pending ih = rw (q, publish_all) ih
      one f fs (done m) q pending ih =
          rw (q, publish_all)
            (
              (f, m, refl, pending, attempt-done (env.publish_error f) f m q, Memᴰ.head refl),
              All-map (IsPublished (publish_all p env fs).1)
                  (IsPublished (m ∷ (publish_all p env fs).1))
                  (λ i (g, n, same, waits, sends, mem). (g, n, same, waits, sends, Memᴰ.tail mem))
                  (publish_all p env fs).0 ih,
            )

  publish_batch-AllAdvanced :
      (env : BatchEnv) (t : Table) (es : List Event)
      → All (λ e. selectable env.locked e ≡ true) es
      → let (t', sent) = publish_batch p env t es in
        (ids : List ℕ) × All (IsPublished sent) ids × AllAdvanced env.now ids t.rows t'.rows
  publish_batch-AllAdvanced env t [] h = ([], tt, AllAdvanced-refl env.now [] t.rows)
  publish_batch-AllAdvanced env t (e ∷ es) h = (
    (publish_all p env (e ∷ es)).0,
    publish_all-IsPublished env env.locked (e ∷ es) h,
    mark_published-AllAdvanced env t (publish_all p env (e ∷ es)).0,
  )

  -- Whatever fails during a batch, each row of the table stays as it is or becomes PROCESSED at
  -- the time of the batch, and the latter only if the batch has published a pending event with the
  -- id of the row and sent its message: no event is marked, lost or changed without that.
  pub process_outbox_batch-AllAdvanced :
      (env : BatchEnv) (t : Table)
      → let (t', sent) = process_outbox_batch p env t in
        (ids : List ℕ) × All (IsPublished sent) ids × AllAdvanced env.now ids t.rows t'.rows
  unfolding process_outbox_batch
  process_outbox_batch-AllAdvanced env t = elim (Bool-cases env.begin_fails) [
    | inl down ↦ rw down ([], tt, AllAdvanced-refl env.now [] t.rows)
    | inr up ↦ rw up (
        queried (query_outbox_events_tx env.query_fails env.scan_fails env.locked batch_limit t)
          refl)
  ]
    where
      queried :
          (r : Result (List Event))
          → query_outbox_events_tx env.query_fails env.scan_fails env.locked batch_limit t ≡ r
          → let (t', sent) : Outcome M = elim r [
            | fail _ ↦ (t, [])
            | done events ↦ publish_batch p env t events
          ] in
            (ids : List ℕ) × All (IsPublished sent) ids × AllAdvanced env.now ids t.rows t'.rows
      queried (fail err) q = ([], tt, AllAdvanced-refl env.now [] t.rows)
      queried (done es) q =
          publish_batch-AllAdvanced env t es
            (query-IsSorted env.query_fails env.scan_fails env.locked batch_limit t es q).1
