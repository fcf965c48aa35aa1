-- ===== src/Outbox/Worker/Progress.antt =====
-- That the outbox worker gets through its table (pkg/outbox/worker.go).
use mathlib.Core.Path.{subst}
use Prim.Native.Nat.add
use microservices_go.Prelude.{
  none, ℕ, zero, suc, ◌+◌, ◌<◌, ◌≡◌, refl, sym, ◌∙◌, ap, false, List, [], ◌∷◌, map, take, keep, All,
  arith, Bool-cases, inl, inr,
}
use microservices_go.Errors.{done}
use microservices_go.Postgres.{Time, committed}
use microservices_go.Outbox.{
  Event, Table, selectable, is_pending, mark_row, query_outbox_events_tx,
  mark_events_as_processed_tx,
}
use microservices_go.Outbox.Order.{IsAscending, order_by_id-ascending, map-mark_row-IsAscending}
use microservices_go.Outbox.Worker.{
  EventPublisher, BatchEnv, batch_limit, publish_all, publish_batch, process_outbox_batch,
}

-- The pending events, in the order of the table.
abbrev pub pending_rows : List Event → List Event
pending_rows = keep (λ e. is_pending e.status)

abbrev pub drop : ℕ → List Event → List Event
drop zero es = es
drop (suc n) [] = []
drop (suc n) (_ ∷ es) = drop n es

abbrev ids_of : List Event → List ℕ
ids_of = map (λ e. e.id)

keep_unlocked : (es : List Event) → keep (selectable []) es ≡ pending_rows es
keep_unlocked [] = refl
keep_unlocked (e ∷ es) = ground (arith, keep_unlocked es)

mark_behind :
    (now : Time) (n : ℕ) (ids : List ℕ) (es : List Event)
    → All (λ f. n < f.id) es
    → map (mark_row now (n ∷ ids)) es ≡ map (mark_row now ids) es
mark_behind now n ids [] h = refl
mark_behind now n ids (e ∷ es) h = ground (arith, mark_behind now n ids es h.1)

mark_none : (now : Time) (es : List Event) → map (mark_row now []) es ≡ es
mark_none now [] = refl
mark_none now (e ∷ es) = rw (mark_none now es)

mark_over :
    (now : Time) (ids : List ℕ) (e : Event)
    → is_pending e.status ≡ false
    → is_pending (mark_row now ids e).status ≡ false
mark_over now ids e h = ground arith

mark_hit :
    (now : Time) (ids : List ℕ) (e : Event)
    → is_pending (mark_row now (e.id ∷ ids) e).status ≡ false
mark_hit now ids e = ground arith

-- Marking the first `n` pending events of an ascending table takes them off the pending ones.
mark_first :
    (now : Time) (n : ℕ) (es : List Event)
    → IsAscending es
    → pending_rows (map (mark_row now (ids_of (take n (pending_rows es)))) es)
      ≡ drop n (pending_rows es)
mark_first now zero es a = rw (mark_none now es)
mark_first now (suc n) [] a = refl
mark_first now (suc n) (e ∷ es) a = elim (Bool-cases (is_pending e.status)) [
  | inl waits ↦
      let ids : List ℕ = ids_of (take n (pending_rows es)) in
      let first : pending_rows (e ∷ es) ≡ e ∷ pending_rows es = rw waits in
      subst (Taken (suc n)) (sym first) (
        rw (mark_hit now ids e)
          (ap pending_rows (mark_behind now e.id ids es a.0) ∙ mark_first now n es a.1))
  | inr over ↦
      let none_first : pending_rows (e ∷ es) ≡ pending_rows es = rw over in
      subst (Taken (suc n)) (sym none_first) (
        rw (mark_over now (ids_of (take (suc n) (pending_rows es))) e over)
          (mark_first now (suc n) es a.1))
]
  where
    Taken : ℕ → List Event → Type 0
    Taken k ps = pending_rows (map (mark_row now (ids_of (take k ps))) (e ∷ es)) ≡ drop k ps

drop-nil : (n : ℕ) → drop n [] ≡ []
drop-nil zero = refl
drop-nil (suc n) = refl

drop-add : (m n : ℕ) (es : List Event) → drop n (drop m es) ≡ drop (m + n) es
drop-add zero n es = rw (add.zero n)
drop-add (suc m) n [] = drop-nil n ∙ sym (drop-nil (suc m + n))
drop-add (suc m) n (e ∷ es) = rw (add.suc m n) (drop-add m n es)

-- A batch in which nothing fails and no row is locked.
pub record IsCalm (env : BatchEnv) : Type 0 where
  pub begins : env.begin_fails ≡ false
  pub queries : env.query_fails ≡ false
  pub scans : env.scan_fails ≡ false
  pub updates : env.update_fails ≡ false
  pub commits : env.commit ≡ committed
  pub unlocked : env.locked ≡ []
  pub sends : (e : Event) → env.publish_error e ≡ none

pub calm_query :
    (env : BatchEnv) (t : Table)
    → env.query_fails ≡ false
    → env.scan_fails ≡ false
    → env.locked ≡ []
    → IsAscending t.rows
    → query_outbox_events_tx env.query_fails env.scan_fails env.locked batch_limit t
      ≡ done (take batch_limit (pending_rows t.rows))
unfolding query_outbox_events_tx
calm_query env t q s l a = rw (q, s, l, order_by_id-ascending t.rows a, keep_unlocked t.rows)

module _ {M : Type 0} (p : EventPublisher M) (message_of : Event → M)
    (reliable : (e : Event) → p.publish e ≡ done (message_of e)) where
  publish_all_reliable :
      (env : BatchEnv) (es : List Event)
      → ((e : Event) → env.publish_error e ≡ none)
      → publish_all p env es ≡ (ids_of es, map message_of es)
  publish_all_reliable env [] sends = refl
  publish_all_reliable env (e ∷ es) sends =
      rw (sends e, reliable e, publish_all) (rw (publish_all_reliable env es sends))

  calm_publish :
      (env : BatchEnv) (t : Table) (es : List Event)
      → env.update_fails ≡ false
      → env.commit ≡ committed
      → ((e : Event) → env.publish_error e ≡ none)
      → publish_batch p env t es
        ≡ (record t { rows = map (mark_row env.now (ids_of es)) t.rows }, map message_of es)
  unfolding mark_events_as_processed_tx
  calm_publish env t [] u c sends = rw (mark_none env.now t.rows)
  calm_publish env t (e ∷ es) u c sends = ground (arith, publish_all_reliable env (e ∷ es) sends)

  -- One batch in which nothing fails, on an ascending table: the first hundred pending events are
  -- published in the order of their ids, and exactly the others stay pending.
  pub calm_batch :
      (env : BatchEnv) (t : Table)
      → IsCalm env
      → IsAscending t.rows
      → let (t', sent) = process_outbox_batch p env t in
        (sent ≡ map message_of (take batch_limit (pending_rows t.rows)))
        × (pending_rows t'.rows ≡ drop batch_limit (pending_rows t.rows))
        × IsAscending t'.rows
  unfolding process_outbox_batch
  calm_batch env t calm a =
      let batch : List Event = take batch_limit (pending_rows t.rows) in
      rw calm.begins (
        rw (calm_query env t calm.queries calm.scans calm.unlocked a) (
          rw (calm_publish env t batch calm.updates calm.commits calm.sends) (
            refl,
            mark_first env.now batch_limit t.rows a,
            map-mark_row-IsAscending env.now (ids_of batch) t.rows a,
          )))
