-- ===== src/Outbox/Worker/Drain.antt =====
-- The loop of the outbox worker over several ticks (pkg/outbox/worker.go).
use mathlib.Core.List.{append-nil, append_assoc, map-append}
use microservices_go.Prelude.{
  ℕ, zero, suc, ◌-◌, ◌*◌, ◌≤◌, ◌≡◌, refl, ◌⊎◌, none, sym, ◌∙◌, ap, true, false, List, [], ◌∷◌, ◌++◌,
  map, length, take, All, arith,
}
use microservices_go.Errors.{done}
use microservices_go.Postgres.{rolled_back}
use microservices_go.Outbox.{Event, Table, query_outbox_events_tx, mark_events_as_processed_tx}
use microservices_go.Outbox.Order.{IsAscending}
use microservices_go.Outbox.Worker.{
  EventPublisher, BatchEnv, batch_limit, publish_all, process_outbox_batch, start_outbox_worker,
  tick,
}
use microservices_go.Outbox.Worker.Progress.{pending_rows, drop, IsCalm, calm_batch, calm_query}

length-drop : (n : ℕ) (es : List Event) → length (drop n es) ≡ length es - n
length-drop zero es = omega arith
length-drop (suc n) [] = omega arith
length-drop (suc n) (e ∷ es) = omega (arith, length-drop n es)

take-append-drop : (n : ℕ) (es : List Event) → take n es ++ drop n es ≡ es
take-append-drop zero es = refl
take-append-drop (suc n) [] = refl
take-append-drop (suc n) (e ∷ es) = rw (take-append-drop n es)

eq-nil_of_length : (es : List Event) → length es ≡ 0 → es ≡ []
eq-nil_of_length [] h = refl
eq-nil_of_length (e ∷ es) h = absurd (omega arith)

rejoin :
    {M : Type 0} (f : Event → M) (n : ℕ) (es : List Event) {sent : List M} {rest : List Event}
    → sent ≡ map f (take n es)
    → rest ≡ drop n es
    → sent ++ map f rest ≡ map f es
rejoin f n es s r =
    rw (s, r) (sym (map-append f (take n es) (drop n es)) ∙ ap (map f) (take-append-drop n es))

module _ {M : Type 0} (p : EventPublisher M) (message_of : Event → M)
    (reliable : (e : Event) → p.publish e ≡ done (message_of e)) where
  -- What is sent and what is still pending make up what was pending before.
  calm_ticks :
      (envs : List BatchEnv) (t : Table)
      → All IsCalm envs
      → IsAscending t.rows
      → let (t', sent) = start_outbox_worker p (map tick envs) t in
        (sent ++ map message_of (pending_rows t'.rows) ≡ map message_of (pending_rows t.rows))
        × (length (pending_rows t'.rows) ≡ length (pending_rows t.rows) - batch_limit * length envs)
  unfolding start_outbox_worker
  calm_ticks [] t calm a = (refl, omega arith)
  calm_ticks (env ∷ envs) t calm a =
      let (t', sent) = process_outbox_batch p env t in
      let (sends, leaves, ascends) = calm_batch p message_of reliable env t calm.0 a in
      let (later, shorter) = calm_ticks envs t' calm.1 ascends in
      (
        append_assoc sent (start_outbox_worker p (map tick envs) t').1 _
            ∙ ap (λ l. sent ++ l) later
            ∙ rejoin message_of batch_limit (pending_rows t.rows) sends leaves,
        omega (arith, shorter, ap length leaves, length-drop batch_limit (pending_rows t.rows)),
      )

  -- With a publisher that never fails, ticks in which nothing fails, and at least one tick for each
  -- hundred pending events of an ascending table, the worker publishes every pending event exactly
  -- once, in the order of the ids, and leaves none pending.
  pub start_outbox_worker_drains :
      (envs : List BatchEnv) (t : Table)
      → All IsCalm envs
      → IsAscending t.rows
      → length (pending_rows t.rows) ≤ batch_limit * length envs
      → let (t', sent) = start_outbox_worker p (map tick envs) t in
        (pending_rows t'.rows ≡ []) × (sent ≡ map message_of (pending_rows t.rows))
  start_outbox_worker_drains envs t calm a enough =
      let (split, left) = calm_ticks envs t calm a in
      let t' = (start_outbox_worker p (map tick envs) t).0 in
      let none_left : pending_rows t'.rows ≡ [] =
        eq-nil_of_length (pending_rows t'.rows) (omega (arith, left)) in
      (
        none_left,
        sym (append-nil _) ∙ ap (λ l. sent_by ++ map message_of l) (sym none_left) ∙ split,
      )
    where
      sent_by : List M
      sent_by = (start_outbox_worker p (map tick envs) t).1

module _ {M : Type 0} (p : EventPublisher M) where
  sent_of_query :
      (env : BatchEnv) (t : Table) (es : List Event)
      → env.begin_fails ≡ false
      → query_outbox_events_tx env.query_fails env.scan_fails env.locked batch_limit t ≡ done es
      → (process_outbox_batch p env t).1 ≡ (publish_all p env es).1
  unfolding process_outbox_batch
  sent_of_query env t [] b q = rw b (rw q)
  sent_of_query env t (e ∷ es) b q = rw b (rw q)

  -- Two batches in which the connection does not fail publish the same.
  publish_all-connected :
      (env again : BatchEnv) (es : List Event)
      → ((e : Event) → env.publish_error e ≡ none)
      → ((e : Event) → again.publish_error e ≡ none)
      → publish_all p again es ≡ publish_all p env es
  publish_all-connected env again [] up up' = refl
  publish_all-connected env again (e ∷ es) up up' =
      ground (arith, up e, up' e, publish_all-connected env again es up up')

  undone_table :
      (env : BatchEnv) (t : Table)
      → (env.update_fails ≡ true) ⊎ (env.commit ≡ rolled_back)
      → (process_outbox_batch p env t).0 ≡ t
  unfolding process_outbox_batch query_outbox_events_tx mark_events_as_processed_tx
  undone_table env t undone = ground arith

  -- When the update or the commit of a batch fails in which the connection does not, the table of ascending ids stays as it was
  -- although the messages have been sent, and the next batch sends the same messages again.
  pub undone_batch_resends :
      (env again : BatchEnv) (t : Table)
      → env.begin_fails ≡ false
      → env.query_fails ≡ false
      → env.scan_fails ≡ false
      → env.locked ≡ []
      → ((e : Event) → env.publish_error e ≡ none)
      → (env.update_fails ≡ true) ⊎ (env.commit ≡ rolled_back)
      → IsCalm again
      → IsAscending t.rows
      → let (t', sent) = process_outbox_batch p env t in
        (t' ≡ t) × ((process_outbox_batch p again t').1 ≡ sent)
  undone_batch_resends env again t b q s l up undone calm a =
      let same : (process_outbox_batch p env t).0 ≡ t = undone_table env t undone in
      let first = sent_of_query env t _ b (calm_query env t q s l a) in
      let second =
        sent_of_query again t _ calm.begins
          (calm_query again t calm.queries calm.scans calm.unlocked a) in
      let same_sent =
        ap (λ (x : List ℕ × List M). x.1)
          (publish_all-connected env again (take batch_limit (pending_rows t.rows)) up
            calm.sends) in
      (same, ap (λ u. (process_outbox_batch p again u).1) same ∙ second ∙ same_sent ∙ sym first)
