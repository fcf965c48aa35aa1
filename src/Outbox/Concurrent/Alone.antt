-- ===== src/Outbox/Concurrent/Alone.antt =====
-- A batch of a worker with no other step between its own (pkg/outbox/worker.go).
use mathlib.Core.List.{append-nil, append_assoc}
use mathlib.Core.Path.{subst}
use microservices_go.Prelude.{ℕ, false, List, [], ◌∷◌, ◌++◌, if◌then◌else◌, ◌≡◌, refl, sym, arith}
use microservices_go.Errors.{Result, done, fail}
use microservices_go.Outbox.{Event, query_outbox_events_tx}
use microservices_go.Outbox.Worker.{
  EventPublisher, BatchEnv, attempt, batch_limit, publish_all, mark_published, process_outbox_batch,
}
use microservices_go.Outbox.Concurrent.{
  held, State, is_undone, begins, publishes, misses, ends, Reach, later,
}

module _ {M : Type 0} (p : EventPublisher M) where
  -- A batch with no other step between its query and its end.
  tried :
      (env : BatchEnv) (es : List Event) (ids failed : List ℕ) (s : State)
      → Reach p
          (record s { running = record { ids = ids; failed = failed; rest = es } ∷ s.running })
      → (failed' : List ℕ) × Reach p (record s {
        running =
            record { ids = ids ++ (publish_all p env es).0; failed = failed'; rest = [] }
            ∷ s.running;
        sent = s.sent ++ (publish_all p env es).0;
      })
  tried env [] ids failed s r = (
    failed,
    subst
        (λ (x : List ℕ × List ℕ). Reach p (record s {
          running = record { ids = x.0; failed = failed; rest = [] } ∷ s.running;
          sent = x.1;
        }))
        (λ j. (sym (append-nil ids) j, sym (append-nil s.sent) j)) r,
  )
  tried env (e ∷ es) ids failed s r = called (attempt p (env.publish_error e) e) refl (tried env es)
    where
      Tried : List ℕ → List ℕ → State → Type 0
      Tried more ids t =
          (failed' : List ℕ) × Reach p (record t {
            running = record { ids = ids ++ more; failed = failed'; rest = [] } ∷ t.running;
            sent = t.sent ++ more;
          })

      called :
          (o : Result M)
          → attempt p (env.publish_error e) e ≡ o
          → ((ids failed : List ℕ) (t : State)
              → Reach p (record t {
                running = record { ids = ids; failed = failed; rest = es } ∷ t.running;
              })
              → Tried (publish_all p env es).0 ids t)
          → Tried (publish_all p env (e ∷ es)).0 ids s
      called (fail err) h next =
          rw (h, publish_all)
            (next ids (failed ++ e.id ∷ []) s
              (later r (misses (env.publish_error e) [] s.running ids failed e es err refl h)))
      called (done m) h next =
          let more = (publish_all p env es).0 in
          let (failed', reached) =
            next (ids ++ e.id ∷ []) failed (record s { sent = s.sent ++ e.id ∷ [] })
              (later r (publishes (env.publish_error e) [] s.running ids failed e es m refl h)) in
          rw (h, publish_all)
            (
              failed',
              subst
                  (λ (x : List ℕ × List ℕ). Reach p (record s {
                    running = record { ids = x.0; failed = failed'; rest = [] } ∷ s.running;
                    sent = x.1;
                  }))
                  (λ j.
                    (append_assoc ids (e.id ∷ []) more j, append_assoc s.sent (e.id ∷ []) more j))
                  reached,
            )

  -- A batch that begins in a state which the workers reach, with no row held that its query does
  -- not skip, and whose calls of Publish and end follow each other: its steps lead to the table that
  -- processOutboxBatch leaves, with the ids sent that it has published, which are undone if the
  -- update or the commit is.
  pub batch_alone :
      (env : BatchEnv) (es : List Event) (s : State)
      → env.begin_fails ≡ false
      → env.locked ≡ held s.running
      → query_outbox_events_tx env.query_fails env.scan_fails (held s.running) batch_limit s.table
        ≡ done es
      → Reach p s
      → Reach p (record s {
        table = (process_outbox_batch p env s.table).0;
        sent = s.sent ++ (publish_all p env es).0;
        undone = s.undone ++ (if is_undone env then (publish_all p env es).0 else []);
      })
  unfolding process_outbox_batch
  batch_alone env es s begun locked h r =
      let ids = (publish_all p env es).0 in
      let (failed, reached) = tried env es [] [] s (later r (begins env es h)) in
      let ended = later reached (ends env [] s.running ids failed refl) in
      let same : mark_published env s.table ids ≡ (process_outbox_batch p env s.table).0 =
        whole es h in
      subst
        (λ t. Reach p (record s {
          table = t;
          sent = s.sent ++ ids;
          undone = s.undone ++ (if is_undone env then ids else []);
        }))
        same ended
    where
      whole :
          (fs : List Event)
          → query_outbox_events_tx env.query_fails env.scan_fails
              (held s.running)
              batch_limit
              s.table
            ≡ done fs
          → mark_published env s.table (publish_all p env fs).0
            ≡ (process_outbox_batch p env s.table).0
      whole [] q = ground arith
      whole (f ∷ fs) q = ground arith
