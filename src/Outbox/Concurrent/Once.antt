-- ===== src/Outbox/Concurrent/Once.antt =====
-- How often concurrent workers send an event (pkg/outbox/worker.go).
use mathlib.Core.Path.{subst}
use microservices_go.Prelude.{
  true, All, All-split, All-join, ℕ, ◌+◌, ◌≤◌, List, [], ◌∷◌, ◌++◌, if◌then◌else◌, ◌≡◌, refl, ap,
  ◌∙◌, arith,
}
use microservices_go.Outbox.{Event, is_pending}
use microservices_go.Outbox.Worker.{EventPublisher, BatchEnv}
use microservices_go.Outbox.Concurrent.{
  Batch, ids_of, held, in_flight, State, is_undone, finish, Step, inserts, commits, aborts, begins,
  publishes, misses, ends, dies, Reach, start, later,
}
use microservices_go.Outbox.Concurrent.Counts.{
  count, pending_count, processed_count, count-append, held-split, contains-count, selected,
  inserted_event, inserting-split, committed_row, batch_count, in_flight-split, marked,
}

abbrev Waits : Event → Type 0
Waits e = is_pending e.status ≡ true

-- What the workers keep, for one id.
record Inv (i : ℕ) (s : State) : Type 0 where
  unique :
      pending_count i s.table.rows + processed_count i s.table.rows + count i (ids_of s.inserting)
      ≤ 1
  fresh :
      s.table.next_id ≤ i
      → pending_count i s.table.rows + processed_count i s.table.rows + count i (ids_of s.inserting)
        ≡ 0
  waiting : All Waits s.inserting
  holds : count i (held s.running) ≤ pending_count i s.table.rows
  once :
      count i s.sent
      ≡ count i s.undone + processed_count i s.table.rows + count i (in_flight s.running)

module _ {M : Type 0} (p : EventPublisher M) (i : ℕ) where
  released :
      (s : State) (before after : List Batch) (b : Batch)
      → s.running ≡ before ++ b ∷ after
      → (count i (held s.running)
          ≡ count i b.ids
            + count i b.failed
            + count i (ids_of b.rest)
            + count i (held (before ++ after)))
        × (count i (in_flight s.running) ≡ count i b.ids + count i (in_flight (before ++ after)))
  released s before after b h = (
    ap (λ r. count i (held r)) h ∙ held-split i before after b,
    ap (λ r. count i (in_flight r)) h ∙ in_flight-split i before after b,
  )

  ends-Inv :
      (s : State) (env : BatchEnv) (before after : List Batch) (ids failed : List ℕ)
      → s.running ≡ before ++ record { ids = ids; failed = failed; rest = [] } ∷ after
      → Inv i s
      → Inv i (finish env ids (before ++ after) s)
  ends-Inv s env before after ids failed h inv =
      let (out, landed) = released s before after _ h in
      let (pend, proc, next) = marked i env ids s.table in
      let found = contains-count i ids in
      let undoes = count-append i s.undone (if is_undone env then ids else []) in
      record {
        unique = ground (arith, pend, proc);
        fresh = λ h. ground (arith, inv.fresh, pend, proc, next);
        waiting = inv.waiting;
        holds = ground (arith, pend, out, found);
        once = ground (arith, pend, proc, out, landed, found, undoes);
      }

  Step-Inv : {s t : State} → Step p s t → Inv i s → Inv i t
  Step-Inv {s = s} (inserts fails now event_type aggregate_id payload before after e t at h rows)
        inv =
      let (id, waits, next) =
        inserted_event fails now event_type aggregate_id payload s.table t e h rows in
      let held_ids = ap (λ es. count i (ids_of es)) at in
      let split = inserting-split i before after e in
      record {
        unique = ground (arith, inv.fresh, inv.unique, held_ids, split, id);
        fresh = λ h. ground (arith, inv.fresh, held_ids, split, id, next);
        waiting = All-join Waits before after e waits (subst (All Waits) at inv.waiting);
        holds = inv.holds;
        once = inv.once;
      }
  Step-Inv {s = s} (commits before after e at) inv =
      let (waits, rest) = All-split Waits before after e (subst (All Waits) at inv.waiting) in
      let (pend, proc) = committed_row i s.table.rows e waits in
      let held_ids = ap (λ es. count i (ids_of es)) at in
      let split = inserting-split i before after e in
      record {
        unique = ground (arith, inv.unique, pend, proc, held_ids, split);
        fresh = λ h. ground (arith, inv.fresh, pend, proc, held_ids, split);
        waiting = rest;
        holds = omega (arith, inv.holds, pend);
        once = omega (arith, inv.once, proc);
      }
  Step-Inv {s = s} (aborts before after e at) inv =
      let held_ids = ap (λ es. count i (ids_of es)) at in
      let split = inserting-split i before after e in
      record {
        unique = ground (arith, inv.unique, held_ids, split);
        fresh = λ h. ground (arith, inv.fresh, held_ids, split);
        waiting = (All-split Waits before after e (subst (All Waits) at inv.waiting)).1;
        holds = inv.holds;
        once = inv.once;
      }
  Step-Inv {s = s} (begins env es h) inv = record {
    unique = inv.unique;
    fresh = inv.fresh;
    waiting = inv.waiting;
    holds = ground (
      arith,
      selected i env.query_fails env.scan_fails (held s.running) s.table es h,
      count-append i (ids_of es) (held s.running),
      contains-count i (held s.running),
    );
    once = inv.once;
  }
  Step-Inv {s = s} (publishes error before after ids failed e rest m at sends) inv =
      let (out, flown) = released s before after _ at in
      let b : Batch = record { ids = ids ++ e.id ∷ []; failed = failed; rest = rest } in
      let added = count-append i ids (e.id ∷ []) in
      record {
        unique = inv.unique;
        fresh = inv.fresh;
        waiting = inv.waiting;
        holds = omega (arith, inv.holds, out, held-split i before after b, added);
        once = omega (
          arith,
          inv.once,
          flown,
          in_flight-split i before after b,
          added,
          count-append i s.sent (e.id ∷ []),
        );
      }
  Step-Inv {s = s} (misses error before after ids failed e rest err at refused) inv =
      let (out, flown) = released s before after _ at in
      let b : Batch = record { ids = ids; failed = failed ++ e.id ∷ []; rest = rest } in
      record {
        unique = inv.unique;
        fresh = inv.fresh;
        waiting = inv.waiting;
        holds =
            omega (
              arith,
              inv.holds,
              out,
              held-split i before after b,
              count-append i failed (e.id ∷ []),
            );
        once = omega (arith, inv.once, flown, in_flight-split i before after b);
      }
  Step-Inv {s = s} (ends env before after ids failed h) inv =
      ends-Inv s env before after ids failed h inv
  Step-Inv {s = s} (dies before after b h) inv =
      let (out, flown) = released s before after b h in
      record {
        unique = inv.unique;
        fresh = inv.fresh;
        waiting = inv.waiting;
        holds = omega (arith, inv.holds, out);
        once = omega (arith, inv.once, flown, count-append i s.undone b.ids);
      }

  Reach-Inv : {s : State} → Reach p s → Inv i s
  Reach-Inv start = record {
    unique = omega arith;
    fresh = λ h. refl;
    waiting = tt;
    holds = omega arith;
    once = omega arith;
  }
  Reach-Inv (later r st) = Step-Inv st (Reach-Inv r)

  -- Workers on one table, in any interleaving of the calls of Publish and the ends of their batches
  -- with each other and with the transactions of the service that insert an event and commit or do
  -- not, with a connection that fails at one call and not at another, with updates and commits that
  -- fail and with processes that die: no event is held by two batches, no id has two rows, and
  -- Publish has returned no error for an event as often as a batch that had sent it was undone, once
  -- more exactly if its row is PROCESSED, and once more exactly if an open batch has sent it.
  pub workers_send_once :
      (s : State)
      → Reach p s
      → let marked_rows = processed_count i s.table.rows in
        (count i (held s.running) ≤ 1)
        × (pending_count i s.table.rows + marked_rows ≤ 1)
        × (count i s.sent ≡ count i s.undone + marked_rows + count i (in_flight s.running))
        × (marked_rows + count i (in_flight s.running) ≤ 1)
  workers_send_once s r =
      let inv = Reach-Inv r in
      (
        omega arith,
        omega (arith, inv.unique),
        inv.once,
        omega (arith, inv.holds, inv.unique, flown s.running),
      )
    where
      flown : (bs : List Batch) → count i (in_flight bs) ≤ count i (held bs)
      flown [] = omega arith
      flown (b ∷ bs) = omega (
        arith,
        flown bs,
        batch_count i b,
        count-append i b.ids (in_flight bs),
        count-append i (b.ids ++ b.failed ++ ids_of b.rest) (held bs),
      )
