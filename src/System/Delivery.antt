-- ===== src/System/Delivery.antt =====
-- The outbox over a whole run of the billing process (billing/grpc_handler.go, pkg/outbox/worker.go).
use mathlib.Core.List.Memᴰ
use microservices_go.Prelude.{
  ℕ, String, true, Option, none, some, List, [], ◌∷◌, ◌++◌, All, All-append, ◌≡◌, refl, sym, ap,
  ◌∙◌, ◌⊎◌, inl, inr, arith, ◌==◌, Option-cases, Bool-cases,
}
use mathlib.Core.Path.{subst}
use microservices_go.Postgres.{Time}
use microservices_go.Outbox.{Event, is_pending, contains}
use microservices_go.Outbox.Worker.{EventPublisher, BatchEnv, process_outbox_batch}
use microservices_go.Outbox.Worker.Safety.{
  Advanced, AllAdvanced, IsPublished, process_outbox_batch-AllAdvanced,
}
use microservices_go.Billing.Domain.{Database, Env, DepositRequest, WithdrawRequest}
use microservices_go.Billing.Repository.{
  find_account, get_account_by_user_id_tx, withdraw_account_tx, insert_transaction_tx,
}
use microservices_go.Billing.Service.{deposit, withdraw}
use microservices_go.Billing.Service.Effect.{deposit_known_user, deposit_new_user, topped_up_event}
use microservices_go.Billing.Handler.{Request, handle_deposit, handle_withdraw}
use microservices_go.Billing.Ledger.{IsValid}
use microservices_go.Billing.Ledger.Batch.{batch-IsValid}
use microservices_go.Billing.Ledger.Preserved.{
  handle_deposit-IsValid, handle_withdraw-IsValid, handle_deposit_passes, handle_withdraw_passes,
  deposit_request, withdraw_request,
}
use microservices_go.System.{Step, deposits, withdraws, batches, State, empty, batched, step, run}

-- What a call may do to the outbox: nothing, or append one pending event.
abbrev Grows : Database → Database → Type 0
Grows db db' =
    (db'.outbox.rows ≡ db.outbox.rows)
    ⊎ ((e : Event) × (is_pending e.status ≡ true) × (db'.outbox.rows ≡ db.outbox.rows ++ e ∷ []))

deposit-Grows : (env : Env) (req : DepositRequest) (db : Database) → Grows db (deposit env req db).1
deposit-Grows env req db = elim (Option-cases (find_account req.user_id db.accounts)) [
  | inl unknown ↦ elim (deposit_new_user env req db unknown) [
    | inl same ↦ inl (ap (λ d. d.outbox.rows) same)
    | inr (e, _, _) ↦ inr (topped_up_event env req env.uuid db, refl, ap (λ d. d.outbox.rows) e)
  ]
  | inr (a, found) ↦ elim (deposit_known_user env req db a found) [
    | inl same ↦ inl (ap (λ d. d.outbox.rows) same)
    | inr (e, _) ↦ inr (topped_up_event env req a.id db, refl, ap (λ d. d.outbox.rows) e)
  ]
]

handle_deposit-Grows :
    (env : Env) (user : Option String) (req : Request) (db : Database)
    → Grows db (handle_deposit env user req db).1
unfolding handle_deposit
handle_deposit-Grows env none req db = inl refl
handle_deposit-Grows env (some u) req db = elim (handle_deposit_passes env u req db) [
  | inl same ↦ inl (ap (λ d. d.outbox.rows) same)
  | inr (_, e) ↦ subst (Grows db) (sym e) (deposit-Grows env (deposit_request u req) db)
]

withdraw-outbox :
    (env : Env) (req : WithdrawRequest) (db : Database)
    → (withdraw env req db).1.outbox.rows ≡ db.outbox.rows
unfolding withdraw get_account_by_user_id_tx withdraw_account_tx insert_transaction_tx
withdraw-outbox env req db = ground arith

handle_withdraw-outbox :
    (env : Env) (user : Option String) (req : Request) (db : Database)
    → (handle_withdraw env user req db).1.outbox.rows ≡ db.outbox.rows
unfolding handle_withdraw
handle_withdraw-outbox env none req db = refl
handle_withdraw-outbox env (some u) req db = elim (handle_withdraw_passes env u req db) [
  | inl same ↦ ap (λ d. d.outbox.rows) same
  | inr e ↦ ap (λ d. d.outbox.rows) e ∙ withdraw-outbox env (withdraw_request u req) db
]

All-contains : (P : ℕ → Type 0) (ids : List ℕ) (i : ℕ) → All P ids → contains ids i ≡ true → P i
All-contains P [] i h c = cc
All-contains P (j ∷ ids) i h c = elim (Bool-cases (j == i)) [
  | inl here ↦ subst P (same here) h.0
  | inr other ↦ All-contains P ids i h.1 (ground arith)
]
  where
    same : j == i ≡ true → j ≡ i
    same e = ground arith

module _ {M : Type 0} (p : EventPublisher M) where
  -- A row waits, or a pending event with its id was published and its message is among `sent`.
  abbrev pub IsDelivered : List M → Event → Type 0
  IsDelivered sent e = (is_pending e.status ≡ true) ⊎ IsPublished p sent e.id

  later_left : (sent more : List M) (i : ℕ) → IsPublished p sent i → IsPublished p (sent ++ more) i
  later_left sent more i (e, m, same, waits, sends, mem) =
      (e, m, same, waits, sends, Memᴰ.append_left more mem)

  later_right : (sent more : List M) (i : ℕ) → IsPublished p more i → IsPublished p (sent ++ more) i
  later_right sent more i (e, m, same, waits, sends, mem) =
      (e, m, same, waits, sends, Memᴰ.append_right sent mem)

  later_row : (sent more : List M) (e : Event) → IsDelivered sent e → IsDelivered (sent ++ more) e
  later_row sent more e (inl waits) = inl waits
  later_row sent more e (inr gone) = inr (later_left sent more e.id gone)

  Advanced-IsDelivered :
      (now : Time) (ids : List ℕ) (sent more : List M) (e f : Event)
      → All (IsPublished p more) ids
      → IsDelivered sent e
      → Advanced now ids e f
      → IsDelivered (sent ++ more) f
  Advanced-IsDelivered now ids sent more e f all d (inl same) =
      subst (IsDelivered (sent ++ more)) (sym same) (later_row sent more e d)
  Advanced-IsDelivered now ids sent more e f all d (inr (chosen, marked)) =
      subst (IsDelivered (sent ++ more)) (sym marked)
        (inr (later_right sent more e.id (All-contains (IsPublished p more) ids e.id all chosen)))

  AllAdvanced-IsDelivered :
      (now : Time) (ids : List ℕ) (sent more : List M) (es fs : List Event)
      → All (IsPublished p more) ids
      → All (IsDelivered sent) es
      → AllAdvanced now ids es fs
      → All (IsDelivered (sent ++ more)) fs
  AllAdvanced-IsDelivered now ids sent more [] [] all d h = tt
  AllAdvanced-IsDelivered now ids sent more [] (f ∷ fs) all d h = absurd h
  AllAdvanced-IsDelivered now ids sent more (e ∷ es) [] all d h = absurd h
  AllAdvanced-IsDelivered now ids sent more (e ∷ es) (f ∷ fs) all d (first, rest) = (
    Advanced-IsDelivered now ids sent more e f all d.0 first,
    AllAdvanced-IsDelivered now ids sent more es fs all d.1 rest,
  )

  -- Valid books, and no row marked without its message.
  abbrev pub IsSound : State M → Type 0
  IsSound s = IsValid s.db × All (IsDelivered s.sent) s.db.outbox.rows

  grown :
      (db db' : Database) (sent : List M)
      → Grows db db'
      → All (IsDelivered sent) db.outbox.rows
      → All (IsDelivered sent) db'.outbox.rows
  grown db db' sent (inl same) d = subst (All (IsDelivered sent)) (sym same) d
  grown db db' sent (inr (e, waits, more)) d =
      subst (All (IsDelivered sent)) (sym more)
        (All-append (IsDelivered sent) db.outbox.rows (e ∷ []) d (inl waits, tt))

  batched-IsSound : (s : State M) (env : BatchEnv) → IsSound s → IsSound (batched p s env)
  batched-IsSound s env (v, d) =
      let rows = s.db.outbox.rows in
      let (t, more) = process_outbox_batch p env s.db.outbox in
      let (ids, all, advanced) = process_outbox_batch-AllAdvanced p env s.db.outbox in
      (
        batch-IsValid p env s.db v,
        AllAdvanced-IsDelivered env.now ids s.sent more rows t.rows all d advanced,
      )

  pub step-IsSound : (a : Step) (s : State M) → IsSound s → IsSound (step p a s)
  step-IsSound (deposits env user req) s (v, d) = (
    handle_deposit-IsValid env user req s.db v,
    grown s.db (handle_deposit env user req s.db).1 s.sent (handle_deposit-Grows env user req s.db)
        d,
  )
  step-IsSound (withdraws env user req) s (v, d) = (
    handle_withdraw-IsValid env user req s.db v,
    grown s.db (handle_withdraw env user req s.db).1 s.sent
        (inl (handle_withdraw-outbox env user req s.db)) d,
  )
  step-IsSound (batches env) s h = batched-IsSound s env h

  pub empty-IsSound : IsSound (record { db = empty; sent = [] })
  empty-IsSound =
      (record { books = tt; users = tt; ids = tt; keys = tt; owners = tt; events = refl }, tt)

  run-IsSound : (steps : List Step) (s : State M) → IsSound s → IsSound (run p steps s)
  unfolding run
  run-IsSound [] s h = h
  run-IsSound (a ∷ rest) s h = run-IsSound rest (step p a s) (step-IsSound a s h)

  -- From the empty database, after calls of Deposit and Withdraw by any users and batches of the
  -- worker, in any order and with any failures, also of publications that fail in one batch and
  -- not in another: the books are valid, so that the outbox holds a row for each deposit in
  -- order, and each row still waits or a pending event with its id was published, with the
  -- message among those that were sent.
  pub run_from_empty :
      (steps : List Step)
      → let s = run p steps (record { db = empty; sent = [] }) in
        IsValid s.db × All (IsDelivered s.sent) s.db.outbox.rows
  run_from_empty steps = run-IsSound steps (record { db = empty; sent = [] }) empty-IsSound
