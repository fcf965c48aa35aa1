-- ===== src/Billing/Concurrent/Locks.antt =====
-- What the transactions keep together, and how it stays when one of them begins, goes on or ends
-- without a commit (billing/services/billing.go, billing/repository/billing.go).
use mathlib.Core.Path.{subst}
use microservices_go.Prelude.{
  claimed, All-split, All-join, ◌+◌, ◌≤◌, ℕ, String, ℤ, pos, ◌<ℤ◌, leb_ℤ, false, none, some, List,
  ◌∷◌, ◌++◌, eq_iff, ◌≡◌, ap, ◌∙◌, arith, All, Option-cases, inl, inr,
}
use microservices_go.Errors.{done}
use microservices_go.Billing.Domain.{Account, Database, Env, DepositRequest}
use microservices_go.Billing.Repository.{find_account, top_up_account_tx}
use microservices_go.Billing.Bank.{nobody, replay, AllEnabled}
use microservices_go.Billing.Ledger.{IsValid}
use microservices_go.Billing.Bank.View.{view}
use microservices_go.Billing.Running.{Tx, total, holds_user, holds_key, holds_id, key_lock, id_lock}
use microservices_go.Billing.Concurrent.{State}
use microservices_go.Billing.Concurrent.Rows.{id_count, has_id-id_count, total-split}
use microservices_go.Billing.Concurrent.Invariant.{TxOk, opened}

pub record Inv (s : State) : Type 0 where
  pub books : IsValid s.db
  pub serial : view s.db ≡ replay s.history nobody
  pub enabled : AllEnabled s.history nobody
  pub users : (u : String) → total (holds_user u) s.running ≤ 1
  pub keys : (k : String) → total (holds_key k) s.running ≤ 1
  pub ids : (i : String) → id_count i s.db.accounts + total (holds_id i) s.running ≤ 1
  pub txs : All (TxOk s.db.accounts s.db.transactions) s.running

-- One of the transactions that run, and the others.
pub record Chosen (s : State) (before after : List Tx) (tx : Tx) : Type 0 where
  pub users : (u : String) → holds_user u tx + total (holds_user u) (before ++ after) ≤ 1
  pub keys : (k : String) → holds_key k tx + total (holds_key k) (before ++ after) ≤ 1
  pub ids :
      (i : String)
      → id_count i s.db.accounts + holds_id i tx + total (holds_id i) (before ++ after) ≤ 1
  pub ok : TxOk s.db.accounts s.db.transactions tx
  pub rest : All (TxOk s.db.accounts s.db.transactions) (before ++ after)

pub choose :
    (s : State) (before after : List Tx) (tx : Tx)
    → s.running ≡ before ++ tx ∷ after
    → Inv s
    → Chosen s before after tx
choose s before after tx h inv =
    let count = λ (f : Tx → ℕ). ap (total f) h ∙ total-split f before after tx in
    let (ok, rest) =
      All-split (TxOk s.db.accounts s.db.transactions) before after tx
        (subst (All (TxOk s.db.accounts s.db.transactions)) h inv.txs) in
    record {
      users = λ u. omega (arith, inv.users u, count (holds_user u));
      keys = λ k. omega (arith, inv.keys k, count (holds_key k));
      ids = λ i. omega (arith, inv.ids i, count (holds_id i));
      ok = ok;
      rest = rest;
    }

moved_sequences :
    (db : Database) (next_id next_event : ℕ)
    → IsValid db
    → IsValid
        (record db { next_id = next_id; outbox = record (db.outbox) { next_id = next_event } })
moved_sequences db next_id next_event v = record {
  books = v.books;
  users = v.users;
  ids = v.ids;
  keys = v.keys;
  owners = v.owners;
  events = v.events;
}

-- A transaction that has gone on, with the locks of its user and of its id as before.
pub replaced :
    (s : State) (before after : List Tx) (tx tx' : Tx) (next_id next_event : ℕ)
    → s.running ≡ before ++ tx ∷ after
    → Inv s
    → ((u : String) → holds_user u tx' ≡ holds_user u tx)
    → ((k : String) → holds_key k tx' + total (holds_key k) (before ++ after) ≤ 1)
    → ((i : String) → holds_id i tx' ≡ holds_id i tx)
    → TxOk s.db.accounts s.db.transactions tx'
    → Inv (record s {
      db = record (s.db) {
        next_id = next_id;
        outbox = record (s.db.outbox) { next_id = next_event };
      };
      running = before ++ tx' ∷ after;
    })
replaced s before after tx tx' next_id next_event h inv users keys ids ok =
    let c = choose s before after tx h inv in
    record {
      books = moved_sequences s.db next_id next_event inv.books;
      serial = inv.serial;
      enabled = inv.enabled;
      users = λ u. omega (arith, c.users u, users u, total-split (holds_user u) before after tx');
      keys = λ k. omega (arith, keys k, total-split (holds_key k) before after tx');
      ids = λ i. omega (arith, c.ids i, ids i, total-split (holds_id i) before after tx');
      txs = All-join (TxOk s.db.accounts s.db.transactions) before after tx' ok c.rest;
    }

pub dropped :
    (s : State) (before after : List Tx) (tx : Tx)
    → s.running ≡ before ++ tx ∷ after
    → Inv s
    → Inv (record s { running = before ++ after })
dropped s before after tx h inv =
    let c = choose s before after tx h inv in
    record {
      books = inv.books;
      serial = inv.serial;
      enabled = inv.enabled;
      users = λ u. omega (arith, c.users u);
      keys = λ k. omega (arith, c.keys k);
      ids = λ i. omega (arith, c.ids i);
      txs = c.rest;
    }

pub positive_of : (n : ℤ) → leb_ℤ n (pos 0) ≡ false → pos 0 <ℤ n
positive_of n h = ground arith

-- A transaction that begins, with the row of its user.
pub joined :
    (s : State) (tx : Tx)
    → total (holds_user tx.user) s.running ≡ 0
    → tx.transaction ≡ none
    → ((i : String) → id_count i s.db.accounts + holds_id i tx + total (holds_id i) s.running ≤ 1)
    → TxOk s.db.accounts s.db.transactions tx
    → Inv s
    → Inv (record s { running = tx ∷ s.running })
joined s tx free new ids ok inv = record {
  books = inv.books;
  serial = inv.serial;
  enabled = inv.enabled;
  users = λ u.
      claimed (λ v. total (holds_user v) s.running) tx.user u _ (eq_iff tx.user u).0 free
        (inv.users u);
  keys = λ k. omega (arith, inv.keys k, ap (λ o. key_lock o tx.key k) new);
  ids = λ i. omega (arith, ids i);
  txs = (ok, inv.txs);
}

pub opened_ids :
    (s : State) (env : Env) (req : DepositRequest) (id : String) (db : Database) (row : Account)
    → total (holds_id env.uuid) s.running ≡ 0
    → top_up_account_tx env (record { user_id = req.user_id; amount = req.amount }) s.db
      ≡ done (id, db)
    → find_account req.user_id db.accounts ≡ some row
    → Inv s
    → (i : String)
    → id_count i s.db.accounts
        + id_lock (find_account req.user_id s.db.accounts) (some row) i
        + total (holds_id i) s.running
      ≤ 1
opened_ids s env req id db row free h e inv i =
    elim (Option-cases (find_account req.user_id s.db.accounts)) [
      | inl new ↦
          let (same, fresh) = opened env req.user_id req.amount s.db id db row h e new in
          let none_there = has_id-id_count env.uuid s.db.accounts fresh in
          rw (new, same)
            (omega (
              arith,
              claimed (λ j. id_count j s.db.accounts + total (holds_id j) s.running) env.uuid i _
                  (eq_iff env.uuid i).0 (omega (arith, none_there, free)) (inv.ids i),
            ))
      | inr (a, old) ↦ rw old (omega (arith, inv.ids i))
    ]
