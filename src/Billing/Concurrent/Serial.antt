-- ===== src/Billing/Concurrent/Serial.antt =====
-- Deposits and withdrawals that interleave are the bank's calls one after the other, in the order of
-- their commits (billing/services/billing.go, billing/repository/billing.go).
use mathlib.Core.Path.{subst}
use microservices_go.Prelude.{
  claimed, ◌≤◌, String, ℤ, Option, none, some, List, ◌++◌, eq_iff, ◌≡◌, refl, ◌∙◌, arith,
  Option-cases, inl, inr,
}
use microservices_go.Outbox.{Event}
use microservices_go.Billing.Domain.{Account, Transaction, TransactionType}
use microservices_go.Billing.Repository.{find_account}
use microservices_go.Billing.Bank.{nobody, replay, AllEnabled}
use microservices_go.Billing.Ledger.{IsValid}
use microservices_go.Billing.Ledger.Accounts.{find_account-find_id}
use microservices_go.Billing.Ledger.Batch.{mark_published-IsValid}
use microservices_go.Billing.Bank.Replay.{uses, uses_once}
use microservices_go.Billing.Bank.View.{view, not_below}
use microservices_go.Billing.Running.{total, holds_user, holds_key, crediting, debiting}
use microservices_go.Billing.Concurrent.{
  State, Step, upserts, selects, updates, records, announces, commits, aborts, works, Reach, start,
  later,
}
use microservices_go.Billing.Concurrent.Locks.{
  Inv, choose, replaced, dropped, positive_of, joined, opened_ids,
}
use microservices_go.Billing.Concurrent.Invariant.{
  IsRecorded, IsAnnounced, told, upserted, debited, selected, inserted,
}
use microservices_go.Billing.Concurrent.Committed.{committed}

before_row :
    (kind : TransactionType) (n : ℤ) (key : String) (row : Account) (t : Option Transaction)
    (ts : List Transaction)
    → IsRecorded kind n key none t ts
    → IsRecorded kind n key (some row) t ts
before_row kind n key row none ts h = tt
before_row kind n key row (some t) ts h = absurd h

unannounced :
    (n : ℤ) (row : Account) (event : Option Event)
    → IsAnnounced TransactionType.withdrawal n none event
    → IsAnnounced TransactionType.withdrawal n (some row) event
unannounced n row none h = tt
unannounced n row (some e) h = absurd h

Step-Inv : {s t : State} → Step s t → Inv s → Inv t
Step-Inv {s = s} (upserts env req id db row begun positive free new h e) inv =
    joined s (crediting env req (find_account req.user_id s.db.accounts) row) free refl
      (opened_ids s env req id db row new h e inv)
      (record {
        positive = positive_of req.amount positive;
        reads = refl;
        covered = tt;
        written = upserted env req.user_id req.amount s.db id db row h e;
        recorded = tt;
        announced = tt;
      })
      inv
Step-Inv {s = s} (selects env req a begun positive free h enough) inv =
    joined s (debiting env req a) free refl (λ i. omega (arith, inv.ids i))
      (record {
        positive = positive_of req.amount positive;
        reads = selected env req.user_id s.db a h;
        covered = (a, refl, not_below a.balance req.amount enough);
        written = tt;
        recorded = tt;
        announced = tt;
      })
      inv
Step-Inv {s = s} (updates before after tx a db row h kind read new h' e) inv =
    let c = choose s before after tx h inv in
    let found = c.ok.reads ∙ read in
    let same = find_account-find_id tx.user s.db.accounts a inv.books.ids found in
    let wrote = debited tx.env tx.user tx.amount s.db a db row found same h' e in
    replaced s before after tx (record tx { row = some row }) s.db.next_id s.db.outbox.next_id h inv
      (λ u. refl) c.keys (λ i. rw read refl)
      (record {
        positive = c.ok.positive;
        reads = c.ok.reads;
        covered = c.ok.covered;
        written = rw (kind, read) wrote;
        recorded = before_row tx.kind tx.amount tx.key row tx.transaction s.db.transactions (
            subst (λ o. IsRecorded tx.kind tx.amount tx.key o tx.transaction s.db.transactions) new
              c.ok.recorded);
        announced = rw kind (
            unannounced tx.amount row tx.event (
              subst
                (λ (o : TransactionType × Option Account). IsAnnounced o.0 tx.amount o.1 tx.event)
                (λ i. (kind i, new i)) c.ok.announced));
      })
Step-Inv {s = s} (records before after tx row db t h written new free h' e) inv =
    let c = choose s before after tx h inv in
    replaced s before after tx (record tx { transaction = some t }) db.next_id s.db.outbox.next_id h
      inv (λ u. refl)
      (λ k.
        claimed (λ j. total (holds_key j) (before ++ after)) tx.key k _ (eq_iff tx.key k).0 free
          (omega (arith, c.keys k)))
      (λ i. refl)
      (record {
        positive = c.ok.positive;
        reads = c.ok.reads;
        covered = c.ok.covered;
        written = c.ok.written;
        recorded = inserted tx row s.db db t written new h' e;
        announced = c.ok.announced;
      })
Step-Inv {s = s} (announces before after tx row t o e h kind written recorded quiet h' e') inv =
    let c = choose s before after tx h inv in
    replaced s before after tx (record tx { event = some e }) s.db.next_id o.next_id h inv
      (λ u. refl) c.keys (λ i. refl)
      (record {
        positive = c.ok.positive;
        reads = c.ok.reads;
        covered = c.ok.covered;
        written = c.ok.written;
        recorded = c.ok.recorded;
        announced = rw written (
            told tx.env.outbox_fails tx.env.now tx.kind tx.amount row _ s.db.outbox o e kind refl h'
              e');
      })
Step-Inv {s = s} (commits before after tx t h recorded complete commit) inv =
    elim (Option-cases tx.row) [
      | inl new ↦ absurd (
          subst
            (λ (o : Option Account × Option Transaction).
              IsRecorded tx.kind tx.amount tx.key o.0 o.1 s.db.transactions)
            (λ i. (new i, recorded i)) (choose s before after tx h inv).ok.recorded)
      | inr (row, written) ↦ committed s before after tx row t h written recorded complete inv
    ]
Step-Inv {s = s} (aborts before after tx h) inv = dropped s before after tx h inv
Step-Inv {s = s} (works env ids) inv = record {
  books = mark_published-IsValid env ids s.db inv.books;
  serial = inv.serial;
  enabled = inv.enabled;
  users = inv.users;
  keys = inv.keys;
  ids = inv.ids;
  txs = inv.txs;
}

Reach-Inv : {s : State} → Reach s → Inv s
unfolding replay
Reach-Inv start = record {
  books = record { books = tt; users = tt; ids = tt; keys = tt; owners = tt; events = refl };
  serial = refl;
  enabled = tt;
  users = λ u. omega arith;
  keys = λ k. omega arith;
  ids = λ i. omega arith;
  txs = tt;
}
Reach-Inv (later r st) = Step-Inv st (Reach-Inv r)

-- Deposits and withdrawals on one database, in any interleaving of their statements with each
-- other and with the batches of the outbox worker, with statements that fail and transactions that
-- are undone at any point: the committed books are valid, their balances and used keys are those of
-- the bank after the committed calls one after the other in the order of their commits, each of
-- these calls was enabled where it stands, no key was committed twice, and no two transactions hold the row of one user or one
-- key.
pub concurrent_calls_refine_bank :
    (s : State)
    → Reach s
    → IsValid s.db
      × (view s.db ≡ replay s.history nobody)
      × AllEnabled s.history nobody
      × ((k : String) → uses k s.history ≤ 1)
      × ((u : String) → total (holds_user u) s.running ≤ 1)
      × ((k : String) → total (holds_key k) s.running ≤ 1)
concurrent_calls_refine_bank s r =
    let inv = Reach-Inv r in
    (
      inv.books,
      inv.serial,
      inv.enabled,
      λ k. uses_once k s.history nobody inv.enabled,
      inv.users,
      inv.keys,
    )
