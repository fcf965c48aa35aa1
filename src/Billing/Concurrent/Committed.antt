-- ===== src/Billing/Concurrent/Committed.antt =====
-- The commit of a transaction with its row and its key is a call of the bank and keeps what the others
-- have made sure of (billing/services/billing.go).
use mathlib.Core.Path.{subst}
use microservices_go.Prelude.{
  true, Option, none, some, List, [], ◌∷◌, ◌++◌, eq_iff, ◌≡◌, ap, sym, arith,
}
use microservices_go.Billing.Domain.{Account, Transaction}
use microservices_go.Billing.Bank.{nobody, apply, Enabled}
use microservices_go.Billing.Bank.Replay.{replay-append, AllEnabled-append}
use microservices_go.Billing.Bank.View.{view}
use microservices_go.Billing.Running.{Tx, call_of, own, with_row, key_lock, id_lock, is_complete}
use microservices_go.Billing.Concurrent.{State}
use microservices_go.Billing.Concurrent.Locks.{Inv, choose}
use microservices_go.Billing.Concurrent.Booked.{booked}
use microservices_go.Billing.Concurrent.Rows.{id_count-has_id, id_count}
use microservices_go.Billing.Concurrent.Invariant.{IsRow, IsRecorded, IsAnnounced}
use microservices_go.Billing.Concurrent.Commit.{
  id_count-install, others, view-written, Enabled-written,
}

pub IsRecorded-at :
    (tx : Tx) (row : Account) (t : Transaction) (ts : List Transaction)
    → tx.row ≡ some row
    → tx.transaction ≡ some t
    → IsRecorded tx.kind tx.amount tx.key tx.row tx.transaction ts
    → IsRecorded tx.kind tx.amount tx.key (some row) (some t) ts
IsRecorded-at tx row t ts written recorded h =
    subst
      (λ (o : Option Account × Option Transaction). IsRecorded tx.kind tx.amount tx.key o.0 o.1 ts)
      (λ i. (written i, recorded i)) h

-- The commit of a transaction with its row and its key.
pub committed :
    (s : State) (before after : List Tx) (tx : Tx) (row : Account) (t : Transaction)
    → s.running ≡ before ++ tx ∷ after
    → tx.row ≡ some row
    → tx.transaction ≡ some t
    → is_complete tx.kind tx.event ≡ true
    → Inv s
    → Inv (record {
      db = own tx s.db;
      running = before ++ after;
      history = s.history ++ call_of tx.kind tx.user tx.key tx.amount ∷ [];
    })
committed s before after tx row t h written recorded complete inv =
    let c = choose s before after tx h inv in
    let wrote = subst (IsRow tx.kind tx.user tx.amount tx.read) written c.ok.written in
    let entry = IsRecorded-at tx row t s.db.transactions written recorded c.ok.recorded in
    let (same, fresh, _, _, _) = entry in
    let says = subst (λ o. IsAnnounced tx.kind tx.amount o tx.event) written c.ok.announced in
    let holds_own = ap (λ o. key_lock o tx.key tx.key) recorded in
    let view_after : view (own tx s.db)
        ≡ apply (call_of tx.kind tx.user tx.key tx.amount) (view s.db) =
      rw (written, recorded)
        (view-written tx.kind tx.user tx.key tx.amount tx.read row t s.db c.ok.reads wrote same) in
    record {
      books =
          rw (written, recorded)
            (booked tx.kind tx.user tx.key tx.amount row t tx.event s.db tx.read inv.books
              c.ok.reads c.ok.positive c.ok.covered wrote entry says complete
              (λ none_read. id_count-has_id row.id s.db.accounts (
                ground (
                  arith,
                  c.ids row.id,
                  ap (λ o. id_lock o tx.row row.id) none_read,
                  ap (λ o. id_lock none o row.id) written,
                  eq_iff row.id row.id,
                ))));
      serial = rw view_after (
          rw inv.serial
            (sym (replay-append s.history (call_of tx.kind tx.user tx.key tx.amount) nobody)));
      enabled =
          AllEnabled-append s.history (call_of tx.kind tx.user tx.key tx.amount) nobody inv.enabled
            (subst (Enabled (call_of tx.kind tx.user tx.key tx.amount)) inv.serial (
              Enabled-written tx.kind tx.user tx.key tx.amount tx.read s.db c.ok.reads c.ok.positive
                c.ok.covered fresh));
      users = λ u. omega (arith, c.users u);
      keys = λ k. omega (arith, c.keys k);
      ids = λ i. omega (
        arith,
        c.ids i,
        ap (λ o. id_count i (with_row o s.db.accounts)) written,
        ap (λ o. id_lock tx.read o i) written,
        id_count-install tx.kind tx.user i tx.amount tx.read row s.db.accounts c.ok.reads wrote,
      );
      txs =
          rw (written, recorded)
            (others s.db.accounts s.db.transactions row t (before ++ after)
              (ground (
                arith,
                wrote.0,
                c.users tx.user,
                eq_iff tx.user tx.user,
                eq_iff row.user_id tx.user,
              ))
              (ground (arith, holds_own, same, c.keys tx.key, eq_iff tx.key tx.key)) c.rest);
    }
