-- ===== src/Billing/Concurrent/Commit.antt =====
-- The commit of one of the transactions that run: what it does to the bank, and what it leaves of
-- the others (billing/services/billing.go).
use mathlib.Core.Option
use microservices_go.Prelude.{
  ◌+◌, String, ℤ, pos, ◌<ℤ◌, false, Option, none, some, is_some, List, [], ◌∷◌, ◌++◌, str_eq,
  eq_iff, ◌≡◌, ◌≢◌, refl, ap, sym, ◌∙◌, arith, All,
}
use microservices_go.Billing.Domain.{Account, Transaction, TransactionType, Database}
use microservices_go.Billing.Repository.{find_account, find_key}
use microservices_go.Billing.Bank.{put, mark, or_zero, apply, Enabled}
use microservices_go.Billing.Bank.View.{view, same_bank, used-append, unused_key}
use microservices_go.Billing.Running.{
  Tx, call_of, install, total, holds_user, holds_key, key_lock, id_lock,
}
use microservices_go.Billing.Concurrent.Rows.{
  id_count, id_count-install_old, id_count-install_new, find_account-install, find_key-append,
}
use microservices_go.Billing.Concurrent.Invariant.{
  balance_of, moved, TxOk, other_row, IsRow, IsCovered,
}

other_key :
    (o : Option Transaction) (key k : String)
    → key_lock o key k ≡ 0
    → key_lock o key key ≢ 0
    → str_eq k key ≡ false
other_key none key k h ne = absurd (ne refl)
other_key (some _) key k h ne = ground (arith, eq_iff k key, eq_iff key k)

module _ (accounts : List Account) (ts : List Transaction) (row : Account) (t : Transaction) where
  pub others :
      (txs : List Tx)
      → total (holds_user row.user_id) txs ≡ 0
      → total (holds_key t.idempotency_key) txs ≡ 0
      → All (TxOk accounts ts) txs
      → All (TxOk (install row accounts) (ts ++ t ∷ [])) txs
  others [] users keys h = tt
  others (tx ∷ txs) users keys h = (
    other_row accounts (install row accounts) ts (ts ++ t ∷ []) tx
        (find_account-install row tx.user accounts
          ∙ ground (arith, eq_iff tx.user row.user_id, eq_iff row.user_id tx.user))
        (λ ne.
          find_key-append tx.key ts t
            (other_key tx.transaction tx.key t.idempotency_key (ground arith) ne))
        h.0,
    others txs (ground arith) (ground arith) h.1,
  )

pub id_count-install :
    (kind : TransactionType) (user i : String) (n : ℤ) (read : Option Account) (row : Account)
    (accounts : List Account)
    → find_account user accounts ≡ read
    → IsRow kind user n read (some row)
    → id_count i (install row accounts) ≡ id_count i accounts + id_lock read (some row) i
id_count-install kind user i n none row accounts h written =
    omega
      (arith, id_count-install_new row i accounts (ap (λ u. find_account u accounts) written.0 ∙ h))
id_count-install kind user i n (some a) row accounts h written = omega (
  arith,
  id_count-install_old row i accounts a (ap (λ u. find_account u accounts) written.0 ∙ h)
      (ap (λ (b : Account). b.id) written.2),
)

balance_before :
    (user : String) (read : Option Account) (db : Database)
    → find_account user db.accounts ≡ read
    → or_zero ((view db).balance user) ≡ balance_of read
balance_before user none db h = rw h refl
balance_before user (some a) db h = rw h refl

-- The row and the transaction of a commit are the call of the bank.
pub view-written :
    (kind : TransactionType) (user key : String) (n : ℤ) (read : Option Account) (row : Account)
    (t : Transaction) (db : Database)
    → find_account user db.accounts ≡ read
    → IsRow kind user n read (some row)
    → t.idempotency_key ≡ key
    → view
        (record db { accounts = install row db.accounts; transactions = db.transactions ++ t ∷ [] })
      ≡ apply (call_of kind user key n) (view db)
view-written kind user key n read row t db reads written same =
    let before = balance_before user read db reads in
    joined kind (written.1 ∙ ap (λ x. moved kind x n) (sym before))
  where
    balances :
        (x : ℤ)
        → row.balance ≡ x
        → (v : String)
        → Option.map (λ (a : Account). a.balance) (find_account v (install row db.accounts))
          ≡ put user x (view db).balance v
    balances x e v =
        ap (Option.map (λ (a : Account). a.balance)) (find_account-install row v db.accounts)
        ∙ ground (arith, written.0)

    keys :
        (k : String) → is_some (find_key k (db.transactions ++ t ∷ [])) ≡ mark key (view db).used k
    keys k = used-append k db.transactions t ∙ ap (λ j. mark j (view db).used k) same

    joined :
        (m : TransactionType)
        → row.balance ≡ moved m (or_zero ((view db).balance user)) n
        → view (record db {
          accounts = install row db.accounts;
          transactions = db.transactions ++ t ∷ [];
        })
          ≡ apply (call_of m user key n) (view db)
    joined TransactionType.deposit e = same_bank (balances _ e) keys
    joined TransactionType.withdrawal e = same_bank (balances _ e) keys

pub Enabled-written :
    (kind : TransactionType) (user key : String) (n : ℤ) (read : Option Account) (db : Database)
    → find_account user db.accounts ≡ read
    → pos 0 <ℤ n
    → IsCovered kind n read
    → find_key key db.transactions ≡ none
    → Enabled (call_of kind user key n) (view db)
Enabled-written TransactionType.deposit user key n read db reads positive covered fresh =
    (unused_key key db fresh, positive)
Enabled-written TransactionType.withdrawal user key n read db reads positive (a, found, enough)
      fresh =
    (
      unused_key key db fresh,
      positive,
      (a.balance, ap (Option.map (λ (c : Account). c.balance)) (reads ∙ found), enough),
    )
