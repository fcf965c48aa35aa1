-- ===== src/Billing/Concurrent/Booked.antt =====
-- The commit of a transaction keeps the books (billing/services/billing.go).
use mathlib.Core.List.{append-nil}
use mathlib.Core.Path.{subst}
use microservices_go.Prelude.{
  String, ℤ, pos, ◌+ℤ◌, ◌≤ℤ◌, ◌<ℤ◌, int_laws, true, false, Option, none, some, List, [], ◌∷◌, ◌++◌,
  ◌≡◌, refl, sym, ap, ◌∙◌,
}
use microservices_go.Outbox.{Event}
use microservices_go.Billing.Domain.{Account, Transaction, TransactionType, Database}
use microservices_go.Billing.Repository.{find_account, find_key, has_id}
use microservices_go.Billing.Bank.View.{pos_zero_add}
use microservices_go.Billing.Ledger.{signed, deposits, announced, IsValid}
use microservices_go.Billing.Ledger.Accounts.{announced-append}
use microservices_go.Billing.Ledger.Books.{moved-IsValid, opened-IsValid}
use microservices_go.Billing.Ledger.Preserved.{solvent_account}
use microservices_go.Billing.Running.{install, with_last, is_complete}
use microservices_go.Billing.Concurrent.Rows.{install-set_balance, install-append}
use microservices_go.Billing.Concurrent.Invariant.{
  IsCovered, IsRow, IsRecorded, IsAnnounced, balance_of, moved,
}

announced_last :
    (kind : TransactionType) (n : ℤ) (row : Account) (t : Transaction) (event : Option Event)
    (rows : List Event)
    → t.account_id ≡ row.id
    → t.type ≡ kind
    → t.amount ≡ n
    → IsAnnounced kind n (some row) event
    → is_complete kind event ≡ true
    → announced (with_last event rows) ≡ announced rows ++ deposits (t ∷ [])
announced_last TransactionType.deposit n row t none rows owner type amount says complete = cc
announced_last TransactionType.deposit n row t (some e) rows owner type amount (account, value)
      complete =
    announced-append rows e ∙ rw (type, owner, amount, account, value) refl
announced_last TransactionType.withdrawal n row t none rows owner type amount says complete =
    rw type (sym (append-nil (announced rows)))
announced_last TransactionType.withdrawal n row t (some e) rows owner type amount says complete =
    absurd says

-- What the balance moves by is what the transaction says.
balanced :
    (kind : TransactionType) (n b : ℤ) (t : Transaction)
    → t.type ≡ kind
    → t.amount ≡ n
    → moved kind b n ≡ b +ℤ signed t
balanced TransactionType.deposit n b t type amount = rw (type, amount) refl
balanced TransactionType.withdrawal n b t type amount = rw (type, amount) (omega int_laws)

solvent :
    (kind : TransactionType) (n : ℤ) (a : Account)
    → pos 0 <ℤ n
    → pos 0 ≤ℤ a.balance
    → IsCovered kind n (some a)
    → pos 0 ≤ℤ moved kind a.balance n
solvent TransactionType.deposit n a positive nonneg covered = omega int_laws
solvent TransactionType.withdrawal n a positive nonneg (b, same, enough) =
    let kept : a.balance ≡ b.balance = ap balance_of same in grind (int_laws, enough, kept)

-- A new account has a deposit.
opening :
    (kind : TransactionType) (n : ℤ)
    → pos 0 <ℤ n
    → IsCovered kind n none
    → pos 0 ≤ℤ moved kind (pos 0) n
opening TransactionType.deposit n positive covered = omega int_laws
opening TransactionType.withdrawal n positive (b, same, enough) = cc

module _ (kind : TransactionType) (user key : String) (n : ℤ) (row : Account) (t : Transaction)
    (event : Option Event) (db : Database) where
  abbrev after : Database
  after = record db {
    accounts = install row db.accounts;
    transactions = db.transactions ++ t ∷ [];
    outbox = record (db.outbox) { rows = with_last event db.outbox.rows };
  }

  pub booked :
      (read : Option Account)
      → IsValid db
      → find_account user db.accounts ≡ read
      → pos 0 <ℤ n
      → IsCovered kind n read
      → IsRow kind user n read (some row)
      → IsRecorded kind n key (some row) (some t) db.transactions
      → IsAnnounced kind n (some row) event
      → is_complete kind event ≡ true
      → (read ≡ none → has_id row.id db.accounts ≡ false)
      → IsValid after
  booked none v found positive covered (owner, balance, _) (keyed, fresh, account, type, amount)
        says complete new =
      subst (λ l. IsValid (record after { accounts = l }))
        (sym (install-append row db.accounts (ap (λ u. find_account u db.accounts) owner ∙ found)))
        (opened-IsValid db row t db.next_id after.outbox v
          (ap (λ u. find_account u db.accounts) owner ∙ found) (new refl) account
          (balance ∙ balanced kind n (pos 0) t type amount ∙ pos_zero_add (signed t))
          (subst (λ x. pos 0 ≤ℤ x) (sym balance) (opening kind n positive covered))
          (ap (λ k. find_key k db.transactions) keyed ∙ fresh)
          (announced_last kind n row t event db.outbox.rows account type amount says complete))
  booked (some a) v found positive covered (owner, balance, same)
        (keyed, fresh, account, type, amount) says complete new =
      subst (λ l. IsValid (record after { accounts = l }))
        (sym (
          install-set_balance row a db.accounts v.ids
            (ap (λ u. find_account u db.accounts) owner ∙ found) same))
        (moved-IsValid db a t db.next_id after.outbox user row.balance v found
          (account ∙ ap (λ (b : Account). b.id) same)
          (balance ∙ balanced kind n a.balance t type amount)
          (subst (λ x. pos 0 ≤ℤ x) (sym balance)
            (solvent kind n a positive (solvent_account db user a v found) covered))
          (ap (λ k. find_key k db.transactions) keyed ∙ fresh)
          (announced_last kind n row t event db.outbox.rows account type amount says complete))
