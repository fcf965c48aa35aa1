-- ===== src/Billing/Ledger/Books.antt =====
-- Deposits and withdrawals keep the books (billing/services/billing.go).
use microservices_go.Prelude.{
  ℕ, String, ℤ, pos, ◌+ℤ◌, ◌≤ℤ◌, ◌≡◌, true, false, none, some, [], ◌∷◌, ◌++◌, int_laws, eq_iff,
  All-append, All-map, sym, ap, ◌∙◌,
}
use microservices_go.Outbox.{Table}
use microservices_go.Billing.Domain.{Account, Transaction, Database}
use microservices_go.Billing.Repository.{find_account, has_id, set_balance, find_key}
use microservices_go.Billing.Ledger.{signed, net-append, IsBalanced, deposits, announced, IsValid}
use microservices_go.Billing.Ledger.Accounts.{
  find_account-All, find_account-has_id, has_id-set_balance, set_balance-HasUniqueUsers,
  set_balance-HasUniqueIds, set_balance-IsBalanced, has_id-append_some, has_id-append_last,
  append-HasUniqueUsers, append-HasUniqueIds, net_unknown, append-IsBalanced, append-HasUniqueKeys,
  deposits-append,
}

-- A transaction `t` that moves the balance of the account `a`.
module _ (db : Database) (a : Account) (t : Transaction) (n : ℕ) (o : Table) where
  abbrev pub moved : ℤ → Database
  moved b = record {
    accounts = set_balance a.id b db.accounts;
    transactions = db.transactions ++ t ∷ [];
    next_id = n;
    outbox = o;
  }

  pub moved-IsValid :
      (u : String) (b : ℤ)
      → IsValid db
      → find_account u db.accounts ≡ some a
      → t.account_id ≡ a.id
      → b ≡ a.balance +ℤ signed t
      → pos 0 ≤ℤ b
      → find_key t.idempotency_key db.transactions ≡ none
      → announced o.rows ≡ announced db.outbox.rows ++ deposits (t ∷ [])
      → IsValid (moved b)
  moved-IsValid u b v found own sum nonneg fresh events =
      let known : has_id a.id db.accounts ≡ true = find_account-has_id u db.accounts a found in
      let row : IsBalanced db.transactions a =
        find_account-All (IsBalanced db.transactions) u db.accounts a v.books found in
      record {
        books =
            set_balance-IsBalanced a.id b db.transactions t db.accounts own
              (sum ∙ ap (λ x. x +ℤ signed t) row.balanced) nonneg v.books;
        users = set_balance-HasUniqueUsers a.id b db.accounts v.users;
        ids = set_balance-HasUniqueIds a.id b db.accounts v.ids;
        keys = append-HasUniqueKeys db.transactions t fresh v.keys;
        owners =
            All-append (λ s. has_id s.account_id (set_balance a.id b db.accounts) ≡ true)
              db.transactions (t ∷ [])
              (All-map (λ s. has_id s.account_id db.accounts ≡ true)
                (λ s. has_id s.account_id (set_balance a.id b db.accounts) ≡ true)
                (λ s h. has_id-set_balance s.account_id a.id b db.accounts ∙ h) db.transactions
                v.owners)
              (
                has_id-set_balance t.account_id a.id b db.accounts
                    ∙ ap (λ i. has_id i db.accounts) own
                    ∙ known,
                tt,
              );
        events =
            deposits-append db.transactions t
            ∙ ap (λ l. l ++ deposits (t ∷ [])) v.events
            ∙ sym events;
      }

-- A deposit that opens the account `a`.
module _ (db : Database) (a : Account) (t : Transaction) (n : ℕ) (o : Table) where
  abbrev pub opened : Database
  opened = record {
    accounts = db.accounts ++ a ∷ [];
    transactions = db.transactions ++ t ∷ [];
    next_id = n;
    outbox = o;
  }

  opened_row :
      IsValid db
      → has_id a.id db.accounts ≡ false
      → t.account_id ≡ a.id
      → a.balance ≡ signed t
      → pos 0 ≤ℤ a.balance
      → IsBalanced (db.transactions ++ t ∷ []) a
  opened_row v new_id own sum nonneg = grind (
    int_laws,
    net-append a.id db.transactions t,
    net_unknown a.id db.accounts db.transactions new_id v.owners,
    eq_iff t.account_id a.id,
  )

  pub opened-IsValid :
      IsValid db
      → find_account a.user_id db.accounts ≡ none
      → has_id a.id db.accounts ≡ false
      → t.account_id ≡ a.id
      → a.balance ≡ signed t
      → pos 0 ≤ℤ a.balance
      → find_key t.idempotency_key db.transactions ≡ none
      → announced o.rows ≡ announced db.outbox.rows ++ deposits (t ∷ [])
      → IsValid opened
  opened-IsValid v new_user new_id own sum nonneg fresh events = record {
    books =
        All-append (IsBalanced (db.transactions ++ t ∷ [])) db.accounts (a ∷ [])
          (append-IsBalanced db.transactions t db.accounts
            (ap (λ i. has_id i db.accounts) own ∙ new_id) v.books)
          (opened_row v new_id own sum nonneg, tt);
    users = append-HasUniqueUsers db.accounts a new_user v.users;
    ids = append-HasUniqueIds db.accounts a new_id v.ids;
    keys = append-HasUniqueKeys db.transactions t fresh v.keys;
    owners =
        All-append (λ s. has_id s.account_id (db.accounts ++ a ∷ []) ≡ true) db.transactions
          (t ∷ [])
          (All-map (λ s. has_id s.account_id db.accounts ≡ true)
            (λ s. has_id s.account_id (db.accounts ++ a ∷ []) ≡ true)
            (λ s h. has_id-append_some s.account_id db.accounts (a ∷ []) h) db.transactions
            v.owners)
          (ap (λ i. has_id i (db.accounts ++ a ∷ [])) own ∙ has_id-append_last db.accounts a, tt);
    events =
        deposits-append db.transactions t ∙ ap (λ l. l ++ deposits (t ∷ [])) v.events ∙ sym events;
  }
