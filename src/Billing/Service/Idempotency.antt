-- ===== src/Billing/Service/Idempotency.antt =====
-- What the idempotency key of a request guarantees (billing/services/billing.go).
use mathlib.Core.List.{Memᴰ}
use microservices_go.Prelude.{
  String, ◌≡◌, refl, ◌⊎◌, inl, inr, true, List, [], ◌∷◌, ◌++◌, arith, eq_iff, is_some,
}
use microservices_go.Errors.{done}
use microservices_go.Billing.Domain.{Database, Env, DepositRequest, WithdrawRequest, Transaction}
use microservices_go.Billing.Repository.{
  top_up_account_tx, insert_transaction_tx, get_account_by_user_id_tx, withdraw_account_tx,
  find_by_idempotency_key, find_key,
}
use microservices_go.Billing.Service.{deposit, withdraw, handle_idempotency_error}
use microservices_go.Outbox.{insert_outbox_event_tx}

abbrev pub IsRecorded : String → Database → Type 0
IsRecorded k db = is_some (find_key k db.transactions) ≡ true

pub find_key-append_some :
    (k : String) (ts us : List Transaction)
    → is_some (find_key k ts) ≡ true
    → is_some (find_key k (ts ++ us)) ≡ true
find_key-append_some k [] us h = cc
find_key-append_some k (t ∷ ts) us h = ground (arith, find_key-append_some k ts us)

pub find_key-append_last :
    (k : String) (ts : List Transaction) (t : Transaction)
    → t.idempotency_key ≡ k
    → is_some (find_key k (ts ++ t ∷ [])) ≡ true
find_key-append_last k [] t h = ground (arith, eq_iff t.idempotency_key k)
find_key-append_last k (u ∷ ts) t h = ground (arith, find_key-append_last k ts t h)

-- A key that is recorded makes the call a replay: it changes nothing.

pub deposit_recorded :
    (env : Env) (req : DepositRequest) (db : Database)
    → IsRecorded req.idempotency_key db
    → (deposit env req db).1 ≡ db
unfolding deposit top_up_account_tx insert_transaction_tx handle_idempotency_error
deposit_recorded env req db h = ground arith

pub withdraw_recorded :
    (env : Env) (req : WithdrawRequest) (db : Database)
    → IsRecorded req.idempotency_key db
    → (withdraw env req db).1 ≡ db
unfolding withdraw get_account_by_user_id_tx withdraw_account_tx insert_transaction_tx
    handle_idempotency_error
withdraw_recorded env req db h = ground arith

-- A call that changes the database records its key.

pub deposit_records :
    (env : Env) (req : DepositRequest) (db : Database)
    → ((deposit env req db).1 ≡ db) ⊎ IsRecorded req.idempotency_key (deposit env req db).1
unfolding deposit top_up_account_tx insert_transaction_tx insert_outbox_event_tx
deposit_records env req db = grind (arith, find_key-append_last)

pub withdraw_records :
    (env : Env) (req : WithdrawRequest) (db : Database)
    → ((withdraw env req db).1 ≡ db) ⊎ IsRecorded req.idempotency_key (withdraw env req db).1
unfolding withdraw get_account_by_user_id_tx withdraw_account_tx insert_transaction_tx
withdraw_records env req db = grind (arith, find_key-append_last)

-- A deposit that reports success leaves its idempotency key recorded.
pub deposit_ok-IsRecorded :
    (env : Env) (req : DepositRequest) (db : Database)
    → (deposit env req db).0 ≡ done tt
    → IsRecorded req.idempotency_key (deposit env req db).1
unfolding deposit top_up_account_tx insert_transaction_tx handle_idempotency_error
    insert_outbox_event_tx find_by_idempotency_key
deposit_ok-IsRecorded env req db h = grind (arith, find_key-append_last)

-- A withdrawal that reports success leaves its idempotency key recorded.
pub withdraw_ok-IsRecorded :
    (env : Env) (req : WithdrawRequest) (db : Database)
    → (withdraw env req db).0 ≡ done tt
    → IsRecorded req.idempotency_key (withdraw env req db).1
unfolding withdraw get_account_by_user_id_tx withdraw_account_tx insert_transaction_tx
    handle_idempotency_error find_by_idempotency_key
withdraw_ok-IsRecorded env req db h = grind (arith, find_key-append_last)

-- A client that sends its request again and again, whatever happens to each attempt.

pub deposit_attempts : List Env → DepositRequest → Database → Database
deposit_attempts [] req db = db
deposit_attempts (env ∷ envs) req db = deposit_attempts envs req (deposit env req db).1

pub withdraw_attempts : List Env → WithdrawRequest → Database → Database
withdraw_attempts [] req db = db
withdraw_attempts (env ∷ envs) req db = withdraw_attempts envs req (withdraw env req db).1

deposit_attempts_recorded :
    (envs : List Env) (req : DepositRequest) (db : Database)
    → IsRecorded req.idempotency_key db
    → deposit_attempts envs req db ≡ db
unfolding deposit_attempts
deposit_attempts_recorded [] req db h = refl
deposit_attempts_recorded (env ∷ envs) req db h =
    rw (deposit_recorded env req db h) (deposit_attempts_recorded envs req db h)

withdraw_attempts_recorded :
    (envs : List Env) (req : WithdrawRequest) (db : Database)
    → IsRecorded req.idempotency_key db
    → withdraw_attempts envs req db ≡ db
unfolding withdraw_attempts
withdraw_attempts_recorded [] req db h = refl
withdraw_attempts_recorded (env ∷ envs) req db h =
    rw (withdraw_recorded env req db h) (withdraw_attempts_recorded envs req db h)

-- Any number of attempts of one deposit, whatever fails in each of them, leaves the database as it
-- was or as one of the attempts alone would have left it: the money moves at most once.
pub deposit_at_most_once :
    (envs : List Env) (req : DepositRequest) (db : Database)
    → (deposit_attempts envs req db ≡ db)
      ⊎ ((env : Env) × Memᴰ env envs × (deposit_attempts envs req db ≡ (deposit env req db).1))
unfolding deposit_attempts
deposit_at_most_once [] req db = inl refl
deposit_at_most_once (env ∷ envs) req db = elim (deposit_records env req db) [
  | inl same ↦ rw same (later (deposit_at_most_once envs req db))
  | inr known ↦ inr (env, Memᴰ.head refl, deposit_attempts_recorded envs req _ known)
]
  where
    later :
        (deposit_attempts envs req db ≡ db)
          ⊎ ((e : Env) × Memᴰ e envs × (deposit_attempts envs req db ≡ (deposit e req db).1))
        → (deposit_attempts envs req db ≡ db)
          ⊎ ((e : Env) × Memᴰ e (env ∷ envs)
              × (deposit_attempts envs req db ≡ (deposit e req db).1))
    later (inl none_worked) = inl none_worked
    later (inr (e, m, p)) = inr (e, Memᴰ.tail m, p)

-- Any number of attempts of one withdrawal, whatever fails in each of them, leaves the database as
-- it was or as one of the attempts alone would have left it.
pub withdraw_at_most_once :
    (envs : List Env) (req : WithdrawRequest) (db : Database)
    → (withdraw_attempts envs req db ≡ db)
      ⊎ ((env : Env) × Memᴰ env envs × (withdraw_attempts envs req db ≡ (withdraw env req db).1))
unfolding withdraw_attempts
withdraw_at_most_once [] req db = inl refl
withdraw_at_most_once (env ∷ envs) req db = elim (withdraw_records env req db) [
  | inl same ↦ rw same (later (withdraw_at_most_once envs req db))
  | inr known ↦ inr (env, Memᴰ.head refl, withdraw_attempts_recorded envs req _ known)
]
  where
    later :
        (withdraw_attempts envs req db ≡ db)
          ⊎ ((e : Env) × Memᴰ e envs × (withdraw_attempts envs req db ≡ (withdraw e req db).1))
        → (withdraw_attempts envs req db ≡ db)
          ⊎ ((e : Env) × Memᴰ e (env ∷ envs)
              × (withdraw_attempts envs req db ≡ (withdraw e req db).1))
    later (inl none_worked) = inl none_worked
    later (inr (e, m, p)) = inr (e, Memᴰ.tail m, p)
