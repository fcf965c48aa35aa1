-- ===== src/Tests/Distributed.antt =====
-- An example for the whole system: a deposit, a batch of the outbox worker, and the e-mail.
use microservices_go.Prelude.{
  ℕ, true, false, pos, ◌+◌, ◌≤◌, some, none, [], ◌∷◌, decimal, All, ◌≡◌, refl,
}
use microservices_go.Outbox.{
  Event, processed, insert_outbox_event_tx, query_outbox_events_tx, mark_events_as_processed_tx,
}
use microservices_go.Outbox.Concurrent.Counts.{count as sendings, pending_count, processed_count}
use microservices_go.Json.{object}
use microservices_go.Billing.Service.{deposit_payload}
use microservices_go.Broker.{Message, publish, message_for}
use microservices_go.Billing.Domain.{Database, DepositRequest}
use microservices_go.Billing.Repository.{top_up_account_tx, insert_transaction_tx}
use microservices_go.Billing.Service.Effect.{new_account, deposit_row, topped_up_event}
use microservices_go.Billing.Ledger.{IsValid}
use microservices_go.Billing.Bank.{deposit}
use microservices_go.Billing.Running.{Tx, crediting, own}
use microservices_go.Billing.Concurrent.{upserts, records, announces, commits}
use microservices_go.Notification.Payloads.{Delivery, Notice, topped_up, decode, unmarshal_deposit}
use microservices_go.Notification.Email.{deposit_email, send_deposit_success_email}
use microservices_go.Notification.Inbox.{Inbox, has_event, save_processed_message_tx}
use microservices_go.Notification.Consumer.{notify, process, params_of}
use microservices_go.Notification.Concurrent.Counts.{count, rows, places}
use microservices_go.Notification.Concurrent.{saves, mails, ends, Handler}
use microservices_go.Notification
use microservices_go.Outbox
use microservices_go.System.Distributed.{
  State, initial, Reach, start, later, calls, begins, handles,
}
use microservices_go.System.Distributed
use microservices_go.System.Distributed.Delivered.{deposits_reach_mail}
use microservices_go.Tests.Billing.{clean, deposit_of}
use microservices_go.Tests.Outbox.{calm}
use microservices_go.Tests.Notification.{
  world, rabbit, unique_event_id, unique_event_id-UniqueEventId, dialer,
}

abbrev asked : DepositRequest
asked = deposit_of "alice" "k1"

abbrev empty : (next_id next_event : ℕ) → Database
empty next_id next_event = record {
  accounts = [];
  transactions = [];
  next_id = next_id;
  outbox = record { rows = []; next_id = next_event };
}

abbrev credited : Tx
credited = crediting clean asked none (new_account clean asked)

abbrev recorded : Tx
recorded = record credited { transaction = some (deposit_row clean asked "acc-2" (empty 1 1)) }

abbrev event : Event
event = topped_up_event clean asked "acc-2" (empty 2 1)

abbrev announced : Tx
announced = record recorded { event = some event }

abbrev billing : Database → Tx → State
billing db tx = record initial { bill = record { db = db; running = tx ∷ []; history = [] } }

abbrev deposited : State
deposited = record initial {
  bill = record {
    db = own announced (empty 2 2);
    running = [];
    history = deposit "alice" "k1" (pos 30) ∷ [];
  };
}

credits : Reach rabbit unique_event_id (billing (empty 1 1) credited)
unfolding top_up_account_tx
credits = later start (
    calls _
      (upserts clean asked "acc-2" (record (empty 1 1) { accounts = new_account clean asked ∷ [] })
        (new_account clean asked) refl refl refl refl refl refl)
      tt)

inserts : Reach rabbit unique_event_id (billing (empty 2 1) recorded)
unfolding insert_transaction_tx
inserts = later credits (
    calls _
      (records [] [] credited (new_account clean asked) _
        (deposit_row clean asked "acc-2" (empty 1 1)) refl refl refl refl refl refl)
      tt)

writes : Reach rabbit unique_event_id (billing (empty 2 2) announced)
unfolding insert_outbox_event_tx
writes = later inserts (
    calls _
      (announces [] [] recorded (new_account clean asked) _ _ event refl refl refl refl refl refl
        refl)
      tt)

deposited-Reach : Reach rabbit unique_event_id deposited
deposited-Reach = later writes (calls _ (commits [] [] announced _ refl refl refl (λ h. cc)) tt)

abbrev working : State
working = record deposited { batches = record { ids = []; failed = []; rest = event ∷ [] } ∷ [] }

working-Reach : Reach rabbit unique_event_id working
unfolding query_outbox_events_tx
working-Reach = later deposited-Reach (begins calm (event ∷ []) refl)

abbrev message : Delivery
message = record {
  message_id = decimal 1;
  routing_key = "AccountToppedUp";
  body = object (deposit_payload clean asked);
}

abbrev outgoing : Message
outgoing = message_for "billing.events" event (object (deposit_payload clean asked))

-- The message is in the queue, and the batch is open.
abbrev flying : State
flying = record deposited {
  batches = record { ids = 1 ∷ []; failed = []; rest = [] } ∷ [];
  sent = 1 ∷ [];
  mail = record (initial.mail) { published = message ∷ []; ready = message ∷ [] };
}

flying-Reach : Reach rabbit unique_event_id flying
unfolding publish decimal
flying-Reach =
    later working-Reach (Distributed.publishes none false [] [] [] [] event [] outgoing refl refl)

abbrev published : State
published = record {
  bill = record (deposited.bill) {
    db = record (deposited.bill.db) {
      outbox = record {
        rows = record event { status = processed; processed_at = some 7 } ∷ [];
        next_id = 2;
      };
    };
  };
  batches = [];
  sent = 1 ∷ [];
  undone = [];
  lost = [];
  mail = record (initial.mail) { published = message ∷ []; ready = message ∷ [] };
}

published-Reach : Reach rabbit unique_event_id published
unfolding mark_events_as_processed_tx
published-Reach = later flying-Reach (Distributed.ends calm [] [] (1 ∷ []) [] refl)

abbrev notice : Notice
notice =
    topped_up
      (record { user_id = "alice"; amount = pos 30; tx_type = "deposit"; timestamp = some 20 })

abbrev handler : Handler
handler = record { env = world; msg = message; notice = notice; mailed = false }

abbrev stored : Inbox
stored = record { params = params_of message notice; processed_at = 30 } ∷ []

abbrev saved : State
saved = record published { mail = record (published.mail) { ready = []; running = handler ∷ [] } }

saved-Reach : Reach rabbit unique_event_id saved
unfolding decode unmarshal_deposit save_processed_message_tx decimal
saved-Reach =
    later published-Reach
      (handles _ (saves world [] [] message notice stored refl refl refl refl refl refl refl) tt)

abbrev sending : State
sending = record saved {
  mail = record (saved.mail) {
    running = record handler { mailed = true } ∷ [];
    sent = decimal 1 ∷ [];
  };
}

sending-Reach : Reach rabbit unique_event_id sending
unfolding notify send_deposit_success_email
sending-Reach = later saved-Reach (
    handles _
      (mails [] [] handler (deposit_email dialer "alice@example.com" (pos 30)) refl refl refl) tt)

abbrev mailed : State
mailed = record published {
  mail = record (published.mail) {
    ready = [];
    acked = message ∷ [];
    inbox = stored;
    sent = decimal 1 ∷ [];
  };
}

mailed-Reach : Reach rabbit unique_event_id mailed
unfolding process notify send_deposit_success_email save_processed_message_tx
mailed-Reach =
    later sending-Reach
      (handles _ (ends false [] [] (record handler { mailed = true }) refl refl) tt)

deposits_reach_mail_example :
    let marked = processed_count 1 mailed.bill.db.outbox.rows in
    IsValid mailed.bill.db
    × (pending_count 1 mailed.bill.db.outbox.rows + marked ≤ 1)
    × (places (decimal 1) mailed.mail + count (decimal 1) mailed.lost
        ≡ sendings 1 mailed.undone
          + marked
          + sendings 1 (Outbox.Concurrent.in_flight mailed.batches))
    × (marked + sendings 1 (Outbox.Concurrent.in_flight mailed.batches) ≤ 1)
    × (count (decimal 1) mailed.mail.sent
        ≡ count (decimal 1) mailed.mail.undone
          + rows (decimal 1) mailed.mail.inbox
          + count (decimal 1) (Notification.Concurrent.in_flight mailed.mail.running))
    × (rows (decimal 1) mailed.mail.inbox ≤ 1)
    × All (λ m. has_event m.message_id mailed.mail.inbox ≡ true) mailed.mail.acked
deposits_reach_mail_example =
    deposits_reach_mail rabbit unique_event_id 1 mailed unique_event_id-UniqueEventId mailed-Reach
