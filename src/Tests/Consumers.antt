-- ===== src/Tests/Consumers.antt =====
-- Examples for two consumers of one queue: a deposit event is published twice; the consumer of the
-- first copy dies between the e-mail and the commit, the second copy is handled, and the first comes
-- again.
use microservices_go.Prelude.{
  pos, ◌+◌, ◌≤◌, some, [], ◌∷◌, Bytes, decimal, All, ◌≡◌, refl, true, false,
}
use microservices_go.Notification.Email.{deposit_email, send_deposit_success_email}
use microservices_go.Notification.Inbox.{Inbox, save_processed_message_tx}
use microservices_go.Notification.Payloads.{Notice, topped_up, decode, unmarshal_deposit}
use microservices_go.Notification.Consumer.{notify, process, handle_message, params_of}
use microservices_go.Notification.Concurrent.{
  Handler, messages, in_flight, copies, State, Reach, start, later, publishes, saves, mails, ends,
  dies, settles, initial,
}
use microservices_go.Notification.Concurrent.Counts.{rows, count, places}
use microservices_go.Notification.Concurrent.Keeping.{IsDone}
use microservices_go.Notification.Concurrent.Once.{consumers_send_once}
use microservices_go.Tests.Notification.{
  world, delivery, unique_event_id, unique_event_id-UniqueEventId, dialer,
}

abbrev notice : Notice
notice =
    topped_up
      (record { user_id = "alice"; amount = pos 30; tx_type = "deposit"; timestamp = some 20 })

abbrev handler : Handler
handler = record { env = world; msg = delivery; notice = notice; mailed = false }

abbrev two_copies : State
two_copies = record initial {
  published = delivery ∷ delivery ∷ [];
  ready = delivery ∷ delivery ∷ [];
}

abbrev stored : Inbox
stored = record { params = params_of delivery notice; processed_at = 30 } ∷ []

abbrev at_work : State
at_work = record two_copies { ready = delivery ∷ []; running = handler ∷ [] }

abbrev sending : State
sending = record at_work { running = record handler { mailed = true } ∷ []; sent = decimal 2 ∷ [] }

abbrev died : State
died = record two_copies { sent = decimal 2 ∷ []; undone = decimal 2 ∷ [] }

abbrev again : State
again = record died { ready = delivery ∷ []; running = handler ∷ [] }

abbrev sending_again : State
sending_again = record again {
  running = record handler { mailed = true } ∷ [];
  sent = decimal 2 ∷ decimal 2 ∷ [];
}

abbrev mailed : State
mailed = record died {
  ready = delivery ∷ [];
  acked = delivery ∷ [];
  inbox = stored;
  sent = decimal 2 ∷ decimal 2 ∷ [];
}

abbrev settled_both : State
settled_both = record mailed { ready = []; acked = delivery ∷ delivery ∷ [] }

published : Reach unique_event_id two_copies
published = later (later start (publishes delivery)) (publishes delivery)

saved : Reach unique_event_id at_work
unfolding decode unmarshal_deposit save_processed_message_tx decimal
saved =
    later published
      (saves world [] (delivery ∷ []) delivery notice stored refl refl refl refl refl refl refl)

sent : Reach unique_event_id sending
unfolding notify send_deposit_success_email
sent =
    later saved
      (mails [] [] handler (deposit_email dialer "alice@example.com" (pos 30)) refl refl refl)

gone : Reach unique_event_id died
unfolding decimal
gone = later sent (dies [] [] (record handler { mailed = true }) refl)

saved_again : Reach unique_event_id again
unfolding decode unmarshal_deposit save_processed_message_tx decimal
saved_again =
    later gone
      (saves world [] (delivery ∷ []) delivery notice stored refl refl refl refl refl refl refl)

sent_again : Reach unique_event_id sending_again
unfolding notify send_deposit_success_email
sent_again =
    later saved_again
      (mails [] [] handler (deposit_email dialer "alice@example.com" (pos 30)) refl refl refl)

ended : Reach unique_event_id mailed
unfolding process notify send_deposit_success_email save_processed_message_tx
ended = later sent_again (ends false [] [] (record handler { mailed = true }) refl refl)

settled : Reach unique_event_id settled_both
unfolding handle_message decode unmarshal_deposit process save_processed_message_tx decimal
settled = later ended (settles world false [] [] delivery refl refl (λ n e b x. refl) refl)

consumers_send_once_example :
    ((i : Bytes) → copies i (messages settled_both.running) + rows i settled_both.inbox ≤ 1)
    × ((i : Bytes)
        → count i settled_both.sent
          ≡ count i settled_both.undone
            + rows i settled_both.inbox
            + count i (in_flight settled_both.running))
    × ((i : Bytes) → copies i settled_both.published ≡ places i settled_both)
    × All (IsDone settled_both.inbox) settled_both.acked
consumers_send_once_example =
    consumers_send_once unique_event_id unique_event_id-UniqueEventId settled_both settled
