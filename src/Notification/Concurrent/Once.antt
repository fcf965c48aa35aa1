-- ===== src/Notification/Concurrent/Once.antt =====
-- What several consumers make of the messages of one queue (notification/internal/worker/broker.go).
use microservices_go.Prelude.{
  claimed, ◌+◌, ◌≤◌, Bool, false, List, [], ◌∷◌, ◌++◌, Bytes, bytes_eq_iff, bytes_eq_refl, ◌≡◌,
  refl, sym, ap, ◌∙◌, inl, arith, All, All-join, true,
}
use microservices_go.Errors.{done, fail}
use microservices_go.Notification.Payloads.{Env, Delivery, Notice}
use microservices_go.Notification.Inbox.{Inbox, Constraint, has_event, save_processed_message_tx}
use microservices_go.Notification.Consumer.{Reply, ack, process, handle_message, params_of, settle}
use microservices_go.Notification.Consumer.Deduplication.{UniqueEventId, has_event-append_last}
use microservices_go.Notification.Concurrent.{
  Handler, messages, in_flight, copies, State, finish, Step, publishes, settles, saves, mails,
  gives_up, ends, dies, Reach, start, later,
}
use microservices_go.Notification.Concurrent.Counts.{
  rows, count, places, has_event-rows, rows-has_event, count-append, copies-append, copies-split,
  messages-split, in_flight-split, Outcome, unsent, taken_back, kept, process-Outcome,
  process-mailed, fail-settle,
}
use microservices_go.Notification.Concurrent.Keeping.{
  Keeps, IsDone, IsOpen, settled-Keeps, left, split_running, split_flight, others_open, left-Keeps,
  silent_ack,
}

module _ (violates : Constraint) (unique : UniqueEventId violates) where
  ends_done :
      (inbox : Inbox) (env : Env) (msg : Delivery) (r : Reply)
      → Outcome env msg.message_id inbox r
      → settle r.result ≡ ack
      → IsDone r.inbox msg
  ends_done inbox env msg r (unsent _ _ not_acked) acked = absurd (not_acked acked)
  ends_done inbox env msg r (taken_back email sent undone same not_acked) acked =
      absurd (not_acked acked)
  ends_done inbox env msg r (kept email row sent sticks own same) acked = inl (
      rw same
        (ap (λ j. has_event j (inbox ++ row ∷ [])) (sym own) ∙ has_event-append_last inbox row))

  ends-Keeps :
      (s : State) (lost : Bool) (before after : List Handler) (h : Handler)
      → s.running ≡ before ++ h ∷ after
      → h.mailed ≡ true
      → Keeps [] s
      → Keeps [] (finish violates lost h (before ++ after) s)
  ends-Keeps s lost before after h at out k =
      let ((begun, runs, notified), _) = others_open s before after h at k in
      let fresh = has_event-rows h.msg.message_id s.inbox (
        ground (
          arith,
          k.once h.msg.message_id,
          split_running s before after h at k h.msg.message_id,
          bytes_eq_refl h.msg.message_id,
        )) in
      let r = process violates h.env h.msg h.notice s.inbox in
      let (email, told) = notified out in
      let mail =
        process-mailed violates h.env h.msg h.notice s.inbox email unique begun runs fresh told in
      let way = process-Outcome violates h.env h.msg h.notice s.inbox unique begun runs fresh in
      settled-Keeps lost (settle r.result) h.msg (left s h (before ++ after) r)
        (left-Keeps s before after h at k r email out mail way)
        (ends_done s.inbox h.env h.msg r way)

  saved_new :
      (env : Env) (msg : Delivery) (notice : Notice) (inbox inbox' : Inbox)
      → save_processed_message_tx violates false env.now (params_of msg notice) inbox ≡ done inbox'
      → has_event msg.message_id inbox ≡ false
  unfolding save_processed_message_tx
  saved_new env msg notice inbox inbox' h =
      ground (arith, unique.only_id (params_of msg notice) inbox)

  Step-Keeps : {s t : State} → Step violates s t → Keeps [] s → Keeps [] t
  Step-Keeps {s = s} (publishes msg) k = record {
    once = k.once;
    sends = k.sends;
    stays = λ i. omega (arith, k.stays i, copies-append i s.ready (msg ∷ []));
    finished = k.finished;
    opened = k.opened;
  }
  Step-Keeps {s = s} (settles env lost before after msg at named free silent) k =
      let r = handle_message violates env msg s.inbox in
      settled-Keeps lost (settle r.result) msg (record s { ready = before ++ after })
        (record {
          once = k.once;
          sends = k.sends;
          stays = λ i. omega (arith, k.stays i, ap (copies i) at, copies-split i before after msg);
          finished = k.finished;
          opened = k.opened;
        })
        (silent_ack violates unique env msg s.inbox named silent)
  Step-Keeps {s = s} (saves env before after msg notice inbox at named known begun runs free h) k =
      record {
        once = λ i. omega (
          arith,
          claimed (λ j. copies j (messages s.running) + rows j s.inbox) msg.message_id i _
              (bytes_eq_iff msg.message_id i).0
              (omega (
                arith,
                free,
                rows-has_event msg.message_id s.inbox (saved_new env msg notice s.inbox inbox h),
              ))
              (k.once i),
        );
        sends = k.sends;
        stays = λ i. omega (arith, k.stays i, ap (copies i) at, copies-split i before after msg);
        finished = k.finished;
        opened = ((begun, runs, (λ e. cc)), k.opened);
      }
  Step-Keeps {s = s} (mails before after h email at waits told) k =
      let out : Handler = record h { mailed = true } in
      let ((begun, runs, _), rest) = others_open s before after h at k in
      let again = λ (i : Bytes). messages-split i before after out in
      record {
        once = λ i. omega (arith, k.once i, split_running s before after h at k i, again i);
        sends = λ i. ground (
          arith,
          k.sends i,
          split_flight s before after h at k i,
          in_flight-split i before after out,
          count-append i s.sent (h.msg.message_id ∷ []),
        );
        stays = λ i. omega (arith, k.stays i, split_running s before after h at k i, again i);
        finished = k.finished;
        opened = All-join IsOpen before after out (begun, runs, (λ e. (email, told))) rest;
      }
  Step-Keeps {s = s} (gives_up lost before after h err at waits told) k =
      settled-Keeps lost (settle (fail err)) h.msg (record s { running = before ++ after })
        (record {
          once = λ i. omega (arith, k.once i, split_running s before after h at k i);
          sends = λ i. ground (arith, k.sends i, split_flight s before after h at k i);
          stays = λ i. omega (arith, k.stays i, split_running s before after h at k i);
          finished = k.finished;
          opened = (others_open s before after h at k).1;
        })
        (λ acked. absurd (fail-settle err acked))
  Step-Keeps {s = s} (ends lost before after h at out) k = ends-Keeps s lost before after h at out k
  Step-Keeps {s = s} (dies before after h at) k =
      let back = λ (i : Bytes). copies-append i s.ready (h.msg ∷ []) in
      record {
        once = λ i. omega (arith, k.once i, split_running s before after h at k i);
        sends = λ i. ground (
          arith,
          k.sends i,
          split_flight s before after h at k i,
          count-append i s.undone (in_flight (h ∷ [])),
        );
        stays = λ i. omega (arith, k.stays i, back i, split_running s before after h at k i);
        finished = k.finished;
        opened = (others_open s before after h at k).1;
      }

  Reach-Keeps : {s : State} → Reach violates s → Keeps [] s
  Reach-Keeps start = record {
    once = λ i. omega arith;
    sends = λ i. refl;
    stays = λ i. refl;
    finished = tt;
    opened = tt;
  }
  Reach-Keeps (later r st) = Step-Keeps st (Reach-Keeps r)

  -- Consumers on one queue and one inbox with a unique constraint on the event id, in any
  -- interleaving of their transactions, with failures of any kind, settlements that are lost,
  -- messages that come again and processes that die: no two of them hold one event and none holds
  -- one that the inbox has, which has it once; the e-mails of an event are as many as its
  -- transactions that were undone after they had sent one, one more exactly if the inbox has the
  -- event, and one more exactly if a transaction that has sent one is open; each message that was
  -- published is ready, at work, acknowledged or rejected; and an acknowledged one has its event
  -- in the inbox or is of no known type.
  pub consumers_send_once :
      (s : State)
      → Reach violates s
      → ((i : Bytes) → copies i (messages s.running) + rows i s.inbox ≤ 1)
        × ((i : Bytes)
            → count i s.sent ≡ count i s.undone + rows i s.inbox + count i (in_flight s.running))
        × ((i : Bytes) → copies i s.published ≡ places i s)
        × All (IsDone s.inbox) s.acked
  consumers_send_once s r =
      let k = Reach-Keeps r in (k.once, k.sends, λ i. omega (arith, k.stays i), k.finished)
