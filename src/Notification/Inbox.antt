-- ===== src/Notification/Inbox.antt =====
-- notification/internal/repository/notification.go and notification/internal/domain. The schema of
-- `processed_events` is not in the repository: which rows violate one of its constraints is an
-- argument.
use microservices_go.Prelude.{
  String, Bool, true, false, Option, none, some, List, [], ◌∷◌, ◌++◌, Bytes, bytes_eq, str_eq,
  if◌then◌else◌,
}
use microservices_go.Errors.{
  GoError, message, pg, sentinel, as_pg, Result, done, fail, duplicate_message,
}
use microservices_go.Postgres.{Time}

pub record SaveProcessedMessageParams : Type 0 where
  pub event_id : Bytes
  pub aggregate_id : String
  pub aggregate_type : String
  pub event_type : String

-- A row: the parameters, and NOW().
pub record ProcessedEvent : Type 0 where
  pub params : SaveProcessedMessageParams
  pub processed_at : Time

abbrev pub Inbox : Type 0
Inbox = List ProcessedEvent

abbrev pub has_event : Bytes → Inbox → Bool
has_event i [] = false
has_event i (r ∷ rs) = if bytes_eq r.params.event_id i then true else has_event i rs

-- Whether a row that is to be inserted violates a unique constraint of the table.
abbrev pub Constraint : Type 0
Constraint = SaveProcessedMessageParams → Inbox → Bool

abbrev exec_insert : Constraint → Bool → Time → SaveProcessedMessageParams → Inbox → Result Inbox
exec_insert violates exec_fails now params inbox =
    if exec_fails
    then fail (message "exec")
    else if violates params inbox
    then fail (pg "23505" "")
    else done (inbox ++ record { params = params; processed_at = now } ∷ [])

abbrev is_unique_violation : Option (String × String) → Bool
is_unique_violation none = false
is_unique_violation (some (code, _)) = str_eq code "23505"

abbrev save_error : GoError → GoError
save_error err = if is_unique_violation (as_pg err) then sentinel duplicate_message else err

unfoldable pub save_processed_message_tx :
    Constraint
    → (exec_fails : Bool) → (now : Time) → SaveProcessedMessageParams
    → Inbox
    → Result Inbox
save_processed_message_tx violates exec_fails now params inbox =
    elim (exec_insert violates exec_fails now params inbox) [
      | fail err ↦ fail (save_error err)
      | done inbox' ↦ done inbox'
    ]
