-- ===== src/Store/Inbox.antt =====
-- The inbox: `receive`, `recover_interrupted_processing`, `claim_next_inbox`, `claim_inbox`,
-- `fail_inbox` and `complete_inbox`.
pub mod Rows
pub mod Steps
pub mod Lifecycle
pub mod Handling
pub mod Choice
use deferred_teleoperation.Base.{
  ℕ, Bool, true, false, ◌&&◌, ◌||◌, Option, none, some, List, [], ◌∷◌, leb, ltb, ◌==◌, ◌/=◌,
  if◌then◌else◌, find, update, count, insert, select,
}
use deferred_teleoperation.Time.{Instant, UtcText, utc_text, text_leb, text_ltb}
use deferred_teleoperation.Wire.{Text, Uuid, MessageEnvelope, Codec, payload_type}
use deferred_teleoperation.Store.Schema.{
  InboxRow, ProcessingState, received, processing, processed, failed, Reference, Db,
}
use deferred_teleoperation.Store.Monad.{
  StorageError, record_conflict, invalid_transition, Result, ok, err, Action, pure, raise, gets,
  or_raise, ◌>>=◌, ◌>>◌, raise_if, modify, transaction,
}
use deferred_teleoperation.Store.Outbox.{insert_all, decode_envelope}

abbrev pub has_id : Uuid → InboxRow → Bool
has_id message_id row = row.message_id == message_id

-- `processing_state IN ('RECEIVED', 'FAILED')`.
abbrev pub is_claimable : ProcessingState → Bool
is_claimable received = true
is_claimable failed = true
is_claimable _ = false

abbrev pub is_processing : ProcessingState → Bool
is_processing processing = true
is_processing _ = false

unfoldable pub new_row : MessageEnvelope → Instant → Text → InboxRow
new_row envelope received_at encoded = record {
  message_id = envelope.message_id;
  source_id = envelope.source_id;
  source_boot_id = envelope.source_boot_id;
  source_sequence = envelope.source_sequence;
  correlation_id = envelope.correlation_id;
  received_at = utc_text received_at;
  payload_type = payload_type envelope.payload;
  payload_json = encoded;
  processing_state = received;
  processed_at = none;
  handler_result_reference = none;
  error_json = none;
}

unfoldable pub receive : Codec → MessageEnvelope → Instant → Action Bool
receive codec envelope received_at = transaction (do
  let encoded = codec.envelope_json envelope
  existing ← gets (λ db. find (has_id envelope.message_id) db.inbox)
  elim existing [
    | some row ↦ do raise_if (row.payload_json /= encoded) record_conflict; pure false
    | none ↦ do
      modify (λ db. record db { inbox = insert (new_row envelope received_at encoded) db.inbox })
      pure true
  ])

abbrev pub interrupted : InboxRow → Bool
interrupted row = is_processing row.processing_state

abbrev pub reopened : InboxRow → InboxRow
reopened row = record row { processing_state = received }

unfoldable pub recover_interrupted_processing : Action ℕ
recover_interrupted_processing = transaction (do
  changed ← gets (λ db. count interrupted db.inbox)
  modify (λ db. record db { inbox = update interrupted reopened db.inbox })
  pure changed)

abbrev pub claimed : InboxRow → InboxRow
claimed row = record row { processing_state = processing; error_json = none }

abbrev pub mark_claimed : Uuid → Db → Db
mark_claimed message_id db = record db { inbox = update (has_id message_id) claimed db.inbox }

-- ORDER BY CASE processing_state WHEN 'RECEIVED' THEN 0 ELSE 1 END, received_at, message_id.
abbrev pub retry_rank : ProcessingState → ℕ
retry_rank received = 0
retry_rank _ = 1

unfoldable pub goes_before : InboxRow → InboxRow → Bool
goes_before a b =
    ltb (retry_rank a.processing_state) (retry_rank b.processing_state)
    || (retry_rank a.processing_state == retry_rank b.processing_state
        && (text_ltb a.received_at b.received_at
            || (text_leb a.received_at b.received_at && leb a.message_id b.message_id)))

-- LIMIT 1 of that order.
unfoldable pub first : List InboxRow → Option InboxRow
first [] = none
first (row ∷ rows) = elim (first rows) [
  | none ↦ some row
  | some best ↦ some (if goes_before row best then row else best)
]

abbrev pub claimable : InboxRow → Bool
claimable row = is_claimable row.processing_state

unfoldable pub claim_next_inbox : Codec → Action (Option MessageEnvelope)
claim_next_inbox codec = transaction (do
  next ← gets (λ db. first (select claimable db.inbox))
  elim next [
    | none ↦ pure none
    | some row ↦ do
      envelope ← decode_envelope codec row.payload_json
      modify (mark_claimed row.message_id)
      pure (some envelope)
  ])

unfoldable pub claim_inbox : Codec → Uuid → Action (Option MessageEnvelope)
claim_inbox codec message_id = transaction (do
  found ← gets (λ db. find (λ row. has_id message_id row && claimable row) db.inbox)
  elim found [
    | none ↦ pure none
    | some row ↦ do
      envelope ← decode_envelope codec row.payload_json
      modify (mark_claimed message_id)
      pure (some envelope)
  ])

abbrev pub fallible : Uuid → InboxRow → Bool
fallible message_id row = row.message_id == message_id && is_processing row.processing_state

abbrev pub failed_with : Text → InboxRow → InboxRow
failed_with error row = record row { processing_state = failed; error_json = some error }

-- `error` is the text of `_result_json(error)`.
unfoldable pub fail_inbox : Uuid → Text → Action (Unit {0})
fail_inbox message_id error = transaction (do
  changed ← gets (λ db. count (fallible message_id) db.inbox)
  modify (λ db. record db { inbox = update (fallible message_id) (failed_with error) db.inbox })
  raise_if (changed /= 1) invalid_transition)

abbrev pub completed : UtcText → Reference → InboxRow → InboxRow
completed at reference row = record row {
  processing_state = processed;
  processed_at = some at;
  handler_result_reference = some reference;
  error_json = none;
}

-- The guard of `complete_inbox`: the message is there and is being processed.
abbrev pub in_progress : Option InboxRow → Bool
in_progress none = false
in_progress (some row) = is_processing row.processing_state

unfoldable pub complete_inbox :
    Codec → Uuid → Instant → Reference → List MessageEnvelope → Action (Unit {0})
complete_inbox codec message_id processed_at reference outgoing = transaction (do
  found ← gets (λ db. find (has_id message_id) db.inbox)
  raise_if (if in_progress found then false else true) invalid_transition
  insert_all codec outgoing
  modify (λ db. record db {
    inbox = update (has_id message_id) (completed (utc_text processed_at) reference) db.inbox;
  }))
