-- ===== src/Store/Outbox.antt =====
-- The outbox: `enqueue`, `_insert_outbox`, `pending_outbox`, `record_attempt`, `acknowledge`.
pub mod Keys
pub mod Delivery
pub mod Due
pub mod Timing
use deferred_teleoperation.Base.{
  ℕ, ◌+◌, Bool, true, false, not, ◌&&◌, ◌||◌, Option, none, some, List, [], ◌∷◌, map, leb, ltb,
  ◌==◌, ◌/=◌, if◌then◌else◌, find, update, count, insert, select,
}
use mathlib.Core.Option
use deferred_teleoperation.Time.{Instant, UtcText, utc_text, text_leb, text_ltb}
use deferred_teleoperation.Wire.{Text, Uuid, MessageEnvelope, Codec}
use deferred_teleoperation.Store.Schema.{OutboxRow, AckState, pending, acked, Db}
use deferred_teleoperation.Store.Monad.{
  StorageError, key_error, corrupt_record, record_conflict, invalid_transition, Result, ok, err,
  Action, pure, raise, gets, or_raise, ◌>>=◌, ◌>>◌, raise_if, modify, transaction,
}

abbrev pub has_id : Uuid → OutboxRow → Bool
has_id message_id row = row.message_id == message_id

abbrev pub is_pending : AckState → Bool
is_pending pending = true
is_pending acked = false

-- The row that `_insert_outbox` writes; the columns that it leaves out have their defaults.
unfoldable pub new_row : MessageEnvelope → Text → OutboxRow
new_row envelope encoded = record {
  message_id = envelope.message_id;
  destination_id = envelope.destination_id;
  correlation_id = envelope.correlation_id;
  created_at = utc_text envelope.created_at;
  not_before = Option.map utc_text envelope.not_before;
  expires_at = Option.map utc_text envelope.expires_at;
  payload_json = encoded;
  attempt_count = 0;
  next_attempt_at = some (utc_text (Option.get_or envelope.not_before envelope.created_at));
  ack_state = pending;
  acked_at = none;
}

unfoldable pub insert_outbox : Codec → MessageEnvelope → Action Bool
insert_outbox codec envelope = do
  let encoded = codec.envelope_json envelope
  existing ← gets (λ db. find (has_id envelope.message_id) db.outbox)
  elim existing [
    | some row ↦ do raise_if (row.payload_json /= encoded) record_conflict; pure false
    | none ↦ do
      modify (λ db. record db { outbox = insert (new_row envelope encoded) db.outbox })
      pure true
  ]

-- The loop `for envelope in outgoing: self._insert_outbox(connection, envelope)`.
unfoldable pub insert_all : Codec → List MessageEnvelope → Action (Unit {0})
insert_all codec [] = pure tt
insert_all codec (envelope ∷ rest) = do _ ← insert_outbox codec envelope; insert_all codec rest

unfoldable pub enqueue : Codec → MessageEnvelope → Action Bool
unfolding insert_outbox
enqueue codec envelope = transaction (insert_outbox codec envelope)

-- The WHERE clause of `pending_outbox`.
unfoldable pub is_due : UtcText → OutboxRow → Bool
is_due now row =
    is_pending row.ack_state
    && elim row.next_attempt_at [ none ↦ true | some at ↦ text_leb at now ]
    && elim row.expires_at [ none ↦ true | some at ↦ text_ltb now at ]

-- ORDER BY created_at, message_id.
unfoldable pub goes_before : OutboxRow → OutboxRow → Bool
goes_before a b =
    text_ltb a.created_at b.created_at
    || (text_leb a.created_at b.created_at && leb a.message_id b.message_id)

unfoldable pub place : OutboxRow → List OutboxRow → List OutboxRow
place row [] = row ∷ []
place row (x ∷ rows) =
    let rest = place row rows in if goes_before row x then row ∷ x ∷ rows else x ∷ rest

unfoldable pub order : List OutboxRow → List OutboxRow
order [] = []
order (row ∷ rows) = place row (order rows)

unfoldable pub decode_envelope : Codec → Text → Action MessageEnvelope
decode_envelope codec encoded = or_raise (codec.model_validate_json encoded) corrupt_record

unfoldable pub decode_all : Codec → List OutboxRow → Action (List MessageEnvelope)
unfolding decode_envelope
decode_all codec [] = pure []
decode_all codec (row ∷ rows) = do
  envelope ← decode_envelope codec row.payload_json
  rest ← decode_all codec rows
  pure (envelope ∷ rest)

unfoldable pub pending_outbox : Codec → Instant → Action (List MessageEnvelope)
unfolding is_due
pending_outbox codec now = do
  rows ← gets (λ db. order (select (is_due (utc_text now)) db.outbox))
  decode_all codec rows

abbrev pub attempted : UtcText → OutboxRow → OutboxRow
attempted next row = record row {
  attempt_count = row.attempt_count + 1;
  next_attempt_at = some next;
}

-- The rows that `record_attempt` updates: the message, as long as it is pending.
abbrev pub attemptable : Uuid → OutboxRow → Bool
attemptable message_id row = row.message_id == message_id && is_pending row.ack_state

unfoldable pub record_attempt : Uuid → Instant → Action ℕ
record_attempt message_id next_attempt_at = transaction (do
  changed ← gets (λ db. count (attemptable message_id) db.outbox)
  modify (λ db. record db {
    outbox = update (attemptable message_id) (attempted (utc_text next_attempt_at)) db.outbox;
  })
  raise_if (changed /= 1) invalid_transition
  found ← gets (λ db. find (has_id message_id) db.outbox)
  row ← or_raise found key_error
  pure row.attempt_count)

abbrev pub mark_acked : UtcText → OutboxRow → OutboxRow
mark_acked at row = record row { ack_state = acked; acked_at = some at }

unfoldable pub acknowledge : Uuid → Instant → Action Bool
acknowledge message_id acked_at = transaction (do
  found ← gets (λ db. find (has_id message_id) db.outbox)
  row ← or_raise found key_error
  let marked = update (has_id message_id) (mark_acked (utc_text acked_at))
  elim row.ack_state [
    | acked ↦ pure false
    | pending ↦ do modify (λ db. record db { outbox = marked db.outbox }); pure true
  ])
