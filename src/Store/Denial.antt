-- ===== src/Store/Denial.antt =====
-- `complete_budget_scope_denial` and `budget_denial_event`: a contract that is refused before any
-- dispatch, with its stable HELD event.
use deferred_teleoperation.Base.{
  ℕ, Bool, true, false, not, ◌&&◌, ◌||◌, Option, none, some, ltb, ◌==◌, ◌/=◌, opt_eq, is_none,
  is_some, if◌then◌else◌, find, update, insert,
}
use deferred_teleoperation.Time.{Instant, UtcText, utc_text, parse_utc_text}
use deferred_teleoperation.Wire.{
  Text, Uuid, MessageEnvelope, Codec, Payload, contract_payload, context_payload, effect_payload,
  decision_payload, level_payload, ExecutionEvent, is_blank, received, accepted, held, state_eq,
}
use deferred_teleoperation.Store.Schema.{JournalRow, DenialRow, DecisionRow, Resolution, Reference}
use deferred_teleoperation.Store.Monad.{
  value_error, corrupt_record, record_conflict, invalid_transition, integrity_error,
  budget_clock_rollback, Action, pure, gets, or_raise, ◌>>=◌, ◌>>◌, raise_if, modify, transaction,
}
use deferred_teleoperation.Store.Outbox.{insert_outbox, decode_envelope}
use deferred_teleoperation.Store.Inbox as Inbox
use deferred_teleoperation.Store.Journal.{lookup_journal, update_journal, event_of}
use deferred_teleoperation.Store.Budget.{denies}
use deferred_teleoperation.Store.Outcome.{settle_budget, is_budget_of}

-- The attributes `contract_id`, `contract_revision` and `operation_id` of a payload that has all
-- three.
abbrev pub names_contract : Uuid → ℕ → Uuid → Payload → Bool
names_contract c n o (contract_payload p) =
    p.contract_id == c && p.contract_revision == n && p.operation_id == o
names_contract c n o (context_payload p) =
    p.contract_id == c && p.contract_revision == n && p.operation_id == o
names_contract c n o (effect_payload p) =
    p.contract_id == c && p.contract_revision == n && p.operation_id == o
names_contract c n o _ = false

pub record M3aEvidence : Type 0 where
  pub decision_envelope : MessageEnvelope
  pub level_envelope : MessageEnvelope
  pub business_result : Text

-- The arguments of one call. Decision and level envelopes are given both or not at all (the code
-- refuses anything else first), and `result` is the text of `_result_json({"budget_denial": reason})`.
pub record Denial : Type 0 where
  pub contract_id : Uuid
  pub contract_revision : ℕ
  pub operation_id : Uuid
  pub reason : Text
  pub first_envelope : MessageEnvelope
  pub held_event : MessageEnvelope
  pub inbox_message_id : Uuid
  pub processed_at : Instant
  pub m3a : Option M3aEvidence
  pub result : Text

-- `event.previous_state not in {RECEIVED, ACCEPTED}` and the other conditions on the event.
abbrev pub is_hold_of : Uuid → ℕ → ExecutionEvent → Bool
is_hold_of contract_id revision event =
    event.contract_id == contract_id
    && event.contract_revision == revision
    && state_eq event.next_state held
    && (state_eq event.previous_state received || state_eq event.previous_state accepted)

abbrev pub is_decision : MessageEnvelope → Bool
is_decision envelope = elim envelope.payload [ decision_payload _ ↦ true | _ ↦ false ]

abbrev pub is_level : MessageEnvelope → Bool
is_level envelope = elim envelope.payload [ level_payload _ ↦ true | _ ↦ false ]

-- Whether the M3a evidence passes its checks.
abbrev pub bad_evidence : Option M3aEvidence → Bool
bad_evidence none = false
bad_evidence (some m) =
    not (is_decision m.decision_envelope)
    || not (is_level m.level_envelope)
    || is_blank m.business_result

-- The checks before the transaction.
unfoldable pub check_denial : Denial → Action ExecutionEvent
check_denial d = do
  raise_if (is_blank d.reason) value_error
  raise_if (d.first_envelope.message_id /= d.inbox_message_id) record_conflict
  raise_if
      (not
        (names_contract d.contract_id d.contract_revision d.operation_id d.first_envelope.payload))
      record_conflict
  event ← or_raise (event_of d.held_event) value_error
  raise_if (not (is_hold_of d.contract_id d.contract_revision event)) record_conflict
  raise_if (bad_evidence d.m3a) value_error
  pure event

-- The checks on the contract's journal row, if it has one.
unfoldable pub check_journal : Denial → ExecutionEvent → Option JournalRow → Action (Unit {0})
check_journal d event none = pure tt
check_journal d event (some journal) = do
  raise_if (journal.operation_id /= d.operation_id) record_conflict
  raise_if (is_some journal.dispatch_recorded_at) invalid_transition
  raise_if (not (state_eq journal.state accepted || state_eq journal.state held)) invalid_transition
  raise_if (state_eq journal.state accepted && not (state_eq event.previous_state accepted))
      invalid_transition
  accepted_at ← or_raise (parse_utc_text journal.accepted_at) corrupt_record
  raise_if (ltb event.occurred_at accepted_at) budget_clock_rollback

unfoldable pub denial_row : Denial → Text → Text → DenialRow
denial_row d first_json held_json = record {
  contract_id = d.contract_id;
  contract_revision = d.contract_revision;
  operation_id = d.operation_id;
  reason = d.reason;
  first_envelope_json = first_json;
  held_event_json = held_json;
  recorded_at = utc_text d.processed_at;
}

-- Writes the denial, or checks it against the stored one; returns the text of the durable event.
unfoldable pub store_denial : Codec → Denial → Option DenialRow → Action Text
unfolding decode_envelope denial_row
store_denial codec d none = do
  let held_json = codec.envelope_json d.held_event
  modify (λ db. record db {
    autonomy_budget_denial =
        insert (denial_row d (codec.envelope_json d.first_envelope) held_json)
          db.autonomy_budget_denial;
  })
  pure held_json
store_denial codec d (some row) = do
  raise_if (row.operation_id /= d.operation_id) record_conflict
  raise_if (row.reason /= d.reason) record_conflict
  first ← decode_envelope codec row.first_envelope_json
  raise_if (not (codec.same_payload first.payload d.first_envelope.payload)) record_conflict
  event ← decode_envelope codec row.held_event_json
  _ ← or_raise (event_of event) corrupt_record
  pure row.held_event_json

abbrev pub held_row : UtcText → Text → JournalRow → JournalRow
held_row at result row = record row {
  state = held;
  terminal_at = some at;
  terminal_result_json = some result;
}

-- The update of an accepted journal row to HELD.
unfoldable pub hold_journal : Denial → ExecutionEvent → Option JournalRow → Action (Unit {0})
hold_journal d event none = pure tt
hold_journal d event (some journal) =
    if state_eq journal.state accepted
    then modify (
        update_journal d.contract_id d.contract_revision
          (held_row (utc_text event.occurred_at) d.result))
    else pure tt

abbrev pub decides : Uuid → ℕ → DecisionRow → Bool
decides contract_id revision row =
    row.contract_id == contract_id && row.contract_revision == revision

-- The M3a decision of a denial: inserted once, immutable afterwards. The table admits revision 1
-- only.
unfoldable pub store_decision : Codec → Denial → M3aEvidence → Action (Unit {0})
store_decision codec d m = do
  let decision = codec.envelope_json m.decision_envelope
  let level = codec.envelope_json m.level_envelope
  let held_json = codec.envelope_json d.held_event
  found ← gets (λ db. find (decides d.contract_id d.contract_revision) db.m3a_decision)
  elim found [
    | none ↦ do
      raise_if (d.contract_revision /= 1) integrity_error
      modify (λ db. record db {
        m3a_decision =
            insert
              (record {
                contract_id = d.contract_id;
                contract_revision = d.contract_revision;
                operation_id = d.operation_id;
                decision_envelope_json = decision;
                level_envelope_json = level;
                held_event_json = some held_json;
                command_envelope_json = none;
                business_result = m.business_result;
                recorded_at = utc_text d.processed_at;
              })
              db.m3a_decision;
      })
    | some row ↦
        raise_if
          (row.operation_id /= d.operation_id
            || row.decision_envelope_json /= decision
            || row.level_envelope_json /= level
            || not (opt_eq row.held_event_json (some held_json))
            || is_some row.command_envelope_json
            || row.business_result /= m.business_result)
          record_conflict
  ]
  _ ← insert_outbox codec m.level_envelope
  _ ← insert_outbox codec m.decision_envelope
  pure tt

unfoldable pub store_evidence : Codec → Denial → Option M3aEvidence → Action (Unit {0})
unfolding store_decision
store_evidence codec d none = pure tt
store_evidence codec d (some m) = store_decision codec d m

-- The end of the transaction: the durable event goes out, and the claimed message is completed.
unfoldable pub finish_denial : Codec → Denial → Text → Action (Unit {0})
unfolding decode_envelope
finish_denial codec d held_json = do
  durable ← decode_envelope codec held_json
  _ ← insert_outbox codec durable
  modify (λ db. record db {
    inbox =
        update (Inbox.has_id d.inbox_message_id)
          (Inbox.completed (utc_text d.processed_at) (Reference.held d.reason d.contract_id))
          db.inbox;
  })

-- The transaction of `complete_budget_scope_denial`, once its arguments are accepted.
unfoldable pub write_denial : Codec → Denial → ExecutionEvent → Action Bool
write_denial codec d event = transaction (do
  message ← gets (λ db. find (Inbox.has_id d.inbox_message_id) db.inbox)
  raise_if (not (Inbox.in_progress message)) invalid_transition
  journal ← gets (lookup_journal d.contract_id d.contract_revision)
  check_journal d event journal
  raise_if (ltb d.processed_at event.occurred_at) budget_clock_rollback
  existing ← gets (λ db. find (denies d.contract_id d.contract_revision) db.autonomy_budget_denial)
  held_json ← store_denial codec d existing
  hold_journal d event journal
  budget ← gets (λ db.
      find (is_budget_of d.operation_id d.contract_id d.contract_revision) db.autonomy_budget)
  settle_budget d.operation_id d.contract_id d.contract_revision (Resolution.denied d.reason)
      event.occurred_at budget
  store_evidence codec d d.m3a
  finish_denial codec d held_json
  pure (is_none existing))

unfoldable pub complete_budget_scope_denial : Codec → Denial → Action Bool
complete_budget_scope_denial codec d = do event ← check_denial d; write_denial codec d event

unfoldable pub budget_denial_event : Codec → Uuid → ℕ → Action (Option MessageEnvelope)
unfolding decode_envelope
budget_denial_event codec contract_id revision = do
  found ← gets (λ db. find (denies contract_id revision) db.autonomy_budget_denial)
  elim found [
    | none ↦ pure none
    | some row ↦ do event ← decode_envelope codec row.held_event_json; pure (some event)
  ]
