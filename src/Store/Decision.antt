-- ===== src/Store/Decision.antt =====
-- `record_m3a_decision`: one immutable decision of the Robot for a contract, with its consequences.
use deferred_teleoperation.Base.{
  ℕ, Bool, true, false, not, ◌&&◌, ◌||◌, Option, none, some, List, ◌==◌, ◌/=◌, opt_eq, find, insert,
  if◌then◌else◌,
}
use mathlib.Core.Option
use deferred_teleoperation.Time.{Instant, utc_text}
use deferred_teleoperation.Wire.{
  Text, Uuid, Codec, MessageEnvelope, Payload, command_payload, event_payload, is_blank,
}
use deferred_teleoperation.Store.Schema.{DecisionRow, Db}
use deferred_teleoperation.Store.Monad.{
  StorageError, value_error, record_conflict, Result, ok, err, Action, pure, raise, gets, ◌>>=◌,
  ◌>>◌, raise_if, modify, transaction,
}
use deferred_teleoperation.Store.Outbox.{insert_all}
use deferred_teleoperation.Store.Denial.{decides}
pub mod Repeated

pub record Decision : Type 0 where
  pub contract_id : Uuid
  pub contract_revision : ℕ
  pub operation_id : Uuid
  pub decision_envelope : MessageEnvelope
  pub level_envelope : MessageEnvelope
  pub held_event : Option MessageEnvelope
  pub business_result : Text
  pub recorded_at : Instant
  pub command_envelope : Option MessageEnvelope
  pub outgoing : List MessageEnvelope

-- `held_event is not None and not isinstance(held_event.payload, ExecutionEvent)`.
abbrev pub no_event : Option MessageEnvelope → Bool
no_event none = false
no_event (some envelope) = elim envelope.payload [ event_payload _ ↦ false | _ ↦ true ]

-- The same test of the command.
abbrev pub no_command : Option MessageEnvelope → Bool
no_command none = false
no_command (some envelope) = elim envelope.payload [ command_payload _ ↦ false | _ ↦ true ]

unfoldable pub decision_row : Codec → Decision → DecisionRow
decision_row codec d = record {
  contract_id = d.contract_id;
  contract_revision = d.contract_revision;
  operation_id = d.operation_id;
  decision_envelope_json = codec.envelope_json d.decision_envelope;
  level_envelope_json = codec.envelope_json d.level_envelope;
  held_event_json = Option.map codec.envelope_json d.held_event;
  command_envelope_json = Option.map codec.envelope_json d.command_envelope;
  business_result = d.business_result;
  recorded_at = utc_text d.recorded_at;
}

-- The comparison with the stored decision; its time is not compared.
abbrev pub same_decision : DecisionRow → DecisionRow → Bool
same_decision a b =
    a.operation_id == b.operation_id
    && a.decision_envelope_json == b.decision_envelope_json
    && a.level_envelope_json == b.level_envelope_json
    && opt_eq a.held_event_json b.held_event_json
    && opt_eq a.command_envelope_json b.command_envelope_json
    && a.business_result == b.business_result

abbrev pub lookup_decision : Uuid → ℕ → Db → Option DecisionRow
lookup_decision contract_id revision db = find (decides contract_id revision) db.m3a_decision

-- The transaction of `record_m3a_decision`.
unfoldable pub write_decision : Codec → Decision → Action Bool
unfolding decision_row
write_decision codec d = transaction (do
  existing ← gets (lookup_decision d.contract_id d.contract_revision)
  elim existing [
    | some row ↦ do
      raise_if (not (same_decision row (decision_row codec d))) record_conflict
      insert_all codec d.outgoing
      pure false
    | none ↦ do
      modify (λ db. record db { m3a_decision = insert (decision_row codec d) db.m3a_decision })
      insert_all codec d.outgoing
      pure true
  ])

unfoldable pub record_m3a_decision : Codec → Decision → Action Bool
record_m3a_decision codec d = do
  raise_if (d.contract_revision /= 1) value_error
  raise_if (no_event d.held_event) value_error
  raise_if (no_command d.command_envelope) value_error
  raise_if (is_blank d.business_result) value_error
  write_decision codec d
