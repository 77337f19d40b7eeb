-- ===== src/Store/Effect.antt =====
-- `bind_m3a_effect`, `bind_m3a_effect_diagnostic` and `record_m3a_effect_conflict`: the first verified
-- proof of an effect, the first unverified one, and every proof that differs.
use deferred_teleoperation.Base.{
  ℕ, Bool, true, false, not, ◌&&◌, ◌||◌, Option, none, some, List, ◌==◌, ◌/=◌, if◌then◌else◌, find,
  insert,
}
use deferred_teleoperation.Time.{Instant, utc_text}
use deferred_teleoperation.Wire.{
  Text, Uuid, Codec, MessageEnvelope, Payload, effect_payload, EffectEvidence, EffectOutcome,
  applied, not_applied, unknown, is_blank,
}
use deferred_teleoperation.Store.Schema.{
  EffectRow, EffectConflictRow, ConflictReason, effect_conflict, diagnostic_conflict, divergence,
  Db,
}
use deferred_teleoperation.Store.Monad.{
  StorageError, value_error, integrity_error, record_conflict, Result, ok, err, Action, pure, gets,
  or_raise, ◌>>=◌, ◌>>◌, raise_if, modify, transaction,
}
use deferred_teleoperation.Store.Binding.{Bound, bound, duplicate, conflict, answer}
pub mod Proofs

abbrev pub effect_of : MessageEnvelope → Option EffectEvidence
effect_of envelope = elim envelope.payload [ effect_payload effect ↦ some effect | _ ↦ none ]

unfoldable pub effect_row : Codec → MessageEnvelope → EffectEvidence → Instant → EffectRow
effect_row codec envelope effect recorded_at = record {
  contract_id = effect.contract_id;
  contract_revision = effect.contract_revision;
  operation_id = effect.operation_id;
  intent_revision = effect.intent_revision;
  effect_digest = codec.payload_digest (codec.effect_json effect);
  effect_json = codec.effect_json effect;
  effect_envelope_json = codec.envelope_json envelope;
  source_id = envelope.source_id;
  destination_id = envelope.destination_id;
  correlation_id = envelope.correlation_id;
  recorded_at = utc_text recorded_at;
}

abbrev pub proves : Uuid → ℕ → EffectRow → Bool
proves contract_id revision row =
    row.contract_id == contract_id && row.contract_revision == revision

-- The comparison with the stored proof: neither its envelope nor its time is compared.
abbrev pub same_effect : EffectRow → EffectRow → Bool
same_effect a b =
    a.operation_id == b.operation_id
    && a.intent_revision == b.intent_revision
    && a.effect_digest == b.effect_digest
    && a.effect_json == b.effect_json
    && a.source_id == b.source_id
    && a.destination_id == b.destination_id
    && a.correlation_id == b.correlation_id

abbrev pub add_conflict : EffectRow → ConflictReason → Db → Db
add_conflict row reason db = record db {
  m3a_effect_conflict = insert (record { effect = row; reason = reason }) db.m3a_effect_conflict;
}

abbrev pub is_unknown : EffectOutcome → Bool
is_unknown unknown = true
is_unknown _ = false

-- The transaction of `bind_m3a_effect`; `duplicate` is the answer to an unverified effect, too.
unfoldable pub write_binding : Bool → EffectRow → Action Bound
write_binding verified row = transaction (do
  existing ← gets (λ db. find (proves row.contract_id row.contract_revision) db.m3a_effect_binding)
  elim existing [
    | some old ↦
        if same_effect old row
        then pure duplicate
        else (do modify (add_conflict row effect_conflict); pure conflict)
    | none ↦
        if verified
        then (do
          modify (λ db. record db { m3a_effect_binding = insert row db.m3a_effect_binding })
          pure bound)
        else pure duplicate
  ])

unfoldable pub bind_m3a_effect : Codec → MessageEnvelope → Instant → Action Bool
unfolding write_binding
bind_m3a_effect codec envelope bound_at = do
  effect ← or_raise (effect_of envelope) value_error
  raise_if (effect.intent_revision /= 1 || effect.contract_revision /= 1) value_error
  found ← write_binding effect.command_digest_verified (effect_row codec envelope effect bound_at)
  answer found

-- The transaction of `bind_m3a_effect_diagnostic`; the table admits revision 1 only.
unfoldable pub write_diagnostic : EffectRow → Action Bound
write_diagnostic row = transaction (do
  existing ←
      gets (λ db. find (proves row.contract_id row.contract_revision) db.m3a_effect_diagnostic)
  elim existing [
    | some old ↦
        if same_effect old row
        then pure duplicate
        else (do modify (add_conflict row diagnostic_conflict); pure conflict)
    | none ↦ do
      raise_if (row.contract_revision /= 1 || row.intent_revision /= 1) integrity_error
      modify (λ db. record db { m3a_effect_diagnostic = insert row db.m3a_effect_diagnostic })
      pure bound
  ])

unfoldable pub bind_m3a_effect_diagnostic : Codec → MessageEnvelope → Instant → Action Bool
unfolding write_diagnostic
bind_m3a_effect_diagnostic codec envelope recorded_at = do
  effect ← or_raise (effect_of envelope) value_error
  raise_if (effect.command_digest_verified || not (is_unknown effect.outcome)) value_error
  found ← write_diagnostic (effect_row codec envelope effect recorded_at)
  answer found

unfoldable pub record_m3a_effect_conflict :
    Codec → MessageEnvelope → Text → Instant → Action (Unit {0})
record_m3a_effect_conflict codec envelope reason recorded_at = do
  effect ← or_raise (effect_of envelope) value_error
  raise_if (is_blank reason) value_error
  transaction
      (modify (add_conflict (effect_row codec envelope effect recorded_at) (divergence reason)))
