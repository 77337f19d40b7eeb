-- ===== src/Examples/Effect.antt =====
-- The properties of the proofs of effects at one proof, with and without a verified digest.
use deferred_teleoperation.Base.{◌≡◌, refl, true, false, some, List, [], ◌∷◌, find}
use deferred_teleoperation.Wire.{MessageEnvelope, effect_payload, EffectEvidence, EffectOutcome}
use deferred_teleoperation.Store.Schema.{EffectRow, Db}
use deferred_teleoperation.Store.Effect.{bind_m3a_effect, bind_m3a_effect_diagnostic}
use deferred_teleoperation.Store.Effect.Proofs.{
  EffectOp, bind_op, diagnostic_op, conflict_op, apply_all, proof_of, proof_bound_forever,
  unverified_never_binds,
}
use deferred_teleoperation.Examples.Data.{codec, request, second, empty}

abbrev evidence : EffectEvidence
evidence = record {
  operation_id = 31;
  intent_revision = 1;
  contract_id = 21;
  contract_revision = 1;
  effect_key = 61;
  command_digest = 500;
  device_id = 71;
  observed_at = 3000000;
  outcome = EffectOutcome.applied;
  command_digest_verified = true;
  content = 900;
}

abbrev doubtful : EffectEvidence
doubtful = record evidence {
  outcome = EffectOutcome.unknown;
  command_digest_verified = false;
  content = 901;
}

abbrev message : EffectEvidence → MessageEnvelope
message effect = record request { message_id = 17; payload = effect_payload effect }

abbrev bound_effect : EffectRow
bound_effect = record {
  contract_id = 21;
  contract_revision = 1;
  operation_id = 31;
  intent_revision = 1;
  effect_digest = 900;
  effect_json = 900;
  effect_envelope_json = 117;
  source_id = 1;
  destination_id = 3;
  correlation_id = 4;
  recorded_at = second 4;
}

abbrev store : Db
store = record empty { m3a_effect_binding = bound_effect ∷ [] }

abbrev reports : List EffectOp
reports =
    bind_op (message doubtful) 5000000
    ∷ diagnostic_op (message doubtful) 5000000
    ∷ conflict_op (message doubtful) 9 6000000
    ∷ bind_op (message evidence) 7000000
    ∷ []

proof_bound_forever_example : proof_of 21 1 (apply_all codec reports store) ≡ some bound_effect
unfolding find
proof_bound_forever_example = proof_bound_forever codec reports 21 1 bound_effect store refl

unverified_never_binds_example :
    ((bind_m3a_effect codec (message doubtful) 5000000 store).1.m3a_effect_binding
      ≡ bound_effect ∷ [])
    × ((bind_m3a_effect_diagnostic codec (message doubtful) 5000000 store).1.m3a_effect_binding
        ≡ bound_effect ∷ [])
unverified_never_binds_example =
    unverified_never_binds codec (message doubtful) doubtful 5000000 store refl refl
