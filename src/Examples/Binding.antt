-- ===== src/Examples/Binding.antt =====
-- The properties of the bindings and of the decisions at one intent, context and decision.
use deferred_teleoperation.Base.{
  ◌≡◌, refl, true, false, none, some, List, [], ◌∷◌, arith, find, insert,
}
use deferred_teleoperation.Wire.{
  MessageEnvelope, context_payload, decision_payload, level_payload, command_payload,
}
use deferred_teleoperation.Store.Schema.{IntentRow, ContextRow, Db}
use deferred_teleoperation.Store.Monad.{ok, err, record_conflict}
use deferred_teleoperation.Store.Binding.{Intent, intent_row, bind_m3a_intent}
use deferred_teleoperation.Store.Binding.Durable.{
  BindOp, intent_op, context_op, bind_all, intent_of, intent_bound_forever, intent_conflict_kept,
}
use deferred_teleoperation.Store.Decision.{Decision}
use deferred_teleoperation.Examples.Data.{codec, request, second, empty}

abbrev intent : Intent
intent = record {
  operation_id = 31;
  intent_revision = 1;
  canonical_intent_digest = 500;
  source_id = 1;
  correlation_id = 4;
  semantic_json = 600;
  bound_at = 1000000;
}

abbrev changed : Intent
changed = record intent { semantic_json = 601; bound_at = 2000000 }

abbrev context : MessageEnvelope
context = record request {
  message_id = 13;
  payload = context_payload (record {
    operation_id = 31;
    intent_revision = 1;
    contract_id = 21;
    contract_revision = 1;
    task_id = 41;
    content = 900;
  });
}

abbrev moved : MessageEnvelope
moved = record context {
  payload = context_payload (record {
    operation_id = 31;
    intent_revision = 1;
    contract_id = 21;
    contract_revision = 1;
    task_id = 41;
    content = 901;
  });
}

abbrev bound_intent : IntentRow
bound_intent = record {
  operation_id = 31;
  intent_revision = 1;
  canonical_intent_digest = 500;
  source_id = 1;
  correlation_id = 4;
  semantic_json = 600;
  recorded_at = second 1;
}

abbrev bound_row : ContextRow
bound_row = record {
  contract_id = 21;
  contract_revision = 1;
  operation_id = 31;
  intent_revision = 1;
  task_id = 41;
  context_digest = 900;
  context_json = 900;
  source_id = 1;
  correlation_id = 4;
  bound_at = second 1;
}

abbrev store : Db
store = record empty {
  m3a_intent_binding = bound_intent ∷ [];
  m3a_context_binding = bound_row ∷ [];
}

abbrev claims : List BindOp
claims = intent_op changed ∷ context_op moved 3000000 ∷ intent_op intent ∷ []

abbrev decision : Decision
decision = record {
  contract_id = 21;
  contract_revision = 1;
  operation_id = 31;
  decision_envelope = record request { message_id = 14; payload = decision_payload 1 };
  level_envelope = record request { message_id = 15; payload = level_payload 1 };
  held_event = none;
  business_result = 5;
  recorded_at = 2000000;
  command_envelope = some (record request { message_id = 16; payload = command_payload 1 });
  outgoing = record request { message_id = 14; payload = decision_payload 1 } ∷ [];
}

intent_bound_forever_example : intent_of 31 1 (bind_all codec claims store) ≡ some bound_intent
unfolding find
intent_bound_forever_example = intent_bound_forever codec claims 31 1 bound_intent store refl

intent_conflict_kept_example :
    let after = (bind_m3a_intent codec intent empty).1 in
    let (result, last) = bind_m3a_intent codec changed after in
    (result ≡ err record_conflict)
    × (last.m3a_intent_conflict ≡ insert (intent_row changed) after.m3a_intent_conflict)
    × (bind_m3a_intent codec intent last ≡ (ok false, last))
unfolding find bind_m3a_intent
intent_conflict_kept_example =
    intent_conflict_kept codec intent 601 2000000 empty true refl (omega arith)
