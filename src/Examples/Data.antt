-- ===== src/Examples/Data.antt =====
-- Test data: a store with one message, one contract and its budget, and libraries that can be
-- evaluated.
use deferred_teleoperation.Base.{ℕ, ◌+◌, true, none, some, [], ◌∷◌, ◌==◌, if◌then◌else◌}
use deferred_teleoperation.Time.{UtcText}
use deferred_teleoperation.Wire.{
  MessageEnvelope, Codec, contract_payload, event_payload, MessageType, ContractState,
  EffectOutcome,
}
use deferred_teleoperation.External.{Observation, AdapterValue}
use deferred_teleoperation.Store.Schema.{
  ProcessingState, AckState, InboxRow, OutboxRow, JournalRow, BudgetRow, Db,
}
use deferred_teleoperation.Store.Journal.{Claim}
use deferred_teleoperation.Store.Budget.{BudgetPolicy}
use deferred_teleoperation.Store.Outcome.{ResultCodec, Resolve}

-- The contract 21 of operation 31, as the message 11.
abbrev pub request : MessageEnvelope
request = record {
  message_id = 11;
  source_id = 1;
  source_boot_id = 2;
  source_sequence = 0;
  destination_id = 3;
  correlation_id = 4;
  causation_id = some 10;
  created_at = 1000000;
  not_before = none;
  expires_at = none;
  payload =
      contract_payload
        (record { contract_id = 21; contract_revision = 1; operation_id = 31; assignment_id = 41 });
}

-- Its success, as the message 12.
abbrev pub success : MessageEnvelope
success = record {
  message_id = 12;
  source_id = 3;
  source_boot_id = 5;
  source_sequence = 1;
  destination_id = 1;
  correlation_id = 4;
  causation_id = some 11;
  created_at = 4000000;
  not_before = none;
  expires_at = none;
  payload = event_payload (record {
    event_id = 51;
    contract_id = 21;
    contract_revision = 1;
    previous_state = ContractState.running;
    next_state = ContractState.succeeded;
    occurred_at = 4000000;
  });
}

abbrev pub codec : Codec
codec = record {
  envelope_json = λ e. e.message_id + 100;
  model_validate_json =
      λ t. if t == 111 then some request else if t == 112 then some success else none;
  effect_json = λ e. e.content;
  context_json = λ c. c.content;
  payload_digest = λ t. t;
  same_payload = λ a b. true;
  is_digest = λ t. true;
  add_seconds = λ t v. some (t + 60000000);
}

abbrev pub values : ResultCodec
values = record { same_value = λ a b. true; result_json = λ m. some 7 }

abbrev pub claim : Claim
claim = record {
  contract_id = 21;
  contract_revision = 1;
  operation_id = 31;
  task_id = 41;
  effect_key = 61;
}

-- One attempt, one action, 60.0 seconds.
abbrev pub policy : BudgetPolicy
policy = record { attempt_limit = 1; action_limit = 1; max_elapsed_seconds = 0x404e000000000000 }

abbrev pub second : ℕ → UtcText
second s = record { second = s; fraction = 0; is_timestamp = true }

abbrev pub accepted_contract : JournalRow
accepted_contract = record {
  contract_id = 21;
  contract_revision = 1;
  operation_id = 31;
  task_id = 41;
  state = ContractState.accepted;
  effect_key = 61;
  effect_count = 0;
  accepted_at = second 1;
  dispatch_recorded_at = none;
  dispatch_device_id = none;
  effect_started_at = none;
  terminal_at = none;
  terminal_result_json = none;
}

-- Dispatched to the device 71 in second 2.
abbrev pub dispatched_contract : JournalRow
dispatched_contract = record accepted_contract {
  state = ContractState.dispatch_recorded;
  dispatch_recorded_at = some (second 2);
  dispatch_device_id = some 71;
}

abbrev pub concluded_contract : JournalRow
concluded_contract = record dispatched_contract {
  state = ContractState.succeeded;
  terminal_at = some (second 4);
  terminal_result_json = some 7;
}

abbrev pub budget : BudgetRow
budget = record {
  operation_id = 31;
  bound_contract_id = 21;
  bound_contract_revision = 1;
  effect_key = 61;
  command_digest = none;
  attempt_limit = 1;
  action_limit = 1;
  max_elapsed_seconds = 0x404e000000000000;
  window_started_at = second 1;
  deadline_at = second 61;
  clock_high_water_at = second 1;
  attempts_reserved = 0;
  actions_reserved = 0;
  dispatch_reserved_at = none;
  resolution = none;
}

abbrev pub received_request : InboxRow
received_request = record {
  message_id = 11;
  source_id = 1;
  source_boot_id = 2;
  source_sequence = 0;
  correlation_id = 4;
  received_at = second 1;
  payload_type = MessageType.execution_contract;
  payload_json = 111;
  processing_state = ProcessingState.received;
  processed_at = none;
  handler_result_reference = none;
  error_json = none;
}

abbrev pub waiting_success : OutboxRow
waiting_success = record {
  message_id = 12;
  destination_id = 1;
  correlation_id = 4;
  created_at = second 4;
  not_before = none;
  expires_at = none;
  payload_json = 112;
  attempt_count = 0;
  next_attempt_at = none;
  ack_state = AckState.pending;
  acked_at = none;
}

abbrev pub empty : Db
empty = record {
  inbox = [];
  outbox = [];
  execution_journal = [];
  autonomy_budget = [];
  autonomy_budget_denial = [];
  m3a_intent_binding = [];
  m3a_intent_conflict = [];
  m3a_decision = [];
  m3a_context_binding = [];
  m3a_context_conflict = [];
  m3a_effect_binding = [];
  m3a_effect_diagnostic = [];
  m3a_effect_conflict = [];
}

abbrev pub with_contract : JournalRow → Db
with_contract row = record empty { execution_journal = row ∷ []; autonomy_budget = budget ∷ [] }

abbrev pub with_inbox : InboxRow → Db
with_inbox row = record empty { inbox = row ∷ [] }

abbrev pub with_outbox : OutboxRow → Db
with_outbox row = record empty { outbox = row ∷ [] }

abbrev pub proof_of_effect : Observation
proof_of_effect = record {
  effect_key = 61;
  device_id = 71;
  outcome = EffectOutcome.applied;
  observed_at = 3000000;
  observation_id = 81;
  details = 0;
}

abbrev pub resolve : Resolve
resolve = record {
  contract_id = 21;
  contract_revision = 1;
  observation = some (AdapterValue.typed proof_of_effect);
  expected_device_id = some 71;
  terminal_state = none;
  terminal_result = [];
  occurred_at = 4000000;
  terminal_event = success;
  outgoing = [];
}
