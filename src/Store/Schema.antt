-- ===== src/Store/Schema.antt =====
-- The tables of the store (`_migration_1` to `_migration_9`), a record for each row and the tables
-- in the order of insertion. A JSON column holds the number of its text.
use deferred_teleoperation.Base.{ℕ, Option, List}
use deferred_teleoperation.Time.{UtcText}
use deferred_teleoperation.Wire.{Text, Uuid, ContractState, MessageType}

pub data ProcessingState : Type 0 where
  received processing processed failed : ProcessingState

-- `handler_result_reference`, a text that the handler chose or `held:<reason>:<contract_id>`.
pub data Reference : Type 0 where
  plain : Text → Reference
  held : Text → Uuid → Reference

pub record InboxRow : Type 0 where
  pub message_id : Uuid
  pub source_id : Text
  pub source_boot_id : Uuid
  pub source_sequence : ℕ
  pub correlation_id : Uuid
  pub received_at : UtcText
  pub payload_type : MessageType
  pub payload_json : Text
  pub processing_state : ProcessingState
  pub processed_at : Option UtcText
  pub handler_result_reference : Option Reference
  pub error_json : Option Text

pub data AckState : Type 0 where
  pending acked : AckState

pub record OutboxRow : Type 0 where
  pub message_id : Uuid
  pub destination_id : Text
  pub correlation_id : Uuid
  pub created_at : UtcText
  pub not_before : Option UtcText
  pub expires_at : Option UtcText
  pub payload_json : Text
  pub attempt_count : ℕ
  pub next_attempt_at : Option UtcText
  pub ack_state : AckState
  pub acked_at : Option UtcText

pub record JournalRow : Type 0 where
  pub contract_id : Uuid
  pub contract_revision : ℕ
  pub operation_id : Uuid
  pub task_id : Uuid
  pub state : ContractState
  pub effect_key : Text
  pub effect_count : ℕ
  pub accepted_at : UtcText
  pub dispatch_recorded_at : Option UtcText
  pub dispatch_device_id : Option Text
  pub effect_started_at : Option UtcText
  pub terminal_at : Option UtcText
  pub terminal_result_json : Option Text

-- The texts that the code writes into `autonomy_budget.resolution`.
pub data Resolution : Type 0 where
  applied outcome_unknown not_applied_after_uncertain_dispatch : Resolution
  denied : Text → Resolution

-- `max_elapsed_seconds` is the bit pattern of a positive double.
pub record BudgetRow : Type 0 where
  pub operation_id : Uuid
  pub bound_contract_id : Uuid
  pub bound_contract_revision : ℕ
  pub effect_key : Text
  pub command_digest : Option Text
  pub attempt_limit : ℕ
  pub action_limit : ℕ
  pub max_elapsed_seconds : ℕ
  pub window_started_at : UtcText
  pub deadline_at : UtcText
  pub clock_high_water_at : UtcText
  pub attempts_reserved : ℕ
  pub actions_reserved : ℕ
  pub dispatch_reserved_at : Option UtcText
  pub resolution : Option Resolution

pub record DenialRow : Type 0 where
  pub contract_id : Uuid
  pub contract_revision : ℕ
  pub operation_id : Uuid
  pub reason : Text
  pub first_envelope_json : Text
  pub held_event_json : Text
  pub recorded_at : UtcText

-- `m3a_intent_binding`, and `m3a_intent_conflict` with the reason that the code always writes
-- left out.
pub record IntentRow : Type 0 where
  pub operation_id : Uuid
  pub intent_revision : ℕ
  pub canonical_intent_digest : Text
  pub source_id : Text
  pub correlation_id : Uuid
  pub semantic_json : Text
  pub recorded_at : UtcText

pub record ContextRow : Type 0 where
  pub contract_id : Uuid
  pub contract_revision : ℕ
  pub operation_id : Uuid
  pub intent_revision : ℕ
  pub task_id : Uuid
  pub context_digest : Text
  pub context_json : Text
  pub source_id : Text
  pub correlation_id : Uuid
  pub bound_at : UtcText

-- `m3a_context_conflict`, without the reason that the code always writes.
pub record ContextConflictRow : Type 0 where
  pub contract_id : Uuid
  pub contract_revision : ℕ
  pub operation_id : Uuid
  pub context_digest : Text
  pub context_json : Text
  pub source_id : Text
  pub correlation_id : Uuid
  pub recorded_at : UtcText

-- `m3a_effect_binding` and `m3a_effect_diagnostic`, and the columns that `m3a_effect_conflict` has in
-- common with them.
pub record EffectRow : Type 0 where
  pub contract_id : Uuid
  pub contract_revision : ℕ
  pub operation_id : Uuid
  pub intent_revision : ℕ
  pub effect_digest : Text
  pub effect_json : Text
  pub effect_envelope_json : Text
  pub source_id : Text
  pub destination_id : Text
  pub correlation_id : Uuid
  pub recorded_at : UtcText

-- The texts of `m3a_effect_conflict.reason`.
pub data ConflictReason : Type 0 where
  effect_conflict diagnostic_conflict : ConflictReason
  divergence : Text → ConflictReason

pub record EffectConflictRow : Type 0 where
  pub effect : EffectRow
  pub reason : ConflictReason

pub record DecisionRow : Type 0 where
  pub contract_id : Uuid
  pub contract_revision : ℕ
  pub operation_id : Uuid
  pub decision_envelope_json : Text
  pub level_envelope_json : Text
  pub held_event_json : Option Text
  pub command_envelope_json : Option Text
  pub business_result : Text
  pub recorded_at : UtcText

pub record Db : Type 0 where
  pub inbox : List InboxRow
  pub outbox : List OutboxRow
  pub execution_journal : List JournalRow
  pub autonomy_budget : List BudgetRow
  pub autonomy_budget_denial : List DenialRow
  pub m3a_intent_binding : List IntentRow
  pub m3a_intent_conflict : List IntentRow
  pub m3a_decision : List DecisionRow
  pub m3a_context_binding : List ContextRow
  pub m3a_context_conflict : List ContextConflictRow
  pub m3a_effect_binding : List EffectRow
  pub m3a_effect_diagnostic : List EffectRow
  pub m3a_effect_conflict : List EffectConflictRow
