-- ===== src/Wire.antt =====
-- python/src/deferred_teleop/protocol.py: the wire models that the durable store and the services
-- read. Identifiers, UUIDs and other texts are only compared and tested for blankness, so each is
-- a number, and the blank texts are 0.
use deferred_teleoperation.Base.{ℕ, Bool, true, false, Option, ◌==◌}
use deferred_teleoperation.Time.{Instant}

abbrev pub Text : Type 0
Text = ℕ

abbrev pub Uuid : Type 0
Uuid = ℕ

-- `not value.strip()`.
abbrev pub is_blank : Text → Bool
is_blank value = value == 0

pub data ContractState : Type 0 where
  received accepted dispatch_recorded running succeeded failed held cancelled : ContractState

abbrev pub state_eq : ContractState → ContractState → Bool
state_eq received received = true
state_eq accepted accepted = true
state_eq dispatch_recorded dispatch_recorded = true
state_eq running running = true
state_eq succeeded succeeded = true
state_eq failed failed = true
state_eq held held = true
state_eq cancelled cancelled = true
state_eq _ _ = false

-- `CONTRACT_TRANSITIONS`, which `ExecutionEvent.validate_transition` consults.
unfoldable pub may_follow : ContractState → ContractState → Bool
may_follow received accepted = true
may_follow received held = true
may_follow accepted dispatch_recorded = true
may_follow accepted cancelled = true
may_follow accepted held = true
may_follow dispatch_recorded running = true
may_follow running succeeded = true
may_follow running failed = true
may_follow running held = true
may_follow running cancelled = true
may_follow _ _ = false

pub record ExecutionContract : Type 0 where
  pub contract_id : Uuid
  pub contract_revision : ℕ
  pub operation_id : Uuid
  pub assignment_id : Uuid

pub record ExecutionEvent : Type 0 where
  pub event_id : Uuid
  pub contract_id : Uuid
  pub contract_revision : ℕ
  pub previous_state : ContractState
  pub next_state : ContractState
  pub occurred_at : Instant

-- `content` stands for the fields that no modelled operation reads apart from the whole payload.
pub record SpatialContext : Type 0 where
  pub operation_id : Uuid
  pub intent_revision : ℕ
  pub contract_id : Uuid
  pub contract_revision : ℕ
  pub task_id : Uuid
  pub content : ℕ

pub data EffectOutcome : Type 0 where
  applied not_applied unknown : EffectOutcome

pub record EffectEvidence : Type 0 where
  pub operation_id : Uuid
  pub intent_revision : ℕ
  pub contract_id : Uuid
  pub contract_revision : ℕ
  pub effect_key : Text
  pub command_digest : Text
  pub device_id : Text
  pub observed_at : Instant
  pub outcome : EffectOutcome
  pub command_digest_verified : Bool
  pub content : ℕ

pub data MessageType : Type 0 where
  operation_intent operation_grounded operation_plan task_assignment : MessageType
  execution_contract execution_event robot_state robot_articulated_state : MessageType
  robot_forecast site_snapshot prediction_manifest two_button_observation : MessageType
  ensure_latched_intent spatial_context spatial_command spatial_level : MessageType
  spatial_effect spatial_decision : MessageType

-- `Payload`, a union; `other` has the payloads that only pass through the modelled code.
pub data Payload : Type 0 where
  contract_payload : ExecutionContract → Payload
  event_payload : ExecutionEvent → Payload
  context_payload : SpatialContext → Payload
  effect_payload : EffectEvidence → Payload
  command_payload : ℕ → Payload
  level_payload : ℕ → Payload
  decision_payload : ℕ → Payload
  other_payload : MessageType → ℕ → Payload

-- `PAYLOAD_TYPES` read backwards: `validate_envelope` refuses any other message type.
unfoldable pub payload_type : Payload → MessageType
payload_type (contract_payload _) = execution_contract
payload_type (event_payload _) = execution_event
payload_type (context_payload _) = spatial_context
payload_type (effect_payload _) = spatial_effect
payload_type (command_payload _) = spatial_command
payload_type (level_payload _) = spatial_level
payload_type (decision_payload _) = spatial_decision
payload_type (other_payload kind _) = kind

pub record MessageEnvelope : Type 0 where
  pub message_id : Uuid
  pub source_id : Text
  pub source_boot_id : Uuid
  pub source_sequence : ℕ
  pub destination_id : Text
  pub correlation_id : Uuid
  pub causation_id : Option Uuid
  pub created_at : Instant
  pub not_before : Option Instant
  pub expires_at : Option Instant
  pub payload : Payload

-- What the store asks of the libraries: canonical texts, their validation and digests, whether a
-- text matches `sha256:[0-9a-f]{64}`, equality of dumped payloads, and
-- `accepted_at + timedelta(seconds=value)`. `model_validate_json` and `add_seconds` are `none` where
-- they raise. A double is the number of its bit pattern.
pub record Codec : Type 0 where
  pub envelope_json : MessageEnvelope → Text
  pub model_validate_json : Text → Option MessageEnvelope
  pub effect_json : EffectEvidence → Text
  pub context_json : SpatialContext → Text
  pub payload_digest : Text → Text
  pub same_payload : Payload → Payload → Bool
  pub is_digest : Text → Bool
  pub add_seconds : Instant → ℕ → Option Instant
