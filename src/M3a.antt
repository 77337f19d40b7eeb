-- ===== src/M3a.antt =====
-- python/src/deferred_teleop/m3a_types.py: the values of the two-button experiment, with the checks
-- that their constructors make. A coordinate is the bit pattern of a double.
use mathlib.Core.Option
use deferred_teleoperation.Base.{
  ℕ, Bool, true, false, not, ◌&&◌, ◌||◌, Option, none, some, List, [], ◌∷◌, ◌==◌, leb, ltb,
  if◌then◌else◌,
}
use deferred_teleoperation.Time.{Instant}
use deferred_teleoperation.Wire.{Text, Uuid, is_blank}

-- A pose of python/src/deferred_teleop/protocol.py; `orientation` is the number of a quaternion.
pub record Pose : Type 0 where
  pub x : ℕ
  pub y : ℕ
  pub z : ℕ
  pub orientation : ℕ
  pub frame_id : Text
  pub calibration_version : Text

pub record EntityDetection : Type 0 where
  pub detection_id : Text
  pub candidate_entity_ids : List Text
  pub pose : Pose
  pub visibility : Bool
  pub source_evidence_id : Text

pub record TwoButtonObservation : Type 0 where
  pub observation_id : Text
  pub source_id : Text
  pub world_revision : ℕ
  pub observed_at : Instant
  pub produced_at : Instant
  pub frame_id : Text
  pub calibration_version : Text
  pub detections : List EntityDetection
  pub canonical_payload_digest : Text

pub record M3aEnsureLatchedIntent : Type 0 where
  pub operation_id : Uuid
  pub intent_revision : ℕ
  pub semantic_effect_id : Text
  pub target_entity_id : Text
  pub desired_latched : Bool
  pub reference_observation_id : Text
  pub reference_detection_id : Text
  pub reference_digest : Text
  pub reference_pose : Pose
  pub reference_frame_id : Text
  pub reference_calibration_version : Text
  pub reference_world_revision : ℕ
  pub reference_observed_at : Instant
  pub same_identity_only : Bool
  pub max_displacement_m : ℕ
  pub expires_at : Option Instant

pub record SpatialPressCommand : Type 0 where
  pub command_id : Text
  pub effect_key : Text
  pub position_m : ℕ × ℕ × ℕ
  pub frame_id : Text
  pub calibration_version : Text
  pub source_observation_id : Text
  pub source_detection_id : Text
  pub command_digest : Text

pub record SpatialBindingReceipt : Type 0 where
  pub device_id : Text
  pub effect_key : Text
  pub command_digest : Text

pub record TwoButtonLevelEvidence : Type 0 where
  pub target_entity_id : Text
  pub desired_latched : Bool
  pub actual_latched : Bool
  pub device_id : Text
  pub counter : ℕ
  pub observed_at : Instant
  pub evidence_observation_id : Text

pub data TwoButtonAction : Type 0 where
  execute reanchor_execute hold_ambiguous hold_reference_mismatch : TwoButtonAction
  hold_context_mismatch recognize_effect : TwoButtonAction

-- The reasons that python/src/deferred_teleop/two_button_policy.py gives.
pub data Reason : Type 0 where
  reference_observation_id_mismatch reference_observation_digest_invalid reference_frame_mismatch :
      Reason
  reference_calibration_mismatch reference_observation_digest_mismatch : Reason
  reference_world_revision_mismatch reference_observed_at_mismatch reference_detection_id_mismatch :
      Reason
  reference_detection_ambiguous reference_detection_frame_mismatch : Reason
  reference_detection_calibration_mismatch reference_pose_mismatch : Reason
  current_source_mismatch current_frame_mismatch current_calibration_mismatch : Reason
  current_observation_digest_invalid level_target_mismatch level_device_mismatch : Reason
  level_desired_state_mismatch already_latched target_absent target_nonunique : Reason
  target_candidate_set_ambiguous target_not_visible displacement_exceeds_tolerance : Reason
  reference_still_valid same_id_reanchored : Reason

-- The texts of `budget_state` that the policy writes, or the caller's.
pub data BudgetState : Type 0 where
  not_admitted zero_reservation_required : BudgetState
  of_caller : Text → BudgetState

pub record LocalTwoButtonDecision : Type 0 where
  pub operation_id : Uuid
  pub intent_revision : ℕ
  pub semantic_effect_id : Text
  pub reference_observation_id : Text
  pub current_observation_id : Text
  pub action : TwoButtonAction
  pub reason : Reason
  pub selected_detection_id : Option Text
  pub displacement_m : Option ℕ
  pub budget_state : BudgetState
  pub command_digest : Option Text
  pub level_evidence_observation_id : Option Text

-- What the module asks of the libraries: `canonical_digest` of a payload (json and hashlib), and whether
-- a digest is spelled `sha256:` with 64 hexadecimal digits.
pub record Digests : Type 0 where
  pub observation_digest : TwoButtonObservation → Text
  pub command_digest_of : SpatialPressCommand → Text
  pub is_spelled : Text → Bool

-- `_payload_without_digest`: the digest is blank.
abbrev pub observation_payload : TwoButtonObservation → TwoButtonObservation
observation_payload o = record o { canonical_payload_digest = 0 }

abbrev pub command_payload : SpatialPressCommand → SpatialPressCommand
command_payload c = record c { command_digest = 0 }

abbrev pub recomputed : Digests → TwoButtonObservation → Text
recomputed d o = d.observation_digest (observation_payload o)

abbrev pub recomputed_command : Digests → SpatialPressCommand → Text
recomputed_command d c = d.command_digest_of (command_payload c)

unfoldable pub mentions : Text → List Text → Bool
mentions id [] = false
mentions id (c ∷ rest) = c == id || mentions id rest

-- `len(set(ids)) == len(ids)`.
unfoldable pub are_distinct : List Text → Bool
unfolding mentions
are_distinct [] = true
are_distinct (c ∷ rest) = not (mentions c rest) && are_distinct rest

abbrev pub any_blank : List Text → Bool
any_blank [] = false
any_blank (t ∷ rest) = is_blank t || any_blank rest

-- `_normalise_candidate_ids`.
unfoldable pub are_candidates : List Text → Bool
unfolding are_distinct
are_candidates [] = false
are_candidates (c ∷ rest) = not (any_blank (c ∷ rest)) && are_distinct (c ∷ rest)

-- `EntityDetection.__post_init__`.
unfoldable pub is_valid_detection : EntityDetection → Bool
unfolding are_candidates
is_valid_detection d =
    not (is_blank d.detection_id)
    && are_candidates d.candidate_entity_ids
    && not (is_blank d.source_evidence_id)

abbrev pub detection_ids : List EntityDetection → List Text
detection_ids [] = []
detection_ids (d ∷ rest) = d.detection_id ∷ detection_ids rest

unfoldable pub all_in_context : Text → Text → List EntityDetection → Bool
all_in_context frame_id calibration_version [] = true
all_in_context frame_id calibration_version (d ∷ rest) =
    d.pose.frame_id == frame_id
    && d.pose.calibration_version == calibration_version
    && all_in_context frame_id calibration_version rest

-- A digest that is supplied must be the expected one and be spelled as one; an empty one is filled in.
-- One that is blank but not empty, which raises, is not modelled.
abbrev pub settle_digest : Digests → Text → Text → Option Text
settle_digest d supplied expected =
    if is_blank supplied
    then some expected
    else if supplied == expected && d.is_spelled supplied
    then some supplied
    else none

-- `TwoButtonObservation(...)`; `none` is an M3aTypeError.
unfoldable pub new_observation : Digests → TwoButtonObservation → Option TwoButtonObservation
unfolding are_distinct all_in_context
new_observation d o =
    if any_blank (o.observation_id ∷ o.source_id ∷ o.frame_id ∷ o.calibration_version ∷ [])
      || o.world_revision == 0
      || ltb o.produced_at o.observed_at
      || not (all_in_context o.frame_id o.calibration_version o.detections)
      || not (are_distinct (detection_ids o.detections))
    then none
    else Option.map (λ digest. record o { canonical_payload_digest = digest })
        (settle_digest d o.canonical_payload_digest (recomputed d o))

-- `M3aEnsureLatchedIntent.__post_init__`, for a finite `max_displacement_m`; `is_negative` is `< 0.0`.
unfoldable pub is_valid_intent : (ℕ → Bool) → M3aEnsureLatchedIntent → Bool
is_valid_intent is_negative i =
    i.intent_revision == 1
    && i.desired_latched
    && not (
        any_blank (
          i.semantic_effect_id ∷ i.target_entity_id ∷ i.reference_observation_id
          ∷ i.reference_detection_id ∷ i.reference_digest ∷ i.reference_frame_id
          ∷ i.reference_calibration_version ∷ []))
    && i.reference_pose.frame_id == i.reference_frame_id
    && i.reference_pose.calibration_version == i.reference_calibration_version
    && leb 1 i.reference_world_revision
    && i.same_identity_only
    && not (is_negative i.max_displacement_m)

-- `SpatialPressCommand(...)` with finite coordinates; `none` is an M3aTypeError.
unfoldable pub new_command : Digests → SpatialPressCommand → Option SpatialPressCommand
new_command d c =
    if any_blank (
      c.command_id ∷ c.effect_key ∷ c.frame_id ∷ c.calibration_version ∷ c.source_observation_id
      ∷ c.source_detection_id ∷ [])
    then none
    else Option.map (λ digest. record c { command_digest = digest })
        (settle_digest d c.command_digest (recomputed_command d c))

-- `SpatialPressCommand.from_pose`.
unfoldable pub from_pose :
    Digests
    → (command_id effect_key : Text) → Pose
    → (source_observation_id source_detection_id : Text) → Option SpatialPressCommand
unfolding new_command
from_pose d command_id effect_key pose source_observation_id source_detection_id =
    new_command d (record {
      command_id = command_id;
      effect_key = effect_key;
      position_m = (pose.x, pose.y, pose.z);
      frame_id = pose.frame_id;
      calibration_version = pose.calibration_version;
      source_observation_id = source_observation_id;
      source_detection_id = source_detection_id;
      command_digest = 0;
    })
