-- ===== src/Policy/Reference.antt =====
-- `verify_reference`, `_verify_current_context` and `_matching_unique_detection`.
use deferred_teleoperation.Base.{
  Bool, false, not, Option, none, some, List, [], ◌∷◌, ◌==◌, ◌/=◌, if◌then◌else◌, select,
}
use deferred_teleoperation.Wire.{Text}
use deferred_teleoperation.Policy.{Geometry}
use deferred_teleoperation.M3a.{
  EntityDetection, TwoButtonObservation, M3aEnsureLatchedIntent, Digests, recomputed, mentions,
  TwoButtonAction, hold_ambiguous, hold_reference_mismatch, hold_context_mismatch, Reason,
  reference_observation_id_mismatch, reference_observation_digest_invalid, reference_frame_mismatch,
  reference_calibration_mismatch, reference_observation_digest_mismatch,
  reference_world_revision_mismatch, reference_observed_at_mismatch,
  reference_detection_id_mismatch, reference_detection_ambiguous,
  reference_detection_frame_mismatch, reference_detection_calibration_mismatch,
  reference_pose_mismatch, current_source_mismatch, current_frame_mismatch,
  current_calibration_mismatch, current_observation_digest_invalid, target_absent, target_nonunique,
  target_candidate_set_ambiguous, target_not_visible,
}

-- A refusal: the action and the reason; `valid` is the success.
pub data Check {ℓ} (A : Type ℓ) : Type ℓ where
  valid : A → Check A
  refused : TwoButtonAction → Reason → Check A

infixl 5 ◌>>◌
-- `if condition: return refusal`, then the rest.
abbrev pub ◌>>◌ {ℓ} : {A : Type ℓ} → Check (Unit {0}) → Check A → Check A
refused a r >> k = refused a r
valid _ >> k = k

abbrev refuse_if : Bool → TwoButtonAction → Reason → Check (Unit {0})
refuse_if c action reason = if c then refused action reason else valid tt

-- `candidate_entity_ids == (target_entity_id,)`.
abbrev pub is_only : Text → List Text → Bool
is_only target [] = false
is_only target (c ∷ []) = c == target
is_only target (c ∷ d ∷ rest) = false

-- The single element of a list.
abbrev pub single : List EntityDetection → Option EntityDetection
single [] = none
single (d ∷ []) = some d
single (d ∷ e ∷ rest) = none

abbrev pub has_detection_id : Text → EntityDetection → Bool
has_detection_id id d = d.detection_id == id

-- The detection of the observation with the identifier, if there is exactly one.
abbrev pub detection_of : Text → TwoButtonObservation → Option EntityDetection
detection_of id o = single (select (has_detection_id id) o.detections)

-- The checks on the detection that the intent was authored on.
unfoldable pub verify_detection :
    Geometry → M3aEnsureLatchedIntent → EntityDetection → Check (Unit {0})
verify_detection g i d = do
  refuse_if (not (is_only i.target_entity_id d.candidate_entity_ids)) hold_ambiguous
      reference_detection_ambiguous
  refuse_if (d.pose.frame_id /= i.reference_frame_id) hold_context_mismatch
      reference_detection_frame_mismatch
  refuse_if (d.pose.calibration_version /= i.reference_calibration_version) hold_context_mismatch
      reference_detection_calibration_mismatch
  refuse_if (not (g.same_pose d.pose i.reference_pose)) hold_reference_mismatch
      reference_pose_mismatch
  valid tt

unfoldable pub verify_reference :
    Digests → Geometry → M3aEnsureLatchedIntent → TwoButtonObservation → Check (Unit {0})
unfolding verify_detection
verify_reference h g i o = do
  refuse_if (o.observation_id /= i.reference_observation_id) hold_reference_mismatch
      reference_observation_id_mismatch
  refuse_if (o.canonical_payload_digest /= recomputed h o) hold_reference_mismatch
      reference_observation_digest_invalid
  refuse_if (o.frame_id /= i.reference_frame_id) hold_context_mismatch reference_frame_mismatch
  refuse_if (o.calibration_version /= i.reference_calibration_version) hold_context_mismatch
      reference_calibration_mismatch
  refuse_if (o.canonical_payload_digest /= i.reference_digest) hold_reference_mismatch
      reference_observation_digest_mismatch
  refuse_if (o.world_revision /= i.reference_world_revision) hold_reference_mismatch
      reference_world_revision_mismatch
  refuse_if (o.observed_at /= i.reference_observed_at) hold_reference_mismatch
      reference_observed_at_mismatch
  elim (detection_of i.reference_detection_id o) [
    | none ↦ refused hold_reference_mismatch reference_detection_id_mismatch
    | some d ↦ verify_detection g i d
  ]

-- `expected is not None and value != expected`.
abbrev pub differs_from : Option Text → Text → Bool
differs_from none value = false
differs_from (some expected) value = value /= expected

unfoldable pub verify_current_context :
    Digests
    → M3aEnsureLatchedIntent
    → TwoButtonObservation
    → TwoButtonObservation
    → Option Text
    → Check (Unit {0})
verify_current_context h i reference current expected_source_id = do
  refuse_if (differs_from expected_source_id current.source_id) hold_context_mismatch
      current_source_mismatch
  refuse_if (current.source_id /= reference.source_id) hold_context_mismatch current_source_mismatch
  refuse_if (current.frame_id /= i.reference_frame_id) hold_context_mismatch current_frame_mismatch
  refuse_if (current.calibration_version /= i.reference_calibration_version) hold_context_mismatch
      current_calibration_mismatch
  refuse_if (current.canonical_payload_digest /= recomputed h current) hold_context_mismatch
      current_observation_digest_invalid
  valid tt

abbrev pub is_candidate : Text → EntityDetection → Bool
is_candidate target d = mentions target d.candidate_entity_ids

-- The checks on the only detection that mentions the target.
unfoldable pub check_unique : Text → EntityDetection → Check EntityDetection
check_unique target d =
    if not (is_only target d.candidate_entity_ids)
    then refused hold_ambiguous target_candidate_set_ambiguous
    else if not d.visibility
    then refused hold_ambiguous target_not_visible
    else valid d

abbrev pub judge : Text → List EntityDetection → Check EntityDetection
judge target [] = refused hold_ambiguous target_absent
judge target (d ∷ []) = check_unique target d
judge target (d ∷ e ∷ rest) = refused hold_ambiguous target_nonunique

unfoldable pub matching_unique_detection : TwoButtonObservation → Text → Check EntityDetection
unfolding check_unique
matching_unique_detection o target = judge target (select (is_candidate target) o.detections)
