-- ===== src/Examples/Policy.antt =====
-- The properties of the policy at a button that moved by one unit, with a tolerance of two.
use deferred_teleoperation.Base.{
  false, ℕ, ◌≡◌, ◌+◌, ◌-◌, ◌*◌, refl, true, ◌&&◌, none, some, [], ◌∷◌, ◌==◌, ltb, if◌then◌else◌,
  find,
}
use deferred_teleoperation.M3a.{
  is_valid_intent, Pose, EntityDetection, TwoButtonObservation, M3aEnsureLatchedIntent,
  TwoButtonLevelEvidence, LocalTwoButtonDecision, Digests, recognize_effect, already_latched,
  zero_reservation_required, not_admitted, from_pose, are_distinct, mentions,
}
use deferred_teleoperation.Policy.{Geometry, distance, position}
use deferred_teleoperation.Policy.Reference.{
  valid, verify_reference, verify_current_context, matching_unique_detection,
}
use deferred_teleoperation.Policy.Decide.{
  Evidence, decision, choose, level_shortcut, decide_spatial, decide_verified, decide_two_button,
  derive_spatial_press_command,
}
use deferred_teleoperation.Policy.Sound.{IsReference, IsJustified, decide_two_button-IsJustified}
use deferred_teleoperation.Policy.Recognize.{IsLatched, recognition_sound}
use deferred_teleoperation.Policy.Valid.{IsConstructed, is_valid_decision, decide_two_button_valid}
use deferred_teleoperation.Policy.Command.{derive_lem}

abbrev pub geometry : Geometry
geometry = record {
  same_pose = λ p q. p.x == q.x && p.y == q.y && p.z == q.z && p.orientation == q.orientation;
  subtract = λ a b. (a - b) + (b - a);
  square = λ a. a * a;
  add = λ a b. a + b;
  sqrt = λ a. a;
  exceeds = λ a b. ltb b a;
  is_zero = λ a. a == 0;
}

abbrev pub digests : Digests
digests = record {
  observation_digest = λ o. 1000 + o.observation_id;
  command_digest_of = λ c. 2000 + c.command_id;
  is_spelled = λ t. true;
}

abbrev pose_at : ℕ → Pose
pose_at x = record { x = x; y = 1; z = 2; orientation = 0; frame_id = 7; calibration_version = 8 }

abbrev detection : ℕ → ℕ → EntityDetection
detection id x = record {
  detection_id = id;
  candidate_entity_ids = 1 ∷ [];
  pose = pose_at x;
  visibility = true;
  source_evidence_id = 9;
}

abbrev observed : ℕ → EntityDetection → TwoButtonObservation
observed id d = record {
  observation_id = id;
  source_id = 6;
  world_revision = 1;
  observed_at = 1000000;
  produced_at = 1000000;
  frame_id = 7;
  calibration_version = 8;
  detections = d ∷ [];
  canonical_payload_digest = 1000 + id;
}

abbrev intent : M3aEnsureLatchedIntent
intent = record {
  operation_id = 31;
  intent_revision = 1;
  semantic_effect_id = 41;
  target_entity_id = 1;
  desired_latched = true;
  reference_observation_id = 51;
  reference_detection_id = 61;
  reference_digest = 1051;
  reference_pose = pose_at 4;
  reference_frame_id = 7;
  reference_calibration_version = 8;
  reference_world_revision = 1;
  reference_observed_at = 1000000;
  same_identity_only = true;
  max_displacement_m = 2;
  expires_at = none;
}

abbrev pub evidence : Evidence
evidence = record {
  intent = intent;
  reference_observation = observed 51 (detection 61 4);
  current_observation = observed 52 (detection 62 5);
  level_evidence = none;
  expected_source_id = some 6;
  expected_device_id = none;
  budget_state = not_admitted;
}

abbrev level : TwoButtonLevelEvidence
level = record {
  target_entity_id = 1;
  desired_latched = true;
  actual_latched = true;
  device_id = 71;
  counter = 1;
  observed_at = 2000000;
  evidence_observation_id = 81;
}

abbrev latched_evidence : Evidence
latched_evidence = record evidence { level_evidence = some level }

abbrev decided : LocalTwoButtonDecision
unfolding choose
decided = choose geometry evidence (detection 61 4) (detection 62 5)

abbrev recognised : LocalTwoButtonDecision
unfolding decision
recognised =
    decision latched_evidence recognize_effect already_latched none none zero_reservation_required

decide_two_button-IsJustified_example : IsJustified digests geometry evidence decided
unfolding decide_two_button find choose verify_reference verify_current_context decide_verified
    decide_spatial matching_unique_detection mentions distance
decide_two_button-IsJustified_example =
    decide_two_button-IsJustified digests geometry evidence decided refl refl

recognition_sound_example :
    (l : TwoButtonLevelEvidence) × IsLatched latched_evidence l
    × (r : EntityDetection) × IsReference digests geometry intent (observed 51 (detection 61 4)) r
    × (verify_current_context digests intent
          (observed 51 (detection 61 4))
          (observed 52 (detection 62 5))
          (some 6)
        ≡ valid tt)
unfolding decide_two_button decision level_shortcut decide_verified verify_reference
    verify_current_context
recognition_sound_example = recognition_sound digests geometry latched_evidence recognised refl refl

abbrev justified : IsJustified digests geometry evidence decided
unfolding decide_two_button find choose verify_current_context level_shortcut mentions distance
justified = record {
  reference = detection 61 4;
  current = detection 62 5;
  authored = record {
    only = refl;
    target = refl;
    pose = refl;
    named = refl;
    digest = refl;
    intact = refl;
  };
  target = record { only = refl; alone = refl; visible = refl };
  context = refl;
  unlatched = refl;
  within = refl;
  chosen = refl;
}

derive_lem_example :
    derive_spatial_press_command digests decided 91 90 evidence.reference_observation
      evidence.current_observation
    ≡ (if geometry.is_zero (distance geometry (position (pose_at 4)) (position (pose_at 5)))
        then from_pose digests 90 91 (pose_at 4) 51 61
        else from_pose digests 90 91 (pose_at 5) 52 62)
unfolding decide_two_button find choose verify_current_context level_shortcut mentions distance
    are_distinct
derive_lem_example = derive_lem digests geometry evidence decided 91 90 justified refl refl

built : IsConstructed (λ m. false) (λ x. ltb x 1000) geometry evidence
unfolding is_valid_intent distance
built = record {
  intent = refl;
  current = refl;
  detections = (refl, tt);
  level = refl;
  budget = refl;
  measured = ((refl, tt), tt);
}

decide_two_button_valid_example : is_valid_decision (λ x. ltb x 1000) decided ≡ true
unfolding decide_two_button find choose verify_reference verify_current_context decide_verified
    decide_spatial matching_unique_detection mentions distance
decide_two_button_valid_example =
    decide_two_button_valid (λ m. false) (λ x. ltb x 1000) geometry evidence built digests decided
      refl
