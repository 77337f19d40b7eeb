-- ===== src/Fixture/Observation.antt =====
-- `reference_observation` and `current_observation`, and what the policy makes of two swapped buttons.
use deferred_teleoperation.Base.{
  ℕ, ◌≡◌, refl, sym, ap, ◌∙◌, Bool, true, false, not, Option, none, some, List, [], ◌∷◌, arith,
  if◌then◌else◌, inl, inr, Bool-cases, select,
}
use deferred_teleoperation.Time.{Instant}
use deferred_teleoperation.Wire.{Text}
use deferred_teleoperation.M3a.{
  Pose, EntityDetection, TwoButtonObservation, LocalTwoButtonDecision, is_valid_detection,
  new_observation,
}
use deferred_teleoperation.Policy.Reference.{is_only, is_candidate}
use deferred_teleoperation.Policy.Decide.{Evidence, decide_two_button}
use deferred_teleoperation.Policy.Sound.{is_press, decide_two_button-IsJustified}
use deferred_teleoperation.Fixture.{Fixture, swap, Button, button_a, button_b, Point}
use deferred_teleoperation.Fixture.Press.{reference_position, current_position}

pub data Stage : Type 0 where
  reference current : Stage

-- The texts that the fixture formats.
pub record Names : Type 0 where
  pub button_name : Button → Text
  pub detection_id : Button → Stage → Text
  pub evidence_id : Text → Stage → ℕ → Text

-- `_pose`.
abbrev pub pose_of : Fixture → Point → Pose
pose_of f p = record {
  x = p.0;
  y = p.1;
  z = p.2;
  orientation = 0;
  frame_id = f.frame_id;
  calibration_version = f.calibration_version;
}

unfoldable pub position_at : Fixture → Stage → Button → Point
unfolding current_position
position_at f reference button = reference_position button
position_at f current button = current_position f button

-- What the detector takes the button for: the swapped buttons cannot be told apart.
unfoldable pub candidates : Fixture → Names → Stage → Button → List Text
candidates f names reference button = names.button_name button ∷ []
candidates f names current button = elim f.scenario [
  | swap ↦ names.button_name button_a ∷ names.button_name button_b ∷ []
  | _ ↦ names.button_name button ∷ []
]

abbrev pub detection_at : Fixture → Names → Stage → Text → ℕ → Button → EntityDetection
detection_at f names stage source world_revision button = record {
  detection_id = names.detection_id button stage;
  candidate_entity_ids = candidates f names stage button;
  pose = pose_of f (position_at f stage button);
  visibility = true;
  source_evidence_id = names.evidence_id source stage world_revision;
}

-- `_observation` with every argument supplied; `none` is an M3aTypeError.
unfoldable pub observation :
    Fixture
    → Names
    → Stage
    → (observation_id : Text) → (observed_at produced_at : Instant) → (world_revision : ℕ)
    → (source_id : Text) → Button
    → Option TwoButtonObservation
unfolding candidates position_at new_observation is_valid_detection
observation f names stage observation_id observed_at produced_at world_revision source_id button =
    let detection = detection_at f names stage source_id world_revision button in
    if not (is_valid_detection detection)
    then none
    else new_observation f.digests (record {
      observation_id = observation_id;
      source_id = source_id;
      world_revision = world_revision;
      observed_at = observed_at;
      produced_at = produced_at;
      frame_id = f.frame_id;
      calibration_version = f.calibration_version;
      detections = detection ∷ [];
      canonical_payload_digest = 0;
    })

observation-detections :
    (f : Fixture) (names : Names) (stage : Stage) (id : Text) (observed produced : Instant)
    (revision : ℕ) (source : Text) (button : Button) (o : TwoButtonObservation)
    → observation f names stage id observed produced revision source button ≡ some o
    → o.detections ≡ detection_at f names stage source revision button ∷ []
unfolding observation new_observation
observation-detections f names stage id observed produced revision source button o e = ground arith

selected_alone :
    (p : EntityDetection → Bool) (shown c : EntityDetection)
    → select p (shown ∷ []) ≡ c ∷ []
    → shown ≡ c
selected_alone p shown c e = elim (Bool-cases (p shown)) [
  | inl hit ↦ ground arith
  | inr miss ↦ absurd (ground arith)
]

swapped_candidates :
    (f : Fixture) (names : Names) (button : Button)
    → f.scenario ≡ swap
    → candidates f names current button
      ≡ names.button_name button_a ∷ names.button_name button_b ∷ []
unfolding candidates
swapped_candidates f names button swapped = rw swapped refl

-- In the scenario of two swapped buttons, no decision on a current observation of the fixture is
-- to press, whatever the intent, the reference, the level evidence and the target.
pub swap_never_presses :
    (f : Fixture) (names : Names) (id : Text) (observed produced : Instant) (revision : ℕ)
    (source : Text) (button : Button) (e : Evidence) (d : LocalTwoButtonDecision)
    → f.scenario ≡ swap
    → observation f names current id observed produced revision source button
      ≡ some e.current_observation
    → decide_two_button f.digests f.geometry e ≡ some d
    → is_press d.action ≡ false
swap_never_presses f names id observed produced revision source button e d swapped seen decided =
    elim (Bool-cases (is_press d.action)) [
      | inr held ↦ held
      | inl press ↦
          let j = decide_two_button-IsJustified f.digests f.geometry e d decided press in
          let shown = detection_at f names current source revision button in
          let seen_alone =
            observation-detections f names current id observed produced revision source button
              e.current_observation seen in
          let same : shown ≡ j.current =
            selected_alone (is_candidate e.intent.target_entity_id) shown j.current (
              ap (select (is_candidate e.intent.target_entity_id)) (sym seen_alone)
              ∙ j.target.only) in
          let both = swapped_candidates f names button swapped in
          let alone : is_only e.intent.target_entity_id shown.candidate_entity_ids ≡ true =
            ap (λ (c : EntityDetection). is_only e.intent.target_entity_id c.candidate_entity_ids)
              same
            ∙ j.target.alone in
          absurd (ground (arith, rw both at alone))
    ]
