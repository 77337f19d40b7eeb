-- ===== src/Policy/Command.antt =====
-- The command that `derive_spatial_press_command` takes from a decision to press.
use deferred_teleoperation.Base.{
  ◌≡◌, refl, Bool, true, false, some, List, [], ◌∷◌, arith, if◌then◌else◌, select, Bool-cases, inl,
  inr, ==_refl, find_sound,
}
use deferred_teleoperation.Wire.{Text}
use deferred_teleoperation.M3a.{
  EntityDetection, LocalTwoButtonDecision, Digests, from_pose, mentions, are_distinct,
  detection_ids,
}
use deferred_teleoperation.Policy.{Geometry, distance, position}
use deferred_teleoperation.Policy.Reference.{single, has_detection_id, is_candidate}
use deferred_teleoperation.Policy.Decide.{Evidence, decision, choose, derive_spatial_press_command}
use deferred_teleoperation.Policy.Sound.{is_press, IsJustified, find-single}

select-absent :
    (id : Text) (ds : List EntityDetection)
    → mentions id (detection_ids ds) ≡ false
    → select (has_detection_id id) ds ≡ []
unfolding mentions
select-absent id [] e = refl
select-absent id (d ∷ ds) e = ground (arith, select-absent id ds)

mentions-select :
    (q : EntityDetection → Bool) (ds : List EntityDetection) (c : EntityDetection)
    → select q ds ≡ c ∷ []
    → mentions c.detection_id (detection_ids ds) ≡ true
unfolding mentions
mentions-select q [] c e = absurd (ground arith)
mentions-select q (d ∷ ds) c e = elim (Bool-cases (q d)) [
  | inr misses ↦ ground (arith, mentions-select q ds c)
  | inl meets ↦ ground (arith, ==_refl c.detection_id)
]

-- With distinct identifiers, the only detection that meets a test is the only one with its identifier.
single-select :
    (q : EntityDetection → Bool) (ds : List EntityDetection) (c : EntityDetection)
    → select q ds ≡ c ∷ []
    → are_distinct (detection_ids ds) ≡ true
    → single (select (has_detection_id c.detection_id) ds) ≡ some c
unfolding are_distinct
single-select q [] c e distinct = absurd (ground arith)
single-select q (d ∷ ds) c e distinct = elim (Bool-cases (q d)) [
  | inr misses ↦ ground (arith, single-select q ds c, mentions-select q ds c)
  | inl meets ↦ ground (arith, ==_refl c.detection_id, select-absent c.detection_id ds)
]

-- For a justified decision to press, and a current observation with distinct detection
-- identifiers, the command is constructed from the authored detection's pose and observation if
-- nothing moved, and from the current detection's pose and observation otherwise.
pub derive_lem :
    (h : Digests) (g : Geometry) (e : Evidence) (d : LocalTwoButtonDecision)
    (effect_key command_id : Text) (j : IsJustified h g e d)
    → is_press d.action ≡ true
    → are_distinct (detection_ids e.current_observation.detections) ≡ true
    → derive_spatial_press_command h d effect_key command_id e.reference_observation
        e.current_observation
      ≡ (if g.is_zero (distance g (position j.reference.pose) (position j.current.pose))
          then from_pose h command_id effect_key j.reference.pose
              e.reference_observation.observation_id j.reference.detection_id
          else from_pose h command_id effect_key j.current.pose e.current_observation.observation_id
              j.current.detection_id)
unfolding derive_spatial_press_command choose decision
derive_lem h g e d effect_key command_id j press distinct =
    let reference_id =
      find_sound (has_detection_id e.intent.reference_detection_id)
        e.reference_observation.detections j.reference
        (find-single (has_detection_id e.intent.reference_detection_id)
          e.reference_observation.detections j.reference j.authored.only) in
    let current_id =
      single-select (is_candidate e.intent.target_entity_id) e.current_observation.detections
        j.current j.target.only distinct in
    let zero_test = g.is_zero (distance g (position j.reference.pose) (position j.current.pose)) in
    elim (Bool-cases zero_test) [
      | inl unmoved ↦ ground (arith, j.chosen, j.within, j.authored.only)
      | inr moved ↦ ground (arith, j.chosen, j.within, j.authored.only)
    ]
