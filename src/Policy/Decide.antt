-- ===== src/Policy/Decide.antt =====
-- `decide_two_button` and `derive_spatial_press_command`.
use mathlib.Core.Option
use deferred_teleoperation.Base.{ℕ, not, Option, none, some, ◌/=◌, if◌then◌else◌, find}
use deferred_teleoperation.Wire.{Text}
use deferred_teleoperation.M3a.{
  EntityDetection, TwoButtonObservation, M3aEnsureLatchedIntent, TwoButtonLevelEvidence,
  TwoButtonAction, execute, reanchor_execute, hold_ambiguous, hold_reference_mismatch,
  hold_context_mismatch, recognize_effect, Reason, BudgetState, not_admitted,
  zero_reservation_required, LocalTwoButtonDecision, SpatialPressCommand, Digests, from_pose,
  level_target_mismatch, level_device_mismatch, level_desired_state_mismatch, already_latched,
  displacement_exceeds_tolerance, reference_still_valid, same_id_reanchored,
}
use deferred_teleoperation.Policy.{Geometry, distance, position}
use deferred_teleoperation.Policy.Reference.{
  valid, refused, verify_reference, verify_current_context, matching_unique_detection, differs_from,
  has_detection_id, detection_of,
}

-- The evidence that one decision is made on.
pub record Evidence : Type 0 where
  pub intent : M3aEnsureLatchedIntent
  pub reference_observation : TwoButtonObservation
  pub current_observation : TwoButtonObservation
  pub level_evidence : Option TwoButtonLevelEvidence
  pub expected_source_id : Option Text
  pub expected_device_id : Option Text
  pub budget_state : BudgetState

-- `_decision`; Policy/Valid has the checks of the decision's constructor.
unfoldable pub decision :
    Evidence
    → TwoButtonAction
    → Reason
    → Option Text
    → Option ℕ
    → BudgetState
    → LocalTwoButtonDecision
decision e action reason selected displacement budget_state = record {
  operation_id = e.intent.operation_id;
  intent_revision = e.intent.intent_revision;
  semantic_effect_id = e.intent.semantic_effect_id;
  reference_observation_id = e.intent.reference_observation_id;
  current_observation_id = e.current_observation.observation_id;
  action = action;
  reason = reason;
  selected_detection_id = selected;
  displacement_m = displacement;
  budget_state = budget_state;
  command_digest = none;
  level_evidence_observation_id =
      Option.map (λ (l : TwoButtonLevelEvidence). l.evidence_observation_id) e.level_evidence;
}

-- `_hold_reference`, `_hold_context` and `_hold_ambiguous` without a displacement or a budget.
abbrev pub hold : Evidence → TwoButtonAction → Reason → LocalTwoButtonDecision
hold e action reason = decision e action reason none none not_admitted

-- What the level evidence decides alone, if it decides.
unfoldable pub level_shortcut :
    Evidence → Option TwoButtonLevelEvidence → Option LocalTwoButtonDecision
unfolding decision
level_shortcut e none = none
level_shortcut e (some l) =
    if l.target_entity_id /= e.intent.target_entity_id
    then some (hold e hold_context_mismatch level_target_mismatch)
    else if differs_from e.expected_device_id l.device_id
    then some (hold e hold_context_mismatch level_device_mismatch)
    else if not l.desired_latched
    then some (hold e hold_reference_mismatch level_desired_state_mismatch)
    else if l.actual_latched
    then some (decision e recognize_effect already_latched none none zero_reservation_required)
    else none

-- The choice between the two detections, by their distance.
unfoldable pub choose :
    Geometry → Evidence → EntityDetection → EntityDetection → LocalTwoButtonDecision
unfolding decision
choose g e reference current =
    let displacement = distance g (position reference.pose) (position current.pose) in
    if g.exceeds displacement e.intent.max_displacement_m
    then decision e hold_ambiguous displacement_exceeds_tolerance none (some displacement)
        e.budget_state
    else if g.is_zero displacement
    then decision e execute reference_still_valid (some reference.detection_id) (some displacement)
        e.budget_state
    else decision e reanchor_execute same_id_reanchored (some current.detection_id)
        (some displacement) e.budget_state

-- `none` is the StopIteration of a reference observation without the reference detection.
unfoldable pub decide_spatial : Geometry → Evidence → Option LocalTwoButtonDecision
unfolding decision choose
decide_spatial g e =
    elim (matching_unique_detection e.current_observation e.intent.target_entity_id) [
      | refused action reason ↦ some (decision e hold_ambiguous reason none none e.budget_state)
      | valid current ↦
          Option.map (λ reference. choose g e reference current)
            (find (has_detection_id e.intent.reference_detection_id)
              e.reference_observation.detections)
    ]

-- The decision once the reference and the context are verified.
unfoldable pub decide_verified : Geometry → Evidence → Option LocalTwoButtonDecision
unfolding level_shortcut
decide_verified g e = elim (level_shortcut e e.level_evidence) [
  | some d ↦ some d
  | none ↦ decide_spatial g e
]

unfoldable pub decide_two_button : Digests → Geometry → Evidence → Option LocalTwoButtonDecision
unfolding decision
decide_two_button h g e = elim (verify_reference h g e.intent e.reference_observation) [
  | refused action reason ↦ some (hold e action reason)
  | valid _ ↦
      elim (verify_current_context h e.intent e.reference_observation e.current_observation
        e.expected_source_id) [
          | refused action reason ↦ some (decision e action reason none none e.budget_state)
          | valid _ ↦ decide_verified g e
        ]
]

-- The observation that the command is taken from, where the decision is to execute.
abbrev pub source_of :
    TwoButtonAction → TwoButtonObservation → TwoButtonObservation → Option TwoButtonObservation
source_of execute reference current = some reference
source_of reanchor_execute reference current = some current
source_of _ reference current = none

-- `none` is a ValueError.
unfoldable pub derive_spatial_press_command :
    Digests
    → LocalTwoButtonDecision
    → (effect_key command_id : Text) → (reference current : TwoButtonObservation)
    → Option SpatialPressCommand
derive_spatial_press_command h d effect_key command_id reference current =
    elim (source_of d.action reference current) [
      | none ↦ none
      | some source ↦ elim d.selected_detection_id [
        | none ↦ none
        | some id ↦ elim (detection_of id source) [
          | none ↦ none
          | some found ↦
              from_pose h command_id effect_key found.pose source.observation_id found.detection_id
        ]
      ]
    ]
