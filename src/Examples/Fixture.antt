-- ===== src/Examples/Fixture.antt =====
-- The properties of the fixture at one command, on the button A.
use deferred_teleoperation.Base.{◌≡◌, refl, true, false, none, some, List, [], ◌∷◌, ◌++◌}
use deferred_teleoperation.M3a.{
  SpatialPressCommand, SpatialBindingReceipt, LocalTwoButtonDecision, are_distinct, all_in_context,
  are_candidates, hold_ambiguous, target_candidate_set_ambiguous, not_admitted, new_command,
  mentions,
}
use deferred_teleoperation.Wire.{applied}
use deferred_teleoperation.Policy.{distance}
use deferred_teleoperation.Policy.Decide.{
  Evidence, decision, decide_spatial, decide_verified, decide_two_button,
}
use deferred_teleoperation.Policy.Reference.{
  verify_reference, verify_current_context, matching_unique_detection,
}
use deferred_teleoperation.Policy.Sound.{is_press}
use deferred_teleoperation.Fixture.{
  Fixture, nominal, swap, button_a, button_b, returns, Line, line_of, binding_row, press_row,
  same_payload, DeviceState, at_a, get, for_each,
}
use deferred_teleoperation.Fixture.Journal.{released, state, read_journal, impulse}
use deferred_teleoperation.Fixture.Press.{
  reference_position, new_binding_row, new_press_row, bound_command, contact_of,
}
use deferred_teleoperation.Fixture.Adapter.{
  SpatialObservation, of_press, bind, press, observe, outcome_of,
}
use deferred_teleoperation.Fixture.Consistent.{IsDevice, IsConsistent}
use deferred_teleoperation.Fixture.Runs.{
  is_fresh_in, bound, stop, next, empty-IsConsistent, Steps-IsConsistent, bound_forever,
}
use deferred_teleoperation.Fixture.Observe.{Repeats, press_refines, press-observe}
use deferred_teleoperation.Fixture.Observation.{
  Names, detection_at, current, observation, swap_never_presses,
}
use deferred_teleoperation.Examples.Policy.{geometry, digests, evidence}

abbrev device : Fixture
device = record {
  digests = digests;
  geometry = geometry;
  binding_id = λ device effect. 5;
  scenario = nominal;
  device_id = 71;
  source_id = 6;
  frame_id = 7;
  calibration_version = 8;
  max_displacement_m = 2;
  collision_radius_m = 25;
}

device-IsDevice : IsDevice device
device-IsDevice = record { named = refl; identified = λ effect. refl }

abbrev command : SpatialPressCommand
command = record {
  command_id = 90;
  effect_key = 91;
  position_m = reference_position button_a;
  frame_id = 7;
  calibration_version = 8;
  source_observation_id = 52;
  source_detection_id = 62;
  command_digest = 2090;
}

abbrev receipt : SpatialBindingReceipt
receipt = record { device_id = 71; effect_key = 91; command_digest = 2090 }

abbrev bound_file : List Line
bound_file = line_of (binding_row (new_binding_row device 91 command 1000000)) ∷ []

made : new_command digests command ≡ some command
unfolding new_command
made = refl

bound_at_first : bind device [] 91 command 1000000 ≡ returns (receipt, bound_file)
unfolding bind for_each get
bound_at_first = refl

bound_again : bind device bound_file 91 command 2000000 ≡ returns (receipt, bound_file)
unfolding bind for_each get same_payload
bound_again = refl

Steps-IsConsistent_example : IsConsistent device bound_file
Steps-IsConsistent_example =
    Steps-IsConsistent device [] bound_file device-IsDevice (empty-IsConsistent device) (
      next [] bound_file bound_file
        (bound [] bound_file 91 command 1000000 receipt made bound_at_first) (stop bound_file))

bound_file-IsConsistent : IsConsistent device bound_file
bound_file-IsConsistent =
    Steps-IsConsistent device [] bound_file device-IsDevice (empty-IsConsistent device) (
      next [] bound_file bound_file
        (bound [] bound_file 91 command 1000000 receipt made bound_at_first) (stop bound_file))

is_bound : bound_command device bound_file 91 ≡ returns command
unfolding bound_command for_each get
is_bound = refl

is_released : state device bound_file ≡ returns released
unfolding state for_each
is_released = refl

is_new : is_fresh_in device 95 bound_file ≡ true
unfolding read_journal mentions for_each
is_new = refl

bound_forever_example : bound_command device bound_file 91 ≡ returns command
bound_forever_example =
    bound_forever device bound_file bound_file 91 command device-IsDevice bound_file-IsConsistent
      (next bound_file bound_file bound_file
        (bound bound_file bound_file 91 command 2000000 receipt made bound_again) (stop bound_file))
      is_bound

press_refines_example :
    (o : SpatialObservation) × (file' : List Line) × (press device bound_file 91 95 3000000
      ≡ returns (o, file'))
    × (state device file' ≡ returns (impulse (contact_of device command) released))
    × (o.outcome ≡ outcome_of (contact_of device command))
    × (o.details.pressed
        ≡ some (contact_of device command, impulse (contact_of device command) released))
press_refines_example =
    press_refines device bound_file 91 command released 95 3000000 device-IsDevice
      bound_file-IsConsistent is_bound is_released is_new

abbrev latched_a : DeviceState
latched_a = record { a_counter = 1; b_counter = 0; a_latched = true; b_latched = false }

abbrev seen : SpatialObservation
seen = record {
  effect_key = 91;
  device_id = 71;
  outcome = applied;
  observed_at = 3000000;
  observation_id = of_press 95;
  details = record {
    command_digest = some 2090;
    pressed = some (at_a, latched_a);
    press_count_for_effect = none;
  };
}

abbrev pressed_file : List Line
pressed_file =
    bound_file ++ line_of (press_row (new_press_row device command latched_a at_a 95 3000000)) ∷ []

pressed_once : press device bound_file 91 95 3000000 ≡ returns (seen, pressed_file)
unfolding press for_each get same_payload distance
pressed_once = refl

press-observe_example :
    (later : SpatialObservation) × (observe device pressed_file 91 4000000 ≡ returns later)
    × Repeats seen later
press-observe_example =
    press-observe device bound_file pressed_file 91 95 3000000 4000000 seen device-IsDevice
      bound_file-IsConsistent is_new pressed_once

abbrev swapped : Fixture
swapped = record device { scenario = swap }

abbrev names : Names
names = record {
  button_name = λ button. elim button [ button_a ↦ 1 | button_b ↦ 2 ];
  detection_id = λ button stage. 62;
  evidence_id = λ source stage revision. 9;
}

abbrev ambiguous : Evidence
ambiguous = record evidence {
  current_observation = record {
    observation_id = 52;
    source_id = 6;
    world_revision = 1;
    observed_at = 1000000;
    produced_at = 1000000;
    frame_id = 7;
    calibration_version = 8;
    detections = detection_at swapped names current 6 1 button_a ∷ [];
    canonical_payload_digest = 1052;
  };
}

abbrev held : LocalTwoButtonDecision
unfolding decision
held = decision ambiguous hold_ambiguous target_candidate_set_ambiguous none none not_admitted

swap_never_presses_example : is_press held.action ≡ false
unfolding observation decide_two_button decision are_distinct mentions all_in_context are_candidates
    verify_reference verify_current_context decide_verified decide_spatial matching_unique_detection
swap_never_presses_example =
    swap_never_presses swapped names 52 1000000 1000000 1 6 button_a ambiguous held refl refl refl
