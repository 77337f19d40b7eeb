-- ===== src/Fixture/Press.antt =====
-- `bind_command`, `bound_command`, `press_at` and the construction of a fixture.
use deferred_teleoperation.Base.{
  ℕ, Bool, true, false, not, ◌&&◌, ◌||◌, none, some, List, [], ◌∷◌, ◌++◌, ◌==◌, ◌/=◌, if◌then◌else◌,
}
use deferred_teleoperation.Time.{Instant}
use deferred_teleoperation.Wire.{Text, is_blank}
use deferred_teleoperation.M3a.{
  SpatialPressCommand, SpatialBindingReceipt, command_payload, recomputed_command, from_pose,
}
use deferred_teleoperation.Policy.{distance}
use deferred_teleoperation.Fixture.{
  Fixture, FixtureScenario, nominal, boundary, epsilon, swap, already_latched, Button, button_a,
  button_b, fixture_error, binding_conflict, value_error, Reply, returns, raises, ◌>>=◌, ◌>>◌,
  raise_if, ButtonContact, at_a, at_b, no_contact, canonical_text, BindingRow, PressRow,
  binding_row, press_row, Line, line_of, DeviceState, SpatialPressResult, Point, same_payload, get,
}
use deferred_teleoperation.Fixture.Journal.{read_journal, bindings, impulse, state, press_rows}

-- The doubles 0.1, 0.2, 0.4, 0.6 and 1e-6.
abbrev pub reference_position : Button → Point
reference_position button_a = (0x3fd999999999999a, 0x3fb999999999999a, 0x3fc999999999999a)
reference_position button_b = (0x3fe3333333333333, 0x3fb999999999999a, 0x3fc999999999999a)

abbrev shifted : Fixture → ℕ → Point
shifted f x = let p = reference_position button_a in (f.geometry.add p.0 x, p.1, p.2)

-- `_scenario_positions`: the reference positions are those of `reference_position`.
unfoldable pub current_position : Fixture → Button → Point
current_position f button_a = elim f.scenario [
  | nominal ↦ reference_position button_a
  | boundary ↦ shifted f f.max_displacement_m
  | epsilon ↦ (
    f.geometry.add (shifted f f.max_displacement_m).0 0x3eb0c6f7a0b5ed8d,
    (reference_position button_a).1,
    (reference_position button_a).2,
  )
  | swap ↦ shifted f 0x3fc999999999999a
  | already_latched ↦ reference_position button_a
]
current_position f button_b = elim f.scenario [
  | swap ↦ reference_position button_a
  | _ ↦ reference_position button_b
]

-- `_distance(position, hidden_position) <= collision_radius_m`.
unfoldable pub touches : Fixture → Point → Button → Bool
unfolding current_position
touches f position button = not (
    f.geometry.exceeds (distance f.geometry position (current_position f button))
      f.collision_radius_m)

unfoldable pub resolve_contact : Fixture → Point → Text → Text → ButtonContact
unfolding touches
resolve_contact f position frame_id calibration_version =
    if frame_id /= f.frame_id || calibration_version /= f.calibration_version
    then no_contact
    else if touches f position button_a
    then if touches f position button_b then no_contact else at_a
    else if touches f position button_b
    then at_b
    else no_contact

unfoldable pub assert_command_integrity : Fixture → SpatialPressCommand → Reply (Unit {0})
assert_command_integrity f c = do
  raise_if (c.command_digest /= recomputed_command f.digests c) fixture_error
  raise_if (is_blank c.effect_key) fixture_error

abbrev pub receipt_of : Fixture → Text → Text → SpatialBindingReceipt
receipt_of f effect digest = record {
  device_id = f.device_id;
  effect_key = effect;
  command_digest = digest;
}

abbrev pub new_binding_row : Fixture → Text → SpatialPressCommand → Instant → BindingRow
new_binding_row f effect c now = record {
  binding_id = f.binding_id f.device_id effect;
  effect_key = effect;
  device_id = f.device_id;
  command_bytes = canonical_text (command_payload c);
  command_digest = c.command_digest;
  bound_at = now;
}

-- `bind_command`: the receipt and the file after it; a call that raises leaves the file as it is.
unfoldable pub bind_command :
    Fixture
    → List Line
    → Text
    → SpatialPressCommand
    → Instant
    → Reply (SpatialBindingReceipt × List Line)
unfolding assert_command_integrity bindings
bind_command f file effect command now = do
  raise_if (is_blank effect) fixture_error
  raise_if (command.effect_key /= effect) binding_conflict
  assert_command_integrity f command
  known ← bindings f file
  elim (get effect known) [
    | some existing ↦
        if existing.command_digest /= command.command_digest || not (same_payload existing command)
        then raises binding_conflict
        else returns (receipt_of f effect existing.command_digest, file)
    | none ↦ returns (
      receipt_of f effect command.command_digest,
      file ++ line_of (binding_row (new_binding_row f effect command now)) ∷ [],
    )
  ]

unfoldable pub bound_command : Fixture → List Line → Text → Reply SpatialPressCommand
unfolding bindings
bound_command f file effect = do
  raise_if (is_blank effect) fixture_error
  known ← bindings f file
  elim (get effect known) [ none ↦ raises fixture_error | some command ↦ returns command ]

abbrev pub new_press_row :
    Fixture → SpatialPressCommand → DeviceState → ButtonContact → Text → Instant → PressRow
new_press_row f c after contact press_id now = record {
  press_id = press_id;
  effect_key = c.effect_key;
  device_id = f.device_id;
  command_bytes = canonical_text (command_payload c);
  command_digest = c.command_digest;
  position_m = c.position_m;
  frame_id = c.frame_id;
  calibration_version = c.calibration_version;
  contact = contact;
  a_counter = after.a_counter;
  b_counter = after.b_counter;
  a_latched = after.a_latched;
  b_latched = after.b_latched;
  pressed_at = now;
}

abbrev pub result_of :
    Fixture
    → SpatialPressCommand
    → DeviceState
    → ButtonContact
    → Text
    → Instant
    → SpatialPressResult
result_of f c after contact press_id now = record {
  press_id = press_id;
  effect_key = c.effect_key;
  device_id = f.device_id;
  contact = contact;
  state = after;
  pressed_at = now;
  command_digest = c.command_digest;
}

abbrev pub contact_of : Fixture → SpatialPressCommand → ButtonContact
contact_of f c = resolve_contact f c.position_m c.frame_id c.calibration_version

-- `_press_at_internal`; `press_id` is the text of `uuid4()`.
unfoldable pub press_at_internal :
    Fixture
    → List Line
    → SpatialPressCommand
    → Text
    → Instant
    → Reply (SpatialPressResult × List Line)
unfolding resolve_contact state impulse
press_at_internal f file command press_id now = do
  before ← state f file
  let after = impulse (contact_of f command) before
  returns (
    result_of f command after (contact_of f command) press_id now,
    file
        ++ line_of (press_row (new_press_row f command after (contact_of f command) press_id now))
          ∷ [],
  )

unfoldable pub press_at :
    Fixture
    → List Line
    → SpatialPressCommand
    → Text
    → Instant
    → Reply (SpatialPressResult × List Line)
unfolding assert_command_integrity bindings press_at_internal
press_at f file command press_id now = do
  assert_command_integrity f command
  known ← bindings f file
  elim (get command.effect_key known) [
    | none ↦ raises fixture_error
    | some binding ↦
        if binding.command_digest /= command.command_digest || not (same_payload binding command)
        then raises binding_conflict
        else press_at_internal f file command press_id now
  ]

-- `_seed_prior_impulse`, with the texts of its command.
unfoldable pub seed_prior_impulse :
    Fixture
    → List Line
    → (command_id effect_key observation_id detection_id : Text) → Text
    → Instant
    → Reply (List Line)
unfolding press_at_internal current_position
seed_prior_impulse f file command_id effect_key observation_id detection_id press_id now =
    let position = current_position f button_a in
    elim (from_pose f.digests command_id effect_key
      (record {
        x = position.0;
        y = position.1;
        z = position.2;
        orientation = 0;
        frame_id = f.frame_id;
        calibration_version = f.calibration_version;
      })
      observation_id detection_id) [
        | none ↦ raises value_error
        | some command ↦ press_at_internal f file command press_id now >>= (λ done. returns done.1)
      ]

abbrev is_seeded : FixtureScenario → Bool
is_seeded already_latched = true
is_seeded _ = false

abbrev is_empty : List PressRow → Bool
is_empty [] = true
is_empty _ = false

-- `TwoButtonFixture(...)` for finite numbers that are not negative: the file after it.
unfoldable pub new_fixture :
    Fixture
    → List Line
    → (command_id effect_key observation_id detection_id : Text) → Text
    → Instant
    → Reply (List Line)
unfolding read_journal seed_prior_impulse
new_fixture f file command_id effect_key observation_id detection_id press_id now = do
  raise_if
      (is_blank f.device_id
        || is_blank f.source_id
        || is_blank f.frame_id
        || is_blank f.calibration_version)
      fixture_error
  raise_if (f.collision_radius_m == 0) value_error
  rows ← read_journal f file
  if is_seeded f.scenario && is_empty (press_rows rows)
      then seed_prior_impulse f file command_id effect_key observation_id detection_id press_id now
      else returns file
