-- ===== src/Fixture/Calls.antt =====
-- What the calls of the adapter do to a consistent journal.
use deferred_teleoperation.Base.{
  ◌≡◌, refl, sym, ap, ◌∙◌, true, false, none, some, List, [], ◌∷◌, ◌++◌, arith, ◌==◌, inl, inr, ◌⊎◌,
  Option-cases, Bool-cases, ==_refl, All,
}
use deferred_teleoperation.Time.{Instant}
use deferred_teleoperation.Wire.{Text, is_blank}
use deferred_teleoperation.M3a.{
  SpatialPressCommand, SpatialBindingReceipt, new_command, recomputed_command,
}
use deferred_teleoperation.Fixture.{
  Fixture, returns, Reply-cases, PressRow, binding_row, press_row, Line, line_of, Bindings, get,
  same_payload,
}
use deferred_teleoperation.Fixture.Journal.{impulse}
use deferred_teleoperation.Fixture.Press.{
  bind_command, bound_command, press_at, press_at_internal, assert_command_integrity,
  new_binding_row, new_press_row, result_of, contact_of,
}
use deferred_teleoperation.Fixture.Adapter.{bind, press, SpatialObservation, outcome_of, of_press}
use deferred_teleoperation.Fixture.Consistent.{IsConsistent, IsMade, state_of}
use deferred_teleoperation.Fixture.Steps.{bindings_lem, state_lem}

pub get-IsMade :
    (f : Fixture) (effect : Text) (known : Bindings) (c : SpatialPressCommand)
    → All (IsMade f) known
    → get effect known ≡ some c
    → IsMade f (effect, c)
unfolding get
get-IsMade f effect [] c made found = absurd (ground arith)
get-IsMade f effect (b ∷ rest) c made found = elim (Bool-cases (b.0 == effect)) [
  | inl hit ↦
      let key : b.0 ≡ effect = ground arith in
      let value : b.1 ≡ c = ground arith in
      (
        rw value at made.0.0,
        ap (λ (c : SpatialPressCommand). c.effect_key) (sym value) ∙ made.0.1 ∙ key,
      )
  | inr miss ↦ get-IsMade f effect rest c made.1 (rw miss at found)
]

pub new_command-digest :
    (f : Fixture) (c : SpatialPressCommand)
    → new_command f.digests c ≡ some c
    → c.command_digest ≡ recomputed_command f.digests c
unfolding new_command
new_command-digest f c made = ground arith

pub same_payload_refl : (c : SpatialPressCommand) → same_payload c c ≡ true
unfolding same_payload
same_payload_refl c = ground (
  arith,
  ==_refl c.command_id,
  ==_refl c.effect_key,
  ==_refl c.position_m.0,
  ==_refl c.position_m.1,
  ==_refl c.position_m.2,
  ==_refl c.frame_id,
  ==_refl c.calibration_version,
  ==_refl c.source_observation_id,
  ==_refl c.source_detection_id,
)

pub bound_command_lem :
    (f : Fixture) (file : List Line) (j : IsConsistent f file) (effect : Text)
    (c : SpatialPressCommand)
    → bound_command f file effect ≡ returns c
    → (is_blank effect ≡ false) × (get effect j.known ≡ some c)
unfolding bound_command
bound_command_lem f file j effect c e = ground (arith, bindings_lem f file j)

-- A repeated binding leaves the file as it is; a new one is appended.
pub bind_command_cases :
    (f : Fixture) (file : List Line) (j : IsConsistent f file) (effect : Text)
    (c : SpatialPressCommand) (now : Instant) (receipt : SpatialBindingReceipt) (file' : List Line)
    → bind_command f file effect c now ≡ returns (receipt, file')
    → (is_blank effect ≡ false)
      × (c.effect_key ≡ effect)
      × (((get effect j.known ≡ none)
            × (file' ≡ file ++ line_of (binding_row (new_binding_row f effect c now)) ∷ []))
          ⊎ ((b : SpatialPressCommand) × (get effect j.known ≡ some b)
              × (b.command_digest ≡ c.command_digest)
              × (same_payload b c ≡ true)
              × (file' ≡ file)))
unfolding bind_command assert_command_integrity
bind_command_cases f file j effect c now receipt file' e =
    elim (Option-cases (get effect j.known)) [
      | inl missing ↦ (
        ground (arith, bindings_lem f file j),
        ground (arith, bindings_lem f file j),
        inl (missing, ground (arith, bindings_lem f file j)),
      )
      | inr (b, found) ↦ (
        ground (arith, bindings_lem f file j),
        ground (arith, bindings_lem f file j),
        inr (
          b,
          found,
          ground (arith, bindings_lem f file j),
          ground (arith, bindings_lem f file j),
          ground (arith, bindings_lem f file j),
        ),
      )
    ]

pub press_at_lem :
    (f : Fixture) (file : List Line) (j : IsConsistent f file) (c : SpatialPressCommand)
    (press_id : Text) (now : Instant)
    → new_command f.digests c ≡ some c
    → is_blank c.effect_key ≡ false
    → get c.effect_key j.known ≡ some c
    → let hit = contact_of f c in
      let after = impulse hit (state_of f file j) in
      press_at f file c press_id now
      ≡ returns (
        result_of f c after hit press_id now,
        file ++ line_of (press_row (new_press_row f c after hit press_id now)) ∷ [],
      )
unfolding press_at press_at_internal assert_command_integrity
press_at_lem f file j c press_id now made named found = ground (
  arith,
  bindings_lem f file j,
  state_lem f file j,
  new_command-digest f c made,
  same_payload_refl c,
  ==_refl c.command_digest,
)

abbrev pub pressed_row :
    (f : Fixture) (file : List Line)
    → IsConsistent f file
    → SpatialPressCommand
    → Text
    → Instant
    → PressRow
pressed_row f file j c press_id now =
    new_press_row f c (impulse (contact_of f c) (state_of f file j)) (contact_of f c) press_id now

abbrev pub observation_of :
    (f : Fixture) (file : List Line)
    → IsConsistent f file
    → Text
    → SpatialPressCommand
    → Text
    → Instant
    → SpatialObservation
observation_of f file j effect c press_id now = record {
  effect_key = effect;
  device_id = f.device_id;
  outcome = outcome_of (contact_of f c);
  observed_at = now;
  observation_id = of_press press_id;
  details = record {
    command_digest = some c.command_digest;
    pressed = some (contact_of f c, impulse (contact_of f c) (state_of f file j));
    press_count_for_effect = none;
  };
}

-- A press of a bound key always succeeds, with the bound command, whatever was pressed before.
pub press_lem :
    (f : Fixture) (file : List Line) (j : IsConsistent f file) (effect : Text)
    (c : SpatialPressCommand) (press_id : Text) (now : Instant)
    → bound_command f file effect ≡ returns c
    → press f file effect press_id now
      ≡ returns (
        observation_of f file j effect c press_id now,
        file ++ line_of (press_row (pressed_row f file j c press_id now)) ∷ [],
      )
unfolding press
press_lem f file j effect c press_id now bound =
    let (named, found) = bound_command_lem f file j effect c bound in
    let (made, keyed) = get-IsMade f effect j.known c j.made found in
    let done =
      press_at_lem f file j c press_id now made (rw keyed named)
        (ap (λ key. get key j.known) keyed ∙ found) in
    rw (bound, done) refl

pub press_bound :
    (f : Fixture) (file : List Line) (effect : Text) (press_id : Text) (now : Instant)
    (done : SpatialObservation × List Line)
    → press f file effect press_id now ≡ returns done
    → (c : SpatialPressCommand) × (bound_command f file effect ≡ returns c)
unfolding press
press_bound f file effect press_id now done e = elim (Reply-cases (bound_command f file effect)) [
  | inl (c, bound) ↦ (c, bound)
  | inr (error, unbound) ↦ absurd (ground arith)
]

pub bind-bind_command :
    (f : Fixture) (file : List Line) (effect : Text) (c : SpatialPressCommand) (now : Instant)
    (done : SpatialBindingReceipt × List Line)
    → bind f file effect c now ≡ returns done
    → bind_command f file effect c now ≡ returns done
unfolding bind
bind-bind_command f file effect c now done e =
    elim (Reply-cases (bind_command f file effect c now)) [
      | inl (d, bound) ↦ ground arith
      | inr (error, refusal) ↦ absurd (ground arith)
    ]
