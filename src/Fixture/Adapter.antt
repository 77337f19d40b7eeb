-- ===== src/Fixture/Adapter.antt =====
-- `SpatialExternalEffectAdapter`, and the level sensor.
use deferred_teleoperation.Base.{
  ℕ, Bool, true, ◌||◌, Option, none, some, List, [], ◌∷◌, ◌==◌, ◌/=◌, length, select,
}
use deferred_teleoperation.Time.{Instant}
use deferred_teleoperation.Wire.{Text, is_blank, EffectOutcome, applied, not_applied}
use deferred_teleoperation.M3a.{SpatialPressCommand, SpatialBindingReceipt, TwoButtonLevelEvidence}
use deferred_teleoperation.Fixture.{
  Fixture, Button, button_a, button_b, fixture_error, binding_conflict, Reply, returns, raises,
  ◌>>=◌, ◌>>◌, raise_if, ButtonContact, no_contact, PressRow, Line, DeviceState,
}
use deferred_teleoperation.Fixture.Journal.{read_journal, state, press_rows}
use deferred_teleoperation.Fixture.Press.{bind_command, bound_command, press_at}

-- The name of a button, and its part of the device's state.
abbrev pub counter_of : Button → DeviceState → ℕ
counter_of button_a s = s.a_counter
counter_of button_b s = s.b_counter

abbrev pub latched_of : Button → DeviceState → Bool
latched_of button_a s = s.a_latched
latched_of button_b s = s.b_latched

-- `level_evidence` for a button with its name and the identifier that the caller gives.
unfoldable pub level_evidence :
    Fixture → List Line → Button → Text → Instant → Text → Reply TwoButtonLevelEvidence
unfolding state
level_evidence f file button name now evidence_observation_id = do
  levels ← state f file
  returns (record {
    target_entity_id = name;
    desired_latched = true;
    actual_latched = latched_of button levels;
    device_id = f.device_id;
    counter = counter_of button levels;
    observed_at = now;
    evidence_observation_id = evidence_observation_id;
  })

unfoldable pub bind :
    Fixture
    → List Line
    → Text
    → SpatialPressCommand
    → Instant
    → Reply (SpatialBindingReceipt × List Line)
unfolding bind_command
bind f file effect command now = do
  done ← bind_command f file effect command now
  raise_if (done.0.device_id /= f.device_id || done.0.effect_key /= effect) fixture_error
  raise_if (done.0.command_digest /= command.command_digest) binding_conflict
  returns done

abbrev pub outcome_of : ButtonContact → EffectOutcome
outcome_of no_contact = not_applied
outcome_of _ = applied

-- What an observation says of an effect. The identifier is the press's, or that of no press; the
-- details are the digest, the contact and the state after the press, and the number of presses.
pub data SpatialObservationId : Type 0 where
  of_press : Text → SpatialObservationId
  no_press : Text → SpatialObservationId

pub record Details : Type 0 where
  pub command_digest : Option Text
  pub pressed : Option (ButtonContact × DeviceState)
  pub press_count_for_effect : Option ℕ

pub record SpatialObservation : Type 0 where
  pub effect_key : Text
  pub device_id : Text
  pub outcome : EffectOutcome
  pub observed_at : Instant
  pub observation_id : SpatialObservationId
  pub details : Details

unfoldable pub press :
    Fixture → List Line → Text → Text → Instant → Reply (SpatialObservation × List Line)
unfolding bound_command press_at
press f file effect press_id now = do
  command ← bound_command f file effect
  done ← press_at f file command press_id now
  returns (
    record {
      effect_key = effect;
      device_id = f.device_id;
      outcome = outcome_of done.0.contact;
      observed_at = done.0.pressed_at;
      observation_id = of_press done.0.press_id;
      details = record {
        command_digest = some done.0.command_digest;
        pressed = some (done.0.contact, done.0.state);
        press_count_for_effect = none;
      };
    },
    done.1,
  )

abbrev pub presses_for : Text → PressRow → Bool
presses_for effect p = p.effect_key == effect

abbrev pub last_of : List PressRow → Option PressRow
last_of [] = none
last_of (p ∷ []) = some p
last_of (p ∷ q ∷ rest) = last_of (q ∷ rest)

abbrev state_after : PressRow → DeviceState
state_after p = record {
  a_counter = p.a_counter;
  b_counter = p.b_counter;
  a_latched = p.a_latched;
  b_latched = p.b_latched;
}

abbrev pub observed_press : Fixture → Text → ℕ → PressRow → SpatialObservation
observed_press f effect presses p = record {
  effect_key = effect;
  device_id = f.device_id;
  outcome = outcome_of p.contact;
  observed_at = p.pressed_at;
  observation_id = of_press p.press_id;
  details = record {
    command_digest = some p.command_digest;
    pressed = some (p.contact, state_after p);
    press_count_for_effect = some presses;
  };
}

-- The digest of the bound command, where there is one. Every error of a journal is a
-- `SpatialFixtureError`, which the call catches.
abbrev digest_if_bound : Reply SpatialPressCommand → Option Text
digest_if_bound (returns command) = some command.command_digest
digest_if_bound (raises _) = none

-- The observation that the press rows of the key give; the latest stands last.
unfoldable pub latest : Fixture → List Line → Text → Instant → List PressRow → SpatialObservation
unfolding bound_command
latest f file effect now matching = elim (last_of matching) [
  | some p ↦ observed_press f effect (length matching) p
  | none ↦ record {
    effect_key = effect;
    device_id = f.device_id;
    outcome = not_applied;
    observed_at = now;
    observation_id = no_press effect;
    details = record {
      command_digest = digest_if_bound (bound_command f file effect);
      pressed = none;
      press_count_for_effect = some 0;
    };
  }
]

unfoldable pub observe : Fixture → List Line → Text → Instant → Reply SpatialObservation
unfolding read_journal latest
observe f file effect now = do
  raise_if (is_blank effect) fixture_error
  rows ← read_journal f file
  returns (latest f file effect now (select (presses_for effect) (press_rows rows)))
