-- ===== src/External/Dummy.antt =====
-- `PersistentDummyExternalEffect`: a button outside the Robot's store, with a file of its presses.
use mathlib.Core.Option
use deferred_teleoperation.Base.{
  ℕ, Bool, false, ◌||◌, Option, none, some, List, [], ◌∷◌, ◌++◌, ◌==◌, ◌/=◌, if◌then◌else◌, length,
  select,
}
use deferred_teleoperation.Time.{Instant}
use deferred_teleoperation.Wire.{Text, is_blank, EffectOutcome, applied, not_applied}

pub record PressRecord : Type 0 where
  pub press_id : Text
  pub effect_key : Text
  pub device_id : Text
  pub pressed_at : Instant

-- A line of the file. `malformed` is no JSON object, or one with a field that is missing or ill-typed.
pub data Line : Type 0 where
  blank malformed : Line
  line_of : PressRecord → Line

-- `observation_outcome` is the observation that a caller forces.
pub record Device : Type 0 where
  pub device_id : Text
  pub observation_outcome : Option EffectOutcome

-- The observation, with its details.
pub record DummyObservation : Type 0 where
  pub effect_key : Text
  pub device_id : Text
  pub outcome : EffectOutcome
  pub observed_at : Instant
  pub observation_id : Text
  pub press_count_for_effect : ℕ
  pub latest_press_at : Option Instant

abbrev pub is_seen : Text → List PressRecord → Bool
is_seen press_id [] = false
is_seen press_id (r ∷ rest) = r.press_id == press_id || is_seen press_id rest

-- The checks on one record; `seen_press_ids` is the set of the identifiers of the records so far.
unfoldable pub read_record : Text → List PressRecord → PressRecord → Option (List PressRecord)
read_record device_id records r =
    if is_blank r.press_id || is_blank r.effect_key || is_blank r.device_id
    then none
    else if is_seen r.press_id records
    then none
    else if r.device_id /= device_id
    then none
    else some (records ++ r ∷ [])

-- The loop of `_read_records`; `none` is an ExternalEffectError.
unfoldable pub read_lines : Text → List PressRecord → List Line → Option (List PressRecord)
read_lines device_id records [] = some records
read_lines device_id records (blank ∷ rest) = read_lines device_id records rest
read_lines device_id records (malformed ∷ rest) = none
read_lines device_id records (line_of r ∷ rest) = elim (read_record device_id records r) [
  | none ↦ none
  | some grown ↦ read_lines device_id grown rest
]

unfoldable pub read_records : Device → List Line → Option (List PressRecord)
read_records d file = read_lines d.device_id [] file

abbrev pub is_for : Text → PressRecord → Bool
is_for effect r = r.effect_key == effect

abbrev pub last_time : List PressRecord → Option Instant
last_time [] = none
last_time (r ∷ []) = some r.pressed_at
last_time (r ∷ q ∷ rest) = last_time (q ∷ rest)

abbrev pub natural_outcome : ℕ → EffectOutcome
natural_outcome presses = if presses == 0 then not_applied else applied

-- The observation that the records of the key give.
unfoldable pub observation_of : Device → Text → Instant → Text → List PressRecord → DummyObservation
observation_of d effect now observation_id matching = record {
  effect_key = effect;
  device_id = d.device_id;
  outcome = Option.get_or d.observation_outcome (natural_outcome (length matching));
  observed_at = now;
  observation_id = observation_id;
  press_count_for_effect = length matching;
  latest_press_at = last_time matching;
}

-- `observe`; `observation_id` is the text of `uuid4()`.
unfoldable pub observe : Device → List Line → Text → Instant → Text → Option DummyObservation
observe d file effect now observation_id =
    if is_blank effect
    then none
    else Option.map
        (λ records. observation_of d effect now observation_id (select (is_for effect) records))
        (read_records d file)

-- `press`: the file keeps the new record even where the observation raises.
unfoldable pub press :
    Device
    → List Line
    → Text
    → Text
    → Instant
    → Instant
    → Text
    → Option DummyObservation × List Line
press d file effect press_id now observed_at observation_id =
    if is_blank effect
    then (none, file)
    else let pressed = line_of (record {
      press_id = press_id;
      effect_key = effect;
      device_id = d.device_id;
      pressed_at = now;
    }) in
      (observe d (file ++ pressed ∷ []) effect observed_at observation_id, file ++ pressed ∷ [])
