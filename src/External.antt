-- ===== src/External.antt =====
-- python/src/deferred_teleop/external_effect.py: what an adapter reports about an effect outside the
-- Robot's store.
pub mod Dummy
pub mod Presses
use deferred_teleoperation.Base.{ℕ, Bool, false, ◌||◌, Option, none, some, ◌/=◌, if◌then◌else◌}
use deferred_teleoperation.Time.{Instant}
use deferred_teleoperation.Wire.{Text, is_blank, EffectOutcome}

-- `ExternalEffectObservation`; `details` is forensic and never read.
pub record Observation : Type 0 where
  pub effect_key : Text
  pub device_id : Text
  pub outcome : EffectOutcome
  pub observed_at : Instant
  pub observation_id : Text
  pub details : ℕ

-- A mapping that an adapter returns. A field is `none` where it is missing or is no string, no
-- outcome, no aware timestamp; `details` is none where it is no mapping, and the number of an empty
-- mapping where it is missing.
pub record ObservationMapping : Type 0 where
  pub effect_key : Option Text
  pub device_id : Option Text
  pub outcome : Option EffectOutcome
  pub observed_at : Option Instant
  pub observation_id : Option Text
  pub details : Option ℕ

-- What `coerce_observation` is given: `foreign` is a boolean or any other value.
pub data AdapterValue : Type 0 where
  typed : Observation → AdapterValue
  mapping : ObservationMapping → AdapterValue
  foreign : AdapterValue

infixl 5 ◌>>=◌
abbrev ◌>>=◌ : {A B : Type 0} → Option A → (A → Option B) → Option B
none >>= f = none
some a >>= f = f a

-- `not isinstance(value, str) or not value.strip()` raises.
abbrev non_blank : Option Text → Option Text
non_blank none = none
non_blank (some text) = if is_blank text then none else some text

-- `none` is an `InvalidExternalProofError`.
unfoldable pub from_mapping : ObservationMapping → Option Observation
from_mapping value = do
  effect_key ← non_blank value.effect_key
  device_id ← non_blank value.device_id
  observation_id ← non_blank value.observation_id
  outcome ← value.outcome
  observed_at ← value.observed_at
  details ← value.details
  some (record {
    effect_key = effect_key;
    device_id = device_id;
    outcome = outcome;
    observed_at = observed_at;
    observation_id = observation_id;
    details = details;
  })

unfoldable pub normalize : AdapterValue → Option Observation
unfolding from_mapping
normalize (typed observation) = some observation
normalize (mapping value) = from_mapping value
normalize foreign = none

-- `expected_device_id is not None and observation.device_id != expected_device_id`.
abbrev wrong_device : Option Text → Observation → Bool
wrong_device none observation = false
wrong_device (some device_id) observation = observation.device_id /= device_id

unfoldable pub coerce_observation : AdapterValue → Text → Option Text → Option Observation
unfolding normalize
coerce_observation value expected_effect_key expected_device_id = do
  observation ← normalize value
  if observation.effect_key /= expected_effect_key || wrong_device expected_device_id observation
      then none
      else some observation
