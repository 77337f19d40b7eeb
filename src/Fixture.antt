-- ===== src/Fixture.antt =====
-- python/src/deferred_teleop/two_button_fixture.py: the simulated device with two buttons, its journal
-- file and the adapter that presses it. A coordinate or a radius is the bit pattern of a double.
use mathlib.Core.Option
use deferred_teleoperation.Base.{
  ℕ, suc, ◌≡◌, refl, Bool, true, false, not, ◌&&◌, ◌||◌, Option, none, some, List, [], ◌∷◌, ◌++◌,
  ◌==◌, ◌/=◌, if◌then◌else◌, inl, inr, ◌⊎◌,
}
use deferred_teleoperation.Time.{Instant}
use deferred_teleoperation.Wire.{Text, is_blank}
use deferred_teleoperation.M3a.{SpatialPressCommand, Digests}
use deferred_teleoperation.Policy.{Geometry}
pub mod Journal
pub mod Press
pub mod Adapter
pub mod Levels
pub mod Consistent
pub mod Steps
pub mod Calls
pub mod Runs
pub mod Observe
pub mod Observation

pub data FixtureScenario : Type 0 where
  nominal boundary epsilon swap already_latched : FixtureScenario

pub data Button : Type 0 where
  button_a button_b : Button

pub data ButtonContact : Type 0 where
  at_a at_b no_contact : ButtonContact

pub data FixtureError : Type 0 where
  fixture_error binding_conflict value_error : FixtureError

pub data Reply {ℓ} (A : Type ℓ) : Type ℓ where
  returns : A → Reply A
  raises : FixtureError → Reply A

pub Reply-cases {ℓ} :
    {A : Type ℓ} (r : Reply A) → ((a : A) × (r ≡ returns a)) ⊎ ((e : FixtureError) × (r ≡ raises e))
Reply-cases (returns a) = inl (a, refl)
Reply-cases (raises e) = inr (e, refl)

infixl 5 ◌>>=◌ ◌>>◌
abbrev pub ◌>>=◌ {ℓ κ} : {A : Type ℓ} {B : Type κ} → Reply A → (A → Reply B) → Reply B
returns a >>= k = k a
raises e >>= k = raises e

abbrev pub ◌>>◌ {ℓ} : {A : Type ℓ} → Reply (Unit {0}) → Reply A → Reply A
returns _ >> k = k
raises e >> k = raises e

-- `if condition: raise`.
abbrev pub raise_if : Bool → FixtureError → Reply (Unit {0})
raise_if c e = if c then raises e else returns tt

-- A loop over a list whose body may raise.
unfoldable pub for_each {ℓ κ} : {S : Type ℓ} {X : Type κ} → (S → X → Reply S) → S → List X → Reply S
for_each body s [] = returns s
for_each body s (x ∷ xs) = body s x >>= (λ s. for_each body s xs)

abbrev pub Point : Type 0
Point = ℕ × ℕ × ℕ

-- The attributes of a `TwoButtonFixture` but its path, with the hidden positions of A and of B. `binding_id`
-- is the text of `uuid5` for a device and an effect key.
pub record Fixture : Type 0 where
  pub digests : Digests
  pub geometry : Geometry
  pub binding_id : Text → Text → Text
  pub scenario : FixtureScenario
  pub device_id : Text
  pub source_id : Text
  pub frame_id : Text
  pub calibration_version : Text
  pub max_displacement_m : ℕ
  pub collision_radius_m : ℕ

-- The text of a journalled command: the canonical JSON of a payload, or another text, with the payload
-- that it decodes to, if any.
pub data CommandText : Type 0 where
  canonical_text : SpatialPressCommand → CommandText
  other_text : Option SpatialPressCommand → CommandText

pub record BindingRow : Type 0 where
  pub binding_id : Text
  pub effect_key : Text
  pub device_id : Text
  pub command_bytes : CommandText
  pub command_digest : Text
  pub bound_at : Instant

pub record PressRow : Type 0 where
  pub press_id : Text
  pub effect_key : Text
  pub device_id : Text
  pub command_bytes : CommandText
  pub command_digest : Text
  pub position_m : Point
  pub frame_id : Text
  pub calibration_version : Text
  pub contact : ButtonContact
  pub a_counter : ℕ
  pub b_counter : ℕ
  pub a_latched : Bool
  pub b_latched : Bool
  pub pressed_at : Instant

pub data Row : Type 0 where
  binding_row : BindingRow → Row
  press_row : PressRow → Row

-- A line of the journal file. `malformed` is no JSON object, or one of an unknown type or with a field
-- that is missing or ill-typed.
pub data Line : Type 0 where
  blank malformed : Line
  line_of : Row → Line

-- What `_state` counts.
pub record DeviceState : Type 0 where
  pub a_counter : ℕ
  pub b_counter : ℕ
  pub a_latched : Bool
  pub b_latched : Bool

pub record SpatialPressResult : Type 0 where
  pub press_id : Text
  pub effect_key : Text
  pub device_id : Text
  pub contact : ButtonContact
  pub state : DeviceState
  pub pressed_at : Instant
  pub command_digest : Text

abbrev pub point_eq : Point → Point → Bool
point_eq p q = p.0 == q.0 && p.1 == q.1 && p.2 == q.2

-- Equality of `canonical_bytes()`: of every field but the digest.
unfoldable pub same_payload : SpatialPressCommand → SpatialPressCommand → Bool
same_payload c d =
    c.command_id == d.command_id
    && c.effect_key == d.effect_key
    && point_eq c.position_m d.position_m
    && c.frame_id == d.frame_id
    && c.calibration_version == d.calibration_version
    && c.source_observation_id == d.source_observation_id
    && c.source_detection_id == d.source_detection_id

-- Immutable bindings by effect key; the latest assignment to a key stands first.
abbrev pub Bindings : Type 0
Bindings = List (Text × SpatialPressCommand)

unfoldable pub get : Text → Bindings → Option SpatialPressCommand
get effect [] = none
get effect (b ∷ rest) = if b.0 == effect then some b.1 else get effect rest
