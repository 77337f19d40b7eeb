-- ===== src/Fixture/Consistent.antt =====
-- A journal that the fixture can read back.
use deferred_teleoperation.Base.{
  All, ℕ, ◌≡◌, ◌≤◌, Bool, true, false, not, ◌&&◌, some, List, [], ◌∷◌, ◌++◌, arith, ==_refl,
}
use deferred_teleoperation.Time.{Instant}
use deferred_teleoperation.Wire.{Text, is_blank}
use deferred_teleoperation.M3a.{SpatialPressCommand, new_command, mentions}
use deferred_teleoperation.Fixture.{
  Fixture, returns, ButtonContact, PressRow, Row, binding_row, press_row, Line, line_of,
  DeviceState, Bindings, get, point_eq,
}
use deferred_teleoperation.Fixture.Journal.{
  validate_binding_record, validate_press_record, press_rows, press_ids, read_row, read_line,
  read_journal, bindings_among, impulse, replay, released,
}
use deferred_teleoperation.Fixture.Press.{new_binding_row, new_press_row}
use deferred_teleoperation.Fixture.Levels.{for_each-append, command_from_journal_lem}

-- A device identity is not blank, and neither is a UUID's text.
pub record IsDevice (f : Fixture) : Type 0 where
  pub named : is_blank f.device_id ≡ false
  pub identified : (effect : Text) → is_blank (f.binding_id f.device_id effect) ≡ false

-- What each press row says of the counters is what a replay of the rows up to it gives.
abbrev pub IsCounted : DeviceState → List PressRow → Type 0
IsCounted s [] = Unit
IsCounted s (p ∷ rest) =
    (p.a_counter ≡ (impulse p.contact s).a_counter)
    × (p.b_counter ≡ (impulse p.contact s).b_counter)
    × (p.a_latched ≡ (impulse p.contact s).a_latched)
    × (p.b_latched ≡ (impulse p.contact s).b_latched)
    × IsCounted (impulse p.contact s) rest

-- A binding is kept under its command's effect key, and the command is as its constructor returned it.
abbrev pub IsMade : Fixture → Text × SpatialPressCommand → Type 0
IsMade f b = (new_command f.digests b.1 ≡ some b.1) × (b.1.effect_key ≡ b.0)

-- The rows can be read, the bindings among them too, each press row has the right counters, and the bindings
-- are made of commands.
pub record IsConsistent (f : Fixture) (file : List Line) : Type 0 where
  pub rows : List Row
  pub known : Bindings
  pub readable : read_journal f file ≡ returns rows
  pub bound : bindings_among f rows ≡ returns known
  pub counted : IsCounted released (press_rows rows)
  pub made : All (IsMade f) known

-- The state that the rows of a consistent journal replay to.
abbrev pub state_of : (f : Fixture) (file : List Line) → IsConsistent f file → DeviceState
state_of f file j = replay released (press_rows j.rows)

-- What a step keeps: the bindings that were there, and the counters.
pub record Follows (f : Fixture) (file file' : List Line) (j : IsConsistent f file) : Type 0 where
  pub consistent : IsConsistent f file'
  pub keeps :
      (effect : Text) (c : SpatialPressCommand)
      → get effect j.known ≡ some c
      → get effect consistent.known ≡ some c
  pub a_grows : (state_of f file j).a_counter ≤ (state_of f file' consistent).a_counter
  pub b_grows : (state_of f file j).b_counter ≤ (state_of f file' consistent).b_counter

abbrev pub is_fresh : Text → List Row → Bool
is_fresh press_id rows =
    not (is_blank press_id) && not (mentions press_id (press_ids (press_rows rows)))

pub read_journal-append :
    (f : Fixture) (file : List Line) (rows : List Row) (r : Row)
    → read_journal f file ≡ returns rows
    → read_journal f (file ++ line_of r ∷ []) ≡ read_row f rows r
unfolding read_journal read_line
read_journal-append f file rows r e = for_each-append (read_line f) [] file (line_of r) rows e

point_eq_refl : (p : ℕ × ℕ × ℕ) → point_eq p p ≡ true
point_eq_refl p = ground (arith, ==_refl p.0, ==_refl p.1, ==_refl p.2)

pub read_row-binding :
    (f : Fixture) (rows : List Row) (effect : Text) (c : SpatialPressCommand) (now : Instant)
    → IsDevice f
    → new_command f.digests c ≡ some c
    → is_blank effect ≡ false
    → c.effect_key ≡ effect
    → read_row f rows (binding_row (new_binding_row f effect c now))
      ≡ returns (rows ++ binding_row (new_binding_row f effect c now) ∷ [])
unfolding read_row validate_binding_record
read_row-binding f rows effect c now device made named same =
    ground (arith, command_from_journal_lem f c made, device.identified effect, ==_refl f.device_id)

-- The texts of a command that the constructor returned.
pub new_command-IsNamed :
    (f : Fixture) (c : SpatialPressCommand)
    → new_command f.digests c ≡ some c
    → (is_blank c.effect_key ≡ false)
      × (is_blank c.frame_id ≡ false)
      × (is_blank c.calibration_version ≡ false)
unfolding new_command
new_command-IsNamed f c made = (ground arith, ground arith, ground arith)

pub read_row-press :
    (f : Fixture) (rows : List Row) (c : SpatialPressCommand) (after : DeviceState)
    (hit : ButtonContact) (press_id : Text) (now : Instant)
    → IsDevice f
    → new_command f.digests c ≡ some c
    → is_fresh press_id rows ≡ true
    → read_row f rows (press_row (new_press_row f c after hit press_id now))
      ≡ returns (rows ++ press_row (new_press_row f c after hit press_id now) ∷ [])
unfolding read_row validate_press_record
read_row-press f rows c after hit press_id now device made fresh = ground (
  arith,
  command_from_journal_lem f c made,
  device.named,
  ==_refl f.device_id,
  new_command-IsNamed f c made,
  point_eq_refl c.position_m,
  ==_refl c.effect_key,
  ==_refl c.frame_id,
  ==_refl c.calibration_version,
)
