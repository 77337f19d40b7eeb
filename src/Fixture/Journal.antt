-- ===== src/Fixture/Journal.antt =====
-- `_read_journal`, the validation of its rows, `_bindings` and `_state`.
use deferred_teleoperation.Base.{
  suc, true, false, not, ◌||◌, none, some, List, [], ◌∷◌, ◌++◌, ◌/=◌, if◌then◌else◌,
}
use deferred_teleoperation.Wire.{Text, is_blank}
use deferred_teleoperation.M3a.{SpatialPressCommand, new_command, mentions}
use deferred_teleoperation.Fixture.{
  Fixture, fixture_error, binding_conflict, Reply, returns, raises, ◌>>=◌, ◌>>◌, raise_if, for_each,
  ButtonContact, at_a, at_b, no_contact, CommandText, canonical_text, other_text, BindingRow,
  PressRow, Row, binding_row, press_row, Line, blank, malformed, line_of, DeviceState, point_eq,
  same_payload, Bindings, get,
}

-- `_command_from_journal`: the constructor checks the digest of the row, and the text must be canonical.
unfoldable pub command_from_journal : Fixture → CommandText → Text → Reply SpatialPressCommand
unfolding new_command
command_from_journal f (canonical_text payload) digest =
    elim (new_command f.digests (record payload { command_digest = digest })) [
      | none ↦ raises fixture_error
      | some command ↦ returns command
    ]
command_from_journal f (other_text payload) digest = raises fixture_error

unfoldable pub validate_binding_record : Fixture → BindingRow → Reply (Unit {0})
unfolding command_from_journal
validate_binding_record f r = do
  raise_if (is_blank r.binding_id || is_blank r.effect_key) fixture_error
  command ← command_from_journal f r.command_bytes r.command_digest
  raise_if (command.effect_key /= r.effect_key) fixture_error

unfoldable pub validate_press_record : Fixture → PressRow → Reply (Unit {0})
unfolding command_from_journal
validate_press_record f r = do
  raise_if
      (is_blank r.press_id
        || is_blank r.effect_key
        || is_blank r.device_id
        || is_blank r.frame_id
        || is_blank r.calibration_version)
      fixture_error
  command ← command_from_journal f r.command_bytes r.command_digest
  raise_if (command.effect_key /= r.effect_key) fixture_error
  raise_if (not (point_eq command.position_m r.position_m)) fixture_error
  raise_if (command.frame_id /= r.frame_id || command.calibration_version /= r.calibration_version)
      fixture_error

abbrev pub press_rows : List Row → List PressRow
press_rows [] = []
press_rows (binding_row b ∷ rest) = press_rows rest
press_rows (press_row p ∷ rest) = p ∷ press_rows rest

abbrev pub binding_rows : List Row → List BindingRow
binding_rows [] = []
binding_rows (binding_row b ∷ rest) = b ∷ binding_rows rest
binding_rows (press_row p ∷ rest) = binding_rows rest

abbrev pub press_ids : List PressRow → List Text
press_ids [] = []
press_ids (p ∷ rest) = p.press_id ∷ press_ids rest

-- `seen_press_ids` is the set of the press identifiers among the records so far.
unfoldable pub read_row : Fixture → List Row → Row → Reply (List Row)
unfolding validate_binding_record validate_press_record
read_row f records (binding_row b) = do
  raise_if (b.device_id /= f.device_id) fixture_error
  validate_binding_record f b
  returns (records ++ binding_row b ∷ [])
read_row f records (press_row p) = do
  raise_if (p.device_id /= f.device_id) fixture_error
  validate_press_record f p
  raise_if (mentions p.press_id (press_ids (press_rows records))) fixture_error
  returns (records ++ press_row p ∷ [])

unfoldable pub read_line : Fixture → List Row → Line → Reply (List Row)
unfolding read_row
read_line f records blank = returns records
read_line f records malformed = raises fixture_error
read_line f records (line_of row) = read_row f records row

-- `_read_journal`; a file that does not exist has no lines.
unfoldable pub read_journal : Fixture → List Line → Reply (List Row)
unfolding read_line
read_journal f file = for_each (read_line f) [] file

unfoldable pub add_binding : Fixture → Bindings → BindingRow → Reply Bindings
unfolding command_from_journal
add_binding f result r = do
  command ← command_from_journal f r.command_bytes r.command_digest
  raise_if (is_blank r.effect_key) fixture_error
  raise_if (r.device_id /= f.device_id) fixture_error
  raise_if (command.effect_key /= r.effect_key) fixture_error
  elim (get r.effect_key result) [
    | none ↦ returns ((r.effect_key, command) ∷ result)
    | some prior ↦
        if same_payload prior command
        then returns ((r.effect_key, command) ∷ result)
        else raises binding_conflict
  ]

-- `_bindings` on the rows that were read.
unfoldable pub bindings_among : Fixture → List Row → Reply Bindings
unfolding add_binding
bindings_among f rows = for_each (add_binding f) [] (binding_rows rows)

unfoldable pub bindings : Fixture → List Line → Reply Bindings
unfolding read_journal bindings_among
bindings f file = do rows ← read_journal f file; bindings_among f rows

-- One impulse on the button that was hit.
unfoldable pub impulse : ButtonContact → DeviceState → DeviceState
impulse at_a s = record s { a_counter = suc s.a_counter; a_latched = true }
impulse at_b s = record s { b_counter = suc s.b_counter; b_latched = true }
impulse no_contact s = s

unfoldable pub replay : DeviceState → List PressRow → DeviceState
unfolding impulse
replay s [] = s
replay s (p ∷ rest) = replay (impulse p.contact s) rest

abbrev pub released : DeviceState
released = record { a_counter = 0; b_counter = 0; a_latched = false; b_latched = false }

-- `_state`.
unfoldable pub state : Fixture → List Line → Reply DeviceState
unfolding read_journal replay
state f file = do rows ← read_journal f file; returns (replay released (press_rows rows))
