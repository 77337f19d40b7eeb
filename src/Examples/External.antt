-- ===== src/Examples/External.antt =====
-- The dummy device with one press of a key, pressed again.
use deferred_teleoperation.Base.{◌≡◌, ◌+◌, refl, none, some, List, [], ◌∷◌, ◌==◌, if◌then◌else◌}
use deferred_teleoperation.Wire.{Text, applied}
use deferred_teleoperation.External.Dummy.{
  PressRecord, Line, line_of, Device, DummyObservation, read_lines, read_records, read_record,
  press,
}
use deferred_teleoperation.External.Presses.{presses_of, press_counts}

abbrev device : Device
device = record { device_id = 71; observation_outcome = none }

abbrev earlier : PressRecord
earlier = record { press_id = 1; effect_key = 61; device_id = 71; pressed_at = 1000000 }

abbrev file : List Line
file = line_of earlier ∷ []

press_counts_example :
    (o : DummyObservation) × (file' : List Line) × (grown : List PressRecord) × (press device file
        61 2 2000000 3000000 3
      ≡ (some o, file'))
    × (o.press_count_for_effect ≡ presses_of 61 (earlier ∷ []) + 1)
    × (o.outcome ≡ applied)
    × (read_records device file' ≡ some grown)
    × ((other : Text)
        → presses_of other grown ≡ presses_of other (earlier ∷ []) + (if other == 61 then 1 else 0))
unfolding read_lines read_records read_record
press_counts_example =
    press_counts device file (earlier ∷ []) 61 2 2000000 3000000 3 refl refl refl refl refl
