-- ===== src/External/Presses.antt =====
-- What a press of the dummy device leaves in its file, and what it reports.
use mathlib.Core.Option
use deferred_teleoperation.Base.{
  ℕ, ◌+◌, ◌≡◌, ap, ◌∙◌, false, some, List, [], ◌∷◌, ◌++◌, arith, ◌==◌, if◌then◌else◌, length,
  select, Option-cases, inl, inr, ==_refl,
}
use deferred_teleoperation.Time.{Instant}
use deferred_teleoperation.Wire.{Text, is_blank, applied}
use deferred_teleoperation.External.Dummy.{
  PressRecord, Line, blank, malformed, line_of, Device, DummyObservation, is_seen, read_record,
  read_lines, read_records, is_for, natural_outcome, observation_of, observe, press,
}

-- How many of the records are of the key.
abbrev pub presses_of : Text → List PressRecord → ℕ
presses_of effect records = length (select (is_for effect) records)

read_lines-append :
    (device_id : Text) (records : List PressRecord) (file : List Line) (r : PressRecord)
    (known : List PressRecord)
    → read_lines device_id records file ≡ some known
    → read_lines device_id records (file ++ line_of r ∷ []) ≡ read_record device_id known r
unfolding read_lines
read_lines-append device_id records [] r known e =
    elim (Option-cases (read_record device_id known r)) [
      | inl refused ↦ ground arith
      | inr (grown, taken) ↦ ground arith
    ]
read_lines-append device_id records (blank ∷ rest) r known e =
    read_lines-append device_id records rest r known e
read_lines-append device_id records (malformed ∷ rest) r known e = absurd (ground arith)
read_lines-append device_id records (line_of q ∷ rest) r known e =
    elim (Option-cases (read_record device_id records q)) [
      | inl refused ↦ absurd (ground arith)
      | inr (grown, taken) ↦ ground (arith, read_lines-append device_id grown rest r known)
    ]

presses_of-append :
    (effect : Text) (records : List PressRecord) (r : PressRecord)
    → presses_of effect (records ++ r ∷ [])
      ≡ presses_of effect records + (if is_for effect r then 1 else 0)
presses_of-append effect [] r = ground arith
presses_of-append effect (q ∷ records) r = ground (arith, presses_of-append effect records r)

pressed_naturally : (n : ℕ) → natural_outcome (n + 1) ≡ applied
pressed_naturally n = ground arith

-- On a readable file of the dummy device, with a device and an effect key that are not blank and a
-- fresh press identifier that is not blank, a press returns an observation that counts one press
-- more of the key, with the outcome that is forced, or else applied; the file stays readable, and
-- no other key has a press more.
pub press_counts :
    (d : Device) (file : List Line) (records : List PressRecord) (effect press_id : Text)
    (now observed_at : Instant) (observation_id : Text)
    → read_records d file ≡ some records
    → is_blank d.device_id ≡ false
    → is_blank effect ≡ false
    → is_blank press_id ≡ false
    → is_seen press_id records ≡ false
    → (o : DummyObservation) × (file' : List Line) × (grown : List PressRecord) × (press d file
          effect press_id now observed_at observation_id
        ≡ (some o, file'))
      × (o.press_count_for_effect ≡ presses_of effect records + 1)
      × (o.outcome ≡ Option.get_or d.observation_outcome applied)
      × (read_records d file' ≡ some grown)
      × ((other : Text)
          → presses_of other grown ≡ presses_of other records + (if other == effect then 1 else 0))
unfolding press observe observation_of read_records read_record
press_counts d file records effect press_id now observed_at observation_id known named keyed fresh
      unseen =
    let r : PressRecord = record {
      press_id = press_id;
      effect_key = effect;
      device_id = d.device_id;
      pressed_at = now;
    } in
    let grown = records ++ r ∷ [] in
    let read : read_records d (file ++ line_of r ∷ []) ≡ some grown =
      read_lines-append d.device_id [] file r records known ∙ ground (arith, ==_refl d.device_id) in
    let counted : presses_of effect grown ≡ presses_of effect records + 1 =
      ground (arith, presses_of-append effect records r, ==_refl effect) in
    (
      observation_of d effect observed_at observation_id (select (is_for effect) grown),
      file ++ line_of r ∷ [],
      grown,
      rw keyed (
          ap (λ o. (o, file ++ line_of r ∷ []))
            (ap
              (Option.map (λ records.
                observation_of d effect observed_at observation_id
                  (select (is_for effect) records)))
              read)),
      counted,
      ap (λ n. Option.get_or d.observation_outcome (natural_outcome n)) counted
          ∙ ap (Option.get_or d.observation_outcome)
              (pressed_naturally (presses_of effect records)),
      read,
      λ other. ground (arith, presses_of-append other records r),
    )
