-- ===== src/Fixture/Observe.antt =====
-- A press as the counters and a later observation show it, and a binding as a later one finds it.
use deferred_teleoperation.Base.{
  ◌≡◌, refl, sym, ap, subst, ◌∙◌, Bool, true, false, some, List, [], ◌∷◌, ◌++◌, arith, inl, inr,
  Bool-cases, ==_refl, select, length,
}
use deferred_teleoperation.Time.{Instant}
use deferred_teleoperation.Wire.{Text, is_blank}
use deferred_teleoperation.M3a.{SpatialPressCommand, SpatialBindingReceipt, new_command}
use deferred_teleoperation.Fixture.{
  Fixture, returns, PressRow, get, same_payload, binding_row, press_row, Line, line_of, DeviceState,
}
use deferred_teleoperation.Fixture.Journal.{
  bindings, press_rows, read_journal, impulse, replay, released, state,
}
use deferred_teleoperation.Fixture.Press.{bound_command, new_binding_row, contact_of}
use deferred_teleoperation.Fixture.Adapter.{
  bind, press, observe, SpatialObservation, presses_for, last_of, latest, observed_press,
  outcome_of,
}
use deferred_teleoperation.Fixture.Levels.{of_returns, press_rows-append, replay-append}
use deferred_teleoperation.Fixture.Consistent.{IsDevice, IsConsistent, state_of}
use deferred_teleoperation.Fixture.Steps.{
  state_lem, bindings_lem, bindings-bind, read_journal-press,
}
use deferred_teleoperation.Fixture.Calls.{
  bound_command_lem, press_lem, press_bound, bind_command_cases, bind-bind_command, pressed_row,
  observation_of, get-IsMade,
}
use deferred_teleoperation.Fixture.Runs.{is_fresh_in}

last_of-append : (ps : List PressRow) (p : PressRow) → last_of (ps ++ p ∷ []) ≡ some p
last_of-append [] p = refl
last_of-append (q ∷ []) p = refl
last_of-append (q ∷ r ∷ ps) p = last_of-append (r ∷ ps) p

select-append :
    (test : PressRow → Bool) (ps : List PressRow) (p : PressRow)
    → test p ≡ true
    → select test (ps ++ p ∷ []) ≡ select test ps ++ p ∷ []
select-append test [] p hit = rw hit refl
select-append test (q ∷ ps) p hit = elim (Bool-cases (test q)) [
  | inl meets ↦ rw (select-append test ps p hit, meets) refl
  | inr misses ↦ rw (select-append test ps p hit, misses) refl
]

get-first :
    (effect : Text) (c : SpatialPressCommand) (known : List (Text × SpatialPressCommand))
    → get effect ((effect, c) ∷ known) ≡ some c
unfolding get
get-first effect c known = rw (==_refl effect) refl

-- Equal canonical bytes and digests make equal commands.
same_payload_sound :
    (b c : SpatialPressCommand)
    → same_payload b c ≡ true
    → b.command_digest ≡ c.command_digest
    → b ≡ c
unfolding same_payload
same_payload_sound b c payload digest =
    let command_id : b.command_id ≡ c.command_id = ground arith in
    let effect_key : b.effect_key ≡ c.effect_key = ground arith in
    let x : b.position_m.0 ≡ c.position_m.0 = ground arith in
    let y : b.position_m.1 ≡ c.position_m.1 = ground arith in
    let z : b.position_m.2 ≡ c.position_m.2 = ground arith in
    let frame_id : b.frame_id ≡ c.frame_id = ground arith in
    let calibration_version : b.calibration_version ≡ c.calibration_version = ground arith in
    let observation_id : b.source_observation_id ≡ c.source_observation_id = ground arith in
    let detection_id : b.source_detection_id ≡ c.source_detection_id = ground arith in
    λ i. record {
      command_id = command_id i;
      effect_key = effect_key i;
      position_m = (x i, y i, z i);
      frame_id = frame_id i;
      calibration_version = calibration_version i;
      source_observation_id = observation_id i;
      source_detection_id = detection_id i;
      command_digest = digest i;
    }

-- What is read after a press of the key's command.
rows_after_press :
    (f : Fixture) (file : List Line) (j : IsConsistent f file) (effect : Text)
    (c : SpatialPressCommand) (press_id : Text) (now : Instant)
    → IsDevice f
    → bound_command f file effect ≡ returns c
    → is_fresh_in f press_id file ≡ true
    → read_journal f (file ++ line_of (press_row (pressed_row f file j c press_id now)) ∷ [])
      ≡ returns (j.rows ++ press_row (pressed_row f file j c press_id now) ∷ [])
rows_after_press f file j effect c press_id now device known fresh =
    let (named, found) = bound_command_lem f file j effect c known in
    let (made, keyed) = get-IsMade f effect j.known c j.made found in
    read_journal-press f file c press_id now j (impulse (contact_of f c) (state_of f file j)) device
      made (rw (is_fresh_in, j.readable) at fresh)

-- On a consistent journal of a device, and with a fresh press identifier, a press of a bound key
-- always returns; the state of the device afterwards is the state before with one impulse of the
-- contact that the bound command makes, and the observation reports that contact, that state and
-- the outcome of the contact.
pub press_refines :
    (f : Fixture) (file : List Line) (effect : Text) (c : SpatialPressCommand) (s : DeviceState)
    (press_id : Text) (now : Instant)
    → IsDevice f
    → IsConsistent f file
    → bound_command f file effect ≡ returns c
    → state f file ≡ returns s
    → is_fresh_in f press_id file ≡ true
    → (o : SpatialObservation) × (file' : List Line) × (press f file effect press_id now
        ≡ returns (o, file'))
      × (state f file' ≡ returns (impulse (contact_of f c) s))
      × (o.outcome ≡ outcome_of (contact_of f c))
      × (o.details.pressed ≡ some (contact_of f c, impulse (contact_of f c) s))
unfolding state
press_refines f file effect c s press_id now device j known before fresh =
    let row = pressed_row f file j c press_id now in
    let same : state_of f file j ≡ s = ground (arith, state_lem f file j) in
    let replayed =
      ap (replay released) (press_rows-append j.rows (press_row row))
      ∙ replay-append released (press_rows j.rows) row in
    (
      observation_of f file j effect c press_id now,
      file ++ line_of (press_row row) ∷ [],
      press_lem f file j effect c press_id now known,
      rw (rows_after_press f file j effect c press_id now device known fresh, replayed, same) refl,
      refl,
      rw same refl,
    )

latest-append :
    (f : Fixture) (file : List Line) (effect : Text) (now : Instant) (ps : List PressRow)
    (p : PressRow)
    → latest f file effect now (ps ++ p ∷ []) ≡ observed_press f effect (length (ps ++ p ∷ [])) p
unfolding latest
latest-append f file effect now ps p = rw (latest, last_of-append ps p) refl

observe_press :
    (f : Fixture) (file : List Line) (j : IsConsistent f file) (effect : Text)
    (c : SpatialPressCommand) (press_id : Text) (now later : Instant)
    → IsDevice f
    → bound_command f file effect ≡ returns c
    → is_fresh_in f press_id file ≡ true
    → let row = pressed_row f file j c press_id now in
      let presses = select (presses_for effect) (press_rows j.rows) ++ row ∷ [] in
      observe f (file ++ line_of (press_row row) ∷ []) effect later
      ≡ returns (observed_press f effect (length presses) row)
unfolding observe
observe_press f file j effect c press_id now later device known fresh =
    let (named, found) = bound_command_lem f file j effect c known in
    let (made, keyed) = get-IsMade f effect j.known c j.made found in
    let row = pressed_row f file j c press_id now in
    let hit : presses_for effect row ≡ true = ground (arith, ==_refl effect) in
    let presses = select (presses_for effect) (press_rows j.rows) in
    let matching =
      ap (select (presses_for effect)) (press_rows-append j.rows (press_row row))
      ∙ select-append (presses_for effect) (press_rows j.rows) row hit in
    let file' = file ++ line_of (press_row row) ∷ [] in
    rw (named, rows_after_press f file j effect c press_id now device known fresh)
      (ap returns (
        ap (latest f file' effect later) matching ∙ latest-append f file' effect later presses row))

-- What a later observation repeats of the press's own.
pub record Repeats (o seen : SpatialObservation) : Type 0 where
  pub observation_id : seen.observation_id ≡ o.observation_id
  pub outcome : seen.outcome ≡ o.outcome
  pub observed_at : seen.observed_at ≡ o.observed_at
  pub command_digest : seen.details.command_digest ≡ o.details.command_digest
  pub pressed : seen.details.pressed ≡ o.details.pressed

observe_bound_press :
    (f : Fixture) (file : List Line) (effect : Text) (c : SpatialPressCommand) (press_id : Text)
    (now later : Instant) (done : SpatialObservation × List Line)
    → IsDevice f
    → IsConsistent f file
    → is_fresh_in f press_id file ≡ true
    → bound_command f file effect ≡ returns c
    → press f file effect press_id now ≡ returns done
    → (seen : SpatialObservation) × (observe f done.1 effect later ≡ returns seen)
      × Repeats done.0 seen
observe_bound_press f file effect c press_id now later done device j fresh known e =
    let same = ap (of_returns done) (sym (press_lem f file j effect c press_id now known) ∙ e) in
    let row = pressed_row f file j c press_id now in
    let presses = select (presses_for effect) (press_rows j.rows) ++ row ∷ [] in
    subst
      (λ d.
        (seen : SpatialObservation) × (observe f d.1 effect later ≡ returns seen)
        × Repeats d.0 seen)
      same
      (
        observed_press f effect (length presses) row,
        observe_press f file j effect c press_id now later device known fresh,
        record {
          observation_id = refl;
          outcome = refl;
          observed_at = refl;
          command_digest = refl;
          pressed = refl;
        },
      )

-- After a press with a fresh identifier that returned on a consistent journal of a device, an
-- observation of the same key returns, at any time, with the identifier, outcome, time, command
-- digest, contact and state of that press.
pub press-observe :
    (f : Fixture) (file file' : List Line) (effect : Text) (press_id : Text) (now later : Instant)
    (o : SpatialObservation)
    → IsDevice f
    → IsConsistent f file
    → is_fresh_in f press_id file ≡ true
    → press f file effect press_id now ≡ returns (o, file')
    → (seen : SpatialObservation) × (observe f file' effect later ≡ returns seen) × Repeats o seen
press-observe f file file' effect press_id now later o device j fresh e =
    let (c, known) = press_bound f file effect press_id now (o, file') e in
    observe_bound_press f file effect c press_id now later (o, file') device j fresh known e

bound_by :
    (f : Fixture) (file : List Line) (effect : Text) (c : SpatialPressCommand)
    (known : List (Text × SpatialPressCommand))
    → is_blank effect ≡ false
    → bindings f file ≡ returns known
    → get effect known ≡ some c
    → bound_command f file effect ≡ returns c
unfolding bound_command
bound_by f file effect c known named read found = ground arith

-- After a binding of a constructed command that returned on a consistent journal of a device, the
-- key's bound command is that command, whether the binding was new or repeated.
pub bind-bound_command :
    (f : Fixture) (file file' : List Line) (effect : Text) (c : SpatialPressCommand) (now : Instant)
    (receipt : SpatialBindingReceipt)
    → IsDevice f
    → IsConsistent f file
    → new_command f.digests c ≡ some c
    → bind f file effect c now ≡ returns (receipt, file')
    → bound_command f file' effect ≡ returns c
bind-bound_command f file file' effect c now receipt device j made e =
    let (named, same, cases) =
      bind_command_cases f file j effect c now receipt file'
        (bind-bind_command f file effect c now (receipt, file') e) in
    elim cases [
      | inl (missing, grown) ↦
          let row = binding_row (new_binding_row f effect c now) in
          let known = (effect, c) ∷ j.known in
          rw grown (
            bound_by f (file ++ line_of row ∷ []) effect c known named
              (bindings-bind f file effect c now j device made named same missing)
              (get-first effect c j.known))
      | inr (b, found, digest, payload, kept) ↦
          let equal = same_payload_sound b c payload digest in
          rw kept (
            bound_by f file effect c j.known named (bindings_lem f file j)
              (found ∙ ap (λ c. some c) equal))
    ]
