-- ===== src/Fixture/Steps.antt =====
-- What a call of `bind_command` or `press_at` leaves in the file.
use deferred_teleoperation.Base.{
  ◌≡◌, ◌≤◌, refl, ap, ◌∙◌, true, false, none, some, List, [], ◌∷◌, ◌++◌, arith, ◌==◌, inl, inr,
  Bool-cases, ==_refl,
}
use deferred_teleoperation.Time.{Instant}
use deferred_teleoperation.Wire.{Text, is_blank}
use deferred_teleoperation.M3a.{SpatialPressCommand, new_command}
use deferred_teleoperation.Fixture.{
  Fixture, returns, ButtonContact, at_a, at_b, no_contact, PressRow, Row, binding_row, press_row,
  Line, line_of, DeviceState, Bindings, get,
}
use deferred_teleoperation.Fixture.Journal.{
  press_rows, binding_rows, read_journal, add_binding, bindings_among, bindings, impulse, replay,
  released, state,
}
use deferred_teleoperation.Fixture.Press.{new_binding_row, new_press_row, contact_of}
use deferred_teleoperation.Fixture.Levels.{
  for_each-append, press_rows-append, binding_rows-append, replay-append, command_from_journal_lem,
}
use deferred_teleoperation.Fixture.Consistent.{
  IsDevice, IsConsistent, IsCounted, is_fresh, read_journal-append, read_row-binding,
  read_row-press, Follows, state_of,
}

pub bindings_lem :
    (f : Fixture) (file : List Line) (j : IsConsistent f file) → bindings f file ≡ returns j.known
unfolding bindings
bindings_lem f file j = rw (j.readable) (j.bound)

pub state_lem :
    (f : Fixture) (file : List Line) (j : IsConsistent f file)
    → state f file ≡ returns (replay released (press_rows j.rows))
unfolding state
state_lem f file j = rw (j.readable) refl

-- A new binding of a key that has none.
bindings_among-binding :
    (f : Fixture) (rows : List Row) (known : Bindings) (effect : Text) (c : SpatialPressCommand)
    (now : Instant)
    → bindings_among f rows ≡ returns known
    → new_command f.digests c ≡ some c
    → is_blank effect ≡ false
    → c.effect_key ≡ effect
    → get effect known ≡ none
    → bindings_among f (rows ++ binding_row (new_binding_row f effect c now) ∷ [])
      ≡ returns ((effect, c) ∷ known)
unfolding bindings_among add_binding
bindings_among-binding f rows known effect c now e made named same missing =
    let row = new_binding_row f effect c now in
    rw
      (
        binding_rows-append rows (binding_row row),
        for_each-append (add_binding f) [] (binding_rows rows) row known e,
      )
      (ground (arith, command_from_journal_lem f c made, ==_refl f.device_id, ==_refl effect))

append_nil {ℓ} : {A : Type ℓ} (xs : List A) → xs ++ [] ≡ xs
append_nil [] = refl
append_nil (x ∷ xs) = ap (λ t. x ∷ t) (append_nil xs)

bindings_among-press :
    (f : Fixture) (rows : List Row) (p : PressRow)
    → bindings_among f (rows ++ press_row p ∷ []) ≡ bindings_among f rows
unfolding bindings_among
bindings_among-press f rows p =
    rw (binding_rows-append rows (press_row p), append_nil (binding_rows rows)) refl

IsCounted-append :
    (s : DeviceState) (ps : List PressRow) (p : PressRow)
    → IsCounted s ps
    → IsCounted (replay s ps) (p ∷ [])
    → IsCounted s (ps ++ p ∷ [])
unfolding replay
IsCounted-append s [] p counted next = next
IsCounted-append s (q ∷ ps) p counted next = (
  counted.0,
  counted.1,
  counted.2,
  counted.3,
  IsCounted-append (impulse q.contact s) ps p counted.4 next,
)

pub Follows-refl :
    (f : Fixture) (file : List Line) (j : IsConsistent f file) → Follows f file file j
Follows-refl f file j = record {
  consistent = j;
  keeps = λ effect c found. found;
  a_grows = omega arith;
  b_grows = omega arith;
}

get-new :
    (effect other : Text) (c d : SpatialPressCommand) (known : Bindings)
    → get effect known ≡ none
    → get other known ≡ some d
    → get other ((effect, c) ∷ known) ≡ some d
unfolding get
get-new effect other c d known missing found = elim (Bool-cases (effect == other)) [
  | inl hit ↦
      let same : effect ≡ other = ground arith in absurd (ground (arith, rw same at missing))
  | inr miss ↦ rw miss found
]

pub bindings-bind :
    (f : Fixture) (file : List Line) (effect : Text) (c : SpatialPressCommand) (now : Instant)
    (j : IsConsistent f file)
    → IsDevice f
    → new_command f.digests c ≡ some c
    → is_blank effect ≡ false
    → c.effect_key ≡ effect
    → get effect j.known ≡ none
    → bindings f (file ++ line_of (binding_row (new_binding_row f effect c now)) ∷ [])
      ≡ returns ((effect, c) ∷ j.known)
unfolding bindings
bindings-bind f file effect c now j device made named same missing =
    let row = binding_row (new_binding_row f effect c now) in
    rw
      (
        read_journal-append f file j.rows row j.readable,
        read_row-binding f j.rows effect c now device made named same,
      )
      (bindings_among-binding f j.rows j.known effect c now j.bound made named same missing)

-- The rows after a new binding.
pub bind_row-Follows :
    (f : Fixture) (file : List Line) (effect : Text) (c : SpatialPressCommand) (now : Instant)
    (j : IsConsistent f file)
    → IsDevice f
    → new_command f.digests c ≡ some c
    → is_blank effect ≡ false
    → c.effect_key ≡ effect
    → get effect j.known ≡ none
    → Follows f file (file ++ line_of (binding_row (new_binding_row f effect c now)) ∷ []) j
bind_row-Follows f file effect c now j device made named same missing =
    let row = binding_row (new_binding_row f effect c now) in
    let rows_same = press_rows-append j.rows row ∙ append_nil (press_rows j.rows) in
    record {
      consistent = record {
        rows = j.rows ++ row ∷ [];
        known = (effect, c) ∷ j.known;
        readable =
            read_journal-append f file j.rows row j.readable
            ∙ read_row-binding f j.rows effect c now device made named same;
        bound =
            bindings_among-binding f j.rows j.known effect c now j.bound made named same missing;
        counted = rw rows_same (j.counted);
        made = ((made, same), j.made);
      };
      keeps = λ other d found. get-new effect other c d j.known missing found;
      a_grows = rw rows_same (omega arith);
      b_grows = rw rows_same (omega arith);
    }

impulse_grows :
    (hit : ButtonContact) (s : DeviceState)
    → (s.a_counter ≤ (impulse hit s).a_counter) × (s.b_counter ≤ (impulse hit s).b_counter)
unfolding impulse
impulse_grows at_a s = (omega arith, omega arith)
impulse_grows at_b s = (omega arith, omega arith)
impulse_grows no_contact s = (omega arith, omega arith)

-- The file after a press is read as its rows and the new one.
pub read_journal-press :
    (f : Fixture) (file : List Line) (c : SpatialPressCommand) (press_id : Text) (now : Instant)
    (j : IsConsistent f file) (after : DeviceState)
    → IsDevice f
    → new_command f.digests c ≡ some c
    → is_fresh press_id j.rows ≡ true
    → read_journal f
        (file ++ line_of (press_row (new_press_row f c after (contact_of f c) press_id now)) ∷ [])
      ≡ returns (j.rows ++ press_row (new_press_row f c after (contact_of f c) press_id now) ∷ [])
read_journal-press f file c press_id now j after device made fresh =
    read_journal-append f file j.rows
      (press_row (new_press_row f c after (contact_of f c) press_id now)) j.readable
    ∙ read_row-press f j.rows c after (contact_of f c) press_id now device made fresh

-- The rows after a press.
pub press_row-Follows :
    (f : Fixture) (file : List Line) (c : SpatialPressCommand) (press_id : Text) (now : Instant)
    (j : IsConsistent f file)
    → IsDevice f
    → new_command f.digests c ≡ some c
    → is_fresh press_id j.rows ≡ true
    → let after = impulse (contact_of f c) (state_of f file j) in
      Follows f file
        (file ++ line_of (press_row (new_press_row f c after (contact_of f c) press_id now)) ∷ [])
        j
press_row-Follows f file c press_id now j device made fresh =
    let after = impulse (contact_of f c) (state_of f file j) in
    let row = new_press_row f c after (contact_of f c) press_id now in
    let replayed =
      ap (replay released) (press_rows-append j.rows (press_row row))
      ∙ replay-append released (press_rows j.rows) row in
    let (a, b) = impulse_grows (contact_of f c) (state_of f file j) in
    record {
      consistent = record {
        rows = j.rows ++ press_row row ∷ [];
        known = j.known;
        readable = read_journal-press f file c press_id now j after device made fresh;
        bound = bindings_among-press f j.rows row ∙ j.bound;
        counted = rw (press_rows-append j.rows (press_row row)) (
            IsCounted-append released (press_rows j.rows) row j.counted
              (refl, refl, refl, refl, tt));
        made = j.made;
      };
      keeps = λ effect d found. found;
      a_grows = rw replayed a;
      b_grows = rw replayed b;
    }
