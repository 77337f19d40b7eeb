-- ===== src/Fixture/Runs.antt =====
-- Runs of the adapter's calls: the journal, its bindings and its counters.
use deferred_teleoperation.Base.{
  ◌≡◌, ◌≤◌, refl, Bool, true, some, List, [], ◌∷◌, ◌++◌, arith, inl, inr,
}
use deferred_teleoperation.Time.{Instant}
use deferred_teleoperation.Wire.{Text}
use deferred_teleoperation.M3a.{SpatialPressCommand, SpatialBindingReceipt, new_command}
use deferred_teleoperation.Fixture.{
  Fixture, returns, raises, press_row, Line, line_of, DeviceState, for_each,
}
use deferred_teleoperation.Fixture.Journal.{read_journal, bindings_among, state}
use deferred_teleoperation.Fixture.Press.{bound_command}
use deferred_teleoperation.Fixture.Adapter.{bind, press, SpatialObservation}
use deferred_teleoperation.Fixture.Consistent.{IsDevice, IsConsistent, is_fresh, Follows, state_of}
use deferred_teleoperation.Fixture.Steps.{
  bindings_lem, state_lem, Follows-refl, bind_row-Follows, press_row-Follows,
}
use deferred_teleoperation.Fixture.Calls.{
  bound_command_lem, bind_command_cases, bind-bind_command, press_lem, press_bound, pressed_row,
  get-IsMade,
}

-- `uuid4()` gave an identifier that is not in the file.
abbrev pub is_fresh_in : Fixture → Text → List Line → Bool
is_fresh_in f press_id file = elim (read_journal f file) [
  | returns rows ↦ is_fresh press_id rows
  | raises _ ↦ true
]

-- One call of the adapter that returns: a binding of a command that its constructor returned, or a press.
pub data Step (f : Fixture) : List Line → List Line → Type 0 where
  bound :
      (file file' : List Line) (effect : Text) (c : SpatialPressCommand) (now : Instant)
      (receipt : SpatialBindingReceipt)
      → new_command f.digests c ≡ some c
      → bind f file effect c now ≡ returns (receipt, file')
      → Step f file file'
  pressed :
      (file file' : List Line) (effect press_id : Text) (now : Instant) (o : SpatialObservation)
      → is_fresh_in f press_id file ≡ true
      → press f file effect press_id now ≡ returns (o, file')
      → Step f file file'

pub data Steps (f : Fixture) : List Line → List Line → Type 0 where
  stop : (file : List Line) → Steps f file file
  next :
      (file file' file'' : List Line)
      → Step f file file'
      → Steps f file' file''
      → Steps f file file''

Step-Follows :
    (f : Fixture) (file file' : List Line)
    → IsDevice f
    → (j : IsConsistent f file) → Step f file file'
    → Follows f file file' j
Step-Follows f _ _ device j (bound file file' effect c now receipt made e) =
    let (named, same, cases) =
      bind_command_cases f file j effect c now receipt file'
        (bind-bind_command f file effect c now (receipt, file') e) in
    elim cases [
      | inl (missing, grown) ↦
          rw grown (bind_row-Follows f file effect c now j device made named same missing)
      | inr (b, found, digest, payload, kept) ↦ rw kept (Follows-refl f file j)
    ]
Step-Follows f _ _ device j (pressed file file' effect press_id now o fresh e) =
    let (c, known) = press_bound f file effect press_id now (o, file') e in
    let (named, found) = bound_command_lem f file j effect c known in
    let (made, keyed) = get-IsMade f effect j.known c j.made found in
    let grown : file' ≡ file ++ line_of (press_row (pressed_row f file j c press_id now)) ∷ [] =
      ground (arith, press_lem f file j effect c press_id now known) in
    rw grown (
      press_row-Follows f file c press_id now j device made (rw (is_fresh_in, j.readable) at fresh))

Steps-Follows :
    (f : Fixture) (file file' : List Line)
    → IsDevice f
    → (j : IsConsistent f file) → Steps f file file'
    → Follows f file file' j
Steps-Follows f _ _ device j (stop file) = Follows-refl f file j
Steps-Follows f _ _ device j (next file file' file'' step rest) =
    let first = Step-Follows f file file' device j step in
    let later = Steps-Follows f file' file'' device first.consistent rest in
    record {
      consistent = later.consistent;
      keeps = λ effect c found. later.keeps effect c (first.keeps effect c found);
      a_grows = omega (arith, first.a_grows, later.a_grows);
      b_grows = omega (arith, first.b_grows, later.b_grows);
    }

-- Bindings of constructed commands and presses with fresh identifiers, in any sequence, lead from
-- a consistent journal of a device to a consistent one: every row of it is accepted again, its
-- bindings agree, and each press row carries the counters and latches that a replay of the rows up
-- to it gives.
pub Steps-IsConsistent :
    (f : Fixture) (file file' : List Line)
    → IsDevice f
    → IsConsistent f file
    → Steps f file file'
    → IsConsistent f file'
Steps-IsConsistent f file file' device j run = (Steps-Follows f file file' device j run).consistent

-- On a consistent journal of a device, the command that is bound to an effect key is still bound
-- to it after any sequence of bindings of constructed commands and of presses with fresh
-- identifiers.
pub bound_forever :
    (f : Fixture) (file file' : List Line) (effect : Text) (c : SpatialPressCommand)
    → IsDevice f
    → IsConsistent f file
    → Steps f file file'
    → bound_command f file effect ≡ returns c
    → bound_command f file' effect ≡ returns c
unfolding bound_command
bound_forever f file file' effect c device j run known =
    let (named, found) = bound_command_lem f file j effect c known in
    let after = Steps-Follows f file file' device j run in
    let kept = after.keeps effect c found in ground (arith, bindings_lem f file' after.consistent)

-- No counter falls.
pub counters_grow :
    (f : Fixture) (file file' : List Line) (s s' : DeviceState)
    → IsDevice f
    → IsConsistent f file
    → Steps f file file'
    → state f file ≡ returns s
    → state f file' ≡ returns s'
    → (s.a_counter ≤ s'.a_counter) × (s.b_counter ≤ s'.b_counter)
counters_grow f file file' s s' device j run before after =
    let follows = Steps-Follows f file file' device j run in
    let first : state_of f file j ≡ s = ground (arith, state_lem f file j) in
    let last : state_of f file' follows.consistent ≡ s' =
      ground (arith, state_lem f file' follows.consistent) in
    (rw (first, last) at follows.a_grows, rw (first, last) at follows.b_grows)

-- A device whose file does not exist yet.
pub empty-IsConsistent : (f : Fixture) → IsConsistent f []
unfolding read_journal bindings_among for_each
empty-IsConsistent f = record {
  rows = [];
  known = [];
  readable = refl;
  bound = refl;
  counted = tt;
  made = tt;
}
