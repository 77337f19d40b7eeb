-- ===== src/Fixture/Levels.antt =====
-- Loops and rows of a journal to which a row is appended.
use deferred_teleoperation.Base.{◌≡◌, refl, ap, some, List, [], ◌∷◌, ◌++◌, arith, inl, inr}
use deferred_teleoperation.M3a.{SpatialPressCommand, new_command, command_payload}
use deferred_teleoperation.Fixture.{
  Fixture, Reply, returns, raises, ◌>>=◌, for_each, Reply-cases, canonical_text, PressRow, Row,
  binding_row, press_row, DeviceState,
}
use deferred_teleoperation.Fixture.Journal.{
  command_from_journal, press_rows, binding_rows, impulse, replay,
}

bind_returns {ℓ} : {A : Type ℓ} (r : Reply A) → (r >>= (λ a. returns a)) ≡ r
bind_returns (returns a) = refl
bind_returns (raises e) = refl

abbrev pub of_returns {ℓ} : {A : Type ℓ} → A → Reply A → A
of_returns a (returns b) = b
of_returns a (raises e) = a

-- A loop over a list with one more element.
pub for_each-append {ℓ κ} :
    {S : Type ℓ} {X : Type κ} (body : S → X → Reply S) (s : S) (xs : List X) (x : X) (t : S)
    → for_each body s xs ≡ returns t
    → for_each body s (xs ++ x ∷ []) ≡ body t x
unfolding for_each
for_each-append body s [] x t e =
    let same = ap (of_returns s) e in rw (same, bind_returns (body t x)) refl
for_each-append body s (y ∷ xs) x t e = elim (Reply-cases (body s y)) [
  | inl (u, next) ↦ rw next (for_each-append body u xs x t (rw next at e))
  | inr (bad, next) ↦ absurd (ground arith)
]

pub press_rows-append :
    (rows : List Row) (r : Row)
    → press_rows (rows ++ r ∷ []) ≡ press_rows rows ++ press_rows (r ∷ [])
press_rows-append [] r = refl
press_rows-append (binding_row b ∷ rows) r = press_rows-append rows r
press_rows-append (press_row p ∷ rows) r = ap (λ t. p ∷ t) (press_rows-append rows r)

pub binding_rows-append :
    (rows : List Row) (r : Row)
    → binding_rows (rows ++ r ∷ []) ≡ binding_rows rows ++ binding_rows (r ∷ [])
binding_rows-append [] r = refl
binding_rows-append (binding_row b ∷ rows) r = ap (λ t. b ∷ t) (binding_rows-append rows r)
binding_rows-append (press_row p ∷ rows) r = binding_rows-append rows r

pub replay-append :
    (s : DeviceState) (ps : List PressRow) (p : PressRow)
    → replay s (ps ++ p ∷ []) ≡ impulse p.contact (replay s ps)
unfolding replay
replay-append s [] p = refl
replay-append s (q ∷ ps) p = replay-append (impulse q.contact s) ps p

-- The command of a row that was written for a command that the constructor returned.
pub command_from_journal_lem :
    (f : Fixture) (c : SpatialPressCommand)
    → new_command f.digests c ≡ some c
    → command_from_journal f (canonical_text (command_payload c)) c.command_digest ≡ returns c
unfolding command_from_journal
command_from_journal_lem f c made = ground arith
