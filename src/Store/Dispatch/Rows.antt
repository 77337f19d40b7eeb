-- ===== src/Store/Dispatch/Rows.antt =====
-- How one row of the journal may change, and how the table changes with it.
use mathlib.Core.Option.{some-injective}
use deferred_teleoperation.Base.{
  ℕ, ◌≡◌, ◌≤◌, refl, sym, ap, ◌∙◌, subst, true, none, some, List, arith, is_some, find, update,
  insert, find-insert, find-update, find_sound, Bool-cases, inl, inr,
}
use deferred_teleoperation.Time.{Instant, UtcText}
use deferred_teleoperation.Wire.{Text, Uuid, received, accepted, dispatch_recorded, running, held}
use deferred_teleoperation.Store.Schema.{JournalRow}
use deferred_teleoperation.Store.Journal.{is_contract, is_terminal, Claim, accepted_row}

-- The columns of a row agree with its state: nothing happened yet, a dispatch is out, or the
-- execution is over. No row is ever in the states `RECEIVED` and `RUNNING`.
abbrev pub IsSound : JournalRow → Type 0
IsSound row = elim row.state [
  | accepted ↦ (row.dispatch_recorded_at ≡ none) × (row.terminal_at ≡ none) × (row.effect_count ≡ 0)
  | dispatch_recorded ↦
      (is_some row.dispatch_recorded_at ≡ true) × (row.terminal_at ≡ none) × (row.effect_count ≡ 0)
  | received ↦ ⊥
  | running ↦ ⊥
  | _ ↦ (is_some row.terminal_at ≡ true) × (row.effect_count ≤ 1)
]

-- The columns that identify a row, and its time of acceptance.
abbrev pub identity : JournalRow → Uuid × ℕ × Uuid × Text × Text × UtcText
identity row = (
  row.contract_id, row.contract_revision, row.operation_id, row.task_id, row.effect_key,
  row.accepted_at,
)

abbrev pub SameClaim : JournalRow → JournalRow → Type 0
SameClaim a b = identity b ≡ identity a

-- One change of a row.
pub data Advances (a b : JournalRow) : Type 0 where
  stay : b ≡ a → Advances a b
  dispatch :
      a.state ≡ accepted
      → b.state ≡ dispatch_recorded
      → is_some b.dispatch_recorded_at ≡ true
      → b.terminal_at ≡ a.terminal_at
      → b.effect_count ≡ a.effect_count
      → SameClaim a b
      → Advances a b
  conclude :
      a.state ≡ dispatch_recorded
      → is_terminal b.state ≡ true
      → is_some b.terminal_at ≡ true
      → b.effect_count ≤ 1
      → b.dispatch_recorded_at ≡ a.dispatch_recorded_at
      → b.dispatch_device_id ≡ a.dispatch_device_id
      → SameClaim a b
      → Advances a b
  refuse :
      a.state ≡ accepted
      → b.state ≡ held
      → is_some b.terminal_at ≡ true
      → b.effect_count ≡ a.effect_count
      → b.dispatch_recorded_at ≡ a.dispatch_recorded_at
      → b.dispatch_device_id ≡ a.dispatch_device_id
      → SameClaim a b
      → Advances a b

pub Advances-IsSound : (a b : JournalRow) → Advances a b → IsSound a → IsSound b
Advances-IsSound a b (stay e) h = subst IsSound (sym e) h
Advances-IsSound a b (dispatch s s' d t e same) h = ground arith
Advances-IsSound a b (conclude s s' t e d v same) h = ground arith
Advances-IsSound a b (refuse s s' t e d v same) h = ground arith

pub accepted_row-IsSound : (c : Claim) (t : Instant) → IsSound (accepted_row c t)
unfolding accepted_row
accepted_row-IsSound c t = (refl, refl, refl)

-- A recorded dispatch is never recorded anew, and never changes.
pub Advances-dispatch :
    (a b : JournalRow)
    → Advances a b
    → IsSound a
    → is_some a.dispatch_recorded_at ≡ true
    → (b.dispatch_recorded_at ≡ a.dispatch_recorded_at)
      × (b.dispatch_device_id ≡ a.dispatch_device_id)
Advances-dispatch a b (stay e) h d = (rw e refl, rw e refl)
Advances-dispatch a b (dispatch s s' d' t e same) h d = absurd (ground arith)
Advances-dispatch a b (conclude s s' t e d' v same) h d = (d', v)
Advances-dispatch a b (refuse s s' t e d' v same) h d = (d', v)

-- A concluded row never changes.
pub Advances-terminal :
    (a b : JournalRow) → Advances a b → IsSound a → is_some a.terminal_at ≡ true → b ≡ a
Advances-terminal a b (stay e) h t = e
Advances-terminal a b (dispatch s s' d' t' e same) h t = absurd (ground arith)
Advances-terminal a b (conclude s s' t' e d' v same) h t = absurd (ground arith)
Advances-terminal a b (refuse s s' t' e d' v same) h t = absurd (ground arith)

pub Advances-SameClaim : (a b : JournalRow) → Advances a b → SameClaim a b
Advances-SameClaim a b (stay e) = ap identity e
Advances-SameClaim a b (dispatch s s' d t e same) = same
Advances-SameClaim a b (conclude s s' t e d v same) = same
Advances-SameClaim a b (refuse s s' t e d v same) = same

-- How an operation writes the table.
pub data Writes (rows rows' : List JournalRow) : Type 0 where
  nothing : rows' ≡ rows → Writes rows rows'
  adds :
      (c : Claim) (t : Instant)
      → find (is_contract c.contract_id c.contract_revision) rows ≡ none
      → rows' ≡ insert (accepted_row c t) rows
      → Writes rows rows'
  changes :
      (contract_id : Uuid) (revision : ℕ) (r : JournalRow) (f : JournalRow → JournalRow)
      → find (is_contract contract_id revision) rows ≡ some r
      → ((k : Uuid) (n : ℕ) (x : JournalRow) → is_contract k n (f x) ≡ is_contract k n x)
      → Advances r (f r)
      → rows' ≡ update (is_contract contract_id revision) f rows
      → Writes rows rows'

found_as :
    (c k : Uuid) (n m : ℕ) (row : JournalRow) (rows : List JournalRow)
    → find (is_contract c n) rows ≡ some row
    → is_contract k m row ≡ true
    → find (is_contract k m) rows ≡ some row
found_as c k n m row rows found h =
    let own = find_sound (is_contract c n) rows row found in
    let one : c ≡ k = ground arith in
    let two : n ≡ m = ground arith in
    subst (λ j. find (is_contract k j) rows ≡ some row) two
      (subst (λ i. find (is_contract i n) rows ≡ some row) one found)

-- A row that is in the table stays in it, and advances.
pub Writes-Advances :
    (rows rows' : List JournalRow) (c : Uuid) (n : ℕ) (row : JournalRow)
    → Writes rows rows'
    → find (is_contract c n) rows ≡ some row
    → (row' : JournalRow) × (find (is_contract c n) rows' ≡ some row') × Advances row row'
Writes-Advances rows rows' c n row (nothing e) found = (row, rw e found, stay refl)
Writes-Advances rows rows' c n row (adds claim t new e) found =
    (row, ground (arith, find-insert (is_contract c n) (accepted_row claim t) rows), stay refl)
Writes-Advances rows rows' c n row (changes k m r f there keep step e) found =
    elim (Bool-cases (is_contract k m row)) [
      | inl hit ↦
          let same : row ≡ r =
            some-injective row r (sym (found_as c k n m row rows found hit) ∙ there) in
          (
            f row,
            ground (arith, find-update (is_contract c n) (is_contract k m) f rows (keep c n)),
            subst (λ x. Advances x (f x)) (sym same) step,
          )
      | inr miss ↦ (
        row,
        ground (arith, find-update (is_contract c n) (is_contract k m) f rows (keep c n)),
        stay refl,
      )
    ]

-- A row that was not in the table is a fresh one.
pub Writes-new :
    (rows rows' : List JournalRow) (c : Uuid) (n : ℕ) (row' : JournalRow)
    → Writes rows rows'
    → find (is_contract c n) rows ≡ none
    → find (is_contract c n) rows' ≡ some row'
    → IsSound row'
Writes-new rows rows' c n row' (nothing e) gone found = absurd (ground arith)
Writes-new rows rows' c n row' (adds claim t new e) gone found =
    let fresh : row' ≡ accepted_row claim t =
      ground (arith, find-insert (is_contract c n) (accepted_row claim t) rows) in
    subst IsSound (sym fresh) (accepted_row-IsSound claim t)
Writes-new rows rows' c n row' (changes k m r f there keep step e) gone found =
    absurd (ground (arith, find-update (is_contract c n) (is_contract k m) f rows (keep c n)))
