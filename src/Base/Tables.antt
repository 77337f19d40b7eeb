-- ===== src/Base/Tables.antt =====
-- A table of a relational store: a list of rows in the order of insertion. SELECT, INSERT and
-- UPDATE take the row's condition as a Boolean test.
use Prim.Native.Nat.{ℕ, ◌+◌}
use mathlib.Core.Path.{◌≡◌, refl, subst}
use mathlib.Core.Logic.{inl, inr}
use mathlib.Core.Bool.{Bool, true, false}
use mathlib.Core.Option
use mathlib.Core.Option.{Option, none, some}
use mathlib.Core.List.{List, [], ◌∷◌, ◌++◌}
use native.Mathlib.Omega.{arith}
use deferred_teleoperation.Base.Tests.{if◌then◌else◌, is_none, Bool-cases}
use deferred_teleoperation.Base.Lists.{All}

module _ {ℓ} {R : Type ℓ} where
  -- `SELECT … WHERE p`, `.fetchone()`.
  unfoldable pub find : (R → Bool) → List R → Option R
  find p [] = none
  find p (r ∷ rows) = if p r then some r else find p rows

  -- `UPDATE … SET f WHERE p`.
  unfoldable pub update : (R → Bool) → (R → R) → List R → List R
  update p f [] = []
  update p f (r ∷ rows) = (if p r then f r else r) ∷ update p f rows

  -- How many rows satisfy the condition (`cursor.rowcount`).
  unfoldable pub count : (R → Bool) → List R → ℕ
  count p [] = 0
  count p (r ∷ rows) = (if p r then 1 else 0) + count p rows

  -- `INSERT INTO`.
  unfoldable pub insert : R → List R → List R
  insert r rows = rows ++ r ∷ []

  -- What a found row satisfies.
  pub find_sound : (p : R → Bool) (rows : List R) (r : R) → find p rows ≡ some r → p r ≡ true
  unfolding find
  find_sound p [] r h = cc
  find_sound p (x ∷ rows) r h = ground (arith, find_sound p rows r)

  pub find-insert :
      (p : R → Bool) (r : R) (rows : List R)
      → find p (insert r rows)
        ≡ (if is_none (find p rows) then (if p r then some r else none) else find p rows)
  unfolding find insert
  find-insert p r [] = refl
  find-insert p r (x ∷ rows) = ground (arith, find-insert p r rows)

  -- An update that leaves the condition alone changes the selected row and no other.
  pub find-update_same :
      (p : R → Bool) (f : R → R) (rows : List R)
      → ((r : R) → p (f r) ≡ p r)
      → find p (update p f rows) ≡ Option.map f (find p rows)
  unfolding find update
  find-update_same p f [] keep = refl
  find-update_same p f (x ∷ rows) keep = ground (arith, keep x, find-update_same p f rows keep)

  -- A row selected by another condition, which the update keeps, is updated if it meets `p`.
  pub find-update :
      (q p : R → Bool) (f : R → R) (rows : List R)
      → ((r : R) → q (f r) ≡ q r)
      → find q (update p f rows) ≡ Option.map (λ r. if p r then f r else r) (find q rows)
  unfolding find update
  find-update q p f [] keep = refl
  find-update q p f (x ∷ rows) keep = ground (arith, keep x, find-update q p f rows keep)

  pub All-update {κ} :
      (P : R → Type κ) (p : R → Bool) (f : R → R) (rows : List R)
      → ((r : R) → p r ≡ true → P r → P (f r))
      → All P rows
      → All P (update p f rows)
  unfolding update
  All-update P p f [] step h = h
  All-update P p f (x ∷ rows) step h = (ground (arith, step x, h.0), All-update P p f rows step h.1)

  pub All-find {κ} :
      (P : R → Type κ) (p : R → Bool) (rows : List R) (r : R)
      → All P rows
      → find p rows ≡ some r
      → P r
  unfolding find
  All-find P p [] r h e = cc
  All-find P p (x ∷ rows) r h e = elim (Bool-cases (p x)) [
    | inl hit ↦ subst P {x = x} {y = r} (ground arith) h.0
    | inr miss ↦ All-find P p rows r h.1 (ground arith)
  ]

  -- After an update that covers all rows of a condition, and leaves none of them meeting it, the
  -- condition selects nothing.
  pub find-update-none :
      (p q : R → Bool) (f : R → R) (rows : List R)
      → ((r : R) → p (f r) ≡ false)
      → ((r : R) → p r ≡ true → q r ≡ true)
      → find p (update q f rows) ≡ none
  unfolding find update
  find-update-none p q f [] gone cover = refl
  find-update-none p q f (x ∷ rows) gone cover =
      ground (arith, gone x, cover x, find-update-none p q f rows gone cover)

  pub update-none :
      (p : R → Bool) (f : R → R) (rows : List R) → find p rows ≡ none → update p f rows ≡ rows
  unfolding find update
  update-none p f [] h = refl
  update-none p f (x ∷ rows) h = ground (arith, update-none p f rows)

  pub count_zero : (p : R → Bool) (rows : List R) → find p rows ≡ none → count p rows ≡ 0
  unfolding find count
  count_zero p [] h = refl
  count_zero p (x ∷ rows) h = ground (arith, count_zero p rows)
