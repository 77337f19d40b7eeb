-- ===== src/Base/Keys.antt =====
-- Tables whose primary key is unique. `same` says of two rows that they have the same key.
use mathlib.Core.Path.{◌≡◌, refl}
use mathlib.Core.Bool.{Bool, true, ◌&&◌}
use mathlib.Core.Logic.{inl, inr}
use mathlib.Core.Option.{Option, none, some}
use mathlib.Core.List.{List, [], ◌∷◌}
use Prim.Native.Nat.{ℕ}
use native.Mathlib.Omega.{arith}
use deferred_teleoperation.Base.Tests.{if◌then◌else◌, Bool-cases}
use deferred_teleoperation.Base.Tables.{find, update, count, insert, find-insert, find-update}

module _ {ℓ} {R : Type ℓ} (same : R → R → Bool) where
  -- No two rows have one key.
  abbrev pub IsKeyed : List R → Type ℓ
  IsKeyed [] = Unit
  IsKeyed (x ∷ rows) = (find (same x) rows ≡ none) × IsKeyed rows

module _ {ℓ} {R : Type ℓ} where
  pub find-none :
      (p s : R → Bool) (rows : List R)
      → ((y : R) → p y ≡ true → s y ≡ true)
      → find s rows ≡ none
      → find p rows ≡ none
  unfolding find
  find-none p s [] sub h = refl
  find-none p s (x ∷ rows) sub h = ground (arith, sub x, find-none p s rows sub)

  pub count-none :
      (p q : R → Bool) (rows : List R) → find p rows ≡ none → count (λ r. p r && q r) rows ≡ 0
  unfolding find count
  count-none p q [] h = refl
  count-none p q (x ∷ rows) h = ground (arith, count-none p q rows)

  -- How many rows a condition on the key and a further test select.
  abbrev pub hits : (R → Bool) → Option R → ℕ
  hits q none = 0
  hits q (some r) = if q r then 1 else 0

  pub count_keyed :
      (same : R → R → Bool) (p q : R → Bool) (rows : List R)
      → ((x y : R) → p x ≡ true → p y ≡ true → same x y ≡ true)
      → IsKeyed same rows
      → count (λ r. p r && q r) rows ≡ hits q (find p rows)
  unfolding find count
  count_keyed same p q [] agree h = refl
  count_keyed same p q (x ∷ rows) agree h = elim (Bool-cases (p x)) [
    | inl hit ↦ rw hit (
        rw (count-none p q rows (find-none p (same x) rows (λ y. agree x y hit) h.0))
          (ground arith))
    | inr miss ↦ rw miss (omega (arith, count_keyed same p q rows agree h.1))
  ]

  pub insert-IsKeyed :
      (same : R → R → Bool) (p : R → Bool) (r : R) (rows : List R)
      → ((y : R) → same y r ≡ true → p y ≡ true)
      → find p rows ≡ none
      → IsKeyed same rows
      → IsKeyed same (insert r rows)
  unfolding find insert
  insert-IsKeyed same p r [] agree new h = (refl, tt)
  insert-IsKeyed same p r (x ∷ rows) agree new h = elim (Bool-cases (p x)) [
    | inl hit ↦ cc (rw hit at new)
    | inr miss ↦ (
      ground (arith, find-insert (same x) r rows, agree x, h.0),
      insert-IsKeyed same p r rows agree (rw miss at new) h.1,
    )
  ]

  pub update-IsKeyed :
      (same : R → R → Bool) (p : R → Bool) (f : R → R) (rows : List R)
      → ((x y : R) → same (f x) y ≡ same x y)
      → ((x y : R) → same x (f y) ≡ same x y)
      → IsKeyed same rows
      → IsKeyed same (update p f rows)
  unfolding find update
  update-IsKeyed same p f [] left right h = tt
  update-IsKeyed same p f (x ∷ rows) left right h = (
    elim (Bool-cases (p x)) [
      | inl hit ↦
          rw (hit, find-update (same (f x)) p f rows (λ y. right (f x) y))
            (rw (find-none (same (f x)) (same x) rows (λ y e. rw (left x y) at e) h.0) refl)
      | inr miss ↦ rw (miss, find-update (same x) p f rows (λ y. right x y)) (ground (arith, h.0))
    ],
    update-IsKeyed same p f rows left right h.1,
  )
