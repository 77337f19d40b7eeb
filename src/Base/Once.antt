-- ===== src/Base/Once.antt =====
-- Events that happen at most once in a sequence of steps: an event needs a mark to be absent and
-- leaves it, and no step takes the mark away.
use Prim.Native.Nat.{ℕ, ◌+◌, ◌≤◌}
use mathlib.Core.Path.{◌≡◌, refl}
use mathlib.Core.Logic.{inl, inr}
use mathlib.Core.Bool.{Bool, true, false}
use mathlib.Core.List.{List, [], ◌∷◌}
use native.Mathlib.Omega.{arith}
use deferred_teleoperation.Base.Tests.{if◌then◌else◌, Bool-cases}

module _ {S O : Type 0} (step : O → S → S) (fires : O → S → Bool) where
  -- How many steps of the sequence fire.
  unfoldable pub count_fires : List O → S → ℕ
  count_fires [] s = 0
  count_fires (o ∷ os) s = (if fires o s then 1 else 0) + count_fires os (step o s)

  module _ (mark : S → Bool) (Inv : S → Type 0) (keep : (o : O) (s : S) → Inv s → Inv (step o s))
      (stays : (o : O) (s : S) → Inv s → mark s ≡ true → mark (step o s) ≡ true)
      (marks : (o : O) (s : S)
        → fires o s ≡ true
        → (mark s ≡ false) × (mark (step o s) ≡ true)) where
    never_again : (os : List O) (s : S) → Inv s → mark s ≡ true → count_fires os s ≡ 0
    unfolding count_fires
    never_again [] s h m = refl
    never_again (o ∷ os) s h m = elim (Bool-cases (fires o s)) [
      | inl now ↦ absurd (ground (arith, (marks o s now).0))
      | inr later ↦ ground (arith, never_again os (step o s) (keep o s h) (stays o s h m))
    ]

    pub at_most_once : (os : List O) (s : S) → Inv s → count_fires os s ≤ 1
    unfolding count_fires
    at_most_once [] s h = omega arith
    at_most_once (o ∷ os) s h = elim (Bool-cases (fires o s)) [
      | inl now ↦ ground (arith, never_again os (step o s) (keep o s h) (marks o s now).1)
      | inr later ↦ ground (arith, at_most_once os (step o s) (keep o s h))
    ]
