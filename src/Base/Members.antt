-- ===== src/Base/Members.antt =====
-- Membership in a table, and what a selected row is in a table with unique keys.
use mathlib.Core.Path.{◌≡◌, refl, sym, subst}
use mathlib.Core.Bool.{Bool, true, false}
use mathlib.Core.Logic.{inl, inr}
use mathlib.Core.Option.{none, some}
use mathlib.Core.List.{List, [], ◌∷◌, Memᴰ}
use mathlib.Core.List.Memᴰ
use native.Mathlib.Omega.{arith}
use deferred_teleoperation.Base.Tests.{Bool-cases}
use deferred_teleoperation.Base.Lists.{All, select}
use deferred_teleoperation.Base.Tables.{find}
use deferred_teleoperation.Base.Keys.{IsKeyed}

module _ {ℓ} {R : Type ℓ} where
  pub not-mem_of_find-none :
      (p : R → Bool) (r : R) (rows : List R) → find p rows ≡ none → Memᴰ r rows → p r ≡ false
  unfolding find
  not-mem_of_find-none p r [] h m = elim m [ ]
  not-mem_of_find-none p r (x ∷ rows) h m = elim (Bool-cases (p x)) [
    | inl hit ↦ cc (rw hit at h)
    | inr miss ↦ elim (Memᴰ.cases_cons m) [
      | inl same ↦ rw same miss
      | inr later ↦ not-mem_of_find-none p r rows (rw miss at h) later
    ]
  ]

  pub find_of_mem :
      (same : R → R → Bool) (p : R → Bool) (r : R) (rows : List R)
      → ((x y : R) → p x ≡ true → p y ≡ true → same x y ≡ true)
      → IsKeyed same rows
      → Memᴰ r rows
      → p r ≡ true
      → find p rows ≡ some r
  unfolding find
  find_of_mem same p r [] agree h m e = elim m [ ]
  find_of_mem same p r (x ∷ rows) agree h m e = elim (Memᴰ.cases_cons m) [
    | inl here ↦ rw (← here, e) refl
    | inr later ↦ elim (Bool-cases (p x)) [
      | inl hit ↦
          let clash = not-mem_of_find-none (same x) r rows h.0 later in
          let equal = agree x r hit e in ground arith
      | inr miss ↦ rw miss (find_of_mem same p r rows agree h.1 later e)
    ]
  ]

  pub mem-select :
      (q : R → Bool) (r : R) (rows : List R) → Memᴰ r (select q rows) → Memᴰ r rows × (q r ≡ true)
  mem-select q r [] m = elim m [ ]
  mem-select q r (x ∷ rows) m = elim (Bool-cases (q x)) [
    | inl hit ↦ elim (Memᴰ.cases_cons (rw hit at m)) [
      | inl same ↦ (Memᴰ.head same, rw same hit)
      | inr later ↦ let found = mem-select q r rows later in (Memᴰ.tail found.0, found.1)
    ]
    | inr miss ↦ let found = mem-select q r rows (rw miss at m) in (Memᴰ.tail found.0, found.1)
  ]

  pub mem-select_intro :
      (q : R → Bool) (r : R) (rows : List R) → Memᴰ r rows → q r ≡ true → Memᴰ r (select q rows)
  mem-select_intro q r [] m h = elim m [ ]
  mem-select_intro q r (x ∷ rows) m h = elim (Memᴰ.cases_cons m) [
    | inl same ↦ rw (← same, h) (Memᴰ.head refl)
    | inr later ↦
        let rest = mem-select_intro q r rows later h in
        elim (Bool-cases (q x)) [ inl hit ↦ rw hit (Memᴰ.tail rest) | inr miss ↦ rw miss rest ]
  ]

  pub mem_of_find : (p : R → Bool) (r : R) (rows : List R) → find p rows ≡ some r → Memᴰ r rows
  unfolding find
  mem_of_find p r [] h = cc
  mem_of_find p r (x ∷ rows) h = elim (Bool-cases (p x)) [
    | inl hit ↦ Memᴰ.head (ground arith)
    | inr miss ↦ Memᴰ.tail (mem_of_find p r rows (rw miss at h))
  ]

  pub All-of_mem {κ} : (P : R → Type κ) (rows : List R) → ((r : R) → Memᴰ r rows → P r) → All P rows
  All-of_mem P [] h = tt
  All-of_mem P (r ∷ rows) h = (h r (Memᴰ.head refl), All-of_mem P rows (λ x m. h x (Memᴰ.tail m)))

  pub All-mem {κ} : (P : R → Type κ) (rows : List R) (r : R) → All P rows → Memᴰ r rows → P r
  All-mem P [] r h m = elim m [ ]
  All-mem P (x ∷ rows) r h m = elim (Memᴰ.cases_cons m) [
    | inl same ↦ subst P (sym same) h.0
    | inr later ↦ All-mem P rows r h.1 later
  ]
