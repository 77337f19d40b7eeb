-- ===== src/Link/Blackout.antt =====
-- `_after_blackout`: the end of the loop and its result.
use deferred_teleoperation.Base.{
  ℕ, zero, suc, ◌+◌, ◌≤◌, ◌<◌, ◌≡◌, refl, Bool, true, false, some, List, [], ◌∷◌, arith, ltb,
  if◌then◌else◌, length, Bool-cases, inl, inr,
}
use deferred_teleoperation.Link.{Interval}
use deferred_teleoperation.Link.Schedule.{is_inside, in_blackout, pass, settle, after_blackout}

-- How many blackouts end after an instant: what is left for the loop to jump over.
abbrev ahead : List Interval → ℕ → ℕ
ahead [] t = 0
ahead (b ∷ rest) t = (if ltb t b.end then 1 else 0) + ahead rest t

ahead-le : (bs : List Interval) (t : ℕ) → ahead bs t ≤ length bs
ahead-le [] t = omega arith
ahead-le (b ∷ rest) t = ground (arith, ahead-le rest t)

ahead_mono : (bs : List Interval) (s t : ℕ) → s ≤ t → ahead bs t ≤ ahead bs s
ahead_mono [] s t h = omega arith
ahead_mono (b ∷ rest) s t h = ground (arith, ahead_mono rest s t h)

-- A pass only moves forward, and its flag says whether it moved.
pass_grows : (bs : List Interval) (c : ℕ) (b : Bool) → c ≤ (pass bs c b).0
unfolding pass
pass_grows [] c b = omega arith
pass_grows (x ∷ rest) c b = ground (arith, pass_grows rest x.end true, pass_grows rest c b)

pass_flag_kept : (bs : List Interval) (c : ℕ) → (pass bs c true).1 ≡ true
unfolding pass
pass_flag_kept [] c = refl
pass_flag_kept (x ∷ rest) c = ground (arith, pass_flag_kept rest x.end, pass_flag_kept rest c)

-- A pass that moved has jumped over a blackout that was ahead.
pass_progress :
    (bs : List Interval) (c : ℕ)
    → (pass bs c false).1 ≡ true
    → ahead bs (pass bs c false).0 < ahead bs c
unfolding pass
pass_progress [] c h = absurd (ground arith)
pass_progress (x ∷ rest) c h = elim (Bool-cases (is_inside c x)) [
  | inl hit ↦ ground (arith, pass_grows rest x.end true, ahead_mono rest c (pass rest x.end true).0)
  | inr miss ↦ ground (arith, pass_progress rest c, pass_grows rest c false)
]

-- A pass that did not move is at an instant outside every blackout.
pass_still :
    (bs : List Interval) (c : ℕ)
    → (pass bs c false).1 ≡ false
    → ((pass bs c false).0 ≡ c) × (in_blackout bs c ≡ false)
unfolding pass in_blackout
pass_still [] c h = (refl, refl)
pass_still (x ∷ rest) c h = elim (Bool-cases (is_inside c x)) [
  | inl hit ↦ absurd (ground (arith, pass_flag_kept rest x.end))
  | inr miss ↦ ground (arith, pass_still rest c)
]

-- Every instant that a pass jumps over is in a blackout.
pass_covers :
    (bs : List Interval) (c t : ℕ) (b : Bool)
    → c ≤ t
    → t < (pass bs c b).0
    → in_blackout bs t ≡ true
unfolding pass in_blackout
pass_covers [] c t b low high = absurd (omega arith)
pass_covers (x ∷ rest) c t b low high = elim (Bool-cases (is_inside c x)) [
  | inl hit ↦ elim (Bool-cases (ltb t x.end)) [
    | inl before ↦ ground arith
    | inr after ↦ ground (arith, pass_covers rest x.end t true)
  ]
  | inr miss ↦ ground (arith, pass_covers rest c t b)
]

-- What the loop promises of its result.
pub record IsFirstFree (bs : List Interval) (c r : ℕ) : Type 0 where
  pub later : c ≤ r
  pub free : in_blackout bs r ≡ false

settle_ends :
    (fuel : ℕ) (bs : List Interval) (c : ℕ)
    → ahead bs c < fuel
    → (r : ℕ) × (settle fuel bs c ≡ some r) × IsFirstFree bs c r
unfolding settle
settle_ends zero bs c h = absurd (omega arith)
settle_ends (suc fuel) bs c h = elim (Bool-cases (pass bs c false).1) [
  | inr still ↦
      let (stays, free) = pass_still bs c still in
      ((pass bs c false).0, ground arith, record { later = ground arith; free = rw stays free })
  | inl moved ↦
      let step = pass_progress bs c moved in
      let (r, ends, first) = settle_ends fuel bs (pass bs c false).0 (omega arith) in
      (
        r,
        ground arith,
        record { later = ground (arith, pass_grows bs c false, first.later); free = first.free },
      )
]

settle_covers :
    (fuel : ℕ) (bs : List Interval) (c t r : ℕ)
    → settle fuel bs c ≡ some r
    → c ≤ t
    → t < r
    → in_blackout bs t ≡ true
unfolding settle
settle_covers zero bs c t r e low high = absurd (ground arith)
settle_covers (suc fuel) bs c t r e low high = elim (Bool-cases (pass bs c false).1) [
  | inr still ↦ absurd (ground (arith, pass_still bs c still))
  | inl moved ↦ elim (Bool-cases (ltb t (pass bs c false).0)) [
    | inl before ↦ pass_covers bs c t false low (ground arith)
    | inr after ↦ settle_covers fuel bs (pass bs c false).0 t r (ground arith) (ground arith) high
  ]
]

-- For any intervals and any candidate, the loop ends within one pass more than there are
-- intervals, at a time that is not before the candidate and in no interval.
pub after_blackout_ends :
    (bs : List Interval) (c : ℕ)
    → (settle (length bs + 1) bs c ≡ some (after_blackout bs c))
      × (c ≤ after_blackout bs c)
      × (in_blackout bs (after_blackout bs c) ≡ false)
unfolding after_blackout
after_blackout_ends bs c =
    let (r, ends, first) = settle_ends (length bs + 1) bs c (ground (arith, ahead-le bs c)) in
    (rw ends refl, rw ends first.later, rw ends first.free)

-- No time from the candidate on that lies in no interval comes before the time that the loop
-- finds.
pub after_blackout_least :
    (bs : List Interval) (c t : ℕ) → c ≤ t → in_blackout bs t ≡ false → after_blackout bs c ≤ t
after_blackout_least bs c t low free = elim (Bool-cases (ltb t (after_blackout bs c))) [
  | inl before ↦ absurd (
      ground (
        arith,
        settle_covers (length bs + 1) bs c t (after_blackout bs c) (after_blackout_ends bs c).0 low,
      ))
  | inr after ↦ ground arith
]
