-- ===== src/Link/Queue.antt =====
-- The queue of the link: `heappush` keeps its order, and `deliver_due` takes exactly the frames that
-- are due, the earliest first.
use mathlib.Core.List.{Perm, ◌++◌}
use mathlib.Core.List.Perm
use deferred_teleoperation.Base.{
  ℕ, ◌+◌, ◌≤◌, ◌<◌, ◌≡◌, refl, ap, true, false, List, [], ◌∷◌, arith, leb, length, Bool-cases, inl,
  inr, All,
}
use deferred_teleoperation.Link.{ScheduledFrame, goes_before, heappush, Link}
use deferred_teleoperation.Link.Schedule.{pop_due, count_delivery}

abbrev pub IsOrdered : List ScheduledFrame → Type 0
IsOrdered [] = Unit
IsOrdered (x ∷ []) = Unit
IsOrdered (x ∷ y ∷ queue) = (goes_before x y ≡ true) × IsOrdered (y ∷ queue)

goes_before_total : (x y : ScheduledFrame) → goes_before x y ≡ false → goes_before y x ≡ true
goes_before_total x y h = ground arith

goes_before_time :
    (x y : ScheduledFrame) → goes_before x y ≡ true → x.delivery_time ≤ y.delivery_time
goes_before_time x y h = ground arith

pub heappush-IsOrdered :
    (x : ScheduledFrame) (queue : List ScheduledFrame)
    → IsOrdered queue
    → IsOrdered (heappush x queue)
unfolding heappush
heappush-IsOrdered x [] h = tt
heappush-IsOrdered x (y ∷ []) h = elim (Bool-cases (goes_before x y)) [
  | inl before ↦ rw before (before, tt)
  | inr behind ↦ rw behind (goes_before_total x y behind, tt)
]
heappush-IsOrdered x (y ∷ z ∷ queue) h = elim (Bool-cases (goes_before x y)) [
  | inl before ↦ rw before (before, h)
  | inr behind ↦
      let rest = heappush-IsOrdered x (z ∷ queue) h.1 in
      elim (Bool-cases (goes_before x z)) [
        | inl between ↦ rw (behind, between) (goes_before_total x y behind, rw between at rest)
        | inr later ↦ rw (behind, later) (h.0, rw later at rest)
      ]
]

pub heappush-perm :
    (x : ScheduledFrame) (queue : List ScheduledFrame) → Perm (heappush x queue) (x ∷ queue)
unfolding heappush
heappush-perm x [] = Perm.refl _
heappush-perm x (y ∷ queue) = elim (Bool-cases (goes_before x y)) [
  | inl before ↦ rw before (Perm.refl _)
  | inr behind ↦ rw behind (Perm.trans (Perm.cons y (heappush-perm x queue)) (Perm.swap x y queue))
]

pub length-heappush :
    (x : ScheduledFrame) (queue : List ScheduledFrame)
    → length (heappush x queue) ≡ length queue + 1
unfolding heappush
length-heappush x [] = omega arith
length-heappush x (y ∷ queue) = ground (arith, length-heappush x queue)

pub All-heappush {κ} :
    (P : ScheduledFrame → Type κ) (x : ScheduledFrame) (queue : List ScheduledFrame)
    → P x
    → All P queue
    → All P (heappush x queue)
unfolding heappush
All-heappush P x [] p h = (p, tt)
All-heappush P x (y ∷ queue) p h = elim (Bool-cases (goes_before x y)) [
  | inl before ↦ rw before (p, h)
  | inr behind ↦ rw behind (h.0, All-heappush P x queue p h.1)
]

tail-IsOrdered :
    (x : ScheduledFrame) (queue : List ScheduledFrame) → IsOrdered (x ∷ queue) → IsOrdered queue
tail-IsOrdered x [] h = tt
tail-IsOrdered x (y ∷ queue) h = h.1

-- In an ordered queue whose first frame is late, every frame is.
All-later :
    (now : ℕ) (x : ScheduledFrame) (queue : List ScheduledFrame)
    → IsOrdered (x ∷ queue)
    → now < x.delivery_time
    → All (λ y. now < y.delivery_time) (x ∷ queue)
All-later now x [] h late = (late, tt)
All-later now x (y ∷ queue) h late =
    (late, All-later now y queue h.1 (omega (arith, goes_before_time x y h.0)))

pub pop_due_lem :
    (now : ℕ) (queue : List ScheduledFrame) (link : Link)
    → IsOrdered queue
    → ((pop_due now queue link).0 ++ (pop_due now queue link).1.queue ≡ queue)
      × All (λ y. y.delivery_time ≤ now) (pop_due now queue link).0
      × All (λ y. now < y.delivery_time) (pop_due now queue link).1.queue
unfolding pop_due
pop_due_lem now [] link h = (refl, tt, tt)
pop_due_lem now (x ∷ queue) link h = elim (Bool-cases (leb x.delivery_time now)) [
  | inl due ↦
      let (same, early, late) =
        pop_due_lem now queue (count_delivery x link) (tail-IsOrdered x queue h) in
      rw due (ap (λ q. x ∷ q) same, (ground arith, early), late)
  | inr later ↦ rw later (refl, tt, All-later now x queue h (ground arith))
]

pub pop_due-counts :
    (now : ℕ) (queue : List ScheduledFrame) (link : Link)
    → ((pop_due now queue link).1.metrics.delivered + length (pop_due now queue link).1.queue
        ≡ link.metrics.delivered + length queue)
      × ((pop_due now queue link).1.sequence ≡ link.sequence)
unfolding pop_due
pop_due-counts now [] link = (refl, refl)
pop_due-counts now (x ∷ queue) link =
    ground (arith, pop_due-counts now queue (count_delivery x link))

pub rest-IsOrdered :
    (now : ℕ) (queue : List ScheduledFrame) (link : Link)
    → IsOrdered queue
    → IsOrdered (pop_due now queue link).1.queue
unfolding pop_due
rest-IsOrdered now [] link h = tt
rest-IsOrdered now (x ∷ queue) link h = elim (Bool-cases (leb x.delivery_time now)) [
  | inl due ↦ rw due (rest-IsOrdered now queue (count_delivery x link) (tail-IsOrdered x queue h))
  | inr later ↦ rw later h
]

pub All-rest {κ} :
    (P : ScheduledFrame → Type κ) (now : ℕ) (queue : List ScheduledFrame) (link : Link)
    → All P queue
    → All P (pop_due now queue link).0 × All P (pop_due now queue link).1.queue
unfolding pop_due
All-rest P now [] link h = (tt, tt)
All-rest P now (x ∷ queue) link h = elim (Bool-cases (leb x.delivery_time now)) [
  | inl due ↦
      let (out, rest) = All-rest P now queue (count_delivery x link) h.1 in
      rw due ((h.0, out), rest)
  | inr later ↦ rw later (tt, h)
]

pub length-rest-le :
    (now : ℕ) (queue : List ScheduledFrame) (link : Link)
    → length (pop_due now queue link).1.queue ≤ length queue
unfolding pop_due
length-rest-le now [] link = omega arith
length-rest-le now (x ∷ queue) link =
    ground (arith, length-rest-le now queue (count_delivery x link))
