-- ===== src/Link/Accounts.antt =====
-- The queue, the counters and the scheduled times of the link under any sequence of its calls.
use mathlib.Core.List.{◌++◌}
use deferred_teleoperation.Base.{
  ℕ, zero, suc, ◌+◌, ◌≤◌, ◌<◌, ◌≡◌, refl, true, false, Option, some, List, [], ◌∷◌, arith, leb,
  if◌then◌else◌, length, Bool-cases, Option-cases, inl, inr, All,
}
use deferred_teleoperation.Link.{
  Side, other_side, LinkFrame, StableId, stable_id, ScriptedDelivery, FaultProfile, Machine,
  ScheduledFrame, Link, new_link,
}
use deferred_teleoperation.Link.Schedule.{
  in_blackout, delivery_time, is_expired, dropped, expire, scheduled_frame, push, schedule_copy,
  schedule_copies, announced, injected, duplicate_count, submit_known, submit, deliver_due,
}
use deferred_teleoperation.Link.Blackout.{after_blackout_ends}
use deferred_teleoperation.Link.Queue.{
  IsOrdered, heappush-IsOrdered, length-heappush, All-heappush, pop_due_lem, pop_due-counts,
  rest-IsOrdered, All-rest, length-rest-le,
}

-- The scheduled time lies in no blackout, and the link judges the frame as not expired then.
abbrev pub IsClear : Machine → FaultProfile → ScheduledFrame → Type 0
IsClear m p x =
    (in_blackout p.blackout_intervals x.delivery_time ≡ false)
    × (is_expired m x.frame x.delivery_time ≡ some false)

pub record IsValid (m : Machine) (p : FaultProfile) (link : Link) : Type 0 where
  pub ordered : IsOrdered link.queue
  pub bounded : length link.queue ≤ p.queue_capacity
  pub accounted : link.metrics.delivered + length link.queue ≡ link.sequence
  pub clear : All (IsClear m p) link.queue

pub new_link-IsValid : (m : Machine) (p : FaultProfile) → IsValid m p (new_link m p)
unfolding new_link
new_link-IsValid m p = record { ordered = tt; bounded = omega arith; accounted = refl; clear = tt }

-- Computing a delivery time leaves the queue and what is counted of it.
timed_keeps :
    (m : Machine) (p : FaultProfile) (side : Side) (frame : LinkFrame) (now copy : ℕ)
    (directive : Option ScriptedDelivery) (link : Link)
    → let timed = delivery_time m p side frame now copy directive link in
      (timed.1.queue ≡ link.queue)
      × (timed.1.sequence ≡ link.sequence)
      × (timed.1.metrics.delivered ≡ link.metrics.delivered)
      × (timed.1.metrics.submitted ≡ link.metrics.submitted)
      × (timed.1.metrics.dropped_capacity ≡ link.metrics.dropped_capacity)
      × (timed.1.metrics.expired ≡ link.metrics.expired)
      × (in_blackout p.blackout_intervals timed.0 ≡ false)
unfolding delivery_time
timed_keeps m p side frame now copy directive link =
    (refl, refl, refl, refl, refl, refl, (after_blackout_ends p.blackout_intervals _).2)

push-IsValid :
    (m : Machine) (p : FaultProfile) (x : ScheduledFrame) (link : Link)
    → length link.queue < p.queue_capacity
    → IsClear m p x
    → IsValid m p link
    → IsValid m p (push x link)
push-IsValid m p x link room clear h = record {
  ordered = heappush-IsOrdered x link.queue h.ordered;
  bounded = omega (arith, length-heappush x link.queue);
  accounted = omega (arith, length-heappush x link.queue, h.accounted);
  clear = All-heappush (IsClear m p) x link.queue clear h.clear;
}

-- The same for a link that differs elsewhere.
moved-IsValid :
    (m : Machine) (p : FaultProfile) (link link' : Link)
    → link'.queue ≡ link.queue
    → link'.sequence ≡ link.sequence
    → link'.metrics.delivered ≡ link.metrics.delivered
    → IsValid m p link
    → IsValid m p link'
moved-IsValid m p link link' q s d h = record {
  ordered = rw q h.ordered;
  bounded = rw q h.bounded;
  accounted = rw (q, s, d) h.accounted;
  clear = rw q h.clear;
}

module _ (m : Machine) (p : FaultProfile) (side : Side) (frame : LinkFrame) (now : ℕ)
    (directive : Option ScriptedDelivery) where
  schedule_copy-IsValid :
      (copy : ℕ) (link : Link)
      → IsValid m p link
      → IsValid m p (schedule_copy m p side frame now directive copy link).1
  unfolding schedule_copy
  schedule_copy-IsValid copy link h = elim (Bool-cases (leb p.queue_capacity (length link.queue))) [
    | inl full ↦ rw full (moved-IsValid m p link (dropped link) refl refl refl h)
    | inr room ↦
        let (q, s, d, sub, drop, exp, clear) = timed_keeps m p side frame now copy directive link in
        let timed = (delivery_time m p side frame now copy directive link).1 in
        let at = (delivery_time m p side frame now copy directive link).0 in
        let valid = moved-IsValid m p link timed q s d h in
        elim (Option-cases (is_expired m frame at)) [
          | inl raised ↦ rw (room, raised) valid
          | inr (false, fresh) ↦
              rw (room, fresh)
                (push-IsValid m p (scheduled_frame m side frame at timed) timed (ground arith)
                  (clear, fresh) valid)
          | inr (true, late) ↦
              rw (room, late) (moved-IsValid m p timed (expire timed) refl refl refl valid)
        ]
  ]

  schedule_copies-IsValid :
      (left copy scheduled : ℕ) (link : Link)
      → IsValid m p link
      → IsValid m p (schedule_copies m p side frame now directive left copy scheduled link).1
  unfolding schedule_copies
  schedule_copies-IsValid zero copy scheduled link h = h
  schedule_copies-IsValid (suc left) copy scheduled link h =
      let next = schedule_copy-IsValid copy link h in
      let after = (schedule_copy m p side frame now directive copy link).1 in
      elim (Option-cases (schedule_copy m p side frame now directive copy link).0) [
        | inl raised ↦ rw (raised, schedule_copies) next
        | inr (b, went) ↦
            rw (went, schedule_copies)
              (schedule_copies-IsValid left (copy + 1) (scheduled + (if b then 1 else 0)) after
                next)
      ]

submit_known-IsValid :
    (m : Machine) (p : FaultProfile) (source : Side) (frame : LinkFrame) (now : ℕ) (key : StableId)
    (link : Link)
    → IsValid m p link
    → IsValid m p (submit_known m p source frame now key link).1
unfolding submit_known
submit_known-IsValid m p source frame now key link h =
    let draw = duplicate_count m p (p.scripted key) link.random_state in
    let started = moved-IsValid m p link (announced draw.1 link) refl refl refl h in
    let copies =
      schedule_copies m p (other_side source) frame now (p.scripted key) (draw.0 + 1) 0 0
        (announced draw.1 link) in
    let valid =
      schedule_copies-IsValid m p (other_side source) frame now (p.scripted key) (draw.0 + 1) 0 0
        (announced draw.1 link) started in
    elim (Option-cases copies.0) [
      | inl raised ↦ rw (raised, submit_known) valid
      | inr (n, went) ↦
          rw (went, submit_known)
            (moved-IsValid m p copies.1 (injected draw.0 n copies.1) refl refl refl valid)
    ]

pub submit-IsValid :
    (m : Machine) (p : FaultProfile) (source : Side) (frame : LinkFrame) (now : ℕ) (link : Link)
    → IsValid m p link
    → IsValid m p (submit m p source frame now link).1
unfolding submit
submit-IsValid m p source frame now link h = elim (Option-cases (stable_id frame)) [
  | inl incomplete ↦
      rw (incomplete, submit)
        (moved-IsValid m p link (announced link.random_state link) refl refl refl h)
  | inr (key, known) ↦ rw (known, submit) (submit_known-IsValid m p source frame now key link h)
]

pub deliver_due-IsValid :
    (m : Machine) (p : FaultProfile) (now : ℕ) (link : Link)
    → IsValid m p link
    → IsValid m p (deliver_due now link).1
unfolding deliver_due
deliver_due-IsValid m p now link h =
    let counts = pop_due-counts now link.queue link in
    let same = (pop_due_lem now link.queue link h.ordered).0 in
    record {
      ordered = rest-IsOrdered now link.queue link h.ordered;
      bounded = omega (arith, length-rest-le now link.queue link, h.bounded);
      accounted = omega (arith, counts.0, counts.1, h.accounted);
      clear = (All-rest (IsClear m p) now link.queue link h.clear).1;
    }

-- One call of a method that changes the link.
pub data LinkOp : Type 0 where
  submit_op : Side → LinkFrame → ℕ → LinkOp
  deliver_op : ℕ → LinkOp

unfoldable pub after : Machine → FaultProfile → LinkOp → Link → Link
after m p (submit_op source frame now) link = (submit m p source frame now link).1
after m p (deliver_op now) link = (deliver_due now link).1

unfoldable pub after_all : Machine → FaultProfile → List LinkOp → Link → Link
after_all m p [] link = link
after_all m p (op ∷ ops) link = after_all m p ops (after m p op link)

after-IsValid :
    (m : Machine) (p : FaultProfile) (op : LinkOp) (link : Link)
    → IsValid m p link
    → IsValid m p (after m p op link)
unfolding after
after-IsValid m p (submit_op source frame now) link h = submit-IsValid m p source frame now link h
after-IsValid m p (deliver_op now) link h = deliver_due-IsValid m p now link h

-- Any sequence of submissions and deliveries keeps a valid link valid: its queue is in the order
-- of delivery and never longer than the capacity, no queued delivery falls in a blackout or after
-- the expiry of its message as the link judges it, and the delivered and the queued frames
-- together are as many as were ever scheduled.
pub after_all-IsValid :
    (m : Machine) (p : FaultProfile) (ops : List LinkOp) (link : Link)
    → IsValid m p link
    → IsValid m p (after_all m p ops link)
unfolding after_all
after_all-IsValid m p [] link h = h
after_all-IsValid m p (op ∷ ops) link h =
    after_all-IsValid m p ops (after m p op link) (after-IsValid m p op link h)

-- On a valid link, the delivered frames are the first of the queue and the rest stays; each
-- delivered frame is due, none that stays is, and each delivered frame was scheduled outside the
-- blackouts and, as the link judges it, before the expiry of its message.
pub deliver_due_lem :
    (m : Machine) (p : FaultProfile) (now : ℕ) (link : Link)
    → IsValid m p link
    → ((deliver_due now link).0 ++ (deliver_due now link).1.queue ≡ link.queue)
      × All (λ x. x.delivery_time ≤ now) (deliver_due now link).0
      × All (λ x. now < x.delivery_time) (deliver_due now link).1.queue
      × All (IsClear m p) (deliver_due now link).0
unfolding deliver_due
deliver_due_lem m p now link h =
    let (same, early, late) = pop_due_lem now link.queue link h.ordered in
    (same, early, late, (All-rest (IsClear m p) now link.queue link h.clear).0)
