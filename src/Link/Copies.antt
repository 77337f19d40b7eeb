-- ===== src/Link/Copies.antt =====
-- What becomes of the copies of one submitted frame, and the times that they are given.
use mathlib.Core.Option
use deferred_teleoperation.Base.{
  ℕ, zero, suc, ◌+◌, ◌≤◌, ◌≡◌, Bool, true, false, Option, some, arith, max, is_some, if◌then◌else◌,
  length, Option-cases, inl, inr,
}
use deferred_teleoperation.Link.{
  Side, other_side, LinkFrame, StableId, stable_id, ScriptedDelivery, FaultProfile, Machine, Link,
  priority,
}
use deferred_teleoperation.Link.Schedule.{
  delayed, queued_behind, delivery_time, is_expired, scheduled_frame, in_blackout, lag_of,
  scripted_delay, schedule_copy, schedule_copies, announced, duplicate_count, submit_known, submit,
}
use deferred_teleoperation.Link.Blackout.{after_blackout_ends}
use deferred_teleoperation.Link.Queue.{length-heappush}

-- How many copies were given up.
abbrev pub lost : Link → ℕ
lost link = link.metrics.dropped_capacity + link.metrics.expired

module _ (m : Machine) (p : FaultProfile) (side : Side) (frame : LinkFrame) (now : ℕ)
    (directive : Option ScriptedDelivery) where
  copy_accounts :
      (copy : ℕ) (link : Link) (b : Bool)
      → (schedule_copy m p side frame now directive copy link).0 ≡ some b
      → let after = (schedule_copy m p side frame now directive copy link).1 in
        (length after.queue ≡ length link.queue + (if b then 1 else 0))
        × (lost after + (if b then 1 else 0) ≡ lost link + 1)
        × (after.metrics.submitted ≡ link.metrics.submitted)
  unfolding schedule_copy delivery_time
  copy_accounts copy link b went =
      let at = (delivery_time m p side frame now copy directive link).0 in
      let timed = (delivery_time m p side frame now copy directive link).1 in
      elim (Option-cases (is_expired m frame at)) [
        | inl raised ↦ grind arith
        | inr (true, late) ↦ grind arith
        | inr (false, fresh) ↦
            grind (arith, length-heappush (scheduled_frame m side frame at timed) link.queue)
      ]

  copies_account :
      (left copy scheduled : ℕ) (link : Link) (n : ℕ)
      → (schedule_copies m p side frame now directive left copy scheduled link).0 ≡ some n
      → let after = (schedule_copies m p side frame now directive left copy scheduled link).1 in
        (length after.queue + scheduled ≡ length link.queue + n)
        × (lost after + n ≡ lost link + scheduled + left)
        × (after.metrics.submitted ≡ link.metrics.submitted)
  unfolding schedule_copies
  copies_account zero copy scheduled link n went = grind arith
  copies_account (suc left) copy scheduled link n went =
      let next = (schedule_copy m p side frame now directive copy link).1 in
      elim (Option-cases (schedule_copy m p side frame now directive copy link).0) [
        | inl raised ↦ absurd (ground arith)
        | inr (true, one) ↦ ground (
          arith,
          copy_accounts copy link true one,
          copies_account left (copy + 1) (scheduled + 1) next n,
        )
        | inr (false, one) ↦ ground (
          arith,
          copy_accounts copy link false one,
          copies_account left (copy + 1) (scheduled + 0) next n,
        )
      ]

submit_known-account :
    (m : Machine) (p : FaultProfile) (source : Side) (frame : LinkFrame) (now : ℕ) (key : StableId)
    (link : Link) (n : ℕ)
    → (submit_known m p source frame now key link).0 ≡ some n
    → let after = (submit_known m p source frame now key link).1 in
      (length after.queue ≡ length link.queue + n)
      × (lost after + n
          ≡ lost link + (duplicate_count m p (p.scripted key) link.random_state).0 + 1)
      × (after.metrics.submitted ≡ link.metrics.submitted + 1)
unfolding submit_known
submit_known-account m p source frame now key link n went =
    let draw = duplicate_count m p (p.scripted key) link.random_state in
    elim (Option-cases
      (schedule_copies m p (other_side source) frame now (p.scripted key) (draw.0 + 1) 0 0
        (announced draw.1 link)).0) [
          | inl raised ↦ absurd (ground arith)
          | inr (k, done) ↦ ground (
            arith,
            copies_account m p (other_side source) frame now (p.scripted key) (draw.0 + 1) 0 0
                (announced draw.1 link) k done,
          )
        ]

-- A submission of a frame with an identifier that answers a number has lengthened the queue by
-- that number and counted one submission; the copies that it dropped or that would expire and the
-- answer make up the number of duplicates and one.
pub submit_accounts :
    (m : Machine) (p : FaultProfile) (source : Side) (frame : LinkFrame) (now : ℕ) (key : StableId)
    (link : Link) (n : ℕ)
    → stable_id frame ≡ some key
    → (submit m p source frame now link).0 ≡ some n
    → let after = (submit m p source frame now link).1 in
      (length after.queue ≡ length link.queue + n)
      × (lost after + n
          ≡ lost link + (duplicate_count m p (p.scripted key) link.random_state).0 + 1)
      × (after.metrics.submitted ≡ link.metrics.submitted + 1)
unfolding submit
submit_accounts m p source frame now key link n known went =
    ground (arith, submit_known-account m p source frame now key link n)

delayed-ge :
    (m : Machine) (p : FaultProfile) (directive : Option ScriptedDelivery) (now copy state : ℕ)
    → ((a b : ℕ) → a ≤ m.add a b)
    → now ≤ (delayed m p directive now copy state).0
unfolding delayed
delayed-ge m p directive now copy state grows =
    let delay = Option.get_or (scripted_delay directive) p.one_way_delay_seconds in
    let lag = lag_of m p p.jitter_distribution delay state in
    let reorder = (m.uniform_from_zero p.reorder_window_seconds lag.1).0 in
    omega (
      arith,
      grows now lag.0,
      grows (m.add now lag.0) reorder,
      grows (m.add (m.add now lag.0) reorder) (m.micros copy),
    )

-- The time at which the lane of a frame is free again.
abbrev pub lane_time : Side → LinkFrame → Link → ℕ
lane_time side frame link = Option.get_or (link.lanes side (priority frame)) 0

queued_behind-ge :
    (m : Machine) (p : FaultProfile) (side : Side) (frame : LinkFrame) (link : Link) (candidate : ℕ)
    → ((a b : ℕ) → a ≤ m.add a b)
    → (candidate ≤ queued_behind m p side frame link candidate)
      × ((if is_some p.bandwidth_bytes_per_second then lane_time side frame link else 0)
          ≤ queued_behind m p side frame link candidate)
unfolding queued_behind
queued_behind-ge m p side frame link candidate grows =
    elim (Option-cases p.bandwidth_bytes_per_second) [
      | inl free ↦ ground arith
      | inr (bandwidth, limited) ↦ elim (Option-cases (link.lanes side (priority frame))) [
        | inl idle ↦
            ground
              (arith, grows (max candidate candidate) (m.divide (m.encoded_size frame) bandwidth))
        | inr (t, busy) ↦
            ground (arith, grows (max candidate t) (m.divide (m.encoded_size frame) bandwidth))
      ]
    ]

-- If adding never makes a number of seconds smaller, a delivery time is not before the submission,
-- in no blackout and, where the bandwidth is limited, not before the last delivery of the same
-- lane.
pub delivery_time_lem :
    (m : Machine) (p : FaultProfile) (side : Side) (frame : LinkFrame) (now copy : ℕ)
    (directive : Option ScriptedDelivery) (link : Link)
    → ((a b : ℕ) → a ≤ m.add a b)
    → let at = (delivery_time m p side frame now copy directive link).0 in
      (now ≤ at)
      × (in_blackout p.blackout_intervals at ≡ false)
      × ((if is_some p.bandwidth_bytes_per_second then lane_time side frame link else 0) ≤ at)
unfolding delivery_time
delivery_time_lem m p side frame now copy directive link grows =
    let first = (delayed m p directive now copy link.random_state).0 in
    let (ends, after, clear) =
      after_blackout_ends p.blackout_intervals (queued_behind m p side frame link first) in
    let (behind, lane) = queued_behind-ge m p side frame link first grows in
    let early = delayed-ge m p directive now copy link.random_state grows in
    (omega (arith, early, behind, after), clear, omega (arith, lane, after))
