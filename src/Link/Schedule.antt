-- ===== src/Link/Schedule.antt =====
-- The methods of `DeterministicLink`: `submit`, `deliver_due`, `status` and their helpers.
use mathlib.Core.Option
use deferred_teleoperation.Base.{
  ℕ, zero, suc, ◌+◌, ◌-◌, max, Bool, true, false, ◌&&◌, ◌||◌, Option, none, some, List, [], ◌∷◌,
  leb, ltb, ◌==◌, ◌/=◌, is_some, if◌then◌else◌, length,
}
use deferred_teleoperation.Time.{Instant}
use deferred_teleoperation.Link.{
  Side, mission, field, other_side, envelope_kind, ack_kind, LinkFrame, StableId, stable_id,
  priority, Interval, Jitter, no_jitter, uniform, ScriptedDelivery, FaultProfile, Machine,
  ScheduledFrame, heappush, Metrics, Link,
}

abbrev pub is_inside : ℕ → Interval → Bool
is_inside now b = leb b.start now && ltb now b.end

-- `_in_blackout`.
unfoldable pub in_blackout : List Interval → ℕ → Bool
in_blackout [] now = false
in_blackout (b ∷ rest) now = is_inside now b || in_blackout rest now

-- One pass of the `for` loop of `_after_blackout`, with its flag.
unfoldable pub pass : List Interval → ℕ → Bool → ℕ × Bool
pass [] candidate changed = (candidate, changed)
pass (b ∷ rest) candidate changed =
    if is_inside candidate b then pass rest b.end true else pass rest candidate changed

-- The `while` loop; `none` means that the fuel ran out.
unfoldable pub settle : ℕ → List Interval → ℕ → Option ℕ
settle zero intervals candidate = none
settle (suc fuel) intervals candidate =
    let (next, changed) = pass intervals candidate false in
    elim changed [ true ↦ settle fuel intervals next | false ↦ some next ]

-- `_after_blackout`, with one pass more than there are intervals.
unfoldable pub after_blackout : List Interval → ℕ → ℕ
unfolding settle
after_blackout intervals candidate =
    Option.get_or (settle (length intervals + 1) intervals candidate) candidate

-- `directive.duplicates` and `directive.delay_seconds`, where there is a directive.
abbrev pub scripted_duplicates : Option ScriptedDelivery → Option ℕ
scripted_duplicates none = none
scripted_duplicates (some d) = d.duplicates

abbrev pub scripted_delay : Option ScriptedDelivery → Option ℕ
scripted_delay none = none
scripted_delay (some d) = d.delay_seconds

-- `_duplicate_count`, with the new state of the generator.
unfoldable pub duplicate_count : Machine → FaultProfile → Option ScriptedDelivery → ℕ → ℕ × ℕ
duplicate_count m p directive state = elim (scripted_duplicates directive) [
  | some n ↦ (n, state)
  | none ↦
      let (draw, next) = m.random state in (if ltb draw p.duplicate_probability then 1 else 0, next)
]

abbrev pub set_lane : Side → ℕ → ℕ → (Side → ℕ → Option ℕ) → Side → ℕ → Option ℕ
set_lane mission n t lanes mission k = if k == n then some t else lanes mission k
set_lane mission n t lanes field k = lanes field k
set_lane field n t lanes field k = if k == n then some t else lanes field k
set_lane field n t lanes mission k = lanes mission k

-- The delay with its jitter.
abbrev pub lag_of : Machine → FaultProfile → Jitter → ℕ → ℕ → ℕ × ℕ
lag_of m p uniform delay state = m.jittered delay p.jitter_seconds state
lag_of m p no_jitter delay state = (delay, state)

-- The candidate before the bandwidth is considered, with the new state of the generator.
unfoldable pub delayed : Machine → FaultProfile → Option ScriptedDelivery → ℕ → ℕ → ℕ → ℕ × ℕ
delayed m p directive now copy_index state =
    let delay = Option.get_or (scripted_delay directive) p.one_way_delay_seconds in
    let (lag, after_jitter) = lag_of m p p.jitter_distribution delay state in
    let (reorder, after_reorder) = m.uniform_from_zero p.reorder_window_seconds after_jitter in
    (m.add (m.add (m.add now lag) reorder) (m.micros copy_index), after_reorder)

-- `max(candidate, self._lane_available.get(lane, candidate)) + encoded_size / bandwidth`.
unfoldable pub queued_behind : Machine → FaultProfile → Side → LinkFrame → Link → ℕ → ℕ
queued_behind m p destination frame link candidate = elim p.bandwidth_bytes_per_second [
  | none ↦ candidate
  | some bandwidth ↦
      m.add (max candidate (Option.get_or (link.lanes destination (priority frame)) candidate))
        (m.divide (m.encoded_size frame) bandwidth)
]

-- `_delivery_time`.
unfoldable pub delivery_time :
    Machine → FaultProfile → Side → LinkFrame → ℕ → ℕ → Option ScriptedDelivery → Link → ℕ × Link
unfolding delayed queued_behind
delivery_time m p destination frame now copy_index directive link =
    let (first, state) = delayed m p directive now copy_index link.random_state in
    let candidate = queued_behind m p destination frame link first in
    let after = after_blackout p.blackout_intervals candidate in
    (
      after,
      record link {
        random_state = state;
        lanes =
            if is_some p.bandwidth_bytes_per_second
            then set_lane destination (priority frame) after link.lanes
            else link.lanes;
        metrics = record link.metrics {
          blackout_deferrals =
              link.metrics.blackout_deferrals + (if after /= candidate then 1 else 0);
        };
      },
    )

abbrev pub expiry : LinkFrame → Option Instant
expiry frame = elim frame.envelope [ none ↦ none | some e ↦ e.expires_at ]

-- `_is_expired`; `none` where the wall time overflows.
unfoldable pub is_expired : Machine → LinkFrame → ℕ → Option Bool
is_expired m frame delivery = elim frame.kind [
  | ack_kind ↦ some false
  | envelope_kind ↦ elim (expiry frame) [
    | none ↦ some false
    | some expires_at ↦ Option.map (λ wall. leb expires_at wall) (m.wall delivery)
  ]
]

-- The metrics of one copy that is not scheduled.
abbrev pub dropped : Link → Link
dropped link = record link {
  metrics = record link.metrics { dropped_capacity = link.metrics.dropped_capacity + 1 };
}

abbrev pub expire : Link → Link
expire link = record link { metrics = record link.metrics { expired = link.metrics.expired + 1 } }

abbrev pub scheduled_frame : Machine → Side → LinkFrame → ℕ → Link → ScheduledFrame
scheduled_frame m destination frame delivery link = record {
  delivery_time = delivery;
  priority = priority frame;
  sequence = link.sequence + 1;
  destination = destination;
  frame = frame;
  encoded_size = m.encoded_size frame;
}

abbrev pub push : ScheduledFrame → Link → Link
push x link = record link { sequence = link.sequence + 1; queue = heappush x link.queue }

-- One round of the loop of `submit`: whether a copy was scheduled, `none` where it raised.
unfoldable pub schedule_copy :
    Machine
    → FaultProfile
    → Side
    → LinkFrame
    → ℕ
    → Option ScriptedDelivery
    → ℕ
    → Link
    → Option Bool × Link
unfolding is_expired
schedule_copy m p destination frame now directive copy_index link =
    if leb p.queue_capacity (length link.queue)
    then (some false, dropped link)
    else let (delivery, timed) =
        delivery_time m p destination frame now copy_index directive link in
      elim (is_expired m frame delivery) [
        | none ↦ (none, timed)
        | some true ↦ (some false, expire timed)
        | some false ↦ (some true, push (scheduled_frame m destination frame delivery timed) timed)
      ]

-- The loop of `submit` over the copies that are left; the result is how many were scheduled.
unfoldable pub schedule_copies :
    Machine
    → FaultProfile
    → Side
    → LinkFrame
    → ℕ
    → Option ScriptedDelivery
    → (left copy_index scheduled : ℕ) → Link
    → Option ℕ × Link
schedule_copies m p destination frame now directive zero copy_index scheduled link =
    (some scheduled, link)
schedule_copies m p destination frame now directive (suc left) copy_index scheduled link =
    let (one, next) = schedule_copy m p destination frame now directive copy_index link in
    elim one [
      | none ↦ (none, next)
      | some b ↦
          schedule_copies m p destination frame now directive left (copy_index + 1)
            (scheduled + (if b then 1 else 0)) next
    ]

abbrev pub injected : ℕ → ℕ → Link → Link
injected duplicates scheduled link = record link {
  metrics = record link.metrics {
    duplicates_injected =
        link.metrics.duplicates_injected + (if duplicates == 0 then 0 else scheduled - 1);
  };
}

-- The link once the frame is counted and the number of its duplicates is drawn.
abbrev pub announced : ℕ → Link → Link
announced state link = record link {
  random_state = state;
  metrics = record link.metrics { submitted = link.metrics.submitted + 1 };
}

-- The rest of `submit` for a frame that has an identifier.
unfoldable pub submit_known :
    Machine → FaultProfile → Side → LinkFrame → ℕ → StableId → Link → Option ℕ × Link
unfolding duplicate_count
submit_known m p source frame now key link =
    let directive = p.scripted key in
    let (duplicates, state) = duplicate_count m p directive link.random_state in
    let (result, after) =
      schedule_copies m p (other_side source) frame now directive (duplicates + 1) 0 0
        (announced state link) in
    elim result [
      | none ↦ (none, after)
      | some scheduled ↦ (some scheduled, injected duplicates scheduled after)
    ]

-- `submit` at a time that is not negative; `none` is an exception.
unfoldable pub submit : Machine → FaultProfile → Side → LinkFrame → ℕ → Link → Option ℕ × Link
submit m p source frame now link = elim (stable_id frame) [
  | none ↦ (none, announced link.random_state link)
  | some key ↦ submit_known m p source frame now key link
]

abbrev pub count_delivery : ScheduledFrame → Link → Link
count_delivery x link = record link {
  metrics = record link.metrics {
    delivered = link.metrics.delivered + 1;
    bytes_transmitted = link.metrics.bytes_transmitted + x.encoded_size;
  };
}

-- The loop of `deliver_due` on what is left of the queue.
unfoldable pub pop_due : ℕ → List ScheduledFrame → Link → List ScheduledFrame × Link
pop_due now [] link = ([], record link { queue = [] })
pop_due now (x ∷ queue) link =
    let (rest, after) = pop_due now queue (count_delivery x link) in
    if leb x.delivery_time now then (x ∷ rest, after) else ([], record link { queue = x ∷ queue })

unfoldable pub deliver_due : ℕ → Link → List ScheduledFrame × Link
deliver_due now link = pop_due now link.queue link

pub record Status : Type 0 where
  pub metrics : Metrics
  pub queued_deliveries : ℕ
  pub next_delivery_time : Option ℕ
  pub blackout : Bool

abbrev pub head_time : List ScheduledFrame → Option ℕ
head_time [] = none
head_time (x ∷ queue) = some x.delivery_time

unfoldable pub status : FaultProfile → ℕ → Link → Status
status p now link = record {
  metrics = link.metrics;
  queued_deliveries = length link.queue;
  next_delivery_time = head_time link.queue;
  blackout = in_blackout p.blackout_intervals now;
}
