-- ===== src/Link.antt =====
-- python/src/deferred_teleop/link.py: `DeterministicLink`, the scheduling core of the faulted link.
-- A virtual time, a delay and a bandwidth are non-negative doubles, each the number of its bit
-- pattern, whose order is the order of the doubles.
use mathlib.Core.Option
use deferred_teleoperation.Base.{
  ℕ, zero, suc, ◌+◌, ◌-◌, max, Bool, true, false, not, ◌&&◌, ◌||◌, Option, none, some, List, [],
  ◌∷◌, leb, ltb, ◌==◌, is_some, if◌then◌else◌, length,
}
use deferred_teleoperation.Time.{Instant}
use deferred_teleoperation.Wire.{Uuid, MessageEnvelope}
pub mod Blackout
pub mod Queue
pub mod Schedule
pub mod Accounts
pub mod Copies

pub data Side : Type 0 where
  mission field : Side

abbrev pub other_side : Side → Side
other_side mission = field
other_side field = mission

pub data FrameKind : Type 0 where
  envelope_kind ack_kind : FrameKind

pub record LinkFrame : Type 0 where
  pub kind : FrameKind
  pub envelope : Option MessageEnvelope
  pub acknowledged_message_id : Option Uuid

abbrev pub for_envelope : MessageEnvelope → LinkFrame
for_envelope e = record { kind = envelope_kind; envelope = some e; acknowledged_message_id = none }

abbrev pub for_ack : Uuid → LinkFrame
for_ack m = record { kind = ack_kind; envelope = none; acknowledged_message_id = some m }

-- The text of a message identifier, or of `ack:` and one.
pub data StableId : Type 0 where
  message_key ack_key : Uuid → StableId

-- `none` is the ValueError of an incomplete frame.
unfoldable pub stable_id : LinkFrame → Option StableId
stable_id f = elim f.kind [
  | envelope_kind ↦ Option.map (λ (e : MessageEnvelope). message_key e.message_id) f.envelope
  | ack_kind ↦ Option.map ack_key f.acknowledged_message_id
]

abbrev pub priority : LinkFrame → ℕ
priority f = elim f.kind [ ack_kind ↦ 0 | envelope_kind ↦ 1 ]

pub record Interval : Type 0 where
  pub start : ℕ
  pub end : ℕ

pub data Jitter : Type 0 where
  no_jitter uniform : Jitter

pub record ScriptedDelivery : Type 0 where
  pub delay_seconds : Option ℕ
  pub duplicates : Option ℕ

pub record FaultProfile : Type 0 where
  pub one_way_delay_seconds : ℕ
  pub jitter_distribution : Jitter
  pub jitter_seconds : ℕ
  pub duplicate_probability : ℕ
  pub reorder_window_seconds : ℕ
  pub blackout_intervals : List Interval
  pub bandwidth_bytes_per_second : Option ℕ
  pub queue_capacity : ℕ
  pub seed : ℕ
  pub scripted : StableId → Option ScriptedDelivery

-- `FaultProfile.__post_init__` for a profile whose numbers are not negative: `false` is a ValueError.
-- `one` is the bit pattern of 1.0.
abbrev pub one : ℕ
one = 0x3ff0000000000000

abbrev pub are_intervals : List Interval → Bool
are_intervals [] = true
are_intervals (b ∷ rest) = ltb b.start b.end && are_intervals rest

unfoldable pub is_valid_profile : FaultProfile → Bool
is_valid_profile p =
    leb p.duplicate_probability one
    && not (Option.get_or (Option.map (λ b. b == 0) p.bandwidth_bytes_per_second) false)
    && leb 1 p.queue_capacity
    && are_intervals p.blackout_intervals

-- What the link asks of floating-point arithmetic, of `random.Random` (whose state is a number), of
-- the frame's JSON text and of `wall_epoch + timedelta(seconds=delivery)`, which is `none` where it
-- overflows. `jittered` is `max(0.0, delay + uniform(-jitter, jitter))`.
pub record Machine : Type 0 where
  pub add : ℕ → ℕ → ℕ
  pub divide : ℕ → ℕ → ℕ
  pub micros : ℕ → ℕ
  pub random : ℕ → ℕ × ℕ
  pub jittered : ℕ → ℕ → ℕ → ℕ × ℕ
  pub uniform_from_zero : ℕ → ℕ → ℕ × ℕ
  pub initial_state : ℕ → ℕ
  pub encoded_size : LinkFrame → ℕ
  pub wall : ℕ → Option Instant

pub record ScheduledFrame : Type 0 where
  pub delivery_time : ℕ
  pub priority : ℕ
  pub sequence : ℕ
  pub destination : Side
  pub frame : LinkFrame
  pub encoded_size : ℕ

-- `ScheduledFrame.__lt__` and equality on the compared fields.
abbrev pub goes_before : ScheduledFrame → ScheduledFrame → Bool
goes_before a b =
    ltb a.delivery_time b.delivery_time
    || (a.delivery_time == b.delivery_time
        && (ltb a.priority b.priority || (a.priority == b.priority && leb a.sequence b.sequence)))

-- `heapq.heappush`: the queue is the list of its frames in the order in which `heappop` returns them.
unfoldable pub heappush : ScheduledFrame → List ScheduledFrame → List ScheduledFrame
heappush x [] = x ∷ []
heappush x (y ∷ queue) = if goes_before x y then x ∷ y ∷ queue else y ∷ heappush x queue

pub record Metrics : Type 0 where
  pub submitted : ℕ
  pub delivered : ℕ
  pub duplicates_injected : ℕ
  pub dropped_capacity : ℕ
  pub blackout_deferrals : ℕ
  pub expired : ℕ
  pub bytes_transmitted : ℕ

-- The attributes that change; `lanes` is `_lane_available`.
pub record Link : Type 0 where
  pub random_state : ℕ
  pub queue : List ScheduledFrame
  pub sequence : ℕ
  pub lanes : Side → ℕ → Option ℕ
  pub metrics : Metrics

unfoldable pub new_link : Machine → FaultProfile → Link
new_link m p = record {
  random_state = m.initial_state p.seed;
  queue = [];
  sequence = 0;
  lanes = λ side lane. none;
  metrics = record {
    submitted = 0;
    delivered = 0;
    duplicates_injected = 0;
    dropped_capacity = 0;
    blackout_deferrals = 0;
    expired = 0;
    bytes_transmitted = 0;
  };
}
