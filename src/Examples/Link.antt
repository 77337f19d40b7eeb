-- ===== src/Examples/Link.antt =====
-- The properties of the link at a profile with two adjacent blackouts and a bandwidth.
use deferred_teleoperation.Base.{
  ◌≡◌, ◌≤◌, ◌<◌, ◌+◌, refl, false, none, some, List, [], ◌∷◌, ◌++◌, arith, All, length,
}
use deferred_teleoperation.Link.{
  mission, field, LinkFrame, for_envelope, for_ack, message_key, Interval, Jitter, FaultProfile,
  Machine, Link, new_link, heappush, stable_id,
}
use deferred_teleoperation.Link.Schedule.{
  in_blackout, settle, after_blackout, duplicate_count, delivery_time, submit, submit_known,
  schedule_copies, schedule_copy, deliver_due,
}
use deferred_teleoperation.Link.Blackout.{after_blackout_ends, after_blackout_least}
use deferred_teleoperation.Link.Accounts.{
  IsClear, IsValid, new_link-IsValid, submit_op, deliver_op, after_all, after_all-IsValid,
  deliver_due_lem, submit-IsValid,
}
use deferred_teleoperation.Link.Copies.{lost, submit_accounts}
use deferred_teleoperation.Examples.Data.{request}

abbrev intervals : List Interval
intervals = record { start = 20; end = 30 } ∷ record { start = 10; end = 20 } ∷ []

abbrev machine : Machine
machine = record {
  add = λ a b. a + b;
  divide = λ a b. a;
  micros = λ n. n;
  random = λ state. (state, state + 1);
  jittered = λ delay jitter state. (delay, state);
  uniform_from_zero = λ window state. (0, state);
  initial_state = λ seed. seed;
  encoded_size = λ frame. 3;
  wall = λ t. some t;
}

-- The generator starts below the probability, so that the first frame is sent twice.
abbrev profile : FaultProfile
profile = record {
  one_way_delay_seconds = 5;
  jitter_distribution = Jitter.no_jitter;
  jitter_seconds = 0;
  duplicate_probability = 2;
  reorder_window_seconds = 0;
  blackout_intervals = intervals;
  bandwidth_bytes_per_second = some 1;
  queue_capacity = 2;
  seed = 1;
  scripted = λ key. none;
}

abbrev start : Link
start = new_link machine profile

abbrev frame : LinkFrame
frame = for_envelope request

after_blackout_ends_example :
    (settle (length intervals + 1) intervals 12 ≡ some (after_blackout intervals 12))
    × (12 ≤ after_blackout intervals 12)
    × (in_blackout intervals (after_blackout intervals 12) ≡ false)
after_blackout_ends_example = after_blackout_ends intervals 12

after_blackout_least_example : after_blackout intervals 12 ≤ 31
unfolding in_blackout
after_blackout_least_example = after_blackout_least intervals 12 31 (omega arith) refl

after_all-IsValid_example : IsValid machine profile (
    after_all machine profile
      (submit_op mission frame 6 ∷ deliver_op 40 ∷ submit_op field (for_ack 11) 41 ∷ [])
      start)
after_all-IsValid_example =
    after_all-IsValid machine profile
      (submit_op mission frame 6 ∷ deliver_op 40 ∷ submit_op field (for_ack 11) 41 ∷ []) start
      (new_link-IsValid machine profile)

abbrev sent : Link
unfolding submit
sent = (submit machine profile mission frame 6 start).1

deliver_due_lem_example :
    ((deliver_due 40 sent).0 ++ (deliver_due 40 sent).1.queue ≡ sent.queue)
    × All (λ x. x.delivery_time ≤ 40) (deliver_due 40 sent).0
    × All (λ x. 40 < x.delivery_time) (deliver_due 40 sent).1.queue
    × All (IsClear machine profile) (deliver_due 40 sent).0
unfolding sent submit
deliver_due_lem_example =
    deliver_due_lem machine profile 40 sent
      (submit-IsValid machine profile mission frame 6 start (new_link-IsValid machine profile))

submit_accounts_example :
    (length sent.queue ≡ length start.queue + 2)
    × (lost sent + 2 ≡ lost start + (duplicate_count machine profile none start.random_state).0 + 1)
    × (sent.metrics.submitted ≡ start.metrics.submitted + 1)
unfolding sent submit new_link stable_id submit_known schedule_copies schedule_copy heappush
    delivery_time
submit_accounts_example =
    submit_accounts machine profile mission frame 6 (message_key 11) start 2 refl refl
