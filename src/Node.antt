-- ===== src/Node.antt =====
-- python/src/deferred_teleop/node.py: both halves of a node's connection.
use mathlib.Core.Option
use deferred_teleoperation.Base.{ℕ, ◌+◌, Bool, true, false, Option, none, some, List, [], ◌∷◌}
use deferred_teleoperation.Time.{Instant}
use deferred_teleoperation.Wire.{Text, Uuid, MessageEnvelope, Codec}
use deferred_teleoperation.Store.Schema.{Db}
use deferred_teleoperation.Store.Monad.{
  StorageError, value_error, key_error, Result, ok, err, Action,
}
use deferred_teleoperation.Store.Inbox.{receive}
use deferred_teleoperation.Store.Outbox.{enqueue, acknowledge, pending_outbox, record_attempt}
use deferred_teleoperation.Link.{
  LinkFrame, FrameKind, envelope_kind, ack_kind, for_ack, for_envelope,
}
pub mod Exchange
pub mod Calls
pub mod Send

-- The frames that a call sends, with its result and the store; a frame that was sent stays sent if the
-- call raises later.
abbrev pub Turn : Type 0
Turn = List LinkFrame × Result (Unit {0}) × Db

-- A KeyError of an acknowledgement is caught, and its answer is only logged.
abbrev pub caught : Result Bool → Result (Unit {0})
caught (ok changed) = ok tt
caught (err key_error) = ok tt
caught (err e) = err e

unfoldable pub receive_ack : Uuid → Instant → Db → Turn
receive_ack message_id now db =
    let (changed, after) = acknowledge message_id now db in ([], caught changed, after)

-- An envelope is stored, then acknowledged, then handled if it is new.
unfoldable pub receive_envelope :
    Codec → (Uuid → Action (Unit {0})) → MessageEnvelope → Instant → Db → Turn
receive_envelope codec handle envelope now db =
    let (is_new, after) = receive codec envelope now db in
    elim is_new [
      | err e ↦ ([], err e, after)
      | ok true ↦
          let (handled, last) = handle envelope.message_id after in
          (for_ack envelope.message_id ∷ [], handled, last)
      | ok false ↦ (for_ack envelope.message_id ∷ [], ok tt, after)
    ]

-- One round of `receive_frames` of `_run_socket_connection`; `handle` is the service's.
unfoldable pub receive_frame : Codec → (Uuid → Action (Unit {0})) → LinkFrame → Instant → Db → Turn
receive_frame codec handle frame now db = elim frame.kind [
  | ack_kind ↦ elim frame.acknowledged_message_id [
    | some message_id ↦ receive_ack message_id now db
    | none ↦ ([], err value_error, db)
  ]
  | envelope_kind ↦ elim frame.envelope [
    | some envelope ↦ receive_envelope codec handle envelope now db
    | none ↦ ([], err value_error, db)
  ]
]

-- What other tasks may do to the outbox while this one awaits: `receive_frames` acknowledges, the
-- service stores new messages, and another connection's round records its attempts.
pub data OutboxCall : Type 0 where
  acknowledges : Uuid → Instant → OutboxCall
  enqueues : MessageEnvelope → OutboxCall
  attempts : Uuid → Instant → OutboxCall

unfoldable pub apply_call : Codec → OutboxCall → Db → Db
unfolding enqueue
apply_call codec (acknowledges message_id at) db = (acknowledge message_id at db).1
apply_call codec (enqueues envelope) db = (enqueue codec envelope db).1
apply_call codec (attempts message_id next_attempt_at) db =
    (record_attempt message_id next_attempt_at db).1

unfoldable pub apply_calls : Codec → List OutboxCall → Db → Db
apply_calls codec [] db = db
apply_calls codec (call ∷ calls) db = apply_calls codec calls (apply_call codec call db)

-- One `await connection.send(...)`: the calls that run in it, and whether it raises because the
-- connection is closed.
pub record Await : Type 0 where
  pub meanwhile : List OutboxCall
  pub is_closed : Bool

-- How a round of sending ends; the errors of the store are not caught.
pub data Outcome : Type 0 where
  returned disconnected : Outcome
  raised : StorageError → Outcome

abbrev pub Round : Type 0
Round = List LinkFrame × Outcome × Db

-- The loop of `send_pending` over the due messages, from its n-th await on; `wanted` is membership in
-- `destinations`.
unfoldable pub send_all :
    Codec → (Text → Bool) → Instant → (ℕ → Await) → ℕ → List MessageEnvelope → Db → Round
unfolding apply_calls
send_all codec wanted next_attempt_at awaits n [] db = ([], returned, db)
send_all codec wanted next_attempt_at awaits n (envelope ∷ rest) db =
    elim (wanted envelope.destination_id) [
      | false ↦ send_all codec wanted next_attempt_at awaits n rest db
      | true ↦
          let (attempt, after) = record_attempt envelope.message_id next_attempt_at db in
          elim attempt [
            | err e ↦ ([], raised e, after)
            | ok _ ↦
                let resumed = apply_calls codec (awaits n).meanwhile after in
                elim (awaits n).is_closed [
                  | true ↦ ([], disconnected, resumed)
                  | false ↦
                      let (frames, outcome, last) =
                        send_all codec wanted next_attempt_at awaits (n + 1) rest resumed in
                      (for_envelope envelope ∷ frames, outcome, last)
                ]
          ]
    ]

-- One round of `send_pending` of `_run_socket_connection`, with a retry interval in microseconds.
unfoldable pub send_pending : Codec → (Text → Bool) → ℕ → (ℕ → Await) → Instant → Db → Round
send_pending codec wanted retry_interval awaits now db =
    let (due, same) = pending_outbox codec now db in
    elim due [
      | err e ↦ ([], raised e, same)
      | ok envelopes ↦ send_all codec wanted (now + retry_interval) awaits 0 envelopes same
    ]
