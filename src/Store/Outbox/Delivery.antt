-- ===== src/Store/Outbox/Delivery.antt =====
-- Delivery of outgoing messages: retries, duplicates and acknowledgements.
use mathlib.Core.Option
use deferred_teleoperation.Base.{
  ◌+◌, ◌≡◌, ◌≢◌, refl, Bool, false, Option, none, some, List, [], ◌∷◌, arith, ◌==◌, if◌then◌else◌,
  find, update, count, insert, find-insert, find-update, find-update_same, find_sound, hits,
  count_keyed, ==_refl,
}
use deferred_teleoperation.Time.{Instant, UtcText, utc_text}
use deferred_teleoperation.Wire.{Text, Uuid, MessageEnvelope, Codec}
use deferred_teleoperation.Store.Schema.{OutboxRow, pending, acked, Db}
use deferred_teleoperation.Store.Monad.{ok, err, record_conflict, invalid_transition}
use deferred_teleoperation.Store.Outbox.{
  has_id, is_pending, new_row, insert_outbox, insert_all, enqueue, attemptable, attempted,
  mark_acked, record_attempt, acknowledge, is_due,
}
use deferred_teleoperation.Store.Outbox.Keys.{same_id, IsUnique}

-- The message as the outbox has it.
abbrev pub stored : Uuid → Db → Option OutboxRow
stored m db = find (has_id m) db.outbox

find-new_row :
    (m : Uuid) (e : MessageEnvelope) (encoded : Text) (rows : List OutboxRow)
    → find (has_id m) (insert (new_row e encoded) rows) ≡ elim (find (has_id m) rows) [
      | none ↦ if e.message_id == m then some (new_row e encoded) else none
      | some row ↦ some row
    ]
unfolding new_row
find-new_row m e encoded rows = ground (arith, find-insert (has_id m) (new_row e encoded) rows)

-- Storing a message leaves every stored message as it is.
pub insert_outbox-keeps :
    (codec : Codec) (e : MessageEnvelope) (m : Uuid) (row : OutboxRow) (db : Db)
    → stored m db ≡ some row
    → stored m (insert_outbox codec e db).1 ≡ some row
unfolding insert_outbox
insert_outbox-keeps codec e m row db h =
    ground (arith, find-new_row m e (codec.envelope_json e) db.outbox)

pub insert_all-keeps :
    (codec : Codec) (es : List MessageEnvelope) (m : Uuid) (row : OutboxRow) (db : Db)
    → stored m db ≡ some row
    → stored m (insert_all codec es db).1 ≡ some row
unfolding insert_all
insert_all-keeps codec [] m row db h = h
insert_all-keeps codec (e ∷ es) m row db h = ground (
  arith,
  insert_outbox-keeps codec e m row db h,
  insert_all-keeps codec es m row (insert_outbox codec e db).1,
)

-- The outbox has the message with exactly this text.
abbrev pub Holds : Codec → List OutboxRow → MessageEnvelope → Type 0
Holds codec rows e =
    Option.map (λ (r : OutboxRow). r.payload_json) (find (has_id e.message_id) rows)
    ≡ some (codec.envelope_json e)

pub insert_outbox-Holds :
    (codec : Codec) (e : MessageEnvelope) (db : Db) (b : Bool)
    → (insert_outbox codec e db).0 ≡ ok b
    → Holds codec (insert_outbox codec e db).1.outbox e
unfolding insert_outbox new_row
insert_outbox-Holds codec e db b h =
    ground
      (arith, find-new_row e.message_id e (codec.envelope_json e) db.outbox, ==_refl e.message_id)

-- A message that was enqueued without an error, enqueued again, reports a duplicate and changes
-- nothing.
pub enqueue_again :
    (codec : Codec) (e : MessageEnvelope) (db : Db) (b : Bool)
    → (enqueue codec e db).0 ≡ ok b
    → enqueue codec e (enqueue codec e db).1 ≡ (ok false, (enqueue codec e db).1)
unfolding enqueue insert_outbox new_row
enqueue_again codec e db b h =
    ground
      (arith, find-new_row e.message_id e (codec.envelope_json e) db.outbox, ==_refl e.message_id)

-- One identifier with another text is refused, and the store stays as it was.
pub enqueue_conflict :
    (codec : Codec) (e : MessageEnvelope) (db : Db) (row : OutboxRow)
    → stored e.message_id db ≡ some row
    → row.payload_json ≢ codec.envelope_json e
    → enqueue codec e db ≡ (err record_conflict, db)
unfolding enqueue insert_outbox
enqueue_conflict codec e db row found other = ground arith

attempts :
    (m : Uuid) (db : Db)
    → IsUnique db
    → count (attemptable m) db.outbox
      ≡ hits (λ (r : OutboxRow). is_pending r.ack_state) (stored m db)
attempts m db h =
    count_keyed same_id (has_id m) (λ r. is_pending r.ack_state) db.outbox (λ x y p q. ground arith)
      h

find-attempted :
    (m : Uuid) (t : UtcText) (rows : List OutboxRow)
    → find (has_id m) (update (attemptable m) (attempted t) rows)
      ≡ Option.map (λ r. if attemptable m r then attempted t r else r) (find (has_id m) rows)
find-attempted m t rows = find-update (has_id m) (attemptable m) (attempted t) rows (λ r. refl)

-- What `record_attempt` does, by the message's row: it counts the attempt of a pending message and
-- sets its next one, and refuses any other with no change.
abbrev pub AttemptOf : Uuid → Instant → Db → Option OutboxRow → Type 0
AttemptOf m t db none = record_attempt m t db ≡ (err invalid_transition, db)
AttemptOf m t db (some row) = elim row.ack_state [
  | acked ↦ record_attempt m t db ≡ (err invalid_transition, db)
  | pending ↦
      ((record_attempt m t db).0 ≡ ok (row.attempt_count + 1))
      × (stored m (record_attempt m t db).1 ≡ some (attempted (utc_text t) row))
]

attempt_at :
    (m : Uuid) (t : Instant) (db : Db) (o : Option OutboxRow)
    → IsUnique db
    → stored m db ≡ o
    → AttemptOf m t db o
unfolding record_attempt
attempt_at m t db none h e = ground (arith, attempts m db h)
attempt_at m t db (some row) h e =
    let key = find_sound (has_id m) db.outbox row e in
    ground (arith, attempts m db h, find-attempted m (utc_text t) db.outbox, key)

-- On a store with unique outbox identifiers, `record_attempt` of a pending message answers its old
-- count and one more and sets its next attempt, and for any other message it raises an illegal
-- transition and changes nothing.
pub record_attempt_cases :
    (m : Uuid) (t : Instant) (db : Db) → IsUnique db → AttemptOf m t db (stored m db)
record_attempt_cases m t db h = attempt_at m t db (stored m db) h refl

-- On a store with unique outbox identifiers, an acknowledged message is due at no time, an attempt
-- of it is refused, and another acknowledgement reports a duplicate; neither changes the store.
pub acked_silent :
    (m : Uuid) (t : Instant) (now : UtcText) (row : OutboxRow) (db : Db)
    → IsUnique db
    → stored m db ≡ some row
    → row.ack_state ≡ acked
    → (is_due now row ≡ false)
      × (record_attempt m t db ≡ (err invalid_transition, db))
      × (acknowledge m t db ≡ (ok false, db))
unfolding acknowledge is_due
acked_silent m t now row db h found done =
    (ground arith, ground (arith, attempt_at m t db (some row) h found), ground arith)

find-acked :
    (m : Uuid) (t : UtcText) (rows : List OutboxRow)
    → find (has_id m) (update (has_id m) (mark_acked t) rows)
      ≡ Option.map (mark_acked t) (find (has_id m) rows)
find-acked m t rows = find-update_same (has_id m) (mark_acked t) rows (λ r. refl)

-- An acknowledgement of a stored message leaves it acknowledged, and answers whether it was
-- pending.
pub acknowledge_acks :
    (m : Uuid) (t : Instant) (row : OutboxRow) (db : Db)
    → stored m db ≡ some row
    → (Option.map (λ (r : OutboxRow). r.ack_state) (stored m (acknowledge m t db).1) ≡ some acked)
      × ((acknowledge m t db).0 ≡ ok (is_pending row.ack_state))
unfolding acknowledge
acknowledge_acks m t row db found =
    (ground (arith, find-acked m (utc_text t) db.outbox), ground arith)
