-- ===== src/Node/Exchange.antt =====
-- A Mission that receives a message over a link that repeats it.
use deferred_teleoperation.Base.{insert}
use deferred_teleoperation.Time.{Instant}
use deferred_teleoperation.Wire.{MessageEnvelope, Codec}
use deferred_teleoperation.Store.Schema.{Db}
use deferred_teleoperation.Store.Inbox.{new_row}

-- The store with a new message.
abbrev with_message : Codec → MessageEnvelope → Instant → Db → Db
with_message codec e now db = record db {
  inbox = insert (new_row e now (codec.envelope_json e)) db.inbox;
}
