-- ===== src/Store/Outbox/Keys.antt =====
-- The primary key of the outbox under its operations.
use deferred_teleoperation.Base.{
  ◌≡◌, refl, Bool, none, List, [], ◌∷◌, arith, ◌==◌, find, insert, Option-cases, inl, inr, IsKeyed,
  insert-IsKeyed, update-IsKeyed,
}
use deferred_teleoperation.Time.{Instant, utc_text}
use deferred_teleoperation.Wire.{Text, Uuid, MessageEnvelope, Codec}
use deferred_teleoperation.Store.Schema.{OutboxRow, Db}
use deferred_teleoperation.Store.Outbox.{
  has_id, new_row, attemptable, attempted, mark_acked, insert_outbox, insert_all, record_attempt,
  acknowledge,
}

abbrev pub same_id : OutboxRow → OutboxRow → Bool
same_id a b = a.message_id == b.message_id

abbrev pub IsUnique : Db → Type 0
IsUnique db = IsKeyed same_id db.outbox

insert_new :
    (e : MessageEnvelope) (encoded : Text) (rows : List OutboxRow)
    → find (has_id e.message_id) rows ≡ none
    → IsKeyed same_id rows
    → IsKeyed same_id (insert (new_row e encoded) rows)
unfolding new_row
insert_new e encoded rows new h =
    insert-IsKeyed same_id (has_id e.message_id) (new_row e encoded) rows (λ y same. same) new h

pub insert_outbox-IsUnique :
    (codec : Codec) (e : MessageEnvelope) (db : Db)
    → IsUnique db
    → IsUnique (insert_outbox codec e db).1
unfolding insert_outbox
insert_outbox-IsUnique codec e db h = elim (Option-cases (find (has_id e.message_id) db.outbox)) [
  | inl new ↦
      let stored = insert_new e (codec.envelope_json e) db.outbox new h in ground (arith, stored)
  | inr (row, found) ↦ ground arith
]

pub insert_all-IsUnique :
    (codec : Codec) (es : List MessageEnvelope) (db : Db)
    → IsUnique db
    → IsUnique (insert_all codec es db).1
unfolding insert_all
insert_all-IsUnique codec [] db h = h
insert_all-IsUnique codec (e ∷ es) db h = ground (
  arith,
  insert_outbox-IsUnique codec e db h,
  insert_all-IsUnique codec es (insert_outbox codec e db).1,
)

-- An attempt keeps the identifiers unique.
pub record_attempt-IsUnique :
    (m : Uuid) (t : Instant) (db : Db) → IsUnique db → IsUnique (record_attempt m t db).1
unfolding record_attempt
record_attempt-IsUnique m t db h =
    let kept =
      update-IsKeyed same_id (attemptable m) (attempted (utc_text t)) db.outbox (λ x y. refl)
        (λ x y. refl) h in
    ground (arith, kept)

pub acknowledge-IsUnique :
    (m : Uuid) (t : Instant) (db : Db) → IsUnique db → IsUnique (acknowledge m t db).1
unfolding acknowledge
acknowledge-IsUnique m t db h =
    let kept =
      update-IsKeyed same_id (has_id m) (mark_acked (utc_text t)) db.outbox (λ x y. refl)
        (λ x y. refl) h in
    ground (arith, kept)
