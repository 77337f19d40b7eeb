-- ===== src/Store/Inbox/Handling.antt =====
-- What one operation of the inbox promises its caller: duplicates, claims, recovery and completion.
use deferred_teleoperation.Base.{
  ◌≡◌, ◌≢◌, refl, subst, Bool, true, false, ◌&&◌, none, some, List, [], ◌∷◌, arith, ◌==◌,
  if◌then◌else◌, find, update, insert, find-insert, Option-cases, inl, inr, ◌⊎◌, ==_refl, All,
  find_sound, find-none, find-update-none, update-none, count_zero,
}
use deferred_teleoperation.Time.{Instant, utc_text}
use deferred_teleoperation.Wire.{Text, Uuid, MessageEnvelope, Codec}
use deferred_teleoperation.Store.Schema.{InboxRow, processing, Reference, Db}
use deferred_teleoperation.Store.Monad.{ok, err, StorageError, record_conflict, Result-cases}
use deferred_teleoperation.Store.Outbox.{insert_outbox, insert_all, decode_envelope}
use deferred_teleoperation.Store.Outbox.Delivery.{
  stored, Holds, insert_outbox-Holds, insert_all-keeps,
}
use deferred_teleoperation.Store.Inbox.{
  has_id, new_row, receive, interrupted, reopened, recover_interrupted_processing, claimed,
  claimable, claim_inbox, completed, complete_inbox,
}
use deferred_teleoperation.Store.Inbox.Rows.{kept, insert_all-inbox, find-completed}

find-received :
    (m : Uuid) (e : MessageEnvelope) (t : Instant) (encoded : Text) (db : Db)
    → find (has_id m) (insert (new_row e t encoded) db.inbox) ≡ elim (kept m db) [
      | none ↦ if e.message_id == m then some (new_row e t encoded) else none
      | some row ↦ some row
    ]
unfolding new_row
find-received m e t encoded db =
    ground (arith, find-insert (has_id m) (new_row e t encoded) db.inbox)

-- A message that was received without an error, received again at any time, reports a duplicate
-- and changes nothing.
pub receive_again :
    (codec : Codec) (e : MessageEnvelope) (t u : Instant) (db : Db) (b : Bool)
    → (receive codec e t db).0 ≡ ok b
    → receive codec e u (receive codec e t db).1 ≡ (ok false, (receive codec e t db).1)
unfolding receive new_row
receive_again codec e t u db b h =
    ground (arith, find-received e.message_id e t (codec.envelope_json e) db, ==_refl e.message_id)

-- One identifier with another text is refused with no change.
pub receive_conflict :
    (codec : Codec) (e : MessageEnvelope) (t : Instant) (db : Db) (row : InboxRow)
    → kept e.message_id db ≡ some row
    → row.payload_json ≢ codec.envelope_json e
    → receive codec e t db ≡ (err record_conflict, db)
unfolding receive
receive_conflict codec e t db row found other = ground arith

-- A message whose identifier is new, and whose text is read back as the message, is taken in, and
-- a claim of it then returns exactly that message.
pub receive-claim :
    (codec : Codec) (e : MessageEnvelope) (t : Instant) (db : Db)
    → kept e.message_id db ≡ none
    → codec.model_validate_json (codec.envelope_json e) ≡ some e
    → ((receive codec e t db).0 ≡ ok true)
      × ((claim_inbox codec e.message_id (receive codec e t db).1).0 ≡ ok (some e))
unfolding receive claim_inbox decode_envelope new_row
receive-claim codec e t db new valid =
    let free =
      find-none (λ r. has_id e.message_id r && claimable r) (has_id e.message_id) db.inbox
        (λ y p. ground arith) new in
    let added =
      find-insert (λ r. has_id e.message_id r && claimable r) (new_row e t (codec.envelope_json e))
        db.inbox in
    (ground arith, ground (arith, free, added, ==_refl e.message_id))

-- After a claim that returned a message, a second claim of the same identifier returns nothing and
-- changes nothing.
pub claim_exclusive :
    (codec : Codec) (m : Uuid) (e : MessageEnvelope) (db : Db)
    → (claim_inbox codec m db).0 ≡ ok (some e)
    → claim_inbox codec m (claim_inbox codec m db).1 ≡ (ok none, (claim_inbox codec m db).1)
unfolding claim_inbox decode_envelope
claim_exclusive codec m e db h =
    let taken =
      find-update-none (λ r. has_id m r && claimable r) (has_id m) claimed db.inbox
        (λ r. ground arith) (λ r p. ground arith) in
    ground (arith, taken)

-- After a recovery no message is being processed, and a second recovery reports 0 and changes
-- nothing.
pub recover_again :
    (db : Db)
    → let db' = (recover_interrupted_processing db).1 in
      (find interrupted db'.inbox ≡ none) × (recover_interrupted_processing db' ≡ (ok 0, db'))
unfolding recover_interrupted_processing
recover_again db =
    let rows : List InboxRow = update interrupted reopened db.inbox in
    let clear = find-update-none interrupted interrupted reopened db.inbox (λ r. refl) (λ r p. p) in
    (
      clear,
      rw (count_zero interrupted rows clear, update-none interrupted reopened rows clear) refl,
    )

Holds-keeps :
    (codec : Codec) (e : MessageEnvelope) (es : List MessageEnvelope) (db : Db)
    → Holds codec db.outbox e
    → Holds codec (insert_all codec es db).1.outbox e
Holds-keeps codec e es db h = elim (Option-cases (stored e.message_id db)) [
  | inl nothing ↦ cc (rw nothing at h)
  | inr (row, found) ↦ rw (insert_all-keeps codec es e.message_id row db found) (rw found at h)
]

pub insert_all-Holds :
    (codec : Codec) (es : List MessageEnvelope) (db : Db)
    → (insert_all codec es db).0 ≡ ok tt
    → All (Holds codec (insert_all codec es db).1.outbox) es
unfolding insert_all
insert_all-Holds codec [] db h = tt
insert_all-Holds codec (e ∷ es) db h = elim (Result-cases (insert_outbox codec e db).0) [
  | inl (b, sent) ↦
      let db' : Db = (insert_outbox codec e db).1 in
      let first_held = Holds-keeps codec e es db' (insert_outbox-Holds codec e db b sent) in
      let rest_held = insert_all-Holds codec es db' in ground (arith, first_held, rest_held)
  | inr (x, refused) ↦ ground arith
]

complete_inbox_ok :
    (codec : Codec) (m : Uuid) (t : Instant) (reference : Reference)
    (outgoing : List MessageEnvelope) (row : InboxRow) (db : Db)
    → kept m db ≡ some row
    → (complete_inbox codec m t reference outgoing db).0 ≡ ok tt
    → let db' = (complete_inbox codec m t reference outgoing db).1 in
      (row.processing_state ≡ processing)
      × (kept m db' ≡ some (completed (utc_text t) reference row))
      × All (Holds codec db'.outbox) outgoing
unfolding complete_inbox
complete_inbox_ok codec m t reference outgoing row db found h =
    let own = find_sound (has_id m) db.inbox row found in
    let marked = find-completed m m (utc_text t) reference db.inbox in
    (
      ground arith,
      ground (arith, insert_all-inbox codec outgoing db, marked, own),
      elim (Result-cases (insert_all codec outgoing db).0) [
        | inl (done, sent) ↦
            let box : (insert_all codec outgoing db).1.outbox
                ≡ (complete_inbox codec m t reference outgoing db).1.outbox =
              ground arith in
            subst (λ rows. All (Holds codec rows) outgoing) box
              (insert_all-Holds codec outgoing db sent)
        | inr (y, refused) ↦ absurd (ground arith)
      ],
    )

complete_inbox_fails :
    (codec : Codec) (m : Uuid) (t : Instant) (reference : Reference)
    (outgoing : List MessageEnvelope) (x : StorageError) (db : Db)
    → (complete_inbox codec m t reference outgoing db).0 ≡ err x
    → (complete_inbox codec m t reference outgoing db).1 ≡ db
unfolding complete_inbox
complete_inbox_fails codec m t reference outgoing x db h = ground arith

-- A completion of a stored message either returns, found it in processing, and leaves it
-- processed, at the given time and with the given reference, and every outgoing message in the
-- outbox with its text; or raises and leaves the whole store as it was.
pub complete_inbox_atomic :
    (codec : Codec) (m : Uuid) (t : Instant) (reference : Reference)
    (outgoing : List MessageEnvelope) (row : InboxRow) (db : Db)
    → kept m db ≡ some row
    → let (result, db') = complete_inbox codec m t reference outgoing db in
      ((result ≡ ok tt)
        × (row.processing_state ≡ processing)
        × (kept m db' ≡ some (completed (utc_text t) reference row))
        × All (Holds codec db'.outbox) outgoing)
      ⊎ ((x : StorageError) × (result ≡ err x) × (db' ≡ db))
complete_inbox_atomic codec m t reference outgoing row db found =
    elim (Result-cases (complete_inbox codec m t reference outgoing db).0) [
      | inl (u, done) ↦
          let (began, kept_row, held) =
            complete_inbox_ok codec m t reference outgoing row db found done in
          inl (done, began, kept_row, held)
      | inr (x, failure) ↦
          inr (x, failure, complete_inbox_fails codec m t reference outgoing x db failure)
    ]
