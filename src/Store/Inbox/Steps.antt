-- ===== src/Store/Inbox/Steps.antt =====
-- What each operation of the inbox does to one stored message.
use mathlib.Core.Option.{some-injective}
use deferred_teleoperation.Base.{
  ◌≡◌, refl, true, ◌&&◌, some, List, arith, ◌==◌, if◌then◌else◌, find, update, count, find-insert,
  Bool-cases, Option-cases, inl, inr, ◌⊎◌, sym, ◌∙◌, select,
}
use deferred_teleoperation.Time.{Instant, UtcText, utc_text}
use deferred_teleoperation.Wire.{Text, Uuid, MessageEnvelope, Codec}
use deferred_teleoperation.Store.Schema.{
  InboxRow, ProcessingState, received, processing, processed, failed, Reference, Db,
}
use deferred_teleoperation.Store.Monad.{Result-cases}
use deferred_teleoperation.Store.Outbox.{insert_all, decode_envelope}
use deferred_teleoperation.Store.Inbox.{
  has_id, is_processing, new_row, receive, interrupted, reopened, recover_interrupted_processing,
  claimed, mark_claimed, first, claimable, claim_next_inbox, claim_inbox, fallible, failed_with,
  fail_inbox, completed, complete_inbox,
}
use deferred_teleoperation.Store.Inbox.Rows.{
  kept, IsUnique, kept_as, claim_row, next_row, insert_all-inbox, find-claimed, find-reopened,
  find-failed, find-completed,
}

-- The steps between processing states.
infix 40 ◌⟶◌
pub data ◌⟶◌ : ProcessingState → ProcessingState → Type 0 where
  claim_new : received ⟶ processing
  claim_failed : failed ⟶ processing
  interrupt : processing ⟶ received
  give_up : processing ⟶ failed
  finish : processing ⟶ processed

-- What a call may do to a stored message: its state goes at most one step, and its identity and its
-- text stay.
pub record Evolves (a b : InboxRow) : Type 0 where
  pub state : (a.processing_state ≡ b.processing_state) ⊎ (a.processing_state ⟶ b.processing_state)
  pub id : b.message_id ≡ a.message_id
  pub text : b.payload_json ≡ a.payload_json
  pub origin : b.received_at ≡ a.received_at

-- A row that no call has changed.
pub same_row : (row : InboxRow) → Evolves row row
same_row row = record { state = inl refl; id = refl; text = refl; origin = refl }

abbrev pub Stays : Uuid → InboxRow → Db → Type 0
Stays m row db = (row' : InboxRow) × (kept m db ≡ some row') × Evolves row row'

module _ (codec : Codec) (m : Uuid) (row : InboxRow) (db : Db) (found : kept m db ≡ some row) where
  pub receive-Stays : (e : MessageEnvelope) (t : Instant) → Stays m row (receive codec e t db).1
  unfolding receive
  receive-Stays e t = (
    row,
    ground (arith, find-insert (has_id m) (new_row e t (codec.envelope_json e)) db.inbox),
    same_row row,
  )

  pub recover-Stays : Stays m row (recover_interrupted_processing db).1
  unfolding recover_interrupted_processing
  recover-Stays = (
    if interrupted row then reopened row else row,
    ground (arith, find-reopened m db.inbox),
    grind (arith, interrupt),
  )

  pub fail-Stays : (k : Uuid) (error : Text) → Stays m row (fail_inbox k error db).1
  unfolding fail_inbox
  fail-Stays k error = elim (Bool-cases (count (fallible k) db.inbox == 1)) [
    | inl one ↦ (
      if fallible k row then failed_with error row else row,
      ground (arith, find-failed m k error db.inbox),
      grind (arith, give_up),
    )
    | inr other ↦ (row, ground arith, same_row row)
  ]

pub claimed-Evolves : (row : InboxRow) → claimable row ≡ true → Evolves row (claimed row)
claimed-Evolves row free = grind (arith, claim_new, claim_failed)

pub completed-Evolves :
    (t : UtcText) (reference : Reference) (row : InboxRow)
    → is_processing row.processing_state ≡ true
    → Evolves row (completed t reference row)
completed-Evolves t reference row busy = grind (arith, finish)

module _ (codec : Codec) (m : Uuid) (row : InboxRow) (db : Db) (found : kept m db ≡ some row) where
  -- What marking the claimed row of message `k` does to the row at hand.
  pub mark-Stays :
      (k : Uuid) (r : InboxRow)
      → kept k db ≡ some r
      → claimable r ≡ true
      → Stays m row (mark_claimed k db)
  mark-Stays k r picked free = elim (Bool-cases (has_id k row)) [
    | inl hit ↦
        let same : row ≡ r = some-injective row r (sym (kept_as m k row db found hit) ∙ picked) in
        (claimed row, ground (arith, find-claimed m k db.inbox), claimed-Evolves row (rw same free))
    | inr miss ↦ (row, ground (arith, find-claimed m k db.inbox), same_row row)
  ]

  pub claim-Stays : (k : Uuid) → IsUnique db → Stays m row (claim_inbox codec k db).1
  unfolding claim_inbox decode_envelope
  claim-Stays k h = elim (Option-cases (find (λ r. has_id k r && claimable r) db.inbox)) [
    | inl nothing ↦ (row, ground arith, same_row row)
    | inr (r, e) ↦ elim (Option-cases (codec.model_validate_json r.payload_json)) [
      | inl corrupt ↦ (row, ground arith, same_row row)
      | inr (envelope, valid) ↦
          let picked = claim_row k r db h e in
          let (row', there, kin) = mark-Stays k r picked.0 picked.1 in
          (row', ground (arith, there), kin)
    ]
  ]

  pub next-Stays : IsUnique db → Stays m row (claim_next_inbox codec db).1
  unfolding claim_next_inbox decode_envelope
  next-Stays h = elim (Option-cases (first (select claimable db.inbox))) [
    | inl nothing ↦ (row, ground arith, same_row row)
    | inr (r, e) ↦ elim (Option-cases (codec.model_validate_json r.payload_json)) [
      | inl corrupt ↦ (row, ground arith, same_row row)
      | inr (envelope, valid) ↦
          let picked = next_row r db h e in
          let (row', there, kin) = mark-Stays r.message_id r picked.0 picked.1 in
          (row', ground (arith, there), kin)
    ]
  ]

  finish-Stays :
      (k : Uuid) (r : InboxRow) (t : UtcText) (reference : Reference) (rows : List InboxRow)
      → kept k db ≡ some r
      → is_processing r.processing_state ≡ true
      → rows ≡ db.inbox
      → (row' : InboxRow) × (find (has_id m) (update (has_id k) (completed t reference) rows)
          ≡ some row')
        × Evolves row row'
  finish-Stays k r t reference rows picked busy e = elim (Bool-cases (has_id k row)) [
    | inl hit ↦
        let same : row ≡ r = some-injective row r (sym (kept_as m k row db found hit) ∙ picked) in
        (
          completed t reference row,
          ground (arith, find-completed m k t reference rows),
          completed-Evolves t reference row (rw same busy),
        )
    | inr miss ↦ (row, ground (arith, find-completed m k t reference rows), same_row row)
  ]

  -- The transaction either writes everything or is rolled back.
  complete-branch :
      (k : Uuid) (t : Instant) (reference : Reference) (outgoing : List MessageEnvelope)
      (r row' : InboxRow)
      → kept k db ≡ some r
      → is_processing r.processing_state ≡ true
      → find (has_id m) (
          update
            (has_id k)
            (completed (utc_text t) reference)
            (insert_all codec outgoing db).1.inbox)
        ≡ some row'
      → Evolves row row'
      → Stays m row (complete_inbox codec k t reference outgoing db).1
  unfolding complete_inbox
  complete-branch k t reference outgoing r row' e busy there kin =
      elim (Result-cases (insert_all codec outgoing db).0) [
        | inl (done, sent) ↦ (row', ground (arith, there), kin)
        | inr (refused, failure) ↦ (row, ground arith, same_row row)
      ]

  pub complete-Stays :
      (k : Uuid) (t : Instant) (reference : Reference) (outgoing : List MessageEnvelope)
      → Stays m row (complete_inbox codec k t reference outgoing db).1
  unfolding complete_inbox
  complete-Stays k t reference outgoing = elim (Option-cases (kept k db)) [
    | inl nothing ↦ (row, ground arith, same_row row)
    | inr (r, e) ↦ elim (Bool-cases (is_processing r.processing_state)) [
      | inr idle ↦ (row, ground arith, same_row row)
      | inl busy ↦
          let (row', there, kin) =
            finish-Stays k r (utc_text t) reference (insert_all codec outgoing db).1.inbox e busy
              (insert_all-inbox codec outgoing db) in
          complete-branch k t reference outgoing r row' e busy there kin
    ]
  ]
