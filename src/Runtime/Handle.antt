-- ===== src/Runtime/Handle.antt =====
-- The Mission's handling of a fresh message.
use mathlib.Core.Option
use deferred_teleoperation.Base.{
  All-mem, ℕ, ◌≡◌, refl, subst, ◌∙◌, Bool, true, false, not, ◌&&◌, Option, none, some, List, [],
  ◌∷◌, arith, All, find, update, select, inl, inr, Option-cases, mem-select, mem_of_find,
  find_sound,
}
use deferred_teleoperation.Time.{Instant, UtcText, utc_text}
use deferred_teleoperation.Wire.{Text, Uuid, MessageEnvelope, MessageType, Codec, payload_type}
use deferred_teleoperation.Store.Schema.{InboxRow, ProcessingState, processed, Reference, plain, Db}
use deferred_teleoperation.Store.Monad.{ok}
use deferred_teleoperation.Store.Outbox.{decode_envelope}
use deferred_teleoperation.Store.Inbox.{
  has_id, claimable, mark_claimed, first, claim_next_inbox, claim_inbox,
}
use deferred_teleoperation.Store.Inbox.Rows.{mem-first}
use deferred_teleoperation.Runtime.{Process, handle, process_claimed}
use deferred_teleoperation.Runtime.Drain.{IsReadable, done, All-done}
use deferred_teleoperation.Runtime.Recovery.{
  claimed_next, completed_next, nothing_next, after_round,
}

abbrev is_processed : ProcessingState → Bool
is_processed processed = true
is_processed _ = false

-- A row of the message that is not processed.
abbrev pub unfinished : Uuid → InboxRow → Bool
unfinished id row = has_id id row && not (is_processed row.processing_state)

none-unfinished :
    (id : Uuid) (at : UtcText) (reference : Reference) (rows : List InboxRow)
    → find (unfinished id) (update (has_id id) (done at reference) rows) ≡ none
unfolding find update
none-unfinished id at reference [] = refl
none-unfinished id at reference (r ∷ rows) = ground (arith, none-unfinished id at reference rows)

still_none-unfinished :
    (id other : Uuid) (at : UtcText) (reference : Reference) (rows : List InboxRow)
    → find (unfinished id) rows ≡ none
    → find (unfinished id) (update (has_id other) (done at reference) rows) ≡ none
unfolding find update
still_none-unfinished id other at reference [] h = refl
still_none-unfinished id other at reference (r ∷ rows) h =
    ground (arith, still_none-unfinished id other at reference rows)

-- The text of the stored message.
abbrev pub text_of : Uuid → List InboxRow → Option Text
text_of k rows = Option.map (λ (r : InboxRow). r.payload_json) (find (has_id k) rows)

text_of-update :
    (k id : Uuid) (at : UtcText) (reference : Reference) (rows : List InboxRow)
    → text_of k (update (has_id id) (done at reference) rows) ≡ text_of k rows
unfolding find update
text_of-update k id at reference [] = refl
text_of-update k id at reference (r ∷ rows) = ground (arith, text_of-update k id at reference rows)

claimed_one :
    (codec : Codec) (db : Db) (id : Uuid) (row : InboxRow) (e : MessageEnvelope)
    → find (λ r. has_id id r && claimable r) db.inbox ≡ some row
    → codec.model_validate_json row.payload_json ≡ some e
    → claim_inbox codec id db ≡ (ok (some e), mark_claimed id db)
unfolding claim_inbox decode_envelope
claimed_one codec db id row e there valid = ground arith

module _ (codec : Codec) (process : Process) (clock : ℕ → Instant) (id : Uuid) where
  handle_alone :
      (e : MessageEnvelope) (db before after : Db)
      → claim_inbox codec id db ≡ (ok (some e), before)
      → process (clock 0) e before ≡ (ok tt, after)
      → claim_next_inbox codec after ≡ (ok none, after)
      → handle codec process clock id db ≡ (ok tt, after)
  unfolding handle
  handle_alone e db before after taken went nothing = ground arith

  handle_retry :
      (e older : MessageEnvelope) (db before after again last : Db)
      → claim_inbox codec id db ≡ (ok (some e), before)
      → process (clock 0) e before ≡ (ok tt, after)
      → claim_next_inbox codec after ≡ (ok (some older), again)
      → process (clock 1) older again ≡ (ok tt, last)
      → handle codec process clock id db ≡ (ok tt, last)
  unfolding handle
  handle_retry e older db before after again last taken went next done = ground arith

-- On a store whose messages can be read back, the Mission's handling of a message that was received or
-- failed returns, leaves no row of the message unprocessed and keeps the text of every message.
pub handle_processes :
    (codec : Codec) (view_reference : MessageType → Text) (clock : ℕ → Instant) (id : Uuid)
    (row : InboxRow) (db : Db)
    → All (IsReadable codec) db.inbox
    → find (λ r. has_id id r && claimable r) db.inbox ≡ some row
    → (after : Db) × (handle codec (process_claimed codec view_reference) clock id db
        ≡ (ok tt, after))
      × (find (unfinished id) after.inbox ≡ none)
      × ((k : Uuid) → text_of k after.inbox ≡ text_of k db.inbox)
handle_processes codec view_reference clock id row db readable there =
    let process = process_claimed codec view_reference in
    let m = mem_of_find (λ r. has_id id r && claimable r) row db.inbox there in
    let hit = find_sound (λ r. has_id id r && claimable r) db.inbox row there in
    let known : row.message_id ≡ id = ground arith in
    let (e, valid, same) = All-mem (IsReadable codec) db.inbox row readable m in
    let reference = plain (view_reference (payload_type e.payload)) in
    let after = after_round id (clock 0) reference db in
    let taken = claimed_one codec db id row e there valid in
    let went =
      subst
        (λ k.
          process (clock 0) e (mark_claimed k db) ≡ (ok tt, after_round k (clock 0) reference db))
        known (completed_next codec view_reference (clock 0) db row e m same) in
    let finished = none-unfinished id (utc_text (clock 0)) reference db.inbox in
    let still_readable = All-done codec id (utc_text (clock 0)) reference db.inbox readable in
    elim (Option-cases (first (select claimable after.inbox))) [
      | inl nothing ↦ (
        after,
        handle_alone codec process clock id e db (mark_claimed id db) after taken went
            (nothing_next codec after nothing),
        finished,
        λ k. text_of-update k id (utc_text (clock 0)) reference db.inbox,
      )
      | inr (other, next) ↦
          let (n, free) =
            mem-select claimable other after.inbox
              (mem-first other (select claimable after.inbox) next) in
          let (older, readable_older, same_older) =
            All-mem (IsReadable codec) after.inbox other still_readable n in
          let later = plain (view_reference (payload_type older.payload)) in
          (
            after_round other.message_id (clock 1) later after,
            handle_retry codec process clock id e older db (mark_claimed id db) after
                (mark_claimed other.message_id after)
                (after_round other.message_id (clock 1) later after) taken went
                (claimed_next codec after other older next readable_older)
                (completed_next codec view_reference (clock 1) after other older n same_older),
            still_none-unfinished id other.message_id (utc_text (clock 1)) later after.inbox
                finished,
            λ k.
                text_of-update k other.message_id (utc_text (clock 1)) later after.inbox
                ∙ text_of-update k id (utc_text (clock 0)) reference db.inbox,
          )
    ]
