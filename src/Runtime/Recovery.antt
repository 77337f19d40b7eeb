-- ===== src/Runtime/Recovery.antt =====
-- The Mission's recovery: its bounded pass over the inbox.
use mathlib.Core.List.{Memᴰ}
use deferred_teleoperation.Base.{
  ℕ, zero, suc, ◌+◌, ◌*◌, ◌≡◌, ◌≤◌, refl, ap, ◌∙◌, true, none, some, List, [], ◌∷◌, arith, All,
  All-mem, find, update, count, select, inl, inr, Bool-cases, Option-cases, mem-select,
  find-update-none,
}
use deferred_teleoperation.Time.{Instant, utc_text}
use deferred_teleoperation.Wire.{Text, Uuid, MessageEnvelope, MessageType, Codec, payload_type}
use deferred_teleoperation.Store.Schema.{InboxRow, processed, Reference, plain, Db}
use deferred_teleoperation.Store.Monad.{ok}
use deferred_teleoperation.Store.Outbox.{insert_all, decode_envelope}
use deferred_teleoperation.Store.Inbox.{
  has_id, claimable, interrupted, reopened, completed, mark_claimed, in_progress, first,
  claim_next_inbox, complete_inbox, recover_interrupted_processing,
}
use deferred_teleoperation.Store.Inbox.Rows.{mem-first}
use deferred_teleoperation.Runtime.{Process, retry_pass, recover, process_claimed}
use deferred_teleoperation.Runtime.Drain.{
  IsReadable, done, update-update, All-done, find-done, count-done, in_progress-claimed,
  all_processed,
}

-- Nothing is selected where no row is first.
count-none-first :
    (rows : List InboxRow) → first (select claimable rows) ≡ none → count claimable rows ≡ 0
unfolding count first
count-none-first [] h = refl
count-none-first (r ∷ rows) h = ground (arith, count-none-first rows)

-- The store after one message was claimed and completed.
abbrev pub after_round : Uuid → Instant → Reference → Db → Db
after_round id now reference db = record db {
  inbox = update (has_id id) (done (utc_text now) reference) db.inbox;
}

pub claimed_next :
    (codec : Codec) (db : Db) (row : InboxRow) (e : MessageEnvelope)
    → first (select claimable db.inbox) ≡ some row
    → codec.model_validate_json row.payload_json ≡ some e
    → claim_next_inbox codec db ≡ (ok (some e), mark_claimed row.message_id db)
unfolding claim_next_inbox decode_envelope
claimed_next codec db row e next valid = ground arith

completed_row :
    (codec : Codec) (id : Uuid) (now : Instant) (reference : Reference) (db : Db)
    → in_progress (find (has_id id) db.inbox) ≡ true
    → complete_inbox codec id now reference [] db ≡ (
      ok tt,
      record db { inbox = update (has_id id) (completed (utc_text now) reference) db.inbox },
    )
unfolding complete_inbox insert_all
completed_row codec id now reference db busy = ground arith

pub completed_next :
    (codec : Codec) (view_reference : MessageType → Text) (now : Instant) (db : Db) (row : InboxRow)
    (e : MessageEnvelope)
    → Memᴰ row db.inbox
    → e.message_id ≡ row.message_id
    → process_claimed codec view_reference now e (mark_claimed row.message_id db)
      ≡ (ok tt, after_round row.message_id now (plain (view_reference (payload_type e.payload))) db)
unfolding process_claimed
completed_next codec view_reference now db row e m same =
    let busy = in_progress-claimed row db.inbox m in
    let reference = plain (view_reference (payload_type e.payload)) in
    rw (process_claimed, same)
      (completed_row codec row.message_id now reference (mark_claimed row.message_id db) busy
        ∙ ap (λ rows. (ok tt, record db { inbox = rows }))
            (update-update row.message_id (utc_text now) reference db.inbox))

pub nothing_next :
    (codec : Codec) (db : Db)
    → first (select claimable db.inbox) ≡ none
    → claim_next_inbox codec db ≡ (ok none, db)
unfolding claim_next_inbox
nothing_next codec db nothing = ground arith

module _ (codec : Codec) (process : Process) (clock : ℕ → Instant) (left made : ℕ) where
  pass_ends :
      (db : Db)
      → claim_next_inbox codec db ≡ (ok none, db)
      → retry_pass codec process clock (suc left) made db ≡ (ok tt, db)
  unfolding retry_pass
  pass_ends db nothing = ground arith

  pass_round :
      (e : MessageEnvelope) (db before after : Db)
      → claim_next_inbox codec db ≡ (ok (some e), before)
      → process (clock made) e before ≡ (ok tt, after)
      → retry_pass codec process clock (suc left) made db
        ≡ retry_pass codec process clock left (made + 1) after
  unfolding retry_pass
  pass_round e db before after taken went = ground arith

-- What the pass leaves: no error, and every message processed.
record Drained (codec : Codec) (process : Process) (clock : ℕ → Instant) (left made : ℕ) (db : Db)
    : Type 0 where
  after : Db
  passed : retry_pass codec process clock left made db ≡ (ok tt, after)
  all_done : All (λ r. r.processing_state ≡ processed) after.inbox

drain :
    (codec : Codec) (view_reference : MessageType → Text) (clock : ℕ → Instant) (left made : ℕ)
    (db : Db)
    → All (IsReadable codec) db.inbox
    → find interrupted db.inbox ≡ none
    → count claimable db.inbox ≤ left
    → Drained codec (process_claimed codec view_reference) clock left made db
unfolding retry_pass
drain codec view_reference clock zero made db readable idle enough = record {
  after = db;
  passed = refl;
  all_done = all_processed db.inbox idle (omega (arith, enough));
}
drain codec view_reference clock (suc left) made db readable idle enough =
    let process = process_claimed codec view_reference in
    elim (Option-cases (first (select claimable db.inbox))) [
      | inl nothing ↦ record {
        after = db;
        passed = pass_ends codec process clock left made db (nothing_next codec db nothing);
        all_done = all_processed db.inbox idle (count-none-first db.inbox nothing);
      }
      | inr (row, next) ↦
          let (m, free) =
            mem-select claimable row db.inbox (mem-first row (select claimable db.inbox) next) in
          let (e, valid, same) = All-mem (IsReadable codec) db.inbox row readable m in
          let reference = plain (view_reference (payload_type e.payload)) in
          let at = utc_text (clock made) in
          let rest =
            drain codec view_reference clock left (made + 1)
              (after_round row.message_id (clock made) reference db)
              (All-done codec row.message_id at reference db.inbox readable)
              (find-done row.message_id at reference db.inbox idle)
              (omega (arith, enough, count-done row at reference db.inbox m free)) in
          record {
            after = rest.after;
            passed =
                pass_round codec process clock left made e db (mark_claimed row.message_id db)
                  (after_round row.message_id (clock made) reference db)
                  (claimed_next codec db row e next valid)
                  (completed_next codec view_reference (clock made) db row e m same)
                ∙ rest.passed;
            all_done = rest.all_done;
          }
    ]

IsReadable-again :
    (codec : Codec) (rows : List InboxRow)
    → All (IsReadable codec) rows
    → All (IsReadable codec) (update interrupted reopened rows)
unfolding update
IsReadable-again codec [] h = tt
IsReadable-again codec (r ∷ rows) h = elim (Bool-cases (interrupted r)) [
  | inl hit ↦ rw hit (h.0, IsReadable-again codec rows h.1)
  | inr miss ↦ rw miss (h.0, IsReadable-again codec rows h.1)
]

-- On a Mission's store whose messages can be read back, the recovery returns within its bounded
-- number of rounds, reports how many messages were interrupted, and leaves every message
-- processed.
pub recover_drains :
    (codec : Codec) (view_reference : MessageType → Text) (clock : ℕ → Instant) (db : Db)
    → All (IsReadable codec) db.inbox
    → (after : Db) × (recover codec (process_claimed codec view_reference) clock db
        ≡ (ok (count interrupted db.inbox), after))
      × All (λ r. r.processing_state ≡ processed) after.inbox
unfolding recover recover_interrupted_processing
recover_drains codec view_reference clock db readable =
    let rows = update interrupted reopened db.inbox in
    let process = process_claimed codec view_reference in
    let pass =
      drain codec view_reference clock (count claimable rows * 2) 0 (record db { inbox = rows })
        (IsReadable-again codec db.inbox readable)
        (find-update-none interrupted interrupted reopened db.inbox (λ r. refl) (λ r p. p))
        (omega arith) in
    (pass.after, ground (arith, pass.passed), pass.all_done)
