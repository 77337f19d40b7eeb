-- ===== src/Runtime/Drain.antt =====
-- The rows of the inbox after a message was claimed and completed.
use mathlib.Core.List.{Memᴰ}
use mathlib.Core.List.Memᴰ
use deferred_teleoperation.Base.{
  ◌≡◌, ◌≤◌, ◌<◌, refl, sym, ap, ◌∙◌, true, false, none, some, List, [], ◌∷◌, arith, All, find,
  update, count, inl, inr, Bool-cases, ==_refl,
}
use deferred_teleoperation.Time.{UtcText}
use deferred_teleoperation.Wire.{Uuid, MessageEnvelope, Codec}
use deferred_teleoperation.Store.Schema.{
  InboxRow, ProcessingState, processed, processing, received, failed, Reference,
}
use deferred_teleoperation.Store.Inbox.{
  has_id, is_claimable, is_processing, claimable, interrupted, claimed, completed, in_progress,
}

-- The stored text is read back as a message with the row's identifier.
abbrev pub IsReadable : Codec → InboxRow → Type 0
IsReadable codec r =
    (e : MessageEnvelope) × (codec.model_validate_json r.payload_json ≡ some e)
    × (e.message_id ≡ r.message_id)

abbrev pub done : UtcText → Reference → InboxRow → InboxRow
done at reference r = completed at reference (claimed r)

pub update-update :
    (id : Uuid) (at : UtcText) (reference : Reference) (rows : List InboxRow)
    → update (has_id id) (completed at reference) (update (has_id id) claimed rows)
      ≡ update (has_id id) (done at reference) rows
unfolding update
update-update id at reference [] = refl
update-update id at reference (r ∷ rows) = ground (arith, update-update id at reference rows)

pub All-done :
    (codec : Codec) (id : Uuid) (at : UtcText) (reference : Reference) (rows : List InboxRow)
    → All (IsReadable codec) rows
    → All (IsReadable codec) (update (has_id id) (done at reference) rows)
unfolding update
All-done codec id at reference [] h = tt
All-done codec id at reference (r ∷ rows) h = elim (Bool-cases (has_id id r)) [
  | inl hit ↦ rw hit (h.0, All-done codec id at reference rows h.1)
  | inr miss ↦ rw miss (h.0, All-done codec id at reference rows h.1)
]

pub find-done :
    (id : Uuid) (at : UtcText) (reference : Reference) (rows : List InboxRow)
    → find interrupted rows ≡ none
    → find interrupted (update (has_id id) (done at reference) rows) ≡ none
unfolding find update
find-done id at reference [] h = refl
find-done id at reference (r ∷ rows) h = ground (arith, find-done id at reference rows)

count-done_le :
    (id : Uuid) (at : UtcText) (reference : Reference) (rows : List InboxRow)
    → count claimable (update (has_id id) (done at reference) rows) ≤ count claimable rows
unfolding count update
count-done_le id at reference [] = omega arith
count-done_le id at reference (r ∷ rows) = ground (arith, count-done_le id at reference rows)

-- One message less can be claimed.
pub count-done :
    (row : InboxRow) (at : UtcText) (reference : Reference) (rows : List InboxRow)
    → Memᴰ row rows
    → claimable row ≡ true
    → count claimable (update (has_id row.message_id) (done at reference) rows)
      < count claimable rows
unfolding count update
count-done row at reference [] m h = elim m [ ]
count-done row at reference (r ∷ rows) m h = elim (Memᴰ.cases_cons m) [
  | inl same ↦
      let hit : has_id row.message_id r ≡ true =
        ap (λ (x : InboxRow). has_id x.message_id r) same ∙ ==_refl r.message_id in
      let ready : claimable r ≡ true = ap claimable (sym same) ∙ h in
      ground (arith, count-done_le row.message_id at reference rows)
  | inr later ↦ ground (arith, count-done row at reference rows later h)
]

missed : (row r : InboxRow) → row ≡ r → has_id row.message_id r ≡ false → ⊥
missed row r same miss =
    let hit : has_id row.message_id r ≡ true =
      ap (λ (x : InboxRow). has_id x.message_id r) same ∙ ==_refl r.message_id in
    ground arith

pub find_of_mem_id :
    (row : InboxRow) (rows : List InboxRow)
    → Memᴰ row rows
    → (r : InboxRow) × (find (has_id row.message_id) rows ≡ some r)
unfolding find
find_of_mem_id row [] m = elim m [ ]
find_of_mem_id row (r ∷ rows) m = elim (Bool-cases (has_id row.message_id r)) [
  | inl hit ↦ (r, rw hit refl)
  | inr miss ↦ elim (Memᴰ.cases_cons m) [
    | inl same ↦ absurd (missed row r same miss)
    | inr later ↦ let (x, e) = find_of_mem_id row rows later in (x, rw miss e)
  ]
]

-- The row that is claimed is being processed.
pub in_progress-claimed :
    (row : InboxRow) (rows : List InboxRow)
    → Memᴰ row rows
    → in_progress (find (has_id row.message_id) (update (has_id row.message_id) claimed rows))
      ≡ true
unfolding find update
in_progress-claimed row [] m = elim m [ ]
in_progress-claimed row (r ∷ rows) m = elim (Bool-cases (has_id row.message_id r)) [
  | inl hit ↦ rw hit (rw hit refl)
  | inr miss ↦ elim (Memᴰ.cases_cons m) [
    | inl same ↦ absurd (missed row r same miss)
    | inr later ↦ rw miss (rw miss (in_progress-claimed row rows later))
  ]
]

state_processed :
    (s : ProcessingState) → is_claimable s ≡ false → is_processing s ≡ false → s ≡ processed
state_processed received idle busy = absurd (ground arith)
state_processed processing idle busy = absurd (ground arith)
state_processed processed idle busy = refl
state_processed failed idle busy = absurd (ground arith)

-- With nothing to claim and nothing interrupted, every row is processed.
pub all_processed :
    (rows : List InboxRow)
    → find interrupted rows ≡ none
    → count claimable rows ≡ 0
    → All (λ r. r.processing_state ≡ processed) rows
unfolding find count
all_processed [] h none_left = tt
all_processed (r ∷ rows) h none_left = (
  state_processed r.processing_state (ground arith) (ground arith),
  all_processed rows (ground arith) (ground arith),
)
