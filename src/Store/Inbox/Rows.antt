-- ===== src/Store/Inbox/Rows.antt =====
-- Rows of the inbox under the operations: what an update and a claim select, and unique identifiers.
use mathlib.Core.Option
use mathlib.Core.Option.{some-injective}
use mathlib.Core.List.{Memᴰ}
use deferred_teleoperation.Base.{
  ◌≡◌, refl, Bool, true, ◌&&◌, Option, some, List, [], ◌∷◌, arith, ◌==◌, if◌then◌else◌, find,
  update, find-update, find_sound, Bool-cases, Option-cases, inl, inr, ==_refl, subst, IsKeyed,
  mem_of_find, find_of_mem, mem-select, select,
}
use deferred_teleoperation.Time.{UtcText}
use deferred_teleoperation.Wire.{Text, Uuid, MessageEnvelope, Codec}
use deferred_teleoperation.Store.Schema.{InboxRow, Reference, Db}
use deferred_teleoperation.Store.Outbox.{insert_outbox, insert_all}
use deferred_teleoperation.Store.Inbox.{
  has_id, interrupted, reopened, claimed, first, claimable, fallible, failed_with, goes_before,
  completed,
}

-- The message as the inbox has it.
abbrev pub kept : Uuid → Db → Option InboxRow
kept m db = find (has_id m) db.inbox

abbrev pub same_id : InboxRow → InboxRow → Bool
same_id a b = a.message_id == b.message_id

-- No two rows of the inbox have one identifier.
abbrev pub IsUnique : Db → Type 0
IsUnique db = IsKeyed same_id db.inbox

pub agree : (k : Uuid) (x y : InboxRow) → has_id k x ≡ true → has_id k y ≡ true → same_id x y ≡ true
agree k x y p q = ground arith

-- A row found under one identifier and bearing another is found under that too.
pub kept_as :
    (m k : Uuid) (row : InboxRow) (db : Db)
    → kept m db ≡ some row
    → has_id k row ≡ true
    → kept k db ≡ some row
kept_as m k row db found h =
    let own = find_sound (has_id m) db.inbox row found in
    let one : m ≡ k = ground arith in subst (λ i. kept i db ≡ some row) one found

-- The row that a claim of one message selects is that message's row, and is claimable.
pub claim_row :
    (k : Uuid) (r : InboxRow) (db : Db)
    → IsUnique db
    → find (λ row. has_id k row && claimable row) db.inbox ≡ some r
    → (kept k db ≡ some r) × (claimable r ≡ true)
claim_row k r db h e =
    let both = find_sound (λ row. has_id k row && claimable row) db.inbox r e in
    let there = mem_of_find (λ row. has_id k row && claimable row) r db.inbox e in
    (find_of_mem same_id (has_id k) r db.inbox (agree k) h there (ground arith), ground arith)

pub mem-first : (r : InboxRow) (rows : List InboxRow) → first rows ≡ some r → Memᴰ r rows
unfolding first
mem-first r [] h = cc
mem-first r (x ∷ rows) h = elim (Option-cases (first rows)) [
  | inl nothing ↦ Memᴰ.head (ground arith)
  | inr (best, e) ↦ elim (Bool-cases (goes_before x best)) [
    | inl sooner ↦ Memᴰ.head (ground arith)
    | inr later ↦ Memᴰ.tail (mem-first r rows (ground arith))
  ]
]

-- The row that `claim_next_inbox` selects is its message's row, and is claimable.
pub next_row :
    (r : InboxRow) (db : Db)
    → IsUnique db
    → first (select claimable db.inbox) ≡ some r
    → (kept r.message_id db ≡ some r) × (claimable r ≡ true)
next_row r db h e =
    let there = mem-select claimable r db.inbox (mem-first r (select claimable db.inbox) e) in
    (
      find_of_mem same_id (has_id r.message_id) r db.inbox (agree r.message_id) h there.0
          (==_refl r.message_id),
      there.1,
    )

pub insert_outbox-inbox :
    (codec : Codec) (e : MessageEnvelope) (db : Db) → (insert_outbox codec e db).1.inbox ≡ db.inbox
unfolding insert_outbox
insert_outbox-inbox codec e db = ground arith

pub insert_all-inbox :
    (codec : Codec) (es : List MessageEnvelope) (db : Db)
    → (insert_all codec es db).1.inbox ≡ db.inbox
unfolding insert_all
insert_all-inbox codec [] db = refl
insert_all-inbox codec (e ∷ es) db =
    ground (
      arith,
      insert_outbox-inbox codec e db,
      insert_all-inbox codec es (insert_outbox codec e db).1,
    )

pub find-claimed :
    (m k : Uuid) (rows : List InboxRow)
    → find (has_id m) (update (has_id k) claimed rows)
      ≡ Option.map (λ r. if has_id k r then claimed r else r) (find (has_id m) rows)
find-claimed m k rows = find-update (has_id m) (has_id k) claimed rows (λ r. refl)

pub find-reopened :
    (m : Uuid) (rows : List InboxRow)
    → find (has_id m) (update interrupted reopened rows)
      ≡ Option.map (λ r. if interrupted r then reopened r else r) (find (has_id m) rows)
find-reopened m rows = find-update (has_id m) interrupted reopened rows (λ r. refl)

pub find-failed :
    (m k : Uuid) (error : Text) (rows : List InboxRow)
    → find (has_id m) (update (fallible k) (failed_with error) rows)
      ≡ Option.map (λ r. if fallible k r then failed_with error r else r) (find (has_id m) rows)
find-failed m k error rows =
    find-update (has_id m) (fallible k) (failed_with error) rows (λ r. refl)

pub find-completed :
    (m k : Uuid) (t : UtcText) (reference : Reference) (rows : List InboxRow)
    → find (has_id m) (update (has_id k) (completed t reference) rows)
      ≡ Option.map (λ r. if has_id k r then completed t reference r else r) (find (has_id m) rows)
find-completed m k t reference rows =
    find-update (has_id m) (has_id k) (completed t reference) rows (λ r. refl)
