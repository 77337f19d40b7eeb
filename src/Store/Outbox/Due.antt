-- ===== src/Store/Outbox/Due.antt =====
-- `pending_outbox`: which messages the query returns, and in which order.
use mathlib.Core.List.{Perm, Memᴰ}
use mathlib.Core.List.Memᴰ
use mathlib.Core.List.Perm
use deferred_teleoperation.Base.{
  ◌≡◌, refl, Bool, true, false, some, List, [], ◌∷◌, arith, find, select, Bool-cases, inl, inr,
}
use deferred_teleoperation.Time.{Instant, utc_text, text_leb, text_ltb}
use deferred_teleoperation.Wire.{MessageEnvelope, Codec}
use deferred_teleoperation.Store.Schema.{OutboxRow, Db}
use deferred_teleoperation.Store.Monad.{ok}
use deferred_teleoperation.Store.Outbox.{
  has_id, is_due, goes_before, place, order, decode_all, pending_outbox,
}
use deferred_teleoperation.Store.Outbox.Delivery.{stored}

place-perm : (row : OutboxRow) (rows : List OutboxRow) → Perm (place row rows) (row ∷ rows)
unfolding place
place-perm row [] = Perm.refl _
place-perm row (x ∷ rows) = elim (Bool-cases (goes_before row x)) [
  | inl before ↦ rw before (Perm.refl _)
  | inr after ↦ rw after (Perm.trans (Perm.cons x (place-perm row rows)) (Perm.swap row x rows))
]

order-perm : (rows : List OutboxRow) → Perm (order rows) rows
unfolding order
order-perm [] = Perm.refl _
order-perm (row ∷ rows) = Perm.trans (place-perm row (order rows)) (Perm.cons row (order-perm rows))

-- Each row stands before the next by creation time and identifier.
abbrev pub IsOrdered : List OutboxRow → Type 0
IsOrdered [] = Unit
IsOrdered (a ∷ []) = Unit
IsOrdered (a ∷ b ∷ rows) = (goes_before a b ≡ true) × IsOrdered (b ∷ rows)

goes_before_total : (a b : OutboxRow) → goes_before a b ≡ false → goes_before b a ≡ true
unfolding goes_before text_ltb text_leb
goes_before_total a b h = ground arith

place-IsOrdered :
    (row : OutboxRow) (rows : List OutboxRow) → IsOrdered rows → IsOrdered (place row rows)
unfolding place
place-IsOrdered row [] h = tt
place-IsOrdered row (x ∷ []) h = ground (arith, goes_before_total row x)
place-IsOrdered row (x ∷ y ∷ rows) h =
    ground (arith, goes_before_total row x, place-IsOrdered row (y ∷ rows) h.1)

order-IsOrdered : (rows : List OutboxRow) → IsOrdered (order rows)
unfolding order
order-IsOrdered [] = tt
order-IsOrdered (row ∷ rows) = place-IsOrdered row (order rows) (order-IsOrdered rows)

-- The envelopes are those of the rows, one by one.
abbrev pub Decodes : Codec → List OutboxRow → List MessageEnvelope → Type 0
Decodes codec [] [] = Unit
Decodes codec [] (_ ∷ _) = ⊥
Decodes codec (_ ∷ _) [] = ⊥
Decodes codec (row ∷ rows) (e ∷ es) =
    (codec.model_validate_json row.payload_json ≡ some e) × Decodes codec rows es

decode_all-Decodes :
    (codec : Codec) (rows : List OutboxRow) (es : List MessageEnvelope) (db : Db)
    → (decode_all codec rows db).0 ≡ ok es
    → Decodes codec rows es
unfolding decode_all
decode_all-Decodes codec [] [] db h = tt
decode_all-Decodes codec [] (e ∷ es) db h = cc
decode_all-Decodes codec (row ∷ rows) [] db h = ground (arith)
decode_all-Decodes codec (row ∷ rows) (e ∷ es) db h =
    ground (arith, decode_all-Decodes codec rows es db)

decode_all_total :
    (codec : Codec) (rows : List OutboxRow) (es : List MessageEnvelope) (db : Db)
    → Decodes codec rows es
    → decode_all codec rows db ≡ (ok es, db)
unfolding decode_all
decode_all_total codec [] [] db h = refl
decode_all_total codec [] (e ∷ es) db h = absurd h
decode_all_total codec (row ∷ rows) [] db h = absurd h
decode_all_total codec (row ∷ rows) (e ∷ es) db h =
    ground (arith, decode_all_total codec rows es db h.1)

decode_all_pure :
    (codec : Codec) (rows : List OutboxRow) (db : Db) → (decode_all codec rows db).1 ≡ db
unfolding decode_all
decode_all_pure codec [] db = refl
decode_all_pure codec (row ∷ rows) db = ground (arith, decode_all_pure codec rows db)

-- The rows behind an answer of the query.
abbrev pub due_rows : Instant → Db → List OutboxRow
due_rows now db = select (is_due (utc_text now)) db.outbox

-- An answer of `pending_outbox` comes with an unchanged store, and is the messages of exactly the
-- due rows, each decoded, in the order of creation time and identifier.
pub pending_outbox_answer :
    (codec : Codec) (now : Instant) (es : List MessageEnvelope) (db : Db)
    → (pending_outbox codec now db).0 ≡ ok es
    → ((pending_outbox codec now db).1 ≡ db)
      × (rows : List OutboxRow) × Perm rows (due_rows now db)
      × IsOrdered rows
      × Decodes codec rows es
unfolding pending_outbox
pending_outbox_answer codec now es db h = (
  decode_all_pure codec (order (due_rows now db)) db,
  order (due_rows now db),
  order-perm (due_rows now db),
  order-IsOrdered (due_rows now db),
  decode_all-Decodes codec (order (due_rows now db)) es db h,
)

mem-place_self : (row : OutboxRow) (rows : List OutboxRow) → Memᴰ row (place row rows)
unfolding place
mem-place_self row [] = Memᴰ.head refl
mem-place_self row (x ∷ rows) = elim (Bool-cases (goes_before row x)) [
  | inl before ↦ rw before (Memᴰ.head refl)
  | inr after ↦ rw after (Memᴰ.tail (mem-place_self row rows))
]

mem-place : (a row : OutboxRow) (rows : List OutboxRow) → Memᴰ a rows → Memᴰ a (place row rows)
unfolding place
mem-place a row [] m = elim m [ ]
mem-place a row (x ∷ rows) m = elim (Bool-cases (goes_before row x)) [
  | inl before ↦ rw before (Memᴰ.tail m)
  | inr after ↦ rw after (elim (Memᴰ.cases_cons m) [
    | inl same ↦ Memᴰ.head same
    | inr later ↦ Memᴰ.tail (mem-place a row rows later)
  ])
]

mem-order : (a : OutboxRow) (rows : List OutboxRow) → Memᴰ a rows → Memᴰ a (order rows)
unfolding order
mem-order a [] m = elim m [ ]
mem-order a (row ∷ rows) m = elim (Memᴰ.cases_cons m) [
  | inl same ↦ Memᴰ.cast same (mem-place_self row (order rows))
  | inr later ↦ mem-place a row (order rows) (mem-order a rows later)
]

mem-due :
    (p q : OutboxRow → Bool) (row : OutboxRow) (rows : List OutboxRow)
    → find p rows ≡ some row
    → q row ≡ true
    → Memᴰ row (select q rows)
unfolding find
mem-due p q row [] found h = cc
mem-due p q row (x ∷ rows) found h = elim (Bool-cases (p x)) [
  | inl hit ↦ let same : row ≡ x = ground arith in rw (← same, h) (Memᴰ.head refl)
  | inr miss ↦
      let later = mem-due p q row rows (ground arith) h in
      elim (Bool-cases (q x)) [ inl due ↦ rw due (Memᴰ.tail later) | inr idle ↦ rw idle later ]
]

mem-Decodes :
    (codec : Codec) (row : OutboxRow) (e : MessageEnvelope) (rows : List OutboxRow)
    (es : List MessageEnvelope)
    → Decodes codec rows es
    → Memᴰ row rows
    → codec.model_validate_json row.payload_json ≡ some e
    → Memᴰ e es
mem-Decodes codec row e [] es d m h = elim m [ ]
mem-Decodes codec row e (x ∷ rows) [] d m h = absurd d
mem-Decodes codec row e (x ∷ rows) (y ∷ es) d m h = elim (Memᴰ.cases_cons m) [
  | inl same ↦ Memᴰ.head (ground arith)
  | inr later ↦ Memᴰ.tail (mem-Decodes codec row e rows es d.1 later h)
]

-- When `pending_outbox` answers, a stored message that is due and whose text is valid is among the
-- messages of the answer.
pub due_is_answered :
    (codec : Codec) (now : Instant) (e : MessageEnvelope) (row : OutboxRow)
    (es : List MessageEnvelope) (db : Db)
    → stored e.message_id db ≡ some row
    → is_due (utc_text now) row ≡ true
    → codec.model_validate_json row.payload_json ≡ some e
    → (pending_outbox codec now db).0 ≡ ok es
    → Memᴰ e es
unfolding pending_outbox
due_is_answered codec now e row es db found due valid h =
    mem-Decodes codec row e (order (due_rows now db)) es
      (decode_all-Decodes codec (order (due_rows now db)) es db h)
      (mem-order row (due_rows now db)
        (mem-due (has_id e.message_id) (is_due (utc_text now)) row db.outbox found due))
      valid
