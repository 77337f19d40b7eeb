-- ===== src/Time.antt =====
-- python/src/deferred_teleop/storage.py, the helpers on timestamps. An aware `datetime` is the
-- number of microseconds since 0001-01-01T00:00:00Z, which is all that its comparisons read. A
-- column of SQLite holds a text, as `_utc_text` writes it, and a query compares such texts character
-- by character.
pub mod Order
use deferred_teleoperation.Base.{
  ℕ, ◌+◌, ◌*◌, ◌/◌, ◌%◌, Bool, true, Option, none, some, ◌&&◌, ◌||◌, ltb, leb, ◌==◌, if◌then◌else◌,
}

abbrev pub Instant : Type 0
Instant = ℕ

-- The text `YYYY-MM-DDTHH:MM:SS[.ffffff]Z`. The 19 leading characters have a fixed width, so their
-- text order is the order of the whole seconds; `isoformat` leaves a fraction of 0 out. A column whose
-- text is no timestamp has a place in that order too; `is_timestamp` tells whether `fromisoformat`
-- reads the text as an aware time.
pub record UtcText : Type 0 where
  pub second : ℕ
  pub fraction : ℕ
  pub is_timestamp : Bool

unfoldable pub utc_text : Instant → UtcText
utc_text value = record {
  second = value / 1000000;
  fraction = value % 1000000;
  is_timestamp = true;
}

-- `_parse_utc_text`; `none` is its CorruptRecordError.
unfoldable pub parse_utc_text : UtcText → Option Instant
parse_utc_text value =
    if value.is_timestamp then some (value.second * 1000000 + value.fraction) else none

-- Where a fraction is left out the text goes on with `Z`, which stands behind every `.`.
abbrev pub tail_rank : ℕ → ℕ
tail_rank fraction = if fraction == 0 then 1000000 else fraction

-- `a <= b` and `a < b` between two text columns.
unfoldable pub text_leb : UtcText → UtcText → Bool
text_leb a b =
    ltb a.second b.second
    || (a.second == b.second && leb (tail_rank a.fraction) (tail_rank b.fraction))

unfoldable pub text_ltb : UtcText → UtcText → Bool
text_ltb a b =
    ltb a.second b.second
    || (a.second == b.second && ltb (tail_rank a.fraction) (tail_rank b.fraction))
