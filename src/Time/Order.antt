-- ===== src/Time/Order.antt =====
-- How the order of the stored texts is related to the order of the instants.
use deferred_teleoperation.Base.{ℕ, ◌+◌, ◌*◌, ◌/◌, ◌%◌, ◌<◌, ◌≡◌, ◌≢◌, ◌⊎◌, true, false, arith, leb}
use deferred_teleoperation.Time.{Instant, utc_text, text_leb, text_ltb}

-- Both instants have a fraction of a second, or neither has one.
abbrev pub SamePrecision : Instant → Instant → Type 0
SamePrecision a b =
    ((a % 1000000 ≡ 0) × (b % 1000000 ≡ 0)) ⊎ ((a % 1000000 ≢ 0) × (b % 1000000 ≢ 0))

-- Two instants in different seconds, or both or neither with a fraction of a second, have texts in
-- their own order.
pub text_leb-eq-leb :
    (a b : Instant)
    → (a / 1000000 ≢ b / 1000000) ⊎ SamePrecision a b
    → text_leb (utc_text a) (utc_text b) ≡ leb a b
unfolding text_leb utc_text
text_leb-eq-leb a b h = ground arith

-- A whole second is written behind every later instant of that same second.
pub text_leb_inverted :
    (s f : ℕ)
    → 0 < f
    → f < 1000000
    → (text_leb (utc_text (s * 1000000)) (utc_text (s * 1000000 + f)) ≡ false)
      × (text_ltb (utc_text (s * 1000000 + f)) (utc_text (s * 1000000)) ≡ true)
unfolding text_leb text_ltb utc_text
text_leb_inverted s f p q = ground arith
