-- ===== src/Store/Outbox/Timing.antt =====
-- `pending_outbox` compares the texts of timestamps: what that does to a message within one second.
use deferred_teleoperation.Base.{ℕ, ◌+◌, ◌*◌, ◌≤◌, ◌<◌, ◌≡◌, true, false, none, some, arith}
use deferred_teleoperation.Time.{Instant, utc_text, text_leb}
use deferred_teleoperation.Time.Order.{text_leb_inverted}
use deferred_teleoperation.Wire.{Text, MessageEnvelope}
use deferred_teleoperation.Store.Outbox.{new_row, is_due}

-- When the message is to be sent first.
abbrev pub send_time : MessageEnvelope → Instant
send_time e = elim e.not_before [ none ↦ e.created_at | some t ↦ t ]

-- A new message whose time to be sent is a whole second is not due at any later instant of that
-- same second, although its time has come.
pub hidden_until_next_second :
    (e : MessageEnvelope) (encoded : Text) (s f : ℕ)
    → send_time e ≡ s * 1000000
    → 0 < f
    → f < 1000000
    → (send_time e ≤ s * 1000000 + f)
      × (is_due (utc_text (s * 1000000 + f)) (new_row e encoded) ≡ false)
unfolding is_due new_row
hidden_until_next_second e encoded s f at p q = ground (arith, text_leb_inverted s f p q)

-- A new message that expires at a whole second, and whose time to be sent is earlier, is still due
-- at every later instant of the second of its expiry.
pub sent_after_expiry :
    (e : MessageEnvelope) (encoded : Text) (s f : ℕ)
    → e.expires_at ≡ some (s * 1000000)
    → send_time e < s * 1000000
    → 0 < f
    → f < 1000000
    → is_due (utc_text (s * 1000000 + f)) (new_row e encoded) ≡ true
unfolding is_due new_row text_leb utc_text
sent_after_expiry e encoded s f ends at p q = ground (arith, text_leb_inverted s f p q)
