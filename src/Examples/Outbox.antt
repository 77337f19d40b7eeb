-- ===== src/Examples/Outbox.antt =====
-- The properties of the outbox and of the stored timestamps at the message of the test data.
use mathlib.Core.List.{Perm}
use deferred_teleoperation.Base.{
  ◌≡◌, ◌≤◌, ◌+◌, ◌*◌, inl, refl, true, false, some, List, [], ◌∷◌, arith, leb,
}
use deferred_teleoperation.Time.{utc_text, text_leb, text_ltb}
use deferred_teleoperation.Time.Order.{text_leb-eq-leb}
use deferred_teleoperation.Wire.{MessageEnvelope}
use deferred_teleoperation.Store.Schema.{AckState, OutboxRow}
use deferred_teleoperation.Store.Outbox.{
  new_row, is_due, pending_outbox, order, place, decode_all, decode_envelope,
}
use deferred_teleoperation.Store.Outbox.Due.{due_rows, IsOrdered, Decodes, pending_outbox_answer}
use deferred_teleoperation.Store.Outbox.Timing.{
  send_time, hidden_until_next_second, sent_after_expiry,
}
use deferred_teleoperation.Examples.Data.{codec, success, waiting_success, with_outbox}

abbrev acked_success : OutboxRow
acked_success = record waiting_success {
  ack_state = AckState.acked;
  acked_at = some (record { second = 5; fraction = 0; is_timestamp = true });
}

-- A success that expires in second 9.
abbrev expiring : MessageEnvelope
expiring = record success { expires_at = some 9000000 }

pending_outbox_answer_example :
    ((pending_outbox codec 8000000 (with_outbox waiting_success)).1 ≡ with_outbox waiting_success)
    × (rows : List OutboxRow) × Perm rows (due_rows 8000000 (with_outbox waiting_success))
    × IsOrdered rows
    × Decodes codec rows (success ∷ [])
unfolding pending_outbox is_due order place decode_all decode_envelope utc_text text_leb text_ltb
pending_outbox_answer_example =
    pending_outbox_answer codec 8000000 (success ∷ []) (with_outbox waiting_success) refl

hidden_until_next_second_example :
    (send_time success ≤ 4 * 1000000 + 500000)
    × (is_due (utc_text (4 * 1000000 + 500000)) (new_row success 112) ≡ false)
hidden_until_next_second_example =
    hidden_until_next_second success 112 4 500000 refl (omega arith) (omega arith)

sent_after_expiry_example : is_due (utc_text (9 * 1000000 + 500000)) (new_row expiring 112) ≡ true
sent_after_expiry_example =
    sent_after_expiry expiring 112 9 500000 refl (omega arith) (omega arith) (omega arith)

text_leb-eq-leb_example : text_leb (utc_text 1500000) (utc_text 4000000) ≡ leb 1500000 4000000
text_leb-eq-leb_example = text_leb-eq-leb 1500000 4000000 (inl (omega arith))
