-- ===== src/Examples/Runtime.antt =====
-- The properties of the services and of the connection, at one message that was interrupted and a new one.
use deferred_teleoperation.Base.{
  false, update, ℕ, ◌≡◌, refl, Bool, true, none, List, [], ◌∷◌, All, find, count,
}
use deferred_teleoperation.Time.{utc_text, text_leb, text_ltb}
use deferred_teleoperation.Wire.{Text, MessageEnvelope, MessageType}
use deferred_teleoperation.Store.Schema.{InboxRow, OutboxRow, processing, processed, Db}
use deferred_teleoperation.Store.Monad.{invalid_transition, ok}
use deferred_teleoperation.Store.Inbox.{new_row, interrupted}
use deferred_teleoperation.Store.Outbox
use deferred_teleoperation.Store.Outbox.{pending_outbox}
use deferred_teleoperation.Runtime.{recover, process_claimed}
use deferred_teleoperation.Runtime.Recovery.{recover_drains}
use deferred_teleoperation.Runtime.Factory.{EnvelopeFactory, Call}
use deferred_teleoperation.Node.{Await, acknowledges, raised, apply_call, send_all, send_pending}
use deferred_teleoperation.Node.Send.{frames_for, EndOf, send_pending_lem}
use deferred_teleoperation.Examples.Data.{codec, request, success, empty}

abbrev row : InboxRow
unfolding new_row
row = record (new_row success 1000000 112) { processing_state = processing }

abbrev sent_row : OutboxRow
unfolding Outbox.new_row
sent_row = Outbox.new_row success 112

abbrev db : Db
db = record empty { inbox = row ∷ []; outbox = sent_row ∷ [] }

abbrev view_reference : MessageType → Text
view_reference kind = 9

abbrev clock : ℕ → ℕ
clock n = 5000000

abbrev to_mission : Text → Bool
to_mission destination = true

recover_drains_example :
    (after : Db) × (recover codec (process_claimed codec view_reference) clock db
      ≡ (ok (count interrupted db.inbox), after))
    × All (λ r. r.processing_state ≡ processed) after.inbox
unfolding new_row
recover_drains_example = recover_drains codec view_reference clock db ((success, refl, refl), tt)

-- Two messages are due, and both are acknowledged while the first is sent.
abbrev two_due : Db
unfolding Outbox.new_row
two_due = record empty { outbox = sent_row ∷ Outbox.new_row request 111 ∷ [] }

abbrev acked_early : ℕ → Await
acked_early n = record {
  meanwhile = acknowledges 11 6000000 ∷ acknowledges success.message_id 6000000 ∷ [];
  is_closed = false;
}

send_pending_lem_example :
    (es : List MessageEnvelope) × (pending_outbox codec 7000000 two_due ≡ (ok es, two_due))
    × EndOf
        (frames_for (λ d. true) es)
        (send_pending codec (λ d. true) 1000000 acked_early 7000000 two_due)
unfolding find Outbox.new_row
send_pending_lem_example =
    send_pending_lem codec (λ d. true) 1000000 acked_early 7000000 two_due (refl, (refl, tt))
      ((success, refl, refl), ((request, refl, refl), tt))

-- So the round raises at the second message.
send_pending_raises :
    (send_pending codec (λ d. true) 1000000 acked_early 7000000 two_due).1
    ≡ raised invalid_transition
unfolding send_pending send_all apply_call pending_outbox Outbox.decode_all Outbox.order
    Outbox.place Outbox.goes_before Outbox.record_attempt Outbox.acknowledge Outbox.new_row utc_text
    text_leb text_ltb find count update
send_pending_raises = refl

abbrev factory : EnvelopeFactory
factory = record { node_id = 3; boot_id = 5; sequence = 4 }

abbrev call : ℕ → Call
call now = record {
  arguments = record {
    destination_id = 1;
    correlation_id = 4;
    payload = success.payload;
    causation_id = none;
    not_before = none;
    expires_at = none;
    message_id = none;
    created_at = none;
    source_id = none;
    source_boot_id = none;
  };
  now = now;
  fresh = 14;
}
