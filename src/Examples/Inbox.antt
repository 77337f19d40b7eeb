-- ===== src/Examples/Inbox.antt =====
-- The properties of the inbox at the message of the test data.
use deferred_teleoperation.Base.{◌≡◌, refl, true, some, List, [], ◌∷◌, find, All, select, ◌⊎◌}
use deferred_teleoperation.Time.{utc_text}
use deferred_teleoperation.Store.Schema.{ProcessingState, InboxRow, Reference}
use deferred_teleoperation.Store.Monad.{StorageError, ok, err}
use deferred_teleoperation.Store.Outbox.{decode_envelope}
use deferred_teleoperation.Store.Outbox.Delivery.{Holds}
use deferred_teleoperation.Store.Inbox.{
  claim_next_inbox, complete_inbox, claimable, claimed, completed, first, goes_before,
}
use deferred_teleoperation.Store.Inbox.Rows.{kept}
use deferred_teleoperation.Store.Inbox.Lifecycle.{
  InboxOp, receive_op, recover_op, claim_next_op, claim_op, complete_op, after, after_all,
  after-Evolves, processed_forever,
}
use deferred_teleoperation.Store.Inbox.Steps.{Evolves}
use deferred_teleoperation.Store.Inbox.Handling.{complete_inbox_atomic}
use deferred_teleoperation.Store.Inbox.Choice.{claim_next_inbox_lem}
use deferred_teleoperation.Examples.Data.{codec, request, success, received_request, with_inbox}

abbrev processing_request : InboxRow
processing_request = record received_request { processing_state = ProcessingState.processing }

after-Evolves_example :
    (row : InboxRow) × (kept 11 (
        after codec
          (complete_op 11 5000000 (Reference.plain 9) (success ∷ []))
          (with_inbox processing_request))
      ≡ some row)
    × Evolves processing_request row
unfolding find
after-Evolves_example =
    after-Evolves codec (complete_op 11 5000000 (Reference.plain 9) (success ∷ [])) 11
      processing_request (with_inbox processing_request) (refl, tt) refl

-- What a node may call after a crash, for a message that is processed already.
abbrev attempts : List InboxOp
attempts =
    recover_op
    ∷ claim_next_op
    ∷ claim_op 11
    ∷ complete_op 11 5000000 (Reference.plain 9) (success ∷ [])
    ∷ receive_op request 6000000
    ∷ []

abbrev processed_request : InboxRow
processed_request = record received_request { processing_state = ProcessingState.processed }

processed_forever_example :
    (row : InboxRow) × (kept 11 (after_all codec attempts (with_inbox processed_request))
      ≡ some row)
    × (row.processing_state ≡ ProcessingState.processed)
    × (row.payload_json ≡ 111)
unfolding find
processed_forever_example =
    processed_forever codec attempts 11 processed_request (with_inbox processed_request) (refl, tt)
      refl refl

complete_inbox_atomic_example :
    let (result, db) =
      complete_inbox codec 11 5000000
        (Reference.plain 9)
        (success ∷ [])
        (with_inbox processing_request) in
    ((result ≡ ok tt)
      × (ProcessingState.processing ≡ ProcessingState.processing)
      × (kept 11 db ≡ some (completed (utc_text 5000000) (Reference.plain 9) processing_request))
      × All (Holds codec db.outbox) (success ∷ []))
    ⊎ ((x : StorageError) × (result ≡ err x) × (db ≡ with_inbox processing_request))
unfolding find
complete_inbox_atomic_example =
    complete_inbox_atomic codec 11 5000000 (Reference.plain 9) (success ∷ []) processing_request
      (with_inbox processing_request) refl

claim_next_inbox_lem_example :
    (r : InboxRow) × (codec.model_validate_json r.payload_json ≡ some request)
    × (claimable r ≡ true)
    × All (λ x. goes_before r x ≡ true) (select claimable (with_inbox received_request).inbox)
    × (kept r.message_id (claim_next_inbox codec (with_inbox received_request)).1
        ≡ some (claimed r))
unfolding claim_next_inbox first find decode_envelope
claim_next_inbox_lem_example =
    claim_next_inbox_lem codec request (with_inbox received_request) (refl, tt) refl
