-- ===== src/Store/Inbox/Lifecycle.antt =====
-- The life of one incoming message under every operation of the inbox, in every order.
use deferred_teleoperation.Base.{
  ◌≡◌, refl, some, List, [], ◌∷◌, arith, Option-cases, inl, inr, ◌⊎◌, insert-IsKeyed,
  update-IsKeyed, subst, sym, ◌∙◌, select,
}
use deferred_teleoperation.Time.{Instant, utc_text}
use deferred_teleoperation.Wire.{Text, Uuid, MessageEnvelope, Codec}
use deferred_teleoperation.Store.Schema.{InboxRow, ProcessingState, processed, Reference, Db}
use deferred_teleoperation.Store.Outbox.{insert_all, decode_envelope}
use deferred_teleoperation.Store.Inbox.{
  has_id, new_row, receive, interrupted, reopened, recover_interrupted_processing, claimed,
  mark_claimed, first, claimable, claim_next_inbox, claim_inbox, fallible, failed_with, fail_inbox,
  completed, complete_inbox,
}
use deferred_teleoperation.Store.Inbox.Rows.{kept, same_id, IsUnique, insert_all-inbox}
use deferred_teleoperation.Store.Inbox.Steps.{
  ◌⟶◌, claim_new, claim_failed, interrupt, give_up, finish, Evolves, receive-Stays, recover-Stays,
  fail-Stays, claim-Stays, next-Stays, complete-Stays,
}

-- One call of an operation of the inbox.
pub data InboxOp : Type 0 where
  receive_op : MessageEnvelope → Instant → InboxOp
  recover_op : InboxOp
  claim_next_op : InboxOp
  claim_op : Uuid → InboxOp
  fail_op : Uuid → Text → InboxOp
  complete_op : Uuid → Instant → Reference → List MessageEnvelope → InboxOp

-- The store after the call, whether it returned or raised.
unfoldable pub after : Codec → InboxOp → Db → Db
unfolding receive recover_interrupted_processing claim_next_inbox claim_inbox fail_inbox
    complete_inbox
after codec (receive_op e t) db = (receive codec e t db).1
after codec recover_op db = (recover_interrupted_processing db).1
after codec claim_next_op db = (claim_next_inbox codec db).1
after codec (claim_op m) db = (claim_inbox codec m db).1
after codec (fail_op m error) db = (fail_inbox m error db).1
after codec (complete_op m t reference outgoing) db =
    (complete_inbox codec m t reference outgoing db).1

unfoldable pub after_all : Codec → List InboxOp → Db → Db
after_all codec [] db = db
after_all codec (op ∷ ops) db = after_all codec ops (after codec op db)

infix 40 ◌⟶*◌
pub data ◌⟶*◌ : ProcessingState → ProcessingState → Type 0 where
  here : {s : ProcessingState} → s ⟶* s
  next : {s t u : ProcessingState} → s ⟶ t → t ⟶* u → s ⟶* u

-- On a store with unique inbox identifiers, a call of any operation of the inbox keeps a stored
-- message with its identifier, its text and its time of receipt, and moves its processing state by
-- at most one step: received or failed to processing, or processing to received, failed or
-- processed.
pub after-Evolves :
    (codec : Codec) (op : InboxOp) (m : Uuid) (row : InboxRow) (db : Db)
    → IsUnique db
    → kept m db ≡ some row
    → (row' : InboxRow) × (kept m (after codec op db) ≡ some row') × Evolves row row'
unfolding after
after-Evolves codec (receive_op e t) m row db h found = receive-Stays codec m row db found e t
after-Evolves codec recover_op m row db h found = recover-Stays codec m row db found
after-Evolves codec claim_next_op m row db h found = next-Stays codec m row db found h
after-Evolves codec (claim_op k) m row db h found = claim-Stays codec m row db found k h
after-Evolves codec (fail_op k error) m row db h found = fail-Stays codec m row db found k error
after-Evolves codec (complete_op k t reference outgoing) m row db h found =
    complete-Stays codec m row db found k t reference outgoing

module _ (codec : Codec) (db : Db) (h : IsUnique db) where
  receive-IsUnique : (e : MessageEnvelope) (t : Instant) → IsUnique (receive codec e t db).1
  unfolding receive new_row
  receive-IsUnique e t = elim (Option-cases (kept e.message_id db)) [
    | inl new ↦
        let stored =
          insert-IsKeyed same_id (has_id e.message_id) (new_row e t (codec.envelope_json e))
            db.inbox (λ y same. same) new h in
        ground (arith, stored)
    | inr (row, found) ↦ ground arith
  ]

  recover-IsUnique : IsUnique (recover_interrupted_processing db).1
  unfolding recover_interrupted_processing
  recover-IsUnique =
      update-IsKeyed same_id interrupted reopened db.inbox (λ x y. refl) (λ x y. refl) h

  mark-IsUnique : (k : Uuid) → IsUnique (mark_claimed k db)
  mark-IsUnique k = update-IsKeyed same_id (has_id k) claimed db.inbox (λ x y. refl) (λ x y. refl) h

  claim-IsUnique : (k : Uuid) → IsUnique (claim_inbox codec k db).1
  unfolding claim_inbox decode_envelope
  claim-IsUnique k = ground (arith, mark-IsUnique k)

  next-IsUnique : IsUnique (claim_next_inbox codec db).1
  unfolding claim_next_inbox decode_envelope
  next-IsUnique = elim (Option-cases (first (select claimable db.inbox))) [
    | inl nothing ↦ ground arith
    | inr (r, e) ↦ ground (arith, mark-IsUnique r.message_id)
  ]

  fail-IsUnique : (k : Uuid) (error : Text) → IsUnique (fail_inbox k error db).1
  unfolding fail_inbox
  fail-IsUnique k error =
      let kept_keys =
        update-IsKeyed same_id (fallible k) (failed_with error) db.inbox (λ x y. refl) (λ x y. refl)
          h in
      ground (arith, kept_keys)

  complete-IsUnique :
      (k : Uuid) (t : Instant) (reference : Reference) (outgoing : List MessageEnvelope)
      → IsUnique (complete_inbox codec k t reference outgoing db).1
  unfolding complete_inbox
  complete-IsUnique k t reference outgoing =
      let kept_keys =
        update-IsKeyed same_id (has_id k) (completed (utc_text t) reference)
          (insert_all codec outgoing db).1.inbox (λ x y. refl) (λ x y. refl)
          (rw (insert_all-inbox codec outgoing db) h) in
      ground (arith, kept_keys)

-- Every operation of the inbox keeps the identifiers of the stored messages unique.
pub after-IsUnique :
    (codec : Codec) (op : InboxOp) (db : Db) → IsUnique db → IsUnique (after codec op db)
unfolding after
after-IsUnique codec (receive_op e t) db h = receive-IsUnique codec db h e t
after-IsUnique codec recover_op db h = recover-IsUnique codec db h
after-IsUnique codec claim_next_op db h = next-IsUnique codec db h
after-IsUnique codec (claim_op k) db h = claim-IsUnique codec db h k
after-IsUnique codec (fail_op k error) db h = fail-IsUnique codec db h k error
after-IsUnique codec (complete_op k t reference outgoing) db h =
    complete-IsUnique codec db h k t reference outgoing

one_step : {a b c : ProcessingState} → (a ≡ b) ⊎ (a ⟶ b) → b ⟶* c → a ⟶* c
one_step {c = c} (inl same) rest = subst (λ x. x ⟶* c) (sym same) rest
one_step (inr step) rest = next step rest

-- On a store with unique inbox identifiers, any sequence of calls of the inbox's operations keeps
-- a stored message and its text, and moves its processing state along the steps received or failed
-- to processing, processing to received, failed or processed.
pub after_all_path :
    (codec : Codec) (ops : List InboxOp) (m : Uuid) (row : InboxRow) (db : Db)
    → IsUnique db
    → kept m db ≡ some row
    → (row' : InboxRow) × (kept m (after_all codec ops db) ≡ some row')
      × (row.processing_state ⟶* row'.processing_state)
      × (row'.payload_json ≡ row.payload_json)
unfolding after_all
after_all_path codec [] m row db h found = (row, found, here, refl)
after_all_path codec (op ∷ ops) m row db h found =
    let (mid, there, kin) = after-Evolves codec op m row db h found in
    let (row', final, path, text) =
      after_all_path codec ops m mid (after codec op db) (after-IsUnique codec op db h) there in
    (row', final, one_step kin.state path, text ∙ kin.text)

processed_stuck : {s t : ProcessingState} → s ⟶* t → s ≡ processed → t ≡ processed
processed_stuck here e = e
processed_stuck (next claim_new rest) e = cc
processed_stuck (next claim_failed rest) e = cc
processed_stuck (next interrupt rest) e = cc
processed_stuck (next give_up rest) e = cc
processed_stuck (next finish rest) e = cc

-- On a store with unique inbox identifiers, a processed message stays stored, processed and with
-- the same text through any sequence of calls of the inbox's operations.
pub processed_forever :
    (codec : Codec) (ops : List InboxOp) (m : Uuid) (row : InboxRow) (db : Db)
    → IsUnique db
    → kept m db ≡ some row
    → row.processing_state ≡ processed
    → (row' : InboxRow) × (kept m (after_all codec ops db) ≡ some row')
      × (row'.processing_state ≡ processed)
      × (row'.payload_json ≡ row.payload_json)
processed_forever codec ops m row db h found done =
    let (row', final, path, text) = after_all_path codec ops m row db h found in
    (row', final, processed_stuck path done, text)
