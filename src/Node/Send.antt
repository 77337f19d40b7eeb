-- ===== src/Node/Send.antt =====
-- One round of sending, with what other tasks do to the outbox while it awaits the connection.
use deferred_teleoperation.Base.{
  ◌++◌, All-mem, ℕ, ◌+◌, ◌≡◌, refl, ap, sym, subst, ◌∙◌, Bool, some, List, [], ◌∷◌, arith, All,
  All-of_mem, select, map, inl, inr, Bool-cases, ==_refl, mem-select, find_of_mem,
}
use deferred_teleoperation.Time.{Instant, UtcText, utc_text}
use deferred_teleoperation.Wire.{Text, MessageEnvelope, Codec}
use deferred_teleoperation.Store.Schema.{OutboxRow, acked, Db}
use deferred_teleoperation.Store.Monad.{ok, invalid_transition}
use deferred_teleoperation.Store.Outbox.{
  has_id, is_due, place, order, goes_before, decode_envelope, decode_all, pending_outbox,
  record_attempt,
}
use deferred_teleoperation.Store.Outbox.Keys.{same_id, IsUnique, record_attempt-IsUnique}
use deferred_teleoperation.Store.Outbox.Delivery.{stored}
use deferred_teleoperation.Link.{LinkFrame, for_envelope}
use deferred_teleoperation.Node.Calls.{
  state_in, IsKnown, Rewrites-keep, record_attempt-Rewrites, calls-keep, calls-IsUnique,
  attempt_pending, All-IsKnown,
}
use deferred_teleoperation.Node.{
  apply_calls, Await, Outcome, returned, disconnected, raised, Round, send_all, send_pending,
}

-- The stored text is read back as a message with the row's identifier.
abbrev pub IsReadable : Codec → OutboxRow → Type 0
IsReadable codec r =
    (e : MessageEnvelope) × (codec.model_validate_json r.payload_json ≡ some e)
    × (e.message_id ≡ r.message_id)

-- The frames of the messages for a destination that the connection leads to.
abbrev pub frames_for : (Text → Bool) → List MessageEnvelope → List LinkFrame
frames_for wanted es =
    map for_envelope (select (λ (e : MessageEnvelope). wanted e.destination_id) es)

-- How a round ends that was to send the frames of `due` and sent those of `sent`: with all of them;
-- at a message that was acknowledged in the meantime; or at a frame whose connection was closed.
pub data Ends (db : Db) (sent : List LinkFrame) (due : List LinkFrame) : Outcome → Type 0 where
  all_sent : sent ≡ due → Ends db sent due returned
  acked_meanwhile :
      (e : MessageEnvelope) (left : List LinkFrame)
      → sent ++ (for_envelope e ∷ left) ≡ due
      → state_in e.message_id db ≡ some acked
      → Ends db sent due (raised invalid_transition)
  cut_off :
      (e : MessageEnvelope) (left : List LinkFrame)
      → sent ++ (for_envelope e ∷ left) ≡ due
      → Ends db sent due disconnected

abbrev pub EndOf : List LinkFrame → Round → Type 0
EndOf due (sent, outcome, db) = Ends db sent due outcome

-- A frame that was sent first.
Ends-cons :
    (x : LinkFrame) (db : Db) (sent due : List LinkFrame) (o : Outcome)
    → Ends db sent due o
    → Ends db (x ∷ sent) (x ∷ due) o
Ends-cons x db sent due _ (all_sent e) = all_sent (ap (λ fs. x ∷ fs) e)
Ends-cons x db sent due _ (acked_meanwhile e left split done) =
    acked_meanwhile e left (ap (λ fs. x ∷ fs) split) done
Ends-cons x db sent due _ (cut_off e left split) = cut_off e left (ap (λ fs. x ∷ fs) split)

module _ (codec : Codec) (wanted : Text → Bool) (t : Instant) (awaits : ℕ → Await) where
  send_all_lem :
      (n : ℕ) (es : List MessageEnvelope) (db : Db)
      → IsUnique db
      → All (IsKnown db) es
      → EndOf (frames_for wanted es) (send_all codec wanted t awaits n es db)
  unfolding send_all
  send_all_lem n [] db unique known = all_sent refl
  send_all_lem n (e ∷ es) db unique known = elim (Bool-cases (wanted e.destination_id)) [
    | inr skipped ↦ rw (send_all, skipped) (send_all_lem n es db unique known.1)
    | inl taken ↦ elim (attempt_pending e.message_id t db known.0.0 unique known.0.1) [
      | inr (refused, done) ↦
          rw (send_all, taken, refused) (acked_meanwhile e (frames_for wanted es) refl done)
      | inl (k, counted) ↦
          let after = (record_attempt e.message_id t db).1 in
          let resumed = apply_calls codec (awaits n).meanwhile after in
          elim (Bool-cases (awaits n).is_closed) [
            | inl closed ↦
                rw (send_all, taken, counted, closed) (cut_off e (frames_for wanted es) refl)
            | inr open_still ↦
                rw (send_all, taken, counted, open_still)
                  (Ends-cons (for_envelope e) _ _ _ _ (
                    send_all_lem (n + 1) es resumed
                      (calls-IsUnique codec (awaits n).meanwhile after
                        (record_attempt-IsUnique e.message_id t db unique))
                      (All-IsKnown db resumed es
                        (λ x there. calls-keep codec (awaits n).meanwhile x after (
                          Rewrites-keep x db after (record_attempt-Rewrites e.message_id t db)
                            there))
                        known.1)))
          ]
    ]
  ]

All-place :
    (P : OutboxRow → Type 0) (row : OutboxRow) (rows : List OutboxRow)
    → P row
    → All P rows
    → All P (place row rows)
unfolding place
All-place P row [] here h = (here, tt)
All-place P row (x ∷ rows) here h = elim (Bool-cases (goes_before row x)) [
  | inl before ↦ rw before (here, h)
  | inr after ↦ rw after (h.0, All-place P row rows here h.1)
]

All-order : (P : OutboxRow → Type 0) (rows : List OutboxRow) → All P rows → All P (order rows)
unfolding order
All-order P [] h = tt
All-order P (row ∷ rows) h = All-place P row (order rows) h.0 (All-order P rows h.1)

-- A stored row that can be read back.
abbrev IsSendable : Codec → Db → OutboxRow → Type 0
IsSendable codec db r = IsReadable codec r × (stored r.message_id db ≡ some r)

due-IsSendable :
    (codec : Codec) (now : UtcText) (db : Db)
    → IsUnique db
    → All (IsReadable codec) db.outbox
    → All (IsSendable codec db) (select (is_due now) db.outbox)
due-IsSendable codec now db unique readable =
    All-of_mem (IsSendable codec db) (select (is_due now) db.outbox) (λ r m.
      let (there, due) = mem-select (is_due now) r db.outbox m in
      (
        All-mem (IsReadable codec) db.outbox r readable there,
        find_of_mem same_id (has_id r.message_id) r db.outbox (λ x y p q. ground arith) unique there
            (==_refl r.message_id),
      ))

decode_all-IsKnown :
    (codec : Codec) (db : Db) (rows : List OutboxRow)
    → All (IsSendable codec db) rows
    → (es : List MessageEnvelope) × (decode_all codec rows db ≡ (ok es, db)) × All (IsKnown db) es
unfolding decode_all decode_envelope
decode_all-IsKnown codec db [] h = ([], refl, tt)
decode_all-IsKnown codec db (r ∷ rows) h =
    let (e, valid, same) = h.0.0 in
    let (es, decoded, known) = decode_all-IsKnown codec db rows h.1 in
    (e ∷ es, ground arith, ((r, ap (λ k. stored k db) same ∙ h.0.1), known))

send_pending_runs :
    (codec : Codec) (wanted : Text → Bool) (retry_interval : ℕ) (awaits : ℕ → Await) (now : Instant)
    (db : Db) (es : List MessageEnvelope)
    → pending_outbox codec now db ≡ (ok es, db)
    → send_pending codec wanted retry_interval awaits now db
      ≡ send_all codec wanted (now + retry_interval) awaits 0 es db
unfolding send_pending
send_pending_runs codec wanted retry_interval awaits now db es decoded = ground arith

-- On a store with unique outbox identifiers whose messages can be read back, and with any calls of
-- the outbox's operations running while a round of sending awaits the connection, the frames that
-- it sends are those of the messages that `pending_outbox` answered for the connection's
-- destinations, in that order: all of them if it returns; those before the frame whose connection
-- was closed; or those before a message that is acknowledged by then, where it raises an illegal
-- transition. It ends in no other way.
pub send_pending_lem :
    (codec : Codec) (wanted : Text → Bool) (retry_interval : ℕ) (awaits : ℕ → Await) (now : Instant)
    (db : Db)
    → IsUnique db
    → All (IsReadable codec) db.outbox
    → (es : List MessageEnvelope) × (pending_outbox codec now db ≡ (ok es, db))
      × EndOf (frames_for wanted es) (send_pending codec wanted retry_interval awaits now db)
unfolding pending_outbox
send_pending_lem codec wanted retry_interval awaits now db unique readable =
    let rows = order (select (is_due (utc_text now)) db.outbox) in
    let (es, decoded, known) = decode_all-IsKnown codec db rows (
      All-order (IsSendable codec db) (select (is_due (utc_text now)) db.outbox)
        (due-IsSendable codec (utc_text now) db unique readable)) in
    (
      es,
      decoded,
      subst (EndOf (frames_for wanted es))
          (sym (send_pending_runs codec wanted retry_interval awaits now db es decoded))
          (send_all_lem codec wanted (now + retry_interval) awaits 0 es db unique known),
    )
