-- ===== src/Node/Calls.antt =====
-- What the calls of other tasks leave of the outbox while a round of sending awaits the connection.
use mathlib.Core.Option
use deferred_teleoperation.Base.{
  ◌⊎◌, Option-cases, update, if◌then◌else◌, ℕ, ◌+◌, ◌≡◌, refl, ap, ◌∙◌, Bool, Option, some, List,
  [], ◌∷◌, arith, All, inl, inr, Bool-cases, find-update,
}
use deferred_teleoperation.Time.{Instant, utc_text}
use deferred_teleoperation.Wire.{Uuid, MessageEnvelope, Codec}
use deferred_teleoperation.Store.Schema.{OutboxRow, AckState, pending, acked, Db}
use deferred_teleoperation.Store.Monad.{Result, ok, err, invalid_transition, Result-cases}
use deferred_teleoperation.Store.Outbox.{
  has_id, is_pending, attempted, attemptable, record_attempt, mark_acked, enqueue, acknowledge,
}
use deferred_teleoperation.Store.Outbox.Keys.{
  IsUnique, record_attempt-IsUnique, acknowledge-IsUnique, insert_outbox-IsUnique,
}
use deferred_teleoperation.Store.Outbox.Delivery.{stored, record_attempt_cases, insert_outbox-keeps}
use deferred_teleoperation.Node.{
  OutboxCall, acknowledges, enqueues, attempts, apply_call, apply_calls,
}

abbrev pub state_in : Uuid → Db → Option AckState
state_in m db = Option.map (λ (r : OutboxRow). r.ack_state) (stored m db)

abbrev pub IsKnown : Db → MessageEnvelope → Type 0
IsKnown db e = (row : OutboxRow) × (stored e.message_id db ≡ some row)

-- A call writes the outbox by an update that keeps identifiers, or not at all.
abbrev pub Rewrites : List OutboxRow → List OutboxRow → Type 0
Rewrites rows rows' =
    (rows' ≡ rows)
    ⊎ ((p : OutboxRow → Bool) × (f : OutboxRow → OutboxRow) × ((k : Uuid) (r : OutboxRow)
          → has_id k (f r) ≡ has_id k r)
        × (rows' ≡ update p f rows))

pub Rewrites-keep :
    (e : MessageEnvelope) (db db' : Db)
    → Rewrites db.outbox db'.outbox
    → IsKnown db e
    → IsKnown db' e
Rewrites-keep e db db' (inl same) (row, found) = (row, ground arith)
Rewrites-keep e db db' (inr (p, f, keep, written)) (row, found) = (
  if p row then f row else row,
  ground (arith, find-update (has_id e.message_id) p f db.outbox (keep e.message_id)),
)

acknowledge-Rewrites :
    (m : Uuid) (t : Instant) (db : Db) → Rewrites db.outbox (acknowledge m t db).1.outbox
unfolding acknowledge
acknowledge-Rewrites m t db = elim (Option-cases (stored m db)) [
  | inl gone ↦ inl (ground arith)
  | inr (row, found) ↦ elim (Bool-cases (is_pending row.ack_state)) [
    | inl waits ↦ inr (has_id m, mark_acked (utc_text t), (λ k r. refl), ground arith)
    | inr done ↦ inl (ground arith)
  ]
]

pub record_attempt-Rewrites :
    (m : Uuid) (t : Instant) (db : Db) → Rewrites db.outbox (record_attempt m t db).1.outbox
unfolding record_attempt
record_attempt-Rewrites m t db = elim (Result-cases (record_attempt m t db).0) [
  | inr (x, failure) ↦ inl (ground arith)
  | inl (n, counted) ↦ inr (attemptable m, attempted (utc_text t), (λ k r. refl), ground arith)
]

call-keeps :
    (codec : Codec) (call : OutboxCall) (e : MessageEnvelope) (db : Db)
    → IsKnown db e
    → IsKnown (apply_call codec call db) e
unfolding apply_call enqueue
call-keeps codec (acknowledges m t) e db known =
    Rewrites-keep e db (acknowledge m t db).1 (acknowledge-Rewrites m t db) known
call-keeps codec (enqueues new) e db (row, found) =
    (row, ground (arith, insert_outbox-keeps codec new e.message_id row db found))
call-keeps codec (attempts m t) e db known =
    Rewrites-keep e db (record_attempt m t db).1 (record_attempt-Rewrites m t db) known

pub calls-keep :
    (codec : Codec) (calls : List OutboxCall) (e : MessageEnvelope) (db : Db)
    → IsKnown db e
    → IsKnown (apply_calls codec calls db) e
unfolding apply_calls
calls-keep codec [] e db known = known
calls-keep codec (call ∷ calls) e db known =
    calls-keep codec calls e (apply_call codec call db) (call-keeps codec call e db known)

call-IsUnique :
    (codec : Codec) (call : OutboxCall) (db : Db)
    → IsUnique db
    → IsUnique (apply_call codec call db)
unfolding apply_call enqueue
call-IsUnique codec (acknowledges m t) db h = acknowledge-IsUnique m t db h
call-IsUnique codec (enqueues new) db h = ground (arith, insert_outbox-IsUnique codec new db h)
call-IsUnique codec (attempts m t) db h = record_attempt-IsUnique m t db h

pub calls-IsUnique :
    (codec : Codec) (calls : List OutboxCall) (db : Db)
    → IsUnique db
    → IsUnique (apply_calls codec calls db)
unfolding apply_calls
calls-IsUnique codec [] db h = h
calls-IsUnique codec (call ∷ calls) db h =
    calls-IsUnique codec calls (apply_call codec call db) (call-IsUnique codec call db h)

ack_state_cases : (s : AckState) → (s ≡ pending) ⊎ (s ≡ acked)
ack_state_cases pending = inl refl
ack_state_cases acked = inr refl

pub attempt_pending :
    (m : Uuid) (t : Instant) (db : Db) (row : OutboxRow)
    → IsUnique db
    → stored m db ≡ some row
    → ((n : ℕ) × ((record_attempt m t db).0 ≡ ok n))
      ⊎ (((record_attempt m t db).0 ≡ err invalid_transition)
          × (state_in m (record_attempt m t db).1 ≡ some acked))
attempt_pending m t db row unique found =
    let cases = rw found at (record_attempt_cases m t db unique) in
    elim (ack_state_cases row.ack_state) [
      | inl waits ↦ inl (row.attempt_count + 1, (rw waits at cases).0)
      | inr done ↦
          let refused = rw done at cases in
          inr (
            ap (λ (c : Result ℕ × Db). c.0) refused,
            (ap (λ (c : Result ℕ × Db). state_in m c.1) refused
                ∙ ap (Option.map (λ (r : OutboxRow). r.ack_state)) found
                ∙ ap (λ s. some s) done),
          )
    ]

pub All-IsKnown :
    (db db' : Db) (es : List MessageEnvelope)
    → ((e : MessageEnvelope) → IsKnown db e → IsKnown db' e)
    → All (IsKnown db) es
    → All (IsKnown db') es
All-IsKnown db db' [] keep h = tt
All-IsKnown db db' (e ∷ es) keep h = (keep e h.0, All-IsKnown db db' es keep h.1)
