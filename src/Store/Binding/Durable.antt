-- ===== src/Store/Binding/Durable.antt =====
-- The bindings of the two-button experiment under any sequence of calls, a claim that is repeated and
-- one that is refused.
use deferred_teleoperation.Base.{
  ℕ, ◌≡◌, ◌≢◌, Bool, false, Option, some, List, [], ◌∷◌, arith, find, insert, find-insert, ==_refl,
  Option-cases, inl, inr,
}
use deferred_teleoperation.Time.{Instant}
use deferred_teleoperation.Wire.{Text, Uuid, Codec, MessageEnvelope}
use deferred_teleoperation.Store.Schema.{IntentRow, ContextRow, Db}
use deferred_teleoperation.Store.Monad.{ok, err, record_conflict}
use deferred_teleoperation.Store.Binding.{
  Intent, intent_row, claims_intent, bind_m3a_intent, context_of, claims_context, context_row,
  bind_m3a_context,
}

abbrev pub intent_of : Uuid → ℕ → Db → Option IntentRow
intent_of operation_id revision db =
    find (claims_intent operation_id revision) db.m3a_intent_binding

abbrev pub bound_context : Uuid → ℕ → Db → Option ContextRow
bound_context contract_id revision db =
    find (claims_context contract_id revision) db.m3a_context_binding

-- One call that binds an intent or a context.
pub data BindOp : Type 0 where
  intent_op : Intent → BindOp
  context_op : MessageEnvelope → Instant → BindOp

unfoldable pub bind : Codec → BindOp → Db → Db
bind codec (intent_op i) db = (bind_m3a_intent codec i db).1
bind codec (context_op e t) db = (bind_m3a_context codec e t db).1

unfoldable pub bind_all : Codec → List BindOp → Db → Db
bind_all codec [] db = db
bind_all codec (op ∷ ops) db = bind_all codec ops (bind codec op db)

bind-intent :
    (codec : Codec) (op : BindOp) (o : Uuid) (n : ℕ) (row : IntentRow) (db : Db)
    → intent_of o n db ≡ some row
    → intent_of o n (bind codec op db) ≡ some row
unfolding bind bind_m3a_intent bind_m3a_context
bind-intent codec (intent_op i) o n row db h =
    ground (arith, find-insert (claims_intent o n) (intent_row i) db.m3a_intent_binding)
bind-intent codec (context_op e t) o n row db h = elim (Option-cases (context_of e)) [
  | inl foreign ↦ ground arith
  | inr (context, is_context) ↦ ground arith
]

-- The binding of an operation's intent stays the same through any sequence of calls of
-- `bind_m3a_intent` and `bind_m3a_context`.
pub intent_bound_forever :
    (codec : Codec) (ops : List BindOp) (o : Uuid) (n : ℕ) (row : IntentRow) (db : Db)
    → intent_of o n db ≡ some row
    → intent_of o n (bind_all codec ops db) ≡ some row
unfolding bind_all
intent_bound_forever codec [] o n row db h = h
intent_bound_forever codec (op ∷ ops) o n row db h =
    intent_bound_forever codec ops o n row (bind codec op db) (bind-intent codec op o n row db h)

bind-context :
    (codec : Codec) (op : BindOp) (c : Uuid) (n : ℕ) (row : ContextRow) (db : Db)
    → bound_context c n db ≡ some row
    → bound_context c n (bind codec op db) ≡ some row
unfolding bind bind_m3a_intent bind_m3a_context
bind-context codec (intent_op i) c n row db h = ground arith
bind-context codec (context_op e t) c n row db h = elim (Option-cases (context_of e)) [
  | inl foreign ↦ ground arith
  | inr (context, is_context) ↦ ground (
    arith,
    find-insert (claims_context c n) (context_row codec e context t) db.m3a_context_binding,
  )
]

-- The binding of a contract's context stays the same through any sequence of calls of
-- `bind_m3a_intent` and `bind_m3a_context`.
pub context_bound_forever :
    (codec : Codec) (ops : List BindOp) (c : Uuid) (n : ℕ) (row : ContextRow) (db : Db)
    → bound_context c n db ≡ some row
    → bound_context c n (bind_all codec ops db) ≡ some row
unfolding bind_all
context_bound_forever codec [] c n row db h = h
context_bound_forever codec (op ∷ ops) c n row db h =
    context_bound_forever codec ops c n row (bind codec op db) (bind-context codec op c n row db h)

-- An intent that was bound, or was a duplicate, bound again at any time, reports a duplicate and
-- changes nothing.
pub bind_m3a_intent_again :
    (codec : Codec) (i : Intent) (t : Instant) (db : Db) (b : Bool)
    → (bind_m3a_intent codec i db).0 ≡ ok b
    → bind_m3a_intent codec (record i { bound_at = t }) (bind_m3a_intent codec i db).1
      ≡ (ok false, (bind_m3a_intent codec i db).1)
unfolding bind_m3a_intent intent_row
bind_m3a_intent_again codec i t db b h = ground (
  arith,
  find-insert (claims_intent i.operation_id i.intent_revision) (intent_row i) db.m3a_intent_binding,
  ==_refl i.operation_id,
  ==_refl i.intent_revision,
  ==_refl i.canonical_intent_digest,
  ==_refl i.source_id,
  ==_refl i.correlation_id,
  ==_refl i.semantic_json,
)

-- A context that was bound, or was a duplicate, bound again at any time, reports a duplicate and
-- changes nothing.
pub bind_m3a_context_again :
    (codec : Codec) (e : MessageEnvelope) (t u : Instant) (db : Db) (b : Bool)
    → (bind_m3a_context codec e t db).0 ≡ ok b
    → bind_m3a_context codec e u (bind_m3a_context codec e t db).1
      ≡ (ok false, (bind_m3a_context codec e t db).1)
unfolding bind_m3a_context context_row
bind_m3a_context_again codec e t u db b h = elim (Option-cases (context_of e)) [
  | inl foreign ↦ ground arith
  | inr (context, is_context) ↦ ground (
    arith,
    find-insert (claims_context context.contract_id context.contract_revision)
        (context_row codec e context t) db.m3a_context_binding,
    ==_refl context.contract_id,
    ==_refl context.contract_revision,
    ==_refl (codec.payload_digest (codec.context_json context)),
    ==_refl (codec.context_json context),
  )
]

-- After a call of `bind_m3a_intent` that returned, a second one with other semantic fields, at any
-- time, raises a conflict and yet leaves its claim at the end of the recorded conflicts; the first
-- call, made again after that, reports a duplicate and changes nothing.
pub intent_conflict_kept :
    (codec : Codec) (i : Intent) (other : Text) (t : Instant) (db : Db) (b : Bool)
    → (bind_m3a_intent codec i db).0 ≡ ok b
    → other ≢ i.semantic_json
    → let after = (bind_m3a_intent codec i db).1 in
      let changed : Intent = record i { semantic_json = other; bound_at = t } in
      let (result, last) = bind_m3a_intent codec changed after in
      (result ≡ err record_conflict)
      × (last.m3a_intent_conflict ≡ insert (intent_row changed) after.m3a_intent_conflict)
      × (bind_m3a_intent codec i last ≡ (ok false, last))
unfolding bind_m3a_intent intent_row
intent_conflict_kept codec i other t db b h unlike =
    let bound =
      find-insert (claims_intent i.operation_id i.intent_revision) (intent_row i)
        db.m3a_intent_binding in
    ground (
      arith,
      bound,
      ==_refl i.operation_id,
      ==_refl i.intent_revision,
      ==_refl i.canonical_intent_digest,
      ==_refl i.source_id,
      ==_refl i.correlation_id,
      ==_refl i.semantic_json,
    )
