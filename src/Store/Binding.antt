-- ===== src/Store/Binding.antt =====
-- `bind_m3a_intent` and `bind_m3a_context`: the first claim of a key is bound, an exact duplicate is
-- accepted, and a changed one is written down before it is refused.
use deferred_teleoperation.Base.{
  ℕ, Bool, true, false, not, ◌&&◌, ◌||◌, Option, none, some, List, ◌==◌, ◌/=◌, if◌then◌else◌, find,
  insert,
}
use deferred_teleoperation.Time.{Instant, utc_text}
use deferred_teleoperation.Wire.{
  Text, Uuid, Codec, MessageEnvelope, Payload, context_payload, SpatialContext, is_blank,
}
use deferred_teleoperation.Store.Schema.{IntentRow, ContextRow, ContextConflictRow, Db}
use deferred_teleoperation.Store.Monad.{
  StorageError, value_error, record_conflict, Result, ok, err, Action, pure, gets, or_raise, ◌>>=◌,
  ◌>>◌, raise_if, modify, transaction,
}
pub mod Durable

-- The arguments of `bind_m3a_intent`; `semantic_json` is the text of `_result_json(semantic_fields)`.
pub record Intent : Type 0 where
  pub operation_id : Uuid
  pub intent_revision : ℕ
  pub canonical_intent_digest : Text
  pub source_id : Text
  pub correlation_id : Uuid
  pub semantic_json : Text
  pub bound_at : Instant

unfoldable pub intent_row : Intent → IntentRow
intent_row i = record {
  operation_id = i.operation_id;
  intent_revision = i.intent_revision;
  canonical_intent_digest = i.canonical_intent_digest;
  source_id = i.source_id;
  correlation_id = i.correlation_id;
  semantic_json = i.semantic_json;
  recorded_at = utc_text i.bound_at;
}

abbrev pub claims_intent : Uuid → ℕ → IntentRow → Bool
claims_intent operation_id revision row =
    row.operation_id == operation_id && row.intent_revision == revision

abbrev pub same_intent : Intent → IntentRow → Bool
same_intent i row =
    row.canonical_intent_digest == i.canonical_intent_digest
    && row.source_id == i.source_id
    && row.correlation_id == i.correlation_id
    && row.semantic_json == i.semantic_json

-- The transaction of `bind_m3a_intent`: whether the intent is bound, a duplicate or a conflict.
pub data Bound : Type 0 where
  bound duplicate conflict : Bound

unfoldable pub write_intent : Intent → Action Bound
unfolding intent_row
write_intent i = transaction (do
  existing ←
      gets (λ db. find (claims_intent i.operation_id i.intent_revision) db.m3a_intent_binding)
  elim existing [
    | some row ↦ if same_intent i row then pure duplicate else (do
      modify
          (λ db. record db { m3a_intent_conflict = insert (intent_row i) db.m3a_intent_conflict })
      pure conflict)
    | none ↦ do
      modify (λ db. record db { m3a_intent_binding = insert (intent_row i) db.m3a_intent_binding })
      pure bound
  ])

-- What the call does with that: a conflict is raised after the commit.
abbrev pub answer : Bound → Action Bool
answer bound db = (ok true, db)
answer duplicate db = (ok false, db)
answer conflict db = (err record_conflict, db)

unfoldable pub bind_m3a_intent : Codec → Intent → Action Bool
unfolding write_intent
bind_m3a_intent codec i = do
  raise_if (i.intent_revision /= 1) value_error
  raise_if (not (codec.is_digest i.canonical_intent_digest)) value_error
  raise_if (is_blank i.source_id) value_error
  found ← write_intent i
  answer found

abbrev pub context_of : MessageEnvelope → Option SpatialContext
context_of envelope = elim envelope.payload [ context_payload context ↦ some context | _ ↦ none ]

abbrev pub claims_context : Uuid → ℕ → ContextRow → Bool
claims_context contract_id revision row =
    row.contract_id == contract_id && row.contract_revision == revision

unfoldable pub context_row : Codec → MessageEnvelope → SpatialContext → Instant → ContextRow
context_row codec envelope context bound_at = record {
  contract_id = context.contract_id;
  contract_revision = context.contract_revision;
  operation_id = context.operation_id;
  intent_revision = context.intent_revision;
  task_id = context.task_id;
  context_digest = codec.payload_digest (codec.context_json context);
  context_json = codec.context_json context;
  source_id = envelope.source_id;
  correlation_id = envelope.correlation_id;
  bound_at = utc_text bound_at;
}

unfoldable pub context_conflict :
    Codec → MessageEnvelope → SpatialContext → Instant → ContextConflictRow
context_conflict codec envelope context bound_at = record {
  contract_id = context.contract_id;
  contract_revision = context.contract_revision;
  operation_id = context.operation_id;
  context_digest = codec.payload_digest (codec.context_json context);
  context_json = codec.context_json context;
  source_id = envelope.source_id;
  correlation_id = envelope.correlation_id;
  recorded_at = utc_text bound_at;
}

abbrev pub same_context : Codec → SpatialContext → ContextRow → Bool
same_context codec context row =
    row.context_digest == codec.payload_digest (codec.context_json context)
    && row.context_json == codec.context_json context

-- The transaction of `bind_m3a_context`.
unfoldable pub write_context : Codec → MessageEnvelope → SpatialContext → Instant → Action Bound
unfolding context_row context_conflict
write_context codec envelope context bound_at = transaction (do
  existing ← gets (λ db.
      find (claims_context context.contract_id context.contract_revision) db.m3a_context_binding)
  elim existing [
    | some row ↦ if same_context codec context row then pure duplicate else (do
      modify (λ db. record db {
        m3a_context_conflict =
            insert (context_conflict codec envelope context bound_at) db.m3a_context_conflict;
      })
      pure conflict)
    | none ↦ do
      modify (λ db. record db {
        m3a_context_binding =
            insert (context_row codec envelope context bound_at) db.m3a_context_binding;
      })
      pure bound
  ])

unfoldable pub bind_m3a_context : Codec → MessageEnvelope → Instant → Action Bool
unfolding write_context
bind_m3a_context codec envelope bound_at = do
  context ← or_raise (context_of envelope) value_error
  raise_if (context.intent_revision /= 1 || context.contract_revision /= 1) value_error
  found ← write_context codec envelope context bound_at
  answer found
