-- ===== src/Store/Dispatch/Closing.antt =====
-- What a resolution of an external outcome writes into the journal.
use deferred_teleoperation.Base.{
  ◌≡◌, refl, ap, true, false, none, some, arith, Option-cases, inl, inr, ◌⊎◌,
}
use deferred_teleoperation.Time.{UtcText, utc_text}
use deferred_teleoperation.Wire.{
  Text, Codec, EffectOutcome, applied, not_applied, unknown, dispatch_recorded,
}
use deferred_teleoperation.External.{Observation, AdapterValue}
use deferred_teleoperation.Store.Schema.{JournalRow, Db}
use deferred_teleoperation.Store.Monad.{Result-cases}
use deferred_teleoperation.Store.Outbox.{insert_outbox}
use deferred_teleoperation.Store.Journal.{is_terminal, lookup_journal}
use deferred_teleoperation.Store.Outcome.{
  ResultCodec, resolved_state, Resolve, write_outcome, accept_proof, resolve_external_outcome,
  resolved,
}
use deferred_teleoperation.Store.Dispatch.Rows.{Advances, conclude, nothing, changes}
use deferred_teleoperation.Store.Dispatch.Writes.{
  WritesFrom, passed_on, insert_outbox-journal, insert_all-journal,
}

resolved_terminal : (o : EffectOutcome) → is_terminal (resolved_state o) ≡ true
resolved_terminal applied = refl
resolved_terminal not_applied = refl
resolved_terminal unknown = refl

resolved-Advances :
    (o : EffectOutcome) (at : UtcText) (result : Text) (row : JournalRow)
    → row.state ≡ dispatch_recorded
    → row.effect_count ≡ 0
    → Advances row (resolved (resolved_state o) at result row)
resolved-Advances o at result row h e =
    conclude h (resolved_terminal o) refl (omega arith) refl refl refl

outcome-Writes :
    (codec : Codec) (r : Resolve) (p : Observation) (encoded : Text) (db : Db)
    → WritesFrom db (write_outcome codec r p encoded db).1
unfolding write_outcome
outcome-Writes codec r p encoded db =
    elim (Option-cases (lookup_journal r.contract_id r.contract_revision db)) [
      | inl gone ↦ nothing (ground arith)
      | inr (row, found) ↦ elim (Result-cases (write_outcome codec r p encoded db).0) [
        | inr (x, failure) ↦ nothing (ground arith)
        | inl (false, done) ↦ nothing (ground arith)
        | inl (true, done) ↦
            changes r.contract_id r.contract_revision row
              (resolved (resolved_state p.outcome) (utc_text r.occurred_at) encoded) found
              (λ k m x. refl)
              (resolved-Advances p.outcome (utc_text r.occurred_at) encoded row (ground arith)
                (ground arith))
              (ground (
                arith,
                insert_outbox-journal codec r.terminal_event db,
                insert_all-journal codec r.outgoing (insert_outbox codec r.terminal_event db).1,
              ))
      ]
    ]

pub accept_proof_pure :
    (values : ResultCodec) (r : Resolve) (given : AdapterValue) (row : JournalRow) (db : Db)
    → (accept_proof values r given row db).1 ≡ db
unfolding accept_proof
accept_proof_pure values r given row db = ground arith

resolve_runs :
    (codec : Codec) (values : ResultCodec) (r : Resolve) (row : JournalRow) (db : Db)
    → lookup_journal r.contract_id r.contract_revision db ≡ some row
    → ((resolve_external_outcome codec values r db).1 ≡ db)
      ⊎ ((p : Observation) × (encoded : Text) × (resolve_external_outcome codec values r db
            ≡ write_outcome codec r p encoded db))
unfolding resolve_external_outcome
resolve_runs codec values r row db found = elim (Option-cases r.observation) [
  | inl missing ↦ inl (ground arith)
  | inr (given, present) ↦ elim (Result-cases (accept_proof values r given row db).0) [
    | inl (proof, accepted_proof) ↦
        inr (proof.0, proof.1, ground (arith, accept_proof_pure values r given row db))
    | inr (x, failure) ↦ inl (ground (arith, accept_proof_pure values r given row db))
  ]
]

resolve_unknown :
    (codec : Codec) (values : ResultCodec) (r : Resolve) (db : Db)
    → lookup_journal r.contract_id r.contract_revision db ≡ none
    → (resolve_external_outcome codec values r db).1 ≡ db
unfolding resolve_external_outcome
resolve_unknown codec values r db gone = ground arith

pub resolve-Writes :
    (codec : Codec) (values : ResultCodec) (r : Resolve) (db : Db)
    → WritesFrom db (resolve_external_outcome codec values r db).1
resolve-Writes codec values r db =
    elim (Option-cases (lookup_journal r.contract_id r.contract_revision db)) [
      | inl gone ↦
          nothing (ap (λ (x : Db). x.execution_journal) (resolve_unknown codec values r db gone))
      | inr (row, found) ↦ elim (resolve_runs codec values r row db found) [
        | inl same ↦ nothing (ap (λ (x : Db). x.execution_journal) same)
        | inr (p, encoded, e) ↦ passed_on db _ _ (inr e) (outcome-Writes codec r p encoded db)
      ]
    ]
