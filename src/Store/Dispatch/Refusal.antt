-- ===== src/Store/Dispatch/Refusal.antt =====
-- What a budget denial writes into the journal.
use deferred_teleoperation.Base.{
  ℕ, ◌≡◌, refl, ap, ◌∙◌, true, false, Option, none, some, arith, find, update, Bool-cases,
  Option-cases, inl, inr, ◌⊎◌,
}
use deferred_teleoperation.Time.{Instant, UtcText, utc_text}
use deferred_teleoperation.Wire.{Text, Uuid, Codec, ExecutionEvent, accepted, state_eq}
use deferred_teleoperation.Store.Schema.{JournalRow, DenialRow, BudgetRow, Resolution, Db}
use deferred_teleoperation.Store.Monad.{Result-cases}
use deferred_teleoperation.Store.Journal.{is_contract, lookup_journal}
use deferred_teleoperation.Store.Budget.{denies}
use deferred_teleoperation.Store.Outcome.{settle_budget}
use deferred_teleoperation.Store.Denial.{
  Denial, M3aEvidence, check_denial, check_journal, store_denial, hold_journal, held_row,
  store_evidence, store_decision, finish_denial, write_denial, complete_budget_scope_denial,
}
use deferred_teleoperation.Store.Dispatch.Rows.{Advances, refuse, nothing, changes}
use deferred_teleoperation.Store.Dispatch.Writes.{WritesFrom, passed_on, insert_outbox-journal}

module _ (codec : Codec) (d : Denial) where
  check_journal_pure :
      (event : ExecutionEvent) (o : Option JournalRow) (db : Db)
      → (check_journal d event o db).1 ≡ db
  unfolding check_journal
  check_journal_pure event none db = refl
  check_journal_pure event (some row) db = ground arith

  store_denial-journal :
      (o : Option DenialRow) (db : Db)
      → (store_denial codec d o db).1.execution_journal ≡ db.execution_journal
  unfolding store_denial
  store_denial-journal none db = refl
  store_denial-journal (some row) db = ground arith

  store_decision-journal :
      (m : M3aEvidence) (db : Db)
      → (store_decision codec d m db).1.execution_journal ≡ db.execution_journal
  unfolding store_decision
  store_decision-journal m db = grind (arith, insert_outbox-journal)

  store_evidence-journal :
      (o : Option M3aEvidence) (db : Db)
      → (store_evidence codec d o db).1.execution_journal ≡ db.execution_journal
  unfolding store_evidence
  store_evidence-journal none db = refl
  store_evidence-journal (some m) db = ground (arith, store_decision-journal m db)

  settle_budget-journal :
      (operation_id contract_id : Uuid) (n : ℕ) (r : Resolution) (t : Instant)
      (o : Option BudgetRow) (db : Db)
      → (settle_budget operation_id contract_id n r t o db).1.execution_journal
        ≡ db.execution_journal
  unfolding settle_budget
  settle_budget-journal operation_id contract_id n r t none db = refl
  settle_budget-journal operation_id contract_id n r t (some budget) db = ground arith

  finish_denial-journal :
      (held_json : Text) (db : Db)
      → (finish_denial codec d held_json db).1.execution_journal ≡ db.execution_journal
  unfolding finish_denial
  finish_denial-journal held_json db = grind (arith, insert_outbox-journal)

  held_row-Advances :
      (at : UtcText) (result : Text) (row : JournalRow)
      → row.state ≡ accepted
      → Advances row (held_row at result row)
  held_row-Advances at result row h = refuse h refl refl refl refl refl refl

  hold_journal_accepted :
      (event : ExecutionEvent) (row : JournalRow) (db : Db)
      → state_eq row.state accepted ≡ true
      → (hold_journal d event (some row) db).1.execution_journal
        ≡ update
            (is_contract d.contract_id d.contract_revision)
            (held_row (utc_text event.occurred_at) d.result)
            db.execution_journal
  unfolding hold_journal
  hold_journal_accepted event row db h = ground arith

  hold_journal_other :
      (event : ExecutionEvent) (row : JournalRow) (db : Db)
      → state_eq row.state accepted ≡ false
      → (hold_journal d event (some row) db).1.execution_journal ≡ db.execution_journal
  unfolding hold_journal
  hold_journal_other event row db h = ground arith

  hold_journal-none :
      (event : ExecutionEvent) (db : Db)
      → (hold_journal d event none db).1.execution_journal ≡ db.execution_journal
  unfolding hold_journal
  hold_journal-none event db = refl

  -- The journal after a denial is the one after its update to HELD, or the one before it.
  module _ (event : ExecutionEvent) (db : Db) where
    abbrev before_hold : Db
    before_hold =
        (store_denial codec d
          (find (denies d.contract_id d.contract_revision) db.autonomy_budget_denial) db).1

    stored_journal : before_hold.execution_journal ≡ db.execution_journal
    stored_journal =
        store_denial-journal
          (find (denies d.contract_id d.contract_revision) db.autonomy_budget_denial) db

    write_denial-journal :
        (o : Option JournalRow)
        → lookup_journal d.contract_id d.contract_revision db ≡ o
        → ((write_denial codec d event db).1.execution_journal ≡ db.execution_journal)
          ⊎ ((write_denial codec d event db).1.execution_journal
              ≡ (hold_journal d event o before_hold).1.execution_journal)
    unfolding write_denial
    write_denial-journal o e = elim (Result-cases (write_denial codec d event db).0) [
      | inr (x, failure) ↦ inl (ground arith)
      | inl (b, done) ↦ inr (
          grind (
            arith, e, check_journal_pure, store_evidence-journal, settle_budget-journal,
            finish_denial-journal,
          ))
    ]

    write_denial-Writes : WritesFrom db (write_denial codec d event db).1
    write_denial-Writes =
        elim (Option-cases (lookup_journal d.contract_id d.contract_revision db)) [
          | inl gone ↦ elim (write_denial-journal none gone) [
            | inl same ↦ nothing same
            | inr e ↦ nothing (e ∙ hold_journal-none event before_hold ∙ stored_journal)
          ]
          | inr (row, found) ↦ elim (write_denial-journal (some row) found) [
            | inl same ↦ nothing same
            | inr e ↦ elim (Bool-cases (state_eq row.state accepted)) [
              | inr other ↦
                  nothing (e ∙ hold_journal_other event row before_hold other ∙ stored_journal)
              | inl free ↦
                  changes d.contract_id d.contract_revision row
                    (held_row (utc_text event.occurred_at) d.result) found (λ k m x. refl)
                    (held_row-Advances (utc_text event.occurred_at) d.result row (ground arith))
                    (e
                      ∙ hold_journal_accepted event row before_hold free
                      ∙ ap
                          (update (is_contract d.contract_id d.contract_revision)
                            (held_row (utc_text event.occurred_at) d.result))
                          stored_journal)
            ]
          ]
        ]

  check_denial_pure : (db : Db) → (check_denial d db).1 ≡ db
  unfolding check_denial
  check_denial_pure db = ground arith

  denial_runs :
      (db : Db)
      → ((complete_budget_scope_denial codec d db).1 ≡ db)
        ⊎ ((event : ExecutionEvent) × (complete_budget_scope_denial codec d db
              ≡ write_denial codec d event db))
  unfolding complete_budget_scope_denial
  denial_runs db = elim (Result-cases (check_denial d db).0) [
    | inl (event, fine) ↦ inr (event, ground (arith, check_denial_pure db))
    | inr (x, failure) ↦ inl (ground (arith, check_denial_pure db))
  ]

  pub denial-Writes : (db : Db) → WritesFrom db (complete_budget_scope_denial codec d db).1
  denial-Writes db = elim (denial_runs db) [
    | inl same ↦ nothing (ap (λ (x : Db). x.execution_journal) same)
    | inr (event, e) ↦ passed_on db _ _ (inr e) (write_denial-Writes event db)
  ]
