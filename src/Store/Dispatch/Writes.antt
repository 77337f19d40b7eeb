-- ===== src/Store/Dispatch/Writes.antt =====
-- What each operation writes into the journal.
use deferred_teleoperation.Base.{
  ℕ, ◌≡◌, refl, sym, ap, subst, true, false, Option, none, some, List, [], ◌∷◌, arith, Bool-cases,
  Option-cases, inl, inr, ◌⊎◌,
}
use deferred_teleoperation.Time.{Instant, UtcText, utc_text}
use deferred_teleoperation.Wire.{
  Text, Uuid, MessageEnvelope, Codec, ContractState, accepted, dispatch_recorded,
}
use deferred_teleoperation.Store.Schema.{JournalRow, Db}
use deferred_teleoperation.Store.Monad.{Result, ok, Result-cases}
use deferred_teleoperation.Store.Outbox.{insert_outbox, insert_all}
use deferred_teleoperation.Store.Journal.{
  is_terminal, lookup_journal, Claim, accepted_row, accept_contract, dispatched, record_dispatch,
  effected, write_effect, commit_dummy_effect, event_of, is_event_of,
}
use deferred_teleoperation.Store.Budget.{
  BudgetPolicy, write_admission, admit_external_budget_contract,
  reserve_external_dispatch_with_budget, write_reservation,
}
use deferred_teleoperation.Store.Dispatch.Rows.{
  Advances, dispatch, conclude, Writes, nothing, adds, changes,
}

-- A statement of what a call leaves in the journal.
abbrev pub WritesFrom : Db → Db → Type 0
WritesFrom db db' = Writes db.execution_journal db'.execution_journal

dispatched-Advances :
    (at : UtcText) (device : Option Text) (row : JournalRow)
    → row.state ≡ accepted
    → Advances row (dispatched at device row)
dispatched-Advances at device row h = dispatch h refl refl refl refl refl

pub insert_outbox-journal :
    (codec : Codec) (e : MessageEnvelope) (db : Db)
    → (insert_outbox codec e db).1.execution_journal ≡ db.execution_journal
unfolding insert_outbox
insert_outbox-journal codec e db = ground arith

pub insert_all-journal :
    (codec : Codec) (es : List MessageEnvelope) (db : Db)
    → (insert_all codec es db).1.execution_journal ≡ db.execution_journal
unfolding insert_all
insert_all-journal codec [] db = refl
insert_all-journal codec (e ∷ es) db = ground (
  arith,
  insert_outbox-journal codec e db,
  insert_all-journal codec es (insert_outbox codec e db).1,
)

pub accept-Writes : (c : Claim) (t : Instant) (db : Db) → WritesFrom db (accept_contract c t db).1
unfolding accept_contract accepted_row
accept-Writes c t db = elim (Option-cases (lookup_journal c.contract_id c.contract_revision db)) [
  | inr (row, found) ↦ nothing (ground arith)
  | inl new ↦ elim (Result-cases (accept_contract c t db).0) [
    | inl (b, done) ↦ adds c t new (ground arith)
    | inr (x, failure) ↦ nothing (ground arith)
  ]
]

pub dispatch-Writes :
    (c : Uuid) (n : ℕ) (t : Instant) (device : Option Text) (db : Db)
    → WritesFrom db (record_dispatch c n t device db).1
unfolding record_dispatch
dispatch-Writes c n t device db = elim (Option-cases (lookup_journal c n db)) [
  | inl gone ↦ nothing (ground arith)
  | inr (row, found) ↦ elim (Result-cases (record_dispatch c n t device db).0) [
    | inr (x, failure) ↦ nothing (ground arith)
    | inl (b, done) ↦
        elim b
            as (λ b.
              (record_dispatch c n t device db).0 ≡ ok b
              → WritesFrom db (record_dispatch c n t device db).1) [
                | false ↦ λ done. nothing (ground arith)
                | true ↦ λ done.
                    changes c n row (dispatched (utc_text t) device) found (λ k m x. refl)
                      (dispatched-Advances (utc_text t) device row (ground arith)) (ground arith)
              ]
          done
  ]
]

effected-Advances :
    (state : ContractState) (at : UtcText) (result : Text) (row : JournalRow)
    → row.state ≡ dispatch_recorded
    → is_terminal state ≡ true
    → Advances row (effected state at result row)
effected-Advances state at result row h t = conclude h t refl (omega arith) refl refl refl

effect-Writes :
    (codec : Codec) (c : Uuid) (n : ℕ) (state : ContractState) (result : Option Text) (t : Instant)
    (event : MessageEnvelope) (db : Db)
    → is_terminal state ≡ true
    → WritesFrom db (write_effect codec c n state result t event db).1
unfolding write_effect
effect-Writes codec c n state result t event db terminal =
    elim (Option-cases (lookup_journal c n db)) [
      | inl gone ↦ nothing (ground arith)
      | inr (row, found) ↦ elim (Result-cases (write_effect codec c n state result t event db).0) [
        | inr (x, failure) ↦ nothing (ground arith)
        | inl (true, done) ↦ elim (Option-cases result) [
          | inl unencoded ↦ absurd (ground arith)
          | inr (text, encoded) ↦
              changes c n row (effected state (utc_text t) text) found (λ k m x. refl)
                (effected-Advances state (utc_text t) text row (ground arith) terminal)
                (ground (arith, insert_outbox-journal codec event db))
        ]
        | inl (false, done) ↦ nothing (ground arith)
      ]
    ]

pub commit-Writes :
    (codec : Codec) (c : Uuid) (n : ℕ) (state : ContractState) (result : Option Text) (t : Instant)
    (event : MessageEnvelope) (db : Db)
    → WritesFrom db (commit_dummy_effect codec c n state result t event db).1
unfolding commit_dummy_effect
commit-Writes codec c n state result t event db = elim (Bool-cases (is_terminal state)) [
  | inr open_state ↦ nothing (ground arith)
  | inl terminal ↦ elim (Option-cases (event_of event)) [
    | inl foreign ↦ nothing (ground arith)
    | inr (e, is_event) ↦ elim (Bool-cases (is_event_of c n state e)) [
      | inr other ↦ nothing (ground arith)
      | inl fits ↦
          let same : (commit_dummy_effect codec c n state result t event db).1
              ≡ (write_effect codec c n state result t event db).1 =
            ground arith in
          subst (WritesFrom db) (sym same)
            (effect-Writes codec c n state result t event db terminal)
    ]
  ]
]

reservation-Writes :
    (c : Uuid) (n : ℕ) (t : Instant) (device : Text) (policy : BudgetPolicy) (digest : Option Text)
    (db : Db)
    → WritesFrom db (write_reservation c n t device policy digest db).1
unfolding write_reservation
reservation-Writes c n t device policy digest db = elim (Option-cases (lookup_journal c n db)) [
  | inl gone ↦ nothing (ground arith)
  | inr (row, found) ↦ elim (Result-cases (write_reservation c n t device policy digest db).0) [
    | inr (x, failure) ↦ nothing (ground arith)
    | inl (false, done) ↦ nothing (ground arith)
    | inl (true, done) ↦
        changes c n row (dispatched (utc_text t) (some device)) found (λ k m x. refl)
          (dispatched-Advances (utc_text t) (some device) row (ground arith)) (ground arith)
  ]
]

pub reserve_runs :
    (codec : Codec) (c : Uuid) (n : ℕ) (t : Instant) (device : Text) (policy : BudgetPolicy)
    (digest : Option Text) (db : Db)
    → ((reserve_external_dispatch_with_budget codec c n t device policy digest db).1 ≡ db)
      ⊎ (reserve_external_dispatch_with_budget codec c n t device policy digest db
          ≡ write_reservation c n t device policy digest db)
unfolding reserve_external_dispatch_with_budget
reserve_runs codec c n t device policy digest db = grind arith

-- A call that passes its transaction on, or changes nothing.
pub passed_on :
    {A : Type 0} (db : Db) (call inner : Result A × Db)
    → (call.1 ≡ db) ⊎ (call ≡ inner)
    → WritesFrom db inner.1
    → WritesFrom db call.1
passed_on db call inner (inl same) w = nothing (ap (λ (x : Db). x.execution_journal) same)
passed_on db call inner (inr e) w = subst (λ r. WritesFrom db r.1) (sym e) w

pub reserve-Writes :
    (codec : Codec) (c : Uuid) (n : ℕ) (t : Instant) (device : Text) (policy : BudgetPolicy)
    (digest : Option Text) (db : Db)
    → WritesFrom db (reserve_external_dispatch_with_budget codec c n t device policy digest db).1
reserve-Writes codec c n t device policy digest db =
    passed_on db _ _ (reserve_runs codec c n t device policy digest db)
      (reservation-Writes c n t device policy digest db)

admission-Writes :
    (c : Claim) (policy : BudgetPolicy) (digest : Option Text) (t deadline : Instant) (db : Db)
    → WritesFrom db (write_admission c policy digest t deadline db).1
unfolding write_admission accepted_row
admission-Writes c policy digest t deadline db =
    elim (Option-cases (lookup_journal c.contract_id c.contract_revision db)) [
      | inr (row, found) ↦ nothing (ground arith)
      | inl new ↦ elim (Result-cases (write_admission c policy digest t deadline db).0) [
        | inr (x, failure) ↦ nothing (ground arith)
        | inl (false, done) ↦ nothing (ground arith)
        | inl (true, done) ↦ adds c t new (ground arith)
      ]
    ]

admit_runs :
    (codec : Codec) (c : Claim) (policy : BudgetPolicy) (digest : Option Text)
    (t deadline : Instant) (db : Db)
    → codec.add_seconds t policy.max_elapsed_seconds ≡ some deadline
    → ((admit_external_budget_contract codec c policy digest t db).1 ≡ db)
      ⊎ (admit_external_budget_contract codec c policy digest t db
          ≡ write_admission c policy digest t deadline db)
unfolding admit_external_budget_contract
admit_runs codec c policy digest t deadline db e = grind arith

admit_overflow :
    (codec : Codec) (c : Claim) (policy : BudgetPolicy) (digest : Option Text) (t : Instant)
    (db : Db)
    → codec.add_seconds t policy.max_elapsed_seconds ≡ none
    → (admit_external_budget_contract codec c policy digest t db).1 ≡ db
unfolding admit_external_budget_contract
admit_overflow codec c policy digest t db e = ground arith

pub admit-Writes :
    (codec : Codec) (c : Claim) (policy : BudgetPolicy) (digest : Option Text) (t : Instant)
    (db : Db)
    → WritesFrom db (admit_external_budget_contract codec c policy digest t db).1
admit-Writes codec c policy digest t db =
    elim (Option-cases (codec.add_seconds t policy.max_elapsed_seconds)) [
      | inl overflow ↦ nothing (
          ap (λ (x : Db). x.execution_journal) (admit_overflow codec c policy digest t db overflow))
      | inr (deadline, e) ↦
          passed_on db _ _ (admit_runs codec c policy digest t deadline db e)
            (admission-Writes c policy digest t deadline db)
    ]
