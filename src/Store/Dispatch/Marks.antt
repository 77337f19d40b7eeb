-- ===== src/Store/Dispatch/Marks.antt =====
-- What the calls that answer `True` to a dispatch or to a conclusion find and leave in the journal.
use deferred_teleoperation.Base.{
  ℕ, ◌≡◌, refl, Bool, true, false, Option, none, some, arith, is_some, find-update_same,
  Option-cases, inl, inr,
}
use deferred_teleoperation.Time.{Instant, utc_text}
use deferred_teleoperation.Wire.{Text, Uuid, MessageEnvelope, Codec, ContractState}
use deferred_teleoperation.External.{Observation}
use deferred_teleoperation.Store.Schema.{Db}
use deferred_teleoperation.Store.Monad.{ok, Result-cases}
use deferred_teleoperation.Store.Outbox.{insert_outbox}
use deferred_teleoperation.Store.Journal.{
  is_contract, lookup_journal, dispatched, record_dispatch, effected, write_effect,
  commit_dummy_effect, event_of,
}
use deferred_teleoperation.Store.Budget.{
  BudgetPolicy, write_reservation, reserve_external_dispatch_with_budget,
}
use deferred_teleoperation.Store.Outcome.{
  ResultCodec, Resolve, resolved, resolved_state, accept_proof, write_outcome,
  resolve_external_outcome,
}
use deferred_teleoperation.Store.Dispatch.Writes.{insert_outbox-journal, insert_all-journal}
use deferred_teleoperation.Store.Dispatch.Closing.{accept_proof_pure}

-- Whether the journal has a dispatch of the contract.
abbrev pub is_dispatched : Uuid → ℕ → Db → Bool
is_dispatched c n db = elim (lookup_journal c n db) [
  | none ↦ false
  | some row ↦ is_some row.dispatch_recorded_at
]

-- Whether the contract's execution is over.
abbrev pub is_concluded : Uuid → ℕ → Db → Bool
is_concluded c n db = elim (lookup_journal c n db) [
  | none ↦ false
  | some row ↦ is_some row.terminal_at
]

-- The contract had no dispatch before, and has one afterwards.
abbrev pub MarksDispatch : Uuid → ℕ → Db → Db → Type 0
MarksDispatch c n db db' = (is_dispatched c n db ≡ false) × (is_dispatched c n db' ≡ true)

-- The contract was not concluded before, and is afterwards.
abbrev pub MarksEnd : Uuid → ℕ → Db → Db → Type 0
MarksEnd c n db db' = (is_concluded c n db ≡ false) × (is_concluded c n db' ≡ true)

pub dispatch_marks :
    (c : Uuid) (n : ℕ) (t : Instant) (device : Option Text) (db : Db)
    → (record_dispatch c n t device db).0 ≡ ok true
    → MarksDispatch c n db (record_dispatch c n t device db).1
unfolding record_dispatch
dispatch_marks c n t device db done = elim (Option-cases (lookup_journal c n db)) [
  | inl gone ↦ absurd (ground arith)
  | inr (row, found) ↦ (
    ground arith,
    ground (
      arith,
      find-update_same (is_contract c n) (dispatched (utc_text t) device) db.execution_journal
          (λ r. refl),
    ),
  )
]

pub reservation_marks :
    (c : Uuid) (n : ℕ) (t : Instant) (device : Text) (policy : BudgetPolicy) (digest : Option Text)
    (db : Db)
    → (write_reservation c n t device policy digest db).0 ≡ ok true
    → MarksDispatch c n db (write_reservation c n t device policy digest db).1
unfolding write_reservation
reservation_marks c n t device policy digest db done = elim (Option-cases (lookup_journal c n db)) [
  | inl gone ↦ absurd (ground arith)
  | inr (row, found) ↦ (
    ground arith,
    ground (
      arith,
      find-update_same (is_contract c n) (dispatched (utc_text t) (some device))
          db.execution_journal (λ r. refl),
    ),
  )
]

pub effect_marks :
    (codec : Codec) (c : Uuid) (n : ℕ) (state : ContractState) (result : Option Text) (t : Instant)
    (event : MessageEnvelope) (db : Db)
    → (write_effect codec c n state result t event db).0 ≡ ok true
    → MarksEnd c n db (write_effect codec c n state result t event db).1
unfolding write_effect
effect_marks codec c n state result t event db done = elim (Option-cases (lookup_journal c n db)) [
  | inl gone ↦ absurd (ground arith)
  | inr (row, found) ↦ elim (Option-cases result) [
    | inl unencoded ↦ absurd (ground arith)
    | inr (text, encoded) ↦ (
      ground arith,
      ground (
        arith,
        insert_outbox-journal codec event db,
        find-update_same (is_contract c n) (effected state (utc_text t) text) db.execution_journal
            (λ r. refl),
      ),
    )
  ]
]

pub outcome_marks :
    (codec : Codec) (r : Resolve) (p : Observation) (encoded : Text) (db : Db)
    → (write_outcome codec r p encoded db).0 ≡ ok true
    → MarksEnd r.contract_id r.contract_revision db (write_outcome codec r p encoded db).1
unfolding write_outcome
outcome_marks codec r p encoded db done =
    elim (Option-cases (lookup_journal r.contract_id r.contract_revision db)) [
      | inl gone ↦ absurd (ground arith)
      | inr (row, found) ↦ (
        ground arith,
        ground (
          arith,
          insert_outbox-journal codec r.terminal_event db,
          insert_all-journal codec r.outgoing (insert_outbox codec r.terminal_event db).1,
          find-update_same (is_contract r.contract_id r.contract_revision)
              (resolved (resolved_state p.outcome) (utc_text r.occurred_at) encoded)
              db.execution_journal (λ x. refl),
        ),
      )
    ]

pub reserve_true :
    (codec : Codec) (c : Uuid) (n : ℕ) (t : Instant) (device : Text) (policy : BudgetPolicy)
    (digest : Option Text) (db : Db)
    → (reserve_external_dispatch_with_budget codec c n t device policy digest db).0 ≡ ok true
    → reserve_external_dispatch_with_budget codec c n t device policy digest db
      ≡ write_reservation c n t device policy digest db
unfolding reserve_external_dispatch_with_budget
reserve_true codec c n t device policy digest db done = grind arith

pub commit_true :
    (codec : Codec) (c : Uuid) (n : ℕ) (state : ContractState) (result : Option Text) (t : Instant)
    (event : MessageEnvelope) (db : Db)
    → (commit_dummy_effect codec c n state result t event db).0 ≡ ok true
    → commit_dummy_effect codec c n state result t event db
      ≡ write_effect codec c n state result t event db
unfolding commit_dummy_effect
commit_true codec c n state result t event db done = elim (Option-cases (event_of event)) [
  | inl foreign ↦ absurd (ground arith)
  | inr (e, is_event) ↦ grind arith
]

pub resolve_true :
    (codec : Codec) (values : ResultCodec) (r : Resolve) (db : Db)
    → (resolve_external_outcome codec values r db).0 ≡ ok true
    → (p : Observation) × (encoded : Text) × (resolve_external_outcome codec values r db
        ≡ write_outcome codec r p encoded db)
unfolding resolve_external_outcome
resolve_true codec values r db done =
    elim (Option-cases (lookup_journal r.contract_id r.contract_revision db)) [
      | inl gone ↦ absurd (ground arith)
      | inr (row, found) ↦ elim (Option-cases r.observation) [
        | inl missing ↦ absurd (ground arith)
        | inr (given, present) ↦ elim (Result-cases (accept_proof values r given row db).0) [
          | inl (proof, accepted_proof) ↦
              (proof.0, proof.1, ground (arith, accept_proof_pure values r given row db))
          | inr (x, failure) ↦ absurd (ground (arith, accept_proof_pure values r given row db))
        ]
      ]
    ]
