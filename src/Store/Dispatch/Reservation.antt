-- ===== src/Store/Dispatch/Reservation.antt =====
-- What a granted reservation found, what it leaves and how a repeated one is answered:
-- `reserve_external_dispatch_with_budget`.
use deferred_teleoperation.Base.{
  ℕ, ◌≡◌, ◌≢◌, refl, sym, ap, ◌∙◌, Bool, true, false, Option, none, some, arith, ◌==◌, is_some, ltb,
  leb, if◌then◌else◌, find-update_same, Option-cases, inl, inr,
}
use deferred_teleoperation.Time.{Instant, UtcText, utc_text, parse_utc_text}
use deferred_teleoperation.Wire.{Text, Uuid, Codec, accepted}
use deferred_teleoperation.Store.Schema.{JournalRow, BudgetRow, Db}
use deferred_teleoperation.Store.Monad.{Result, ok, err, record_conflict, Result-cases}
use deferred_teleoperation.Store.Journal.{is_contract, lookup_journal, dispatched}
use deferred_teleoperation.Store.Budget.{
  BudgetPolicy, is_valid_policy, is_valid_digest, is_bound_to, reserved, of_operation, check_budget,
  lookup_budget, write_reservation, reserve_external_dispatch_with_budget,
}
use deferred_teleoperation.Store.Dispatch.Marks.{reserve_true}

-- The text is a timestamp of the time or an earlier one; the text is a timestamp of a later one.
abbrev pub is_from : UtcText → Instant → Bool
is_from text t = elim (parse_utc_text text) [ none ↦ false | some at ↦ leb at t ]

abbrev pub is_before : Instant → UtcText → Bool
is_before t text = elim (parse_utc_text text) [ none ↦ false | some at ↦ ltb t at ]

-- The budget covers the dispatch: it belongs to the contract, nothing is reserved on it, and the time
-- is neither before the acceptance or the budget's clock nor at or after the deadline.
abbrev pub Covers : Uuid → ℕ → Instant → JournalRow → BudgetRow → Type 0
Covers c n t row budget =
    (row.state ≡ accepted)
    × (is_bound_to c n budget ≡ true)
    × (budget.effect_key ≡ row.effect_key)
    × (budget.attempts_reserved ≡ 0)
    × (budget.actions_reserved ≡ 0)
    × (is_from row.accepted_at t ≡ true)
    × (is_from budget.clock_high_water_at t ≡ true)
    × (is_before t budget.deadline_at ≡ true)

check_budget_ok :
    (c : Uuid) (n : ℕ) (policy : BudgetPolicy) (digest : Option Text) (t : Instant)
    (row : JournalRow) (budget : BudgetRow) (db : Db)
    → row.state ≡ accepted
    → (check_budget c n policy digest t row budget db).0 ≡ ok tt
    → Covers c n t row budget
unfolding check_budget
check_budget_ok c n policy digest t row budget db state fine = (
  state,
  ground arith,
  ground arith,
  ground arith,
  ground arith,
  ground arith,
  ground arith,
  ground arith,
)

check_budget_pure :
    (c : Uuid) (n : ℕ) (policy : BudgetPolicy) (digest : Option Text) (t : Instant)
    (row : JournalRow) (budget : BudgetRow) (db : Db)
    → (check_budget c n policy digest t row budget db).1 ≡ db
unfolding check_budget
check_budget_pure c n policy digest t row budget db = ground arith

reservation_grants :
    (c : Uuid) (n : ℕ) (t : Instant) (device : Text) (policy : BudgetPolicy) (digest : Option Text)
    (db : Db)
    → (write_reservation c n t device policy digest db).0 ≡ ok true
    → (row : JournalRow) × (budget : BudgetRow) × (lookup_journal c n db ≡ some row)
      × (lookup_budget row.operation_id db ≡ some budget)
      × Covers c n t row budget
      × (lookup_journal c n (write_reservation c n t device policy digest db).1
          ≡ some (dispatched (utc_text t) (some device) row))
      × (lookup_budget row.operation_id (write_reservation c n t device policy digest db).1
          ≡ some (reserved (utc_text t) budget))
unfolding write_reservation
reservation_grants c n t device policy digest db done =
    elim (Option-cases (lookup_journal c n db)) [
      | inl gone ↦ absurd (ground arith)
      | inr (row, found) ↦ elim (Option-cases (lookup_budget row.operation_id db)) [
        | inl missing ↦ absurd (ground arith)
        | inr (budget, owns) ↦
            elim (Result-cases (check_budget c n policy digest t row budget db).0) [
              | inr (x, failure) ↦ absurd (ground arith)
              | inl (u, fine) ↦ (
                row,
                budget,
                found,
                owns,
                check_budget_ok c n policy digest t row budget db (ground arith) (ground arith),
                ground (
                  arith,
                  check_budget_pure c n policy digest t row budget db,
                  find-update_same (is_contract c n) (dispatched (utc_text t) (some device))
                      db.execution_journal (λ r. refl),
                ),
                ground (
                  arith,
                  check_budget_pure c n policy digest t row budget db,
                  find-update_same (of_operation row.operation_id) (reserved (utc_text t))
                      db.autonomy_budget (λ r. refl),
                ),
              )
            ]
      ]
    ]

-- A reservation that answers `True` found an accepted contract with a budget that covers it (bound
-- to the contract, nothing reserved, the time neither before the acceptance or the budget's clock
-- nor at or after the deadline), and leaves the contract dispatched to the device and the one
-- attempt and action reserved, both at the time of the call.
pub reserve_grants :
    (codec : Codec) (c : Uuid) (n : ℕ) (t : Instant) (device : Text) (policy : BudgetPolicy)
    (digest : Option Text) (db : Db)
    → (reserve_external_dispatch_with_budget codec c n t device policy digest db).0 ≡ ok true
    → (row : JournalRow) × (budget : BudgetRow) × (lookup_journal c n db ≡ some row)
      × (lookup_budget row.operation_id db ≡ some budget)
      × Covers c n t row budget
      × (lookup_journal c n
            (reserve_external_dispatch_with_budget codec c n t device policy digest db).1
          ≡ some (dispatched (utc_text t) (some device) row))
      × (lookup_budget row.operation_id
            (reserve_external_dispatch_with_budget codec c n t device policy digest db).1
          ≡ some (reserved (utc_text t) budget))
reserve_grants codec c n t device policy digest db done =
    let same = reserve_true codec c n t device policy digest db done in
    let (row, budget, found, owns, covers, row', budget') =
      reservation_grants c n t device policy digest db
        (ap (λ (r : Result Bool × Db). r.0) (sym same) ∙ done) in
    (
      row,
      budget,
      found,
      owns,
      covers,
      ap (λ (r : Result Bool × Db). lookup_journal c n r.1) same ∙ row',
      ap (λ (r : Result Bool × Db). lookup_budget row.operation_id r.1) same ∙ budget',
    )

reserve_again :
    (codec : Codec) (c : Uuid) (n : ℕ) (t : Instant) (device : Text) (owner : Text)
    (policy : BudgetPolicy) (digest : Option Text) (db : Db) (row : JournalRow)
    → is_valid_policy policy ≡ true
    → is_valid_digest codec digest ≡ true
    → device ≢ 0
    → lookup_journal c n db ≡ some row
    → is_some row.dispatch_recorded_at ≡ true
    → row.dispatch_device_id ≡ some owner
    → reserve_external_dispatch_with_budget codec c n t device policy digest db
      ≡ (if device == owner then ok false else err record_conflict, db)
unfolding reserve_external_dispatch_with_budget write_reservation
reserve_again codec c n t device owner policy digest db row valid good here found d owned =
    ground (arith, here)

reserve_accepts :
    (codec : Codec) (c : Uuid) (n : ℕ) (t : Instant) (device : Text) (policy : BudgetPolicy)
    (digest : Option Text) (db : Db)
    → (reserve_external_dispatch_with_budget codec c n t device policy digest db).0 ≡ ok true
    → (is_valid_policy policy ≡ true) × (is_valid_digest codec digest ≡ true)
unfolding reserve_external_dispatch_with_budget
reserve_accepts codec c n t device policy digest db done = (ground arith, ground arith)

-- After a reservation that answered `True`, a second one of the same contract, policy and digest,
-- at any time and for any device that is not blank, writes nothing: it answers `False` to the
-- device of the first and raises a conflict for another device.
pub reserve_repeated :
    (codec : Codec) (c : Uuid) (n : ℕ) (t u : Instant) (owner device : Text) (policy : BudgetPolicy)
    (digest : Option Text) (db : Db)
    → (reserve_external_dispatch_with_budget codec c n t owner policy digest db).0 ≡ ok true
    → device ≢ 0
    → let after = (reserve_external_dispatch_with_budget codec c n t owner policy digest db).1 in
      reserve_external_dispatch_with_budget codec c n u device policy digest after
      ≡ (if device == owner then ok false else err record_conflict, after)
reserve_repeated codec c n t u owner device policy digest db done here =
    let (row, budget, found, owns, covers, row', budget') =
      reserve_grants codec c n t owner policy digest db done in
    let (valid, good) = reserve_accepts codec c n t owner policy digest db done in
    reserve_again codec c n u device owner policy digest
      (reserve_external_dispatch_with_budget codec c n t owner policy digest db).1
      (dispatched (utc_text t) (some owner) row) valid good here row' refl refl
