-- ===== src/Store/Budget.antt =====
-- The durable budget of external actions: `_validate_budget_policy`, `_validate_command_digest`,
-- `admit_external_budget_contract` and `reserve_external_dispatch_with_budget`.
use deferred_teleoperation.Base.{
  ℕ, Bool, true, false, not, ◌&&◌, ◌||◌, Option, none, some, List, [], ◌∷◌, leb, ltb, ◌==◌, ◌/=◌,
  opt_eq, is_some, if◌then◌else◌, find, update, insert, select,
}
use deferred_teleoperation.Time.{Instant, UtcText, utc_text, parse_utc_text}
use deferred_teleoperation.Wire.{Text, Uuid, Codec, is_blank, accepted, state_eq}
use deferred_teleoperation.Store.Schema.{JournalRow, BudgetRow, DenialRow, Db}
use deferred_teleoperation.Store.Monad.{
  corrupt_record, value_error, record_conflict, invalid_transition, budget_scope_conflict,
  budget_policy_conflict, budget_deadline, budget_clock_rollback, budget_limit, Action, pure, raise,
  gets, or_raise, ◌>>=◌, ◌>>◌, raise_if, modify, transaction,
}
use deferred_teleoperation.Store.Journal.{
  is_contract, is_terminal, lookup_journal, journal_row, Claim, same_immutable, insert_journal,
  dispatched, update_journal,
}

-- The bit patterns of the finite positive doubles.
abbrev pub is_finite_positive : ℕ → Bool
is_finite_positive value = ltb 0 value && ltb value 0x7ff0000000000000

pub record BudgetPolicy : Type 0 where
  pub attempt_limit : ℕ
  pub action_limit : ℕ
  pub max_elapsed_seconds : ℕ

-- Whether `_validate_budget_policy` returns: both limits are 1, and the window is finite and positive.
unfoldable pub is_valid_policy : BudgetPolicy → Bool
is_valid_policy policy =
    policy.attempt_limit == 1
    && policy.action_limit == 1
    && is_finite_positive policy.max_elapsed_seconds

-- Whether `_validate_command_digest` returns.
unfoldable pub is_valid_digest : Codec → Option Text → Bool
is_valid_digest codec none = true
is_valid_digest codec (some digest) = codec.is_digest digest

abbrev pub of_operation : Uuid → BudgetRow → Bool
of_operation operation_id row = row.operation_id == operation_id

abbrev pub is_bound_to : Uuid → ℕ → BudgetRow → Bool
is_bound_to contract_id revision row =
    row.bound_contract_id == contract_id && row.bound_contract_revision == revision

-- `command_digest is not None and budget["command_digest"] != command_digest`.
abbrev pub digest_differs : Option Text → BudgetRow → Bool
digest_differs digest row = is_some digest && not (opt_eq row.command_digest digest)

-- An operation that already has a budget.
unfoldable pub admit_known : Claim → Option Text → BudgetRow → Action Bool
unfolding journal_row
admit_known c digest budget = do
  raise_if (not (is_bound_to c.contract_id c.contract_revision budget)) (
      budget_scope_conflict c.operation_id (some budget.bound_contract_id)
        (some budget.bound_contract_revision))
  journal ← journal_row c.contract_id c.contract_revision
  raise_if (not (same_immutable c journal)) record_conflict
  raise_if (digest_differs digest budget) record_conflict
  pure false

abbrev pub denies : Uuid → ℕ → DenialRow → Bool
denies contract_id revision row =
    row.contract_id == contract_id && row.contract_revision == revision

-- ORDER BY contract_revision, contract_id LIMIT 1.
unfoldable pub oldest : List JournalRow → Option JournalRow
oldest [] = none
oldest (row ∷ rows) = elim (oldest rows) [
  | none ↦ some row
  | some best ↦ some (
      if ltb row.contract_revision best.contract_revision
        || (row.contract_revision == best.contract_revision && leb row.contract_id best.contract_id)
      then row
      else best)
]

abbrev pub in_operation : Uuid → JournalRow → Bool
in_operation operation_id row = row.operation_id == operation_id

-- The refusals for an operation that has no budget, in the order of the code: an earlier denial of
-- the contract, a journal row of the operation, a journal row of the contract.
unfoldable pub refuse_history : Claim → Action (Unit {0})
unfolding oldest
refuse_history c = do
  denial ← gets (λ db. find (denies c.contract_id c.contract_revision) db.autonomy_budget_denial)
  elim denial [
    | none ↦ pure tt
    | some row ↦ do
      raise_if (row.operation_id /= c.operation_id) record_conflict
      raise (budget_scope_conflict c.operation_id none none)
  ]
  owner ← gets (λ db. oldest (select (in_operation c.operation_id) db.execution_journal))
  elim owner [
    | none ↦ pure tt
    | some row ↦ do
      raise_if (not (is_contract c.contract_id c.contract_revision row))
          (budget_scope_conflict c.operation_id (some row.contract_id) (some row.contract_revision))
      raise record_conflict
  ]
  twin ← gets (lookup_journal c.contract_id c.contract_revision)
  raise_if (is_some twin) record_conflict

unfoldable pub budget_row : Claim → BudgetPolicy → Option Text → Instant → Instant → BudgetRow
budget_row c policy digest accepted_at deadline = record {
  operation_id = c.operation_id;
  bound_contract_id = c.contract_id;
  bound_contract_revision = c.contract_revision;
  effect_key = c.effect_key;
  command_digest = digest;
  attempt_limit = 1;
  action_limit = 1;
  max_elapsed_seconds = policy.max_elapsed_seconds;
  window_started_at = utc_text accepted_at;
  deadline_at = utc_text deadline;
  clock_high_water_at = utc_text accepted_at;
  attempts_reserved = 0;
  actions_reserved = 0;
  dispatch_reserved_at = none;
  resolution = none;
}

abbrev pub lookup_budget : Uuid → Db → Option BudgetRow
lookup_budget operation_id db = find (of_operation operation_id) db.autonomy_budget

-- The transaction of `admit_external_budget_contract`, once its arguments are accepted.
unfoldable pub write_admission :
    Claim → BudgetPolicy → Option Text → Instant → Instant → Action Bool
unfolding admit_known refuse_history insert_journal
write_admission c policy digest accepted_at deadline = transaction (do
  budget ← gets (lookup_budget c.operation_id)
  elim budget [
    | some row ↦ admit_known c digest row
    | none ↦ do
      refuse_history c
      insert_journal c accepted_at
      modify (λ db. record db {
        autonomy_budget =
            insert (budget_row c policy digest accepted_at deadline) db.autonomy_budget;
      })
      pure true
  ])

unfoldable pub admit_external_budget_contract :
    Codec → Claim → BudgetPolicy → Option Text → Instant → Action Bool
unfolding is_valid_policy is_valid_digest
admit_external_budget_contract codec c policy digest accepted_at = do
  raise_if (not (is_valid_policy policy)) value_error
  raise_if (c.contract_revision /= 1) value_error
  raise_if (is_blank c.effect_key) value_error
  raise_if (not (is_valid_digest codec digest)) value_error
  deadline ← or_raise (codec.add_seconds accepted_at policy.max_elapsed_seconds) value_error
  write_admission c policy digest accepted_at deadline

abbrev pub reserved : UtcText → BudgetRow → BudgetRow
reserved at row = record row {
  attempts_reserved = 1;
  actions_reserved = 1;
  dispatch_reserved_at = some at;
  clock_high_water_at = at;
}

-- The limits and the window of the policy are those of the stored snapshot.
abbrev pub same_policy : BudgetPolicy → BudgetRow → Bool
same_policy policy row =
    row.attempt_limit == policy.attempt_limit
    && row.action_limit == policy.action_limit
    && row.max_elapsed_seconds == policy.max_elapsed_seconds

-- The checks on the budget of a contract that is about to be dispatched.
unfoldable pub check_budget :
    Uuid → ℕ → BudgetPolicy → Option Text → Instant → JournalRow → BudgetRow → Action (Unit {0})
check_budget contract_id revision policy digest recorded_at journal budget = do
  raise_if
      (not (is_bound_to contract_id revision budget) || budget.effect_key /= journal.effect_key)
      (budget_scope_conflict journal.operation_id (some budget.bound_contract_id)
        (some budget.bound_contract_revision))
  raise_if (digest_differs digest budget) record_conflict
  raise_if (not (same_policy policy budget)) budget_policy_conflict
  raise_if (budget.attempts_reserved /= 0 || budget.actions_reserved /= 0) budget_limit
  accepted_at ← or_raise (parse_utc_text journal.accepted_at) corrupt_record
  high_water_at ← or_raise (parse_utc_text budget.clock_high_water_at) corrupt_record
  deadline_at ← or_raise (parse_utc_text budget.deadline_at) corrupt_record
  raise_if (ltb recorded_at accepted_at || ltb recorded_at high_water_at) budget_clock_rollback
  raise_if (leb deadline_at recorded_at) budget_deadline

abbrev pub update_budget : Uuid → (BudgetRow → BudgetRow) → Db → Db
update_budget operation_id f db = record db {
  autonomy_budget = update (of_operation operation_id) f db.autonomy_budget;
}

-- The transaction of `reserve_external_dispatch_with_budget`, once its arguments are accepted.
unfoldable pub write_reservation :
    Uuid → ℕ → Instant → Text → BudgetPolicy → Option Text → Action Bool
unfolding journal_row check_budget
write_reservation contract_id revision recorded_at device_id policy digest = transaction (do
  journal ← journal_row contract_id revision
  elim journal.dispatch_recorded_at [
    | some _ ↦ do
      raise_if (not (opt_eq journal.dispatch_device_id (some device_id))) record_conflict
      pure false
    | none ↦
        if not (state_eq journal.state accepted)
        then (do raise_if (not (is_terminal journal.state)) invalid_transition; pure false)
        else (do
          found ← gets (lookup_budget journal.operation_id)
          budget ← or_raise found record_conflict
          check_budget contract_id revision policy digest recorded_at journal budget
          modify (update_budget journal.operation_id (reserved (utc_text recorded_at)))
          modify (
              update_journal contract_id revision
                (dispatched (utc_text recorded_at) (some device_id)))
          pure true)
  ])

unfoldable pub reserve_external_dispatch_with_budget :
    Codec → Uuid → ℕ → Instant → Text → BudgetPolicy → Option Text → Action Bool
unfolding is_valid_policy is_valid_digest
reserve_external_dispatch_with_budget codec contract_id revision recorded_at device_id policy
      digest =
    do
      raise_if (not (is_valid_policy policy)) value_error
      raise_if (is_blank device_id) value_error
      raise_if (not (is_valid_digest codec digest)) value_error
      write_reservation contract_id revision recorded_at device_id policy digest
