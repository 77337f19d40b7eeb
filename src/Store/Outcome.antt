-- ===== src/Store/Outcome.antt =====
-- `resolve_external_outcome`: the terminal resolution of an effect that was performed outside the
-- Robot's journal.
use deferred_teleoperation.Base.{
  ℕ, Bool, true, false, not, ◌&&◌, ◌||◌, Option, none, some, List, [], ◌∷◌, leb, ltb, ◌==◌, ◌/=◌,
  opt_eq, if◌then◌else◌, update, find,
}
use deferred_teleoperation.Time.{Instant, UtcText, utc_text, parse_utc_text}
use deferred_teleoperation.Wire.{
  Text, Uuid, MessageEnvelope, Codec, EffectOutcome, applied, not_applied, unknown, ContractState,
  dispatch_recorded, succeeded, held, state_eq,
}
use deferred_teleoperation.External.{Observation, AdapterValue, coerce_observation}
use deferred_teleoperation.Store.Schema.{JournalRow, BudgetRow, Resolution}
use deferred_teleoperation.Store.Monad.{
  value_error, corrupt_record, record_conflict, invalid_transition, invalid_proof, Action, pure,
  gets, or_raise, ◌>>=◌, ◌>>◌, raise_if, modify, transaction,
}
use deferred_teleoperation.Store.Outbox.{insert_outbox, insert_all}
use deferred_teleoperation.Store.Journal.{journal_row, update_journal, is_event_of, event_of}
use deferred_teleoperation.Store.Budget.{of_operation, is_bound_to}

-- The values of a terminal result; `plain` is any value that a caller adds.
pub data ResultValue : Type 0 where
  text : Text → ResultValue
  outcome : EffectOutcome → ResultValue
  resolution : Resolution → ResultValue
  time : Instant → ResultValue
  proof : Observation → ResultValue
  plain : ℕ → ResultValue

-- The keys that a resolution requires; `extra` is any other key.
pub data ResultKey : Type 0 where
  effect_key device_id external_outcome outcome_key resolution_key : ResultKey
  observation_id observed_at terminal_at proof_key : ResultKey
  extra : Text → ResultKey

abbrev pub key_eq : ResultKey → ResultKey → Bool
key_eq effect_key effect_key = true
key_eq device_id device_id = true
key_eq external_outcome external_outcome = true
key_eq outcome_key outcome_key = true
key_eq resolution_key resolution_key = true
key_eq observation_id observation_id = true
key_eq observed_at observed_at = true
key_eq terminal_at terminal_at = true
key_eq proof_key proof_key = true
key_eq (extra a) (extra b) = a == b
key_eq _ _ = false

abbrev pub ResultMap : Type 0
ResultMap = List (ResultKey × ResultValue)

-- Python's `!=` on such values, and the canonical text of a mapping, `none` where it has none.
pub record ResultCodec : Type 0 where
  pub same_value : ResultValue → ResultValue → Bool
  pub result_json : ResultMap → Option Text

unfoldable pub lookup_value : ResultKey → ResultMap → Option ResultValue
lookup_value key [] = none
lookup_value key ((k, v) ∷ rest) = if key_eq k key then some v else lookup_value key rest

-- `result[key] = value`: a key that is there keeps its place, a new one goes to the end.
unfoldable pub set_value : ResultKey → ResultValue → ResultMap → ResultMap
set_value key value [] = (key, value) ∷ []
set_value key value ((k, v) ∷ rest) =
    if key_eq k key then (k, value) ∷ rest else (k, v) ∷ set_value key value rest

-- The loop over `required_result`: a field that the caller set otherwise is a collision, and every
-- other one is written, also over a value that `!=` does not tell from it.
unfoldable pub merge_required : ResultCodec → ResultMap → ResultMap → Option ResultMap
merge_required values result [] = some result
merge_required values result ((k, v) ∷ required) = elim (lookup_value k result) [
  | none ↦ merge_required values (set_value k v result) required
  | some old ↦
      if values.same_value old v
      then merge_required values (set_value k v result) required
      else none
]

abbrev pub resolved_state : EffectOutcome → ContractState
resolved_state applied = succeeded
resolved_state _ = held

abbrev pub resolution_of : EffectOutcome → Resolution
resolution_of applied = Resolution.applied
resolution_of unknown = Resolution.outcome_unknown
resolution_of not_applied = Resolution.not_applied_after_uncertain_dispatch

unfoldable pub required_result : Observation → Instant → ResultMap
required_result p occurred_at =
    (effect_key, text p.effect_key)
    ∷ (device_id, text p.device_id)
    ∷ (external_outcome, outcome p.outcome)
    ∷ (outcome_key, resolution (resolution_of p.outcome))
    ∷ (resolution_key, resolution (resolution_of p.outcome))
    ∷ (observation_id, text p.observation_id)
    ∷ (observed_at, time p.observed_at)
    ∷ (terminal_at, time occurred_at)
    ∷ (proof_key, proof p)
    ∷ []

-- `occurred_at < dispatch_at` is refused, where a dispatch was recorded.
unfoldable pub check_dispatch_time : Instant → JournalRow → Action (Unit {0})
check_dispatch_time occurred_at row = elim row.dispatch_recorded_at [
  | none ↦ pure tt
  | some at ↦ do
    dispatch_at ← or_raise (parse_utc_text at) corrupt_record
    raise_if (ltb occurred_at dispatch_at) record_conflict
]

abbrev pub resolved : ContractState → UtcText → Text → JournalRow → JournalRow
resolved state at result row = record row {
  state = state;
  terminal_at = some at;
  terminal_result_json = some result;
}

-- The later of the call's time and the budget's clock, as `high_water_text` is chosen.
abbrev pub raised_clock : Instant → Instant → UtcText
raised_clock at mark = if leb mark at then utc_text at else utc_text mark

abbrev pub settled : Resolution → UtcText → BudgetRow → BudgetRow
settled r clock row = record row { resolution = some r; clock_high_water_at = clock }

abbrev pub is_budget_of : Uuid → Uuid → ℕ → BudgetRow → Bool
is_budget_of operation_id contract_id revision row =
    of_operation operation_id row && is_bound_to contract_id revision row

-- The update of the budget row that is bound to the contract, if there is one.
unfoldable pub settle_budget :
    Uuid → Uuid → ℕ → Resolution → Instant → Option BudgetRow → Action (Unit {0})
settle_budget operation_id contract_id revision r at none = pure tt
settle_budget operation_id contract_id revision r at (some budget) = do
  mark ← or_raise (parse_utc_text budget.clock_high_water_at) corrupt_record
  modify (λ db. record db {
    autonomy_budget =
        update (is_budget_of operation_id contract_id revision) (settled r (raised_clock at mark))
          db.autonomy_budget;
  })

pub record Resolve : Type 0 where
  pub contract_id : Uuid
  pub contract_revision : ℕ
  pub observation : Option AdapterValue
  pub expected_device_id : Option Text
  pub terminal_state : Option ContractState
  pub terminal_result : ResultMap
  pub occurred_at : Instant
  pub terminal_event : MessageEnvelope
  pub outgoing : List MessageEnvelope

-- The transaction of `resolve_external_outcome`, once the proof is accepted.
unfoldable pub write_outcome : Codec → Resolve → Observation → Text → Action Bool
unfolding journal_row settle_budget
write_outcome codec r p encoded = transaction (do
  journal ← journal_row r.contract_id r.contract_revision
  elim journal.terminal_at [
    | some _ ↦ do
      raise_if (not (opt_eq journal.dispatch_device_id (some p.device_id))) record_conflict
      raise_if (not (opt_eq journal.terminal_result_json (some encoded))) record_conflict
      pure false
    | none ↦ do
      raise_if (not (state_eq journal.state dispatch_recorded) || journal.effect_count /= 0)
          invalid_transition
      raise_if (not (opt_eq journal.dispatch_device_id (some p.device_id))) record_conflict
      _ ← insert_outbox codec r.terminal_event
      insert_all codec r.outgoing
      modify (
          update_journal r.contract_id r.contract_revision
            (resolved (resolved_state p.outcome) (utc_text r.occurred_at) encoded))
      budget ← gets (λ db.
          find (is_budget_of journal.operation_id r.contract_id r.contract_revision)
            db.autonomy_budget)
      settle_budget journal.operation_id r.contract_id r.contract_revision (resolution_of p.outcome)
          r.occurred_at budget
      pure true
  ])

-- `terminal_state is not resolved_state`, where the caller names a state.
abbrev pub contradicts : Option ContractState → EffectOutcome → Bool
contradicts none found = false
contradicts (some state) found = not (state_eq state (resolved_state found))

-- The checks between the look at the journal and the transaction, in the order of the code: an
-- acceptable proof, and the text of the terminal result.
unfoldable pub accept_proof :
    ResultCodec → Resolve → AdapterValue → JournalRow → Action (Observation × Text)
unfolding check_dispatch_time
accept_proof values r given row = do
  check_dispatch_time r.occurred_at row
  p ← or_raise (coerce_observation given row.effect_key r.expected_device_id) invalid_proof
  raise_if (ltb r.occurred_at p.observed_at) record_conflict
  raise_if (contradicts r.terminal_state p.outcome) record_conflict
  event ← or_raise (event_of r.terminal_event) value_error
  raise_if
      (not (is_event_of r.contract_id r.contract_revision (resolved_state p.outcome) event)
        || event.occurred_at /= r.occurred_at
        || r.terminal_event.created_at /= r.occurred_at)
      record_conflict
  merged ←
      or_raise (merge_required values r.terminal_result (required_result p r.occurred_at))
        record_conflict
  encoded ← or_raise (values.result_json merged) value_error
  pure (p, encoded)

unfoldable pub resolve_external_outcome : Codec → ResultCodec → Resolve → Action Bool
unfolding journal_row
resolve_external_outcome codec values r = do
  given ← or_raise r.observation value_error
  row ← journal_row r.contract_id r.contract_revision
  proof_text ← accept_proof values r given row
  write_outcome codec r proof_text.0 proof_text.1
