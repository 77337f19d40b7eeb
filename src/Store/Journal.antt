-- ===== src/Store/Journal.antt =====
-- The execution journal: `_journal_row`, `accept_contract`, `record_dispatch` and
-- `commit_dummy_effect`.
use deferred_teleoperation.Base.{
  ℕ, Bool, true, false, not, ◌&&◌, ◌||◌, Option, none, some, ◌==◌, ◌/=◌, opt_eq, is_some, find,
  update, insert,
}
use deferred_teleoperation.Time.{Instant, UtcText, utc_text}
use deferred_teleoperation.Wire.{
  Text, Uuid, MessageEnvelope, Codec, event_payload, ExecutionEvent, is_blank, ContractState,
  accepted, dispatch_recorded, running, succeeded, failed, held, cancelled, state_eq,
}
use deferred_teleoperation.Store.Schema.{JournalRow, Db}
use deferred_teleoperation.Store.Monad.{
  value_error, key_error, record_conflict, invalid_transition, Action, pure, gets, or_raise, ◌>>=◌,
  ◌>>◌, raise_if, modify, transaction,
}
use deferred_teleoperation.Store.Outbox.{insert_outbox}

abbrev pub is_contract : Uuid → ℕ → JournalRow → Bool
is_contract contract_id revision row =
    row.contract_id == contract_id && row.contract_revision == revision

-- `TERMINAL_STATES`.
abbrev pub is_terminal : ContractState → Bool
is_terminal succeeded = true
is_terminal failed = true
is_terminal held = true
is_terminal cancelled = true
is_terminal _ = false

abbrev pub lookup_journal : Uuid → ℕ → Db → Option JournalRow
lookup_journal contract_id revision db =
    find (is_contract contract_id revision) db.execution_journal

unfoldable pub journal_row : Uuid → ℕ → Action JournalRow
journal_row contract_id revision = do
  found ← gets (lookup_journal contract_id revision)
  or_raise found key_error

-- The immutable columns of one contract revision.
pub record Claim : Type 0 where
  pub contract_id : Uuid
  pub contract_revision : ℕ
  pub operation_id : Uuid
  pub task_id : Uuid
  pub effect_key : Text

abbrev pub same_immutable : Claim → JournalRow → Bool
same_immutable c row =
    row.operation_id == c.operation_id && row.task_id == c.task_id && row.effect_key == c.effect_key

unfoldable pub accepted_row : Claim → Instant → JournalRow
accepted_row c accepted_at = record {
  contract_id = c.contract_id;
  contract_revision = c.contract_revision;
  operation_id = c.operation_id;
  task_id = c.task_id;
  state = accepted;
  effect_key = c.effect_key;
  effect_count = 0;
  accepted_at = utc_text accepted_at;
  dispatch_recorded_at = none;
  dispatch_device_id = none;
  effect_started_at = none;
  terminal_at = none;
  terminal_result_json = none;
}

abbrev pub has_effect : Text → JournalRow → Bool
has_effect effect_key row = row.effect_key == effect_key

-- `INSERT INTO execution_journal` with its `except sqlite3.IntegrityError`: a revision below 1, a
-- second row for the contract or a second claim of the effect key becomes a `RecordConflictError`.
unfoldable pub insert_journal : Claim → Instant → Action (Unit {0})
unfolding accepted_row
insert_journal c accepted_at = do
  owner ← gets (λ db. find (has_effect c.effect_key) db.execution_journal)
  twin ← gets (lookup_journal c.contract_id c.contract_revision)
  raise_if (c.contract_revision == 0 || is_some owner || is_some twin) record_conflict
  modify (λ db. record db {
    execution_journal = insert (accepted_row c accepted_at) db.execution_journal;
  })

unfoldable pub accept_contract : Claim → Instant → Action Bool
unfolding insert_journal
accept_contract c accepted_at = transaction (do
  found ← gets (lookup_journal c.contract_id c.contract_revision)
  elim found [
    | some row ↦ do raise_if (not (same_immutable c row)) record_conflict; pure false
    | none ↦ do insert_journal c accepted_at; pure true
  ])

abbrev pub dispatched : UtcText → Option Text → JournalRow → JournalRow
dispatched at device_id row = record row {
  state = dispatch_recorded;
  dispatch_recorded_at = some at;
  dispatch_device_id = device_id;
}

abbrev pub update_journal : Uuid → ℕ → (JournalRow → JournalRow) → Db → Db
update_journal contract_id revision f db = record db {
  execution_journal = update (is_contract contract_id revision) f db.execution_journal;
}

-- `device_id is not None and not device_id.strip()`.
abbrev pub blank_device : Option Text → Bool
blank_device none = false
blank_device (some device_id) = is_blank device_id

unfoldable pub record_dispatch : Uuid → ℕ → Instant → Option Text → Action Bool
unfolding journal_row
record_dispatch contract_id revision recorded_at device_id = do
  raise_if (blank_device device_id) value_error
  transaction (do
    row ← journal_row contract_id revision
    elim row.dispatch_recorded_at [
      | some _ ↦ do
        raise_if (is_some device_id && not (opt_eq row.dispatch_device_id device_id))
            record_conflict
        pure false
      | none ↦ do
        raise_if (not (state_eq row.state accepted)) invalid_transition
        modify (update_journal contract_id revision (dispatched (utc_text recorded_at) device_id))
        pure true
    ])

-- The columns that `commit_dummy_effect` sets.
abbrev pub effected : ContractState → UtcText → Text → JournalRow → JournalRow
effected terminal_state at result row = record row {
  state = terminal_state;
  effect_count = 1;
  effect_started_at = some at;
  terminal_at = some at;
  terminal_result_json = some result;
}

abbrev pub is_event_of : Uuid → ℕ → ContractState → ExecutionEvent → Bool
is_event_of contract_id revision terminal_state event =
    event.contract_id == contract_id
    && event.contract_revision == revision
    && state_eq event.previous_state running
    && state_eq event.next_state terminal_state

-- `isinstance(envelope.payload, ExecutionEvent)`.
abbrev pub event_of : MessageEnvelope → Option ExecutionEvent
event_of envelope = elim envelope.payload [ event_payload event ↦ some event | _ ↦ none ]

-- The transaction of `commit_dummy_effect`, once the event is accepted; `result` is
-- `_result_json(terminal_result)`, `none` where it raises a ValueError.
unfoldable pub write_effect :
    Codec → Uuid → ℕ → ContractState → Option Text → Instant → MessageEnvelope → Action Bool
unfolding journal_row
write_effect codec contract_id revision terminal_state result occurred_at terminal_event =
    transaction (do
      row ← journal_row contract_id revision
      elim row.terminal_at [
        | some _ ↦ pure false
        | none ↦ do
          raise_if (not (state_eq row.state dispatch_recorded) || row.effect_count /= 0)
              invalid_transition
          encoded ← or_raise result value_error
          _ ← insert_outbox codec terminal_event
          modify (
              update_journal contract_id revision
                (effected terminal_state (utc_text occurred_at) encoded))
          pure true
      ])

unfoldable pub commit_dummy_effect :
    Codec → Uuid → ℕ → ContractState → Option Text → Instant → MessageEnvelope → Action Bool
commit_dummy_effect codec contract_id revision terminal_state result occurred_at terminal_event = do
  raise_if (not (is_terminal terminal_state)) value_error
  event ← or_raise (event_of terminal_event) value_error
  raise_if (not (is_event_of contract_id revision terminal_state event)) record_conflict
  write_effect codec contract_id revision terminal_state result occurred_at terminal_event
