-- ===== src/Examples/Journal.antt =====
-- The properties of the journal at the contract of the test data.
use deferred_teleoperation.Base.{
  ◌≡◌, ◌≤◌, refl, Bool, none, some, List, [], ◌∷◌, arith, find, count_fires,
}
use deferred_teleoperation.Time.{utc_text, parse_utc_text}
use deferred_teleoperation.Wire.{ContractState}
use deferred_teleoperation.Store.Schema.{JournalRow, BudgetRow, Db}
use deferred_teleoperation.Store.Monad.{Result, err, record_conflict}
use deferred_teleoperation.Store.Journal.{lookup_journal, dispatched}
use deferred_teleoperation.Store.Budget.{
  lookup_budget, reserved, write_reservation, reserve_external_dispatch_with_budget,
}
use deferred_teleoperation.Store.Dispatch.History.{
  JournalOp, accept_op, dispatch_op, reserve_op, resolve_op, run, run_all, SoundAt, run_all-SoundAt,
  dispatch_immutable, terminal_frozen,
}
use deferred_teleoperation.Store.Dispatch.Once.{
  step, grants, concludes, dispatch_granted_once, concluded_once,
}
use deferred_teleoperation.Store.Dispatch.Reservation.{Covers, reserve_grants, reserve_repeated}
use deferred_teleoperation.Store.Dispatch.Transitions.{◌⇝◌, call_follows_protocol}
use deferred_teleoperation.Examples.Data.{
  codec, values, claim, policy, second, accepted_contract, dispatched_contract, concluded_contract,
  empty, with_contract, resolve,
}

-- The life of a contract, with calls that are repeated after a crash.
abbrev life : List JournalOp
life =
    accept_op claim 1000000
    ∷ reserve_op 21 1 2000000 71 policy none
    ∷ dispatch_op 21 1 3000000 (some 72)
    ∷ resolve_op resolve
    ∷ resolve_op resolve
    ∷ []

dispatch_granted_once_example :
    count_fires (step codec values) (grants codec values 21 1) life empty ≤ 1
unfolding find
dispatch_granted_once_example = dispatch_granted_once codec values 21 1 life empty tt

concluded_once_example :
    count_fires (step codec values) (concludes codec values 21 1) life empty ≤ 1
unfolding find
concluded_once_example = concluded_once codec values 21 1 life empty tt

run_all-SoundAt_example : SoundAt 21 1 (run_all codec values life empty)
unfolding find
run_all-SoundAt_example = run_all-SoundAt codec values 21 1 life empty tt

dispatch_immutable_example :
    (row : JournalRow) × (lookup_journal 21 1
        (run_all codec values life (with_contract dispatched_contract))
      ≡ some row)
    × (row.dispatch_recorded_at ≡ some (second 2))
    × (row.dispatch_device_id ≡ some 71)
unfolding find
dispatch_immutable_example =
    dispatch_immutable codec values 21 1 life (with_contract dispatched_contract)
      dispatched_contract (refl, refl, refl) refl refl

terminal_frozen_example :
    lookup_journal 21 1 (run_all codec values life (with_contract concluded_contract))
    ≡ some concluded_contract
unfolding find
terminal_frozen_example =
    terminal_frozen codec values 21 1 life (with_contract concluded_contract) concluded_contract
      (refl, omega arith) refl refl

abbrev reservation : Result Bool × Db
reservation =
    reserve_external_dispatch_with_budget codec 21 1 2000000 71 policy none
      (with_contract accepted_contract)

reserve_grants_example :
    (row : JournalRow) × (b : BudgetRow) × (lookup_journal 21 1 (with_contract accepted_contract)
      ≡ some row)
    × (lookup_budget row.operation_id (with_contract accepted_contract) ≡ some b)
    × Covers 21 1 2000000 row b
    × (lookup_journal 21 1 reservation.1 ≡ some (dispatched (utc_text 2000000) (some 71) row))
    × (lookup_budget row.operation_id reservation.1 ≡ some (reserved (utc_text 2000000) b))
unfolding reserve_external_dispatch_with_budget write_reservation find parse_utc_text
reserve_grants_example =
    reserve_grants codec 21 1 2000000 71 policy none (with_contract accepted_contract) refl

-- Another device, after the deadline.
reserve_repeated_example :
    reserve_external_dispatch_with_budget codec 21 1 99000000 72 policy none reservation.1
    ≡ (err record_conflict, reservation.1)
unfolding reserve_external_dispatch_with_budget write_reservation find parse_utc_text
reserve_repeated_example =
    reserve_repeated codec 21 1 2000000 99000000 71 72 policy none (with_contract accepted_contract)
      refl (omega arith)

call_follows_protocol_example :
    (row : JournalRow) × (lookup_journal 21 1
        (run codec values (resolve_op resolve) (with_contract dispatched_contract)).1
      ≡ some row)
    × (ContractState.dispatch_recorded ⇝ row.state)
unfolding find
call_follows_protocol_example =
    call_follows_protocol codec values 21 1 (resolve_op resolve) (with_contract dispatched_contract)
      dispatched_contract (refl, refl, refl) refl
