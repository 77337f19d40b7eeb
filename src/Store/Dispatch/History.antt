-- ===== src/Store/Dispatch/History.antt =====
-- The journal over any sequence of calls of the operations that write it.
use mathlib.Core.Option.{some-injective}
use deferred_teleoperation.Base.{
  ℕ, ◌≡◌, refl, sym, ap, subst, ◌∙◌, Bool, true, Option, none, some, List, [], ◌∷◌, is_some,
  Option-cases, inl, inr,
}
use deferred_teleoperation.Time.{Instant}
use deferred_teleoperation.Wire.{Text, Uuid, MessageEnvelope, Codec, ContractState}
use deferred_teleoperation.Store.Schema.{JournalRow, Db}
use deferred_teleoperation.Store.Monad.{Result}
use deferred_teleoperation.Store.Journal.{
  lookup_journal, Claim, accept_contract, record_dispatch, commit_dummy_effect,
}
use deferred_teleoperation.Store.Budget.{
  BudgetPolicy, admit_external_budget_contract, reserve_external_dispatch_with_budget,
}
use deferred_teleoperation.Store.Outcome.{ResultCodec, Resolve, resolve_external_outcome}
use deferred_teleoperation.Store.Denial.{Denial, complete_budget_scope_denial}
use deferred_teleoperation.Store.Dispatch.Rows.{
  IsSound, SameClaim, Advances, Writes-Advances, Writes-new, Advances-IsSound, Advances-dispatch,
  Advances-terminal, Advances-SameClaim,
}
use deferred_teleoperation.Store.Dispatch.Writes.{
  WritesFrom, accept-Writes, dispatch-Writes, commit-Writes, reserve-Writes, admit-Writes,
}
use deferred_teleoperation.Store.Dispatch.Closing.{resolve-Writes}
use deferred_teleoperation.Store.Dispatch.Refusal.{denial-Writes}

-- One call of an operation that writes the journal.
pub data JournalOp : Type 0 where
  accept_op : Claim → Instant → JournalOp
  dispatch_op : Uuid → ℕ → Instant → Option Text → JournalOp
  commit_op : Uuid → ℕ → ContractState → Option Text → Instant → MessageEnvelope → JournalOp
  admit_op : Claim → BudgetPolicy → Option Text → Instant → JournalOp
  reserve_op : Uuid → ℕ → Instant → Text → BudgetPolicy → Option Text → JournalOp
  resolve_op : Resolve → JournalOp
  deny_op : Denial → JournalOp

-- The row of a contract is sound, if there is one.
abbrev pub SoundAt : Uuid → ℕ → Db → Type 0
SoundAt c n db = elim (lookup_journal c n db) [ none ↦ Unit | some row ↦ IsSound row ]

found-SoundAt :
    (c : Uuid) (n : ℕ) (db : Db) (row : JournalRow)
    → lookup_journal c n db ≡ some row
    → IsSound row
    → SoundAt c n db
found-SoundAt c n db row found h =
    subst (λ o. elim o [ none ↦ Unit | some row ↦ IsSound row ]) (sym found) h

SoundAt-found :
    (c : Uuid) (n : ℕ) (db : Db) (row : JournalRow)
    → lookup_journal c n db ≡ some row
    → SoundAt c n db
    → IsSound row
SoundAt-found c n db row found h =
    subst (λ o. elim o [ none ↦ Unit | some row ↦ IsSound row ]) found h

none-SoundAt : (c : Uuid) (n : ℕ) (db : Db) → lookup_journal c n db ≡ none → SoundAt c n db
none-SoundAt c n db gone =
    subst (λ o. elim o [ none ↦ Unit | some row ↦ IsSound row ]) (sym gone) tt

module _ (codec : Codec) (values : ResultCodec) where
  -- The call, with its result.
  unfoldable pub run : JournalOp → Db → Result Bool × Db
  run (accept_op c t) = accept_contract c t
  run (dispatch_op c n t device) = record_dispatch c n t device
  run (commit_op c n state result t event) = commit_dummy_effect codec c n state result t event
  run (admit_op c policy digest t) = admit_external_budget_contract codec c policy digest t
  run (reserve_op c n t device policy digest) =
      reserve_external_dispatch_with_budget codec c n t device policy digest
  run (resolve_op r) = resolve_external_outcome codec values r
  run (deny_op d) = complete_budget_scope_denial codec d

  unfoldable pub run_all : List JournalOp → Db → Db
  run_all [] db = db
  run_all (op ∷ ops) db = run_all ops (run op db).1

  run-Writes : (op : JournalOp) (db : Db) → WritesFrom db (run op db).1
  unfolding run
  run-Writes (accept_op c t) db = accept-Writes c t db
  run-Writes (dispatch_op c n t device) db = dispatch-Writes c n t device db
  run-Writes (commit_op c n state result t event) db =
      commit-Writes codec c n state result t event db
  run-Writes (admit_op c policy digest t) db = admit-Writes codec c policy digest t db
  run-Writes (reserve_op c n t device policy digest) db =
      reserve-Writes codec c n t device policy digest db
  run-Writes (resolve_op r) db = resolve-Writes codec values r db
  run-Writes (deny_op d) db = denial-Writes codec d db

  pub run-SoundAt :
      (c : Uuid) (n : ℕ) (op : JournalOp) (db : Db) → SoundAt c n db → SoundAt c n (run op db).1
  run-SoundAt c n op db h = elim (Option-cases (lookup_journal c n (run op db).1)) [
    | inl gone ↦ none-SoundAt c n (run op db).1 gone
    | inr (row', found') ↦
        found-SoundAt c n (run op db).1 row' found' (elim (Option-cases (lookup_journal c n db)) [
          | inl new ↦ Writes-new _ _ c n row' (run-Writes op db) new found'
          | inr (row, found) ↦
              let (next, found_next, adv) = Writes-Advances _ _ c n row (run-Writes op db) found in
              subst IsSound (some-injective next row' (sym found_next ∙ found'))
                (Advances-IsSound row next adv (SoundAt-found c n db row found h))
        ])
  ]

  -- A row advances in one call, and stays sound.
  pub run-Advances :
      (c : Uuid) (n : ℕ) (op : JournalOp) (db : Db) (row : JournalRow)
      → SoundAt c n db
      → lookup_journal c n db ≡ some row
      → (row' : JournalRow) × (lookup_journal c n (run op db).1 ≡ some row')
        × Advances row row'
        × IsSound row
  run-Advances c n op db row h found =
      let (next, found_next, adv) = Writes-Advances _ _ c n row (run-Writes op db) found in
      (next, found_next, adv, SoundAt-found c n db row found h)

  -- Any sequence of calls of the seven operations that write the journal leaves a contract's row
  -- sound, if it was or was not there: accepted with no dispatch and no end, dispatched with no
  -- end, or ended with at most one effect.
  pub run_all-SoundAt :
      (c : Uuid) (n : ℕ) (ops : List JournalOp) (db : Db)
      → SoundAt c n db
      → SoundAt c n (run_all ops db)
  unfolding run_all
  run_all-SoundAt c n [] db h = h
  run_all-SoundAt c n (op ∷ ops) db h =
      run_all-SoundAt c n ops (run op db).1 (run-SoundAt c n op db h)

  -- A sound journal row is still there after any sequence of calls of the seven operations that
  -- write the journal, with the same contract, revision, operation, task, effect key and time of
  -- acceptance.
  pub identity_kept :
      (c : Uuid) (n : ℕ) (ops : List JournalOp) (db : Db) (row : JournalRow)
      → SoundAt c n db
      → lookup_journal c n db ≡ some row
      → (row' : JournalRow) × (lookup_journal c n (run_all ops db) ≡ some row') × SameClaim row row'
  unfolding run_all
  identity_kept c n [] db row h found = (row, found, refl)
  identity_kept c n (op ∷ ops) db row h found =
      let (next, found_next, adv, sound) = run-Advances c n op db row h found in
      let (last, found_last, same) =
        identity_kept c n ops (run op db).1 next (run-SoundAt c n op db h) found_next in
      (last, found_last, same ∙ Advances-SameClaim row next adv)

  -- Once the sound journal row of a contract has a dispatch, any sequence of calls of the seven
  -- operations that write the journal keeps the row, the time of the dispatch and its device.
  pub dispatch_immutable :
      (c : Uuid) (n : ℕ) (ops : List JournalOp) (db : Db) (row : JournalRow)
      → SoundAt c n db
      → lookup_journal c n db ≡ some row
      → is_some row.dispatch_recorded_at ≡ true
      → (row' : JournalRow) × (lookup_journal c n (run_all ops db) ≡ some row')
        × (row'.dispatch_recorded_at ≡ row.dispatch_recorded_at)
        × (row'.dispatch_device_id ≡ row.dispatch_device_id)
  unfolding run_all
  dispatch_immutable c n [] db row h found d = (row, found, refl, refl)
  dispatch_immutable c n (op ∷ ops) db row h found d =
      let (next, found_next, adv, sound) = run-Advances c n op db row h found in
      let (at, device) = Advances-dispatch row next adv sound d in
      let (last, found_last, at', device') =
        dispatch_immutable c n ops (run op db).1 next (run-SoundAt c n op db h) found_next
          (subst (λ o. is_some o ≡ true) (sym at) d) in
      (last, found_last, at' ∙ at, device' ∙ device)

  -- Once the sound journal row of a contract has a terminal time, any sequence of calls of the
  -- seven operations that write the journal leaves every column of the row as it is.
  pub terminal_frozen :
      (c : Uuid) (n : ℕ) (ops : List JournalOp) (db : Db) (row : JournalRow)
      → SoundAt c n db
      → lookup_journal c n db ≡ some row
      → is_some row.terminal_at ≡ true
      → lookup_journal c n (run_all ops db) ≡ some row
  unfolding run_all
  terminal_frozen c n [] db row h found t = found
  terminal_frozen c n (op ∷ ops) db row h found t =
      let (next, found_next, adv, sound) = run-Advances c n op db row h found in
      terminal_frozen c n ops (run op db).1 row (run-SoundAt c n op db h)
        (found_next ∙ ap some (Advances-terminal row next adv sound t)) t
