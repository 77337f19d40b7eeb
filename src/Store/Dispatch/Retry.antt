-- ===== src/Store/Dispatch/Retry.antt =====
-- A call that is made again after it succeeded, as a recovering node makes it, answers `False` and
-- writes nothing: `resolve_external_outcome` and `commit_dummy_effect`.
use deferred_teleoperation.Base.{
  ℕ, ◌≡◌, refl, sym, ap, subst, ◌∙◌, Bool, true, false, Option, some, arith, find-update_same,
  Option-cases, inl, inr,
}
use deferred_teleoperation.Time.{Instant, UtcText, utc_text}
use deferred_teleoperation.Wire.{Text, Uuid, MessageEnvelope, Codec, ContractState}
use deferred_teleoperation.Store.Schema.{JournalRow, Db}
use deferred_teleoperation.Store.Monad.{Result, ok}
use deferred_teleoperation.Store.Journal.{
  is_contract, lookup_journal, effected, write_effect, commit_dummy_effect, event_of,
}
use deferred_teleoperation.Store.Dispatch.Writes.{insert_outbox-journal}
use deferred_teleoperation.Store.Dispatch.Marks.{commit_true}

effect_leaves :
    (codec : Codec) (c : Uuid) (n : ℕ) (state : ContractState) (result : Option Text) (t : Instant)
    (event : MessageEnvelope) (db : Db)
    → (write_effect codec c n state result t event db).0 ≡ ok true
    → (row : JournalRow) × (text : Text) × (lookup_journal c n
          (write_effect codec c n state result t event db).1
        ≡ some (effected state (utc_text t) text row))
unfolding write_effect
effect_leaves codec c n state result t event db done = elim (Option-cases (lookup_journal c n db)) [
  | inl gone ↦ absurd (ground arith)
  | inr (row, found) ↦ elim (Option-cases result) [
    | inl unencoded ↦ absurd (ground arith)
    | inr (text, encoded) ↦ (
      row,
      text,
      ground (
        arith,
        insert_outbox-journal codec event db,
        find-update_same (is_contract c n) (effected state (utc_text t) text) db.execution_journal
            (λ r. refl),
      ),
    )
  ]
]

effect_again :
    (codec : Codec) (c : Uuid) (n : ℕ) (state : ContractState) (result : Option Text) (t : Instant)
    (event : MessageEnvelope) (db : Db) (row : JournalRow) (at : UtcText) (old : ContractState)
    (old_result : Text)
    → lookup_journal c n db ≡ some (effected old at old_result row)
    → write_effect codec c n state result t event db ≡ (ok false, db)
unfolding write_effect
effect_again codec c n state result t event db row at old old_result found = ground arith

commit_passes :
    (codec : Codec) (c : Uuid) (n : ℕ) (state : ContractState) (result : Option Text) (t : Instant)
    (event : MessageEnvelope) (db : Db)
    → (commit_dummy_effect codec c n state result t event db).0 ≡ ok true
    → (db' : Db)
    → commit_dummy_effect codec c n state result t event db'
      ≡ write_effect codec c n state result t event db'
unfolding commit_dummy_effect
commit_passes codec c n state result t event db done db' = elim (Option-cases (event_of event)) [
  | inl foreign ↦ absurd (ground arith)
  | inr (e, is_event) ↦ ground arith
]

-- A dummy effect that was committed, committed again with the same arguments, answers `False` and
-- changes nothing.
pub commit_again :
    (codec : Codec) (c : Uuid) (n : ℕ) (state : ContractState) (result : Option Text) (t : Instant)
    (event : MessageEnvelope) (db : Db)
    → (commit_dummy_effect codec c n state result t event db).0 ≡ ok true
    → commit_dummy_effect codec c n state result t event
        (commit_dummy_effect codec c n state result t event db).1
      ≡ (ok false, (commit_dummy_effect codec c n state result t event db).1)
commit_again codec c n state result t event db done =
    let same = commit_true codec c n state result t event db done in
    let after = (write_effect codec c n state result t event db).1 in
    let (row, text, left) =
      effect_leaves codec c n state result t event db
        (ap (λ (x : Result Bool × Db). x.0) (sym same) ∙ done) in
    subst
      (λ (x : Result Bool × Db).
        commit_dummy_effect codec c n state result t event x.1 ≡ (ok false, x.1))
      (sym same)
      (commit_passes codec c n state result t event db done after
        ∙ effect_again codec c n state result t event after row (utc_text t) state text left)
