-- ===== src/Store/Decision/Repeated.antt =====
-- A decision that is recorded again, and the consequences of the first record.
use deferred_teleoperation.Base.{
  ℕ, ◌≡◌, refl, sym, ap, ◌∙◌, subst, Bool, true, false, Option, none, some, List, [], ◌∷◌, arith,
  opt_eq, find, insert, find-insert, ==_refl, All, Option-cases, inl, inr,
}
use deferred_teleoperation.Wire.{Codec, MessageEnvelope}
use deferred_teleoperation.Store.Schema.{DecisionRow, Db}
use deferred_teleoperation.Store.Monad.{Result, ok, Result-cases}
use deferred_teleoperation.Store.Outbox.{insert_outbox, insert_all}
use deferred_teleoperation.Store.Outbox.Delivery.{stored, Holds}
use deferred_teleoperation.Store.Inbox.Handling.{insert_all-Holds}
use deferred_teleoperation.Store.Denial.{decides}
use deferred_teleoperation.Store.Decision.{
  Decision, decision_row, same_decision, lookup_decision, write_decision, record_m3a_decision,
}

insert_outbox_held :
    (codec : Codec) (e : MessageEnvelope) (db : Db)
    → Holds codec db.outbox e
    → insert_outbox codec e db ≡ (ok false, db)
unfolding insert_outbox
insert_outbox_held codec e db h = elim (Option-cases (stored e.message_id db)) [
  | inl gone ↦ absurd (ground arith)
  | inr (row, found) ↦ ground arith
]

insert_all_held :
    (codec : Codec) (es : List MessageEnvelope) (db : Db)
    → All (Holds codec db.outbox) es
    → insert_all codec es db ≡ (ok tt, db)
unfolding insert_all
insert_all_held codec [] db h = refl
insert_all_held codec (e ∷ es) db h =
    ground (arith, insert_outbox_held codec e db h.0, insert_all_held codec es db h.1)

insert_all-decision :
    (codec : Codec) (es : List MessageEnvelope) (db : Db)
    → (insert_all codec es db).1.m3a_decision ≡ db.m3a_decision
unfolding insert_all insert_outbox
insert_all-decision codec [] db = refl
insert_all-decision codec (e ∷ es) db =
    ground (arith, insert_all-decision codec es (insert_outbox codec e db).1)

opt_eq_refl : (a : Option ℕ) → opt_eq a a ≡ true
opt_eq_refl none = refl
opt_eq_refl (some a) = ==_refl a

same_decision_refl : (row : DecisionRow) → same_decision row row ≡ true
same_decision_refl row =
    rw
      (
        ==_refl row.operation_id,
        ==_refl row.decision_envelope_json,
        ==_refl row.level_envelope_json,
        opt_eq_refl row.held_event_json,
        opt_eq_refl row.command_envelope_json,
        ==_refl row.business_result,
      )
      refl

-- What a recorded decision leaves: the decision itself and every consequence.
abbrev Leaves : Codec → Decision → Db → Type 0
Leaves codec d db =
    (row : DecisionRow) × (lookup_decision d.contract_id d.contract_revision db ≡ some row)
    × (same_decision row (decision_row codec d) ≡ true)
    × All (Holds codec db.outbox) d.outgoing

stored_decision :
    (codec : Codec) (d : Decision) (db : List DecisionRow)
    → find (decides d.contract_id d.contract_revision) db ≡ none
    → find (decides d.contract_id d.contract_revision) (insert (decision_row codec d) db)
      ≡ some (decision_row codec d)
unfolding decision_row
stored_decision codec d db new = ground (
  arith,
  find-insert (decides d.contract_id d.contract_revision) (decision_row codec d) db,
  ==_refl d.contract_id,
  ==_refl d.contract_revision,
)

-- The table of decisions with the new row, where the consequences are then sent.
abbrev recorded : Codec → Decision → Db → Db
recorded codec d db = record db { m3a_decision = insert (decision_row codec d) db.m3a_decision }

write-Leaves :
    (codec : Codec) (d : Decision) (db : Db) (b : Bool)
    → (write_decision codec d db).0 ≡ ok b
    → Leaves codec d (write_decision codec d db).1
unfolding write_decision
write-Leaves codec d db b done =
    elim (Option-cases (lookup_decision d.contract_id d.contract_revision db)) [
      | inr (row, found) ↦ elim (Result-cases (insert_all codec d.outgoing db).0) [
        | inr (x, failure) ↦ absurd (ground arith)
        | inl (u, sent) ↦ (
          row,
          ground (arith, insert_all-decision codec d.outgoing db),
          ground arith,
          ground (arith, insert_all-Holds codec d.outgoing db),
        )
      ]
      | inl new ↦ elim (Result-cases (insert_all codec d.outgoing (recorded codec d db)).0) [
        | inr (x, failure) ↦ absurd (ground arith)
        | inl (u, sent) ↦ (
          decision_row codec d,
          ground (
            arith,
            insert_all-decision codec d.outgoing (recorded codec d db),
            stored_decision codec d db.m3a_decision,
          ),
          same_decision_refl (decision_row codec d),
          ground (arith, insert_all-Holds codec d.outgoing (recorded codec d db)),
        )
      ]
    ]

write_again :
    (codec : Codec) (d : Decision) (db : Db)
    → Leaves codec d db
    → write_decision codec d db ≡ (ok false, db)
unfolding write_decision
write_again codec d db (row, found, same, sent) =
    ground (arith, insert_all_held codec d.outgoing db sent)

record_passes :
    (codec : Codec) (d : Decision) (db : Db) (b : Bool)
    → (record_m3a_decision codec d db).0 ≡ ok b
    → (db' : Db) → record_m3a_decision codec d db' ≡ write_decision codec d db'
unfolding record_m3a_decision
record_passes codec d db b done db' = ground arith

-- After a decision was recorded without an error, every outgoing message is in the outbox with its
-- text, and recording the same decision again reports a duplicate and changes nothing.
pub record_m3a_decision_again :
    (codec : Codec) (d : Decision) (db : Db) (b : Bool)
    → (record_m3a_decision codec d db).0 ≡ ok b
    → (record_m3a_decision codec d (record_m3a_decision codec d db).1
        ≡ (ok false, (record_m3a_decision codec d db).1))
      × All (Holds codec (record_m3a_decision codec d db).1.outbox) d.outgoing
record_m3a_decision_again codec d db b done =
    let same = record_passes codec d db b done in
    let after = (write_decision codec d db).1 in
    let left =
      write-Leaves codec d db b (ap (λ (r : Result Bool × Db). r.0) (sym (same db)) ∙ done) in
    subst
      (λ (r : Result Bool × Db).
        (record_m3a_decision codec d r.1 ≡ (ok false, r.1))
        × All (Holds codec r.1.outbox) d.outgoing)
      (sym (same db)) (same after ∙ write_again codec d after left, left.3)
