-- ===== src/Store/Dispatch/Transitions.antt =====
-- The steps of the journal beside `CONTRACT_TRANSITIONS` of
-- python/src/deferred_teleop/protocol.py, which every event on the wire is checked against.
use deferred_teleoperation.Base.{ℕ, ◌≡◌, refl, true, some, arith}
use deferred_teleoperation.Wire.{
  Uuid, Codec, ContractState, received, accepted, dispatch_recorded, running, succeeded, failed,
  held, cancelled, may_follow,
}
use deferred_teleoperation.Store.Schema.{JournalRow, Db}
use deferred_teleoperation.Store.Journal.{is_terminal, lookup_journal}
use deferred_teleoperation.Store.Outcome.{ResultCodec}
use deferred_teleoperation.Store.Dispatch.Rows.{Advances, stay, dispatch, conclude, refuse}
use deferred_teleoperation.Store.Dispatch.History.{JournalOp, run, SoundAt, run-Advances}

-- How one call may move the state of a contract: not at all, by one transition of the protocol, or by
-- two of them to a terminal state, through `RUNNING`, which the journal does not store.
infix 40 ◌⇝◌
pub data ◌⇝◌ : ContractState → ContractState → Type 0 where
  rest : {s : ContractState} → s ⇝ s
  event : {s t : ContractState} → may_follow s t ≡ true → s ⇝ t
  through_running :
      {s t : ContractState}
      → may_follow s running ≡ true
      → may_follow running t ≡ true
      → is_terminal t ≡ true
      → s ⇝ t

ends : (t : ContractState) → is_terminal t ≡ true → dispatch_recorded ⇝ t
unfolding may_follow
ends succeeded h = through_running refl refl refl
ends failed h = through_running refl refl refl
ends held h = through_running refl refl refl
ends cancelled h = through_running refl refl refl
ends received h = absurd (ground arith)
ends accepted h = absurd (ground arith)
ends dispatch_recorded h = absurd (ground arith)
ends running h = absurd (ground arith)

Advances-moves : (a b : JournalRow) → Advances a b → a.state ⇝ b.state
unfolding may_follow
Advances-moves a b (stay e) = rw e rest
Advances-moves a b (dispatch s s' d t e same) = rw (s, s') (event refl)
Advances-moves a b (conclude s t end e d v same) = rw s (ends b.state t)
Advances-moves a b (refuse s s' t e d v same) = rw (s, s') (event refl)

-- A call of any of the seven operations that write the journal keeps the sound row of a contract;
-- the state of the row stays, or moves by one transition of the protocol, or by two of them
-- through `RUNNING` to a terminal state.
pub call_follows_protocol :
    (codec : Codec) (values : ResultCodec) (c : Uuid) (n : ℕ) (op : JournalOp) (db : Db)
    (row : JournalRow)
    → SoundAt c n db
    → lookup_journal c n db ≡ some row
    → (row' : JournalRow) × (lookup_journal c n (run codec values op db).1 ≡ some row')
      × (row.state ⇝ row'.state)
call_follows_protocol codec values c n op db row h found =
    let (next, found_next, adv, sound) = run-Advances codec values c n op db row h found in
    (next, found_next, Advances-moves row next adv)
