-- ===== src/Runtime.antt =====
-- python/src/deferred_teleop/runtime.py: `RuntimeService` over the store of its node, and the handler of
-- `MissionService`. Each reading of the clock is the next instant of a sequence.
use mathlib.Core.Option
use deferred_teleoperation.Base.{ℕ, zero, suc, ◌*◌, ◌+◌, Option, none, some, List, [], count}
use deferred_teleoperation.Time.{Instant}
use deferred_teleoperation.Wire.{Text, Uuid, MessageEnvelope, MessageType, Codec, payload_type}
use deferred_teleoperation.Store.Schema.{Reference, plain}
use deferred_teleoperation.Store.Monad.{Action, ok, err, pure, gets, ◌>>=◌, ◌>>◌}
use deferred_teleoperation.Store.Inbox.{
  claimable, recover_interrupted_processing, claim_next_inbox, claim_inbox, complete_inbox,
}
pub mod Drain
pub mod Recovery
pub mod Handle
pub mod Factory

-- `process_claimed` of a subclass, at the instant that its clock reads.
abbrev pub Process : Type 0
Process = Instant → MessageEnvelope → Action (Unit {0})

-- `RuntimeService.handle`.
unfoldable pub handle : Codec → Process → (ℕ → Instant) → Uuid → Action (Unit {0})
handle codec process clock message_id = do
  claimed ← claim_inbox codec message_id
  elim claimed [
    | none ↦ pure tt
    | some envelope ↦ do
      process (clock 0) envelope
      retry ← claim_next_inbox codec
      elim retry [ none ↦ pure tt | some older ↦ process (clock 1) older ]
  ]

-- The loop of `recover`, with the rounds that are left and the rounds that were made.
unfoldable pub retry_pass : Codec → Process → (ℕ → Instant) → ℕ → ℕ → Action (Unit {0})
retry_pass codec process clock zero made = pure tt
retry_pass codec process clock (suc left) made = do
  next ← claim_next_inbox codec
  elim next [
    | none ↦ pure tt
    | some envelope ↦ do
      process (clock made) envelope
      retry_pass codec process clock left (made + 1)
  ]

-- `RuntimeService.recover`.
unfoldable pub recover : Codec → Process → (ℕ → Instant) → Action ℕ
recover codec process clock = do
  recovered ← recover_interrupted_processing
  rounds ← gets (λ db. count claimable db.inbox)
  retry_pass codec process clock (rounds * 2) 0
  pure recovered

-- `MissionService.process_claimed`; `view_reference` is the text of `mission-view:` and a message type.
unfoldable pub process_claimed : Codec → (MessageType → Text) → Process
process_claimed codec view_reference now envelope =
    complete_inbox codec envelope.message_id now
      (plain (view_reference (payload_type envelope.payload))) []
