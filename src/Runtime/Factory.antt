-- ===== src/Runtime/Factory.antt =====
-- `EnvelopeFactory` of python/src/deferred_teleop/runtime.py, for values that the envelope's validators
-- accept. An instant is a number of microseconds.
use mathlib.Core.Option
use deferred_teleoperation.Base.{
  ℕ, ◌+◌, ◌≡◌, ◌≤◌, ◌<◌, Option, none, some, List, [], ◌∷◌, if◌then◌else◌,
}
use deferred_teleoperation.Time.{Instant}
use deferred_teleoperation.Wire.{Text, Uuid, is_blank, Payload, MessageEnvelope}

-- `sequence` is `_sequence`.
pub record EnvelopeFactory : Type 0 where
  pub node_id : Text
  pub boot_id : Uuid
  pub sequence : ℕ

-- The arguments of `make`.
pub record Arguments : Type 0 where
  pub destination_id : Text
  pub correlation_id : Uuid
  pub payload : Payload
  pub causation_id : Option Uuid
  pub not_before : Option Instant
  pub expires_at : Option Instant
  pub message_id : Option Uuid
  pub created_at : Option Instant
  pub source_id : Option Text
  pub source_boot_id : Option Uuid

-- `source_id or self.node_id`.
abbrev pub text_or : Option Text → Text → Text
text_or none default = default
text_or (some t) default = if is_blank t then default else t

-- `make`, where the clock reads `now` and `uuid_factory()` is `fresh`.
unfoldable pub make :
    EnvelopeFactory → Arguments → Instant → Uuid → MessageEnvelope × EnvelopeFactory
make f a now fresh =
    let sequence = f.sequence + 1 in
    (
      record {
        message_id = Option.get_or a.message_id fresh;
        source_id = text_or a.source_id f.node_id;
        source_boot_id = Option.get_or a.source_boot_id f.boot_id;
        source_sequence = sequence;
        destination_id = a.destination_id;
        correlation_id = a.correlation_id;
        causation_id = a.causation_id;
        created_at = Option.get_or a.created_at (now + sequence);
        not_before = a.not_before;
        expires_at = a.expires_at;
        payload = a.payload;
      },
      record f { sequence = sequence },
    )

-- A call of `make`, with what the clock and the UUIDs answer it.
pub record Call : Type 0 where
  pub arguments : Arguments
  pub now : Instant
  pub fresh : Uuid

unfoldable pub make_all : EnvelopeFactory → List Call → List MessageEnvelope × EnvelopeFactory
unfolding make
make_all f [] = ([], f)
make_all f (c ∷ calls) =
    let (envelope, next) = make f c.arguments c.now c.fresh in
    let (envelopes, last) = make_all next calls in (envelope ∷ envelopes, last)

-- The clock does not go back from one call to the next, and no call sets the time of creation itself.
abbrev pub IsForward : Instant → List Call → Type 0
IsForward earlier [] = Unit
IsForward earlier (c ∷ calls) =
    (earlier ≤ c.now) × (c.arguments.created_at ≡ none) × IsForward c.now calls

-- Each message is created after the one before, and numbered next.
abbrev pub IsIncreasing : Instant → ℕ → List MessageEnvelope → Type 0
IsIncreasing created sequence [] = Unit
IsIncreasing created sequence (e ∷ rest) =
    (created < e.created_at)
    × (e.source_sequence ≡ sequence + 1)
    × IsIncreasing e.created_at e.source_sequence rest
