-- ===== src/Store/Effect/Proofs.antt =====
-- The proofs of effects under any sequence of calls, and a call that is repeated.
use deferred_teleoperation.Base.{
  ℕ, ◌≡◌, Bool, false, Option, some, List, [], ◌∷◌, arith, find, find-insert, ==_refl, Option-cases,
  inl, inr,
}
use deferred_teleoperation.Time.{Instant}
use deferred_teleoperation.Wire.{Text, Uuid, Codec, MessageEnvelope, EffectEvidence}
use deferred_teleoperation.Store.Schema.{EffectRow, Db}
use deferred_teleoperation.Store.Monad.{ok}
use deferred_teleoperation.Store.Effect.{
  effect_of, effect_row, proves, write_binding, bind_m3a_effect, bind_m3a_effect_diagnostic,
  record_m3a_effect_conflict,
}

abbrev pub proof_of : Uuid → ℕ → Db → Option EffectRow
proof_of contract_id revision db = find (proves contract_id revision) db.m3a_effect_binding

-- One call that deals with the proof of an effect.
pub data EffectOp : Type 0 where
  bind_op : MessageEnvelope → Instant → EffectOp
  diagnostic_op : MessageEnvelope → Instant → EffectOp
  conflict_op : MessageEnvelope → Text → Instant → EffectOp

unfoldable pub apply : Codec → EffectOp → Db → Db
apply codec (bind_op e t) db = (bind_m3a_effect codec e t db).1
apply codec (diagnostic_op e t) db = (bind_m3a_effect_diagnostic codec e t db).1
apply codec (conflict_op e reason t) db = (record_m3a_effect_conflict codec e reason t db).1

unfoldable pub apply_all : Codec → List EffectOp → Db → Db
apply_all codec [] db = db
apply_all codec (op ∷ ops) db = apply_all codec ops (apply codec op db)

binding-keeps :
    (verified : Bool) (new : EffectRow) (c : Uuid) (n : ℕ) (row : EffectRow) (db : Db)
    → proof_of c n db ≡ some row
    → proof_of c n (write_binding verified new db).1 ≡ some row
unfolding write_binding
binding-keeps verified new c n row db h =
    ground (arith, find-insert (proves c n) new db.m3a_effect_binding)

apply-proof :
    (codec : Codec) (op : EffectOp) (c : Uuid) (n : ℕ) (row : EffectRow) (db : Db)
    → proof_of c n db ≡ some row
    → proof_of c n (apply codec op db) ≡ some row
unfolding apply bind_m3a_effect bind_m3a_effect_diagnostic record_m3a_effect_conflict
apply-proof codec (bind_op e t) c n row db h = elim (Option-cases (effect_of e)) [
  | inl foreign ↦ ground arith
  | inr (effect, is_effect) ↦ ground (
    arith,
    binding-keeps effect.command_digest_verified (effect_row codec e effect t) c n row db h,
  )
]
apply-proof codec (diagnostic_op e t) c n row db h = elim (Option-cases (effect_of e)) [
  | inl foreign ↦ ground arith
  | inr (effect, is_effect) ↦ ground arith
]
apply-proof codec (conflict_op e reason t) c n row db h = elim (Option-cases (effect_of e)) [
  | inl foreign ↦ ground arith
  | inr (effect, is_effect) ↦ ground arith
]

-- The bound proof of a contract's effect stays the same through any sequence of calls of
-- `bind_m3a_effect`, `bind_m3a_effect_diagnostic` and `record_m3a_effect_conflict`.
pub proof_bound_forever :
    (codec : Codec) (ops : List EffectOp) (c : Uuid) (n : ℕ) (row : EffectRow) (db : Db)
    → proof_of c n db ≡ some row
    → proof_of c n (apply_all codec ops db) ≡ some row
unfolding apply_all
proof_bound_forever codec [] c n row db h = h
proof_bound_forever codec (op ∷ ops) c n row db h =
    proof_bound_forever codec ops c n row (apply codec op db) (apply-proof codec op c n row db h)

-- For effect evidence whose command digest is not verified, neither `bind_m3a_effect` nor
-- `bind_m3a_effect_diagnostic` changes the bound proofs.
pub unverified_never_binds :
    (codec : Codec) (e : MessageEnvelope) (effect : EffectEvidence) (t : Instant) (db : Db)
    → effect_of e ≡ some effect
    → effect.command_digest_verified ≡ false
    → ((bind_m3a_effect codec e t db).1.m3a_effect_binding ≡ db.m3a_effect_binding)
      × ((bind_m3a_effect_diagnostic codec e t db).1.m3a_effect_binding ≡ db.m3a_effect_binding)
unfolding bind_m3a_effect bind_m3a_effect_diagnostic
unverified_never_binds codec e effect t db is_effect unverified = (ground arith, ground arith)

-- A call of `bind_m3a_effect` that did not raise, made again with the same message at any time,
-- answers `False` and changes nothing.
pub bind_m3a_effect_again :
    (codec : Codec) (e : MessageEnvelope) (t u : Instant) (db : Db) (b : Bool)
    → (bind_m3a_effect codec e t db).0 ≡ ok b
    → bind_m3a_effect codec e u (bind_m3a_effect codec e t db).1
      ≡ (ok false, (bind_m3a_effect codec e t db).1)
unfolding bind_m3a_effect effect_row
bind_m3a_effect_again codec e t u db b h = elim (Option-cases (effect_of e)) [
  | inl foreign ↦ ground arith
  | inr (effect, is_effect) ↦ ground (
    arith,
    find-insert (proves effect.contract_id effect.contract_revision) (effect_row codec e effect t)
        db.m3a_effect_binding,
    ==_refl effect.contract_id,
    ==_refl effect.contract_revision,
    ==_refl effect.operation_id,
    ==_refl effect.intent_revision,
    ==_refl (codec.payload_digest (codec.effect_json effect)),
    ==_refl (codec.effect_json effect),
    ==_refl e.source_id,
    ==_refl e.destination_id,
    ==_refl e.correlation_id,
  )
]
