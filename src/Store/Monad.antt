-- ===== src/Store/Monad.antt =====
-- A method of `NodeStore`: the state of the database and an exception. What was written before a
-- raise is still written; only `_transaction` takes it back.
use deferred_teleoperation.Base.{
  ℕ, Bool, Option, none, some, if◌then◌else◌, ◌≡◌, refl, ◌⊎◌, inl, inr,
}
use deferred_teleoperation.Wire.{Uuid}
use deferred_teleoperation.Store.Schema.{Db}

-- The exception classes; a `BudgetScopeConflictError` carries its attributes.
pub data StorageError : Type 0 where
  value_error key_error corrupt_record record_conflict invalid_transition : StorageError
  integrity_error budget_policy_conflict budget_deadline : StorageError
  budget_clock_rollback budget_limit invalid_proof : StorageError
  budget_scope_conflict : Uuid → Option Uuid → Option ℕ → StorageError

pub data Result {ℓ} (A : Type ℓ) : Type ℓ where
  ok : A → Result A
  err : StorageError → Result A

abbrev pub Action : Type 0 → Type 0
Action A = Db → Result A × Db

module _ {A : Type 0} where
  abbrev pub pure : A → Action A
  pure a db = (ok a, db)

  abbrev pub raise : StorageError → Action A
  raise e db = (err e, db)

  abbrev pub gets : (Db → A) → Action A
  gets f db = (ok (f db), db)

  abbrev pub or_raise : Option A → StorageError → Action A
  or_raise none e db = (err e, db)
  or_raise (some a) e db = (ok a, db)

infixl 5 ◌>>=◌ ◌>>◌
abbrev pub ◌>>=◌ : {A B : Type 0} → Action A → (A → Action B) → Action B
◌>>=◌ m f db = let (r, db') = m db in elim r [ ok a ↦ f a db' | err e ↦ (err e, db') ]

abbrev pub ◌>>◌ : {B : Type 0} → Action (Unit {0}) → Action B → Action B
m >> k = m >>= λ _. k

abbrev pub raise_if : Bool → StorageError → Action (Unit {0})
raise_if c e db = (if c then err e else ok tt, db)

abbrev pub modify : (Db → Db) → Action (Unit {0})
modify f db = (ok tt, f db)

-- `_transaction`: BEGIN IMMEDIATE, then COMMIT, or ROLLBACK when the body raises.
abbrev pub transaction : {A : Type 0} → Action A → Action A
transaction body db = let (r, db') = body db in elim r [ ok a ↦ (ok a, db') | err e ↦ (err e, db) ]

pub Result-cases {ℓ} :
    {A : Type ℓ} (r : Result A) → ((a : A) × (r ≡ ok a)) ⊎ ((e : StorageError) × (r ≡ err e))
Result-cases (ok a) = inl (a, refl)
Result-cases (err e) = inr (e, refl)
