-- ===== src/Store/Dispatch/Once.antt =====
-- How often a contract is dispatched and concluded in a sequence of calls.
use deferred_teleoperation.Base.{
  ℕ, ◌≡◌, ◌≤◌, sym, ap, subst, ◌∙◌, Bool, true, false, ◌&&◌, List, arith, ◌==◌, Option-cases, inl,
  inr, count_fires, at_most_once,
}
use deferred_teleoperation.Wire.{Uuid, Codec}
use deferred_teleoperation.Store.Schema.{Db}
use deferred_teleoperation.Store.Monad.{Result, ok, err}
use deferred_teleoperation.Store.Journal.{lookup_journal, record_dispatch, commit_dummy_effect}
use deferred_teleoperation.Store.Budget.{reserve_external_dispatch_with_budget}
use deferred_teleoperation.Store.Outcome.{ResultCodec, resolve_external_outcome}
use deferred_teleoperation.Store.Dispatch.Rows.{Advances-dispatch, Advances-terminal}
use deferred_teleoperation.Store.Dispatch.History.{
  JournalOp, accept_op, admit_op, deny_op, dispatch_op, reserve_op, commit_op, resolve_op, run,
  SoundAt, run-SoundAt, run-Advances,
}
use deferred_teleoperation.Store.Dispatch.Marks.{
  is_dispatched, is_concluded, MarksDispatch, MarksEnd, dispatch_marks, reservation_marks,
  effect_marks, outcome_marks, reserve_true, commit_true, resolve_true,
}

abbrev pub answers_true : Result Bool → Bool
answers_true (ok b) = b
answers_true (err e) = false

-- A call of `record_dispatch` or of `reserve_external_dispatch_with_budget` for the contract.
abbrev pub asks_dispatch : Uuid → ℕ → JournalOp → Bool
asks_dispatch c n (dispatch_op k m _ _) = k == c && m == n
asks_dispatch c n (reserve_op k m _ _ _ _) = k == c && m == n
asks_dispatch c n _ = false

-- A call of `commit_dummy_effect` or of `resolve_external_outcome` for the contract.
abbrev pub asks_conclusion : Uuid → ℕ → JournalOp → Bool
asks_conclusion c n (commit_op k m _ _ _ _) = k == c && m == n
asks_conclusion c n (resolve_op r) = r.contract_id == c && r.contract_revision == n
asks_conclusion c n _ = false

module _ (codec : Codec) (values : ResultCodec) where
  -- A call that grants the dispatch of the contract: it answers `True`.
  abbrev pub grants : Uuid → ℕ → JournalOp → Db → Bool
  grants c n op db = asks_dispatch c n op && answers_true (run codec values op db).0

  -- A call that concludes the contract: it answers `True`.
  abbrev pub concludes : Uuid → ℕ → JournalOp → Db → Bool
  concludes c n op db = asks_conclusion c n op && answers_true (run codec values op db).0

  unfoldable pub step : JournalOp → Db → Db
  step op db = (run codec values op db).1

  grants_marks :
      (c : Uuid) (n : ℕ) (op : JournalOp) (db : Db)
      → grants c n op db ≡ true
      → MarksDispatch c n db (step op db)
  unfolding run step
  grants_marks c n (dispatch_op k m t device) db h =
      let one : k ≡ c = ground arith in
      let two : m ≡ n = ground arith in
      let done : (record_dispatch k m t device db).0 ≡ ok true = ground arith in
      subst (λ (q : Uuid × ℕ). MarksDispatch q.0 q.1 db (record_dispatch k m t device db).1)
        {x = (k, m)} {y = (c, n)} (ground arith) (dispatch_marks k m t device db done)
  grants_marks c n (reserve_op k m t device policy digest) db h =
      let one : k ≡ c = ground arith in
      let two : m ≡ n = ground arith in
      let done : (reserve_external_dispatch_with_budget codec k m t device policy digest db).0
          ≡ ok true =
        ground arith in
      let same = reserve_true codec k m t device policy digest db done in
      subst
        (λ (q : Uuid × ℕ).
          MarksDispatch q.0 q.1 db
            (reserve_external_dispatch_with_budget codec k m t device policy digest db).1)
        {x = (k, m)} {y = (c, n)} (ground arith)
        (subst (λ (r : Result Bool × Db). MarksDispatch k m db r.1) (sym same)
          (reservation_marks k m t device policy digest db
            (ap (λ (r : Result Bool × Db). r.0) (sym same) ∙ done)))
  grants_marks c n (accept_op _ _) db h = absurd (ground arith)
  grants_marks c n (commit_op _ _ _ _ _ _) db h = absurd (ground arith)
  grants_marks c n (admit_op _ _ _ _) db h = absurd (ground arith)
  grants_marks c n (resolve_op _) db h = absurd (ground arith)
  grants_marks c n (deny_op _) db h = absurd (ground arith)

  concludes_marks :
      (c : Uuid) (n : ℕ) (op : JournalOp) (db : Db)
      → concludes c n op db ≡ true
      → MarksEnd c n db (step op db)
  unfolding run step
  concludes_marks c n (commit_op k m state result t event) db h =
      let one : k ≡ c = ground arith in
      let two : m ≡ n = ground arith in
      let done : (commit_dummy_effect codec k m state result t event db).0 ≡ ok true =
        ground arith in
      let same = commit_true codec k m state result t event db done in
      subst
        (λ (q : Uuid × ℕ).
          MarksEnd q.0 q.1 db (commit_dummy_effect codec k m state result t event db).1)
        {x = (k, m)} {y = (c, n)} (ground arith)
        (subst (λ (r : Result Bool × Db). MarksEnd k m db r.1) (sym same)
          (effect_marks codec k m state result t event db
            (ap (λ (r : Result Bool × Db). r.0) (sym same) ∙ done)))
  concludes_marks c n (resolve_op r) db h =
      let one : r.contract_id ≡ c = ground arith in
      let two : r.contract_revision ≡ n = ground arith in
      let done : (resolve_external_outcome codec values r db).0 ≡ ok true = ground arith in
      let (p, encoded, same) = resolve_true codec values r db done in
      subst (λ (q : Uuid × ℕ). MarksEnd q.0 q.1 db (resolve_external_outcome codec values r db).1)
        {x = (r.contract_id, r.contract_revision)} {y = (c, n)} (ground arith)
        (subst (λ (s : Result Bool × Db). MarksEnd r.contract_id r.contract_revision db s.1)
          (sym same)
          (outcome_marks codec r p encoded db
            (ap (λ (s : Result Bool × Db). s.0) (sym same) ∙ done)))
  concludes_marks c n (accept_op _ _) db h = absurd (ground arith)
  concludes_marks c n (dispatch_op _ _ _ _) db h = absurd (ground arith)
  concludes_marks c n (reserve_op _ _ _ _ _ _) db h = absurd (ground arith)
  concludes_marks c n (admit_op _ _ _ _) db h = absurd (ground arith)
  concludes_marks c n (deny_op _) db h = absurd (ground arith)

  dispatched_stays :
      (c : Uuid) (n : ℕ) (op : JournalOp) (db : Db)
      → SoundAt c n db
      → is_dispatched c n db ≡ true
      → is_dispatched c n (step op db) ≡ true
  unfolding step
  dispatched_stays c n op db h d = elim (Option-cases (lookup_journal c n db)) [
    | inl gone ↦ absurd (ground arith)
    | inr (row, found) ↦
        let (next, found_next, adv, sound) = run-Advances codec values c n op db row h found in
        let (at, device) = Advances-dispatch row next adv sound (ground arith) in ground arith
  ]

  concluded_stays :
      (c : Uuid) (n : ℕ) (op : JournalOp) (db : Db)
      → SoundAt c n db
      → is_concluded c n db ≡ true
      → is_concluded c n (step op db) ≡ true
  unfolding step
  concluded_stays c n op db h d = elim (Option-cases (lookup_journal c n db)) [
    | inl gone ↦ absurd (ground arith)
    | inr (row, found) ↦
        let (next, found_next, adv, sound) = run-Advances codec values c n op db row h found in
        let same = Advances-terminal row next adv sound (ground arith) in ground arith
  ]

  run_step :
      (c : Uuid) (n : ℕ) (op : JournalOp) (db : Db) → SoundAt c n db → SoundAt c n (step op db)
  unfolding step
  run_step c n op db h = run-SoundAt codec values c n op db h

  -- From a store where the contract's journal row, if there is one, is sound: in any sequence of
  -- calls of the seven operations that write the journal, at most one answers `True` to a request
  -- to dispatch the contract, whether by `record_dispatch` or by
  -- `reserve_external_dispatch_with_budget`.
  pub dispatch_granted_once :
      (c : Uuid) (n : ℕ) (ops : List JournalOp) (db : Db)
      → SoundAt c n db
      → count_fires step (grants c n) ops db ≤ 1
  dispatch_granted_once c n ops db h =
      at_most_once step (grants c n) (is_dispatched c n) (SoundAt c n) (run_step c n)
        (dispatched_stays c n) (grants_marks c n) ops db h

  -- From a store where the contract's journal row, if there is one, is sound: in any sequence of
  -- calls of the seven operations that write the journal, at most one answers `True` to a request
  -- to conclude the contract, whether by `commit_dummy_effect` or by `resolve_external_outcome`.
  pub concluded_once :
      (c : Uuid) (n : ℕ) (ops : List JournalOp) (db : Db)
      → SoundAt c n db
      → count_fires step (concludes c n) ops db ≤ 1
  concluded_once c n ops db h =
      at_most_once step (concludes c n) (is_concluded c n) (SoundAt c n) (run_step c n)
        (concluded_stays c n) (concludes_marks c n) ops db h
