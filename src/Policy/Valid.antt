-- ===== src/Policy/Valid.antt =====
-- `LocalTwoButtonDecision.__post_init__`, and the decisions of the policy.
use mathlib.Core.Option
use mathlib.Core.List.{Memᴰ}
use deferred_teleoperation.Base.{
  All-mem, All-find, ℕ, ◌≡◌, refl, Bool, true, false, not, ◌&&◌, Option, none, some, [], ◌∷◌, arith,
  ◌==◌, All, find, Option-cases, Bool-cases, inl, inr, mem-select, find_sound,
}
use deferred_teleoperation.Wire.{Text, is_blank}
use deferred_teleoperation.M3a.{
  EntityDetection, TwoButtonLevelEvidence, TwoButtonAction, Reason, BudgetState, not_admitted,
  zero_reservation_required, of_caller, LocalTwoButtonDecision, Digests, execute, reanchor_execute,
  hold_ambiguous, hold_reference_mismatch, hold_context_mismatch, recognize_effect,
  level_target_mismatch, level_device_mismatch, level_desired_state_mismatch, already_latched,
  displacement_exceeds_tolerance, reference_still_valid, same_id_reanchored, any_blank,
  is_valid_intent,
}
use deferred_teleoperation.Policy.{Geometry, distance, position}
use deferred_teleoperation.Policy.Reference.{
  valid, has_detection_id, is_candidate, verify_reference, verify_current_context,
  matching_unique_detection,
}
use deferred_teleoperation.Policy.Decide.{
  Evidence, decision, hold, level_shortcut, choose, decide_spatial, decide_verified,
  decide_two_button,
}
use deferred_teleoperation.Policy.Sound.{Check-cases, matching-IsTarget}

abbrev pub is_text : Option Text → Bool
is_text none = true
is_text (some t) = not (is_blank t)

abbrev pub is_budget : BudgetState → Bool
is_budget (of_caller t) = not (is_blank t)
is_budget _ = true

-- `_require_finite`, where there is a number; `is_measure` tells the finite doubles from 0.0 on.
abbrev pub is_displacement : (ℕ → Bool) → Option ℕ → Bool
is_displacement is_measure none = true
is_displacement is_measure (some x) = is_measure x

-- `LocalTwoButtonDecision.__post_init__`: `false` is an M3aTypeError.
unfoldable pub is_valid_decision : (ℕ → Bool) → LocalTwoButtonDecision → Bool
is_valid_decision is_measure d =
    d.intent_revision == 1
    && not (
        any_blank
          (d.semantic_effect_id ∷ d.reference_observation_id ∷ d.current_observation_id ∷ []))
    && is_budget d.budget_state
    && is_text d.selected_detection_id
    && is_displacement is_measure d.displacement_m
    && is_text d.command_digest
    && is_text d.level_evidence_observation_id

abbrev evidence_id : Option TwoButtonLevelEvidence → Option Text
evidence_id o = Option.map (λ (l : TwoButtonLevelEvidence). l.evidence_observation_id) o

-- Values that their own constructors returned, a budget state that is not blank, and detections whose
-- distances do not overflow.
pub record IsConstructed (is_negative is_measure : ℕ → Bool) (g : Geometry) (e : Evidence)
    : Type 0 where
  pub intent : is_valid_intent is_negative e.intent ≡ true
  pub current : is_blank e.current_observation.observation_id ≡ false
  pub detections :
      All
        (λ (d : EntityDetection). is_blank d.detection_id ≡ false)
        e.current_observation.detections
  pub level : is_text (evidence_id e.level_evidence) ≡ true
  pub budget : is_budget e.budget_state ≡ true
  pub measured :
      All
        (λ (r : EntityDetection).
          All
            (λ (c : EntityDetection).
              is_measure (distance g (position r.pose) (position c.pose)) ≡ true)
            e.current_observation.detections)
        e.reference_observation.detections

module _ (is_negative is_measure : ℕ → Bool) (g : Geometry) (e : Evidence)
    (built : IsConstructed is_negative is_measure g e) where
  intent_texts :
      (e.intent.intent_revision == 1 ≡ true)
      × (is_blank e.intent.semantic_effect_id ≡ false)
      × (is_blank e.intent.reference_observation_id ≡ false)
      × (is_blank e.intent.reference_detection_id ≡ false)
  unfolding is_valid_intent
  intent_texts = (
    ground (arith, built.intent),
    ground (arith, built.intent),
    ground (arith, built.intent),
    ground (arith, built.intent),
  )

  decision_valid :
      (action : TwoButtonAction) (reason : Reason) (selected : Option Text)
      (displacement : Option ℕ) (budget : BudgetState)
      → is_text selected ≡ true
      → is_displacement is_measure displacement ≡ true
      → is_budget budget ≡ true
      → is_valid_decision is_measure (decision e action reason selected displacement budget) ≡ true
  unfolding is_valid_decision decision
  decision_valid action reason selected displacement budget named finite funded =
      ground (arith, intent_texts, built.current, built.level)

  shortcut_valid :
      (d : LocalTwoButtonDecision)
      → level_shortcut e e.level_evidence ≡ some d
      → is_valid_decision is_measure d ≡ true
  unfolding level_shortcut decision
  shortcut_valid d decided = elim (Option-cases e.level_evidence) [
    | inl missing ↦ absurd (ground arith)
    | inr (l, given) ↦ ground (
      arith,
      decision_valid hold_context_mismatch level_target_mismatch none none not_admitted refl refl
          refl,
      decision_valid hold_context_mismatch level_device_mismatch none none not_admitted refl refl
          refl,
      decision_valid hold_reference_mismatch level_desired_state_mismatch none none not_admitted
          refl refl refl,
      decision_valid recognize_effect already_latched none none zero_reservation_required refl refl
          refl,
    )
  ]

  choose_valid :
      (r c : EntityDetection)
      → is_blank r.detection_id ≡ false
      → is_blank c.detection_id ≡ false
      → is_measure (distance g (position r.pose) (position c.pose)) ≡ true
      → is_valid_decision is_measure (choose g e r c) ≡ true
  unfolding choose decision
  choose_valid r c r_named c_named finite =
      let moved = distance g (position r.pose) (position c.pose) in
      elim (Bool-cases (g.exceeds moved e.intent.max_displacement_m)) [
        | inl far ↦ rw far (
            decision_valid hold_ambiguous displacement_exceeds_tolerance none (some moved)
              e.budget_state refl finite built.budget)
        | inr near ↦ elim (Bool-cases (g.is_zero moved)) [
          | inl still ↦
              rw (near, still)
                (decision_valid execute reference_still_valid (some r.detection_id) (some moved)
                  e.budget_state (ground arith) finite built.budget)
          | inr changed ↦
              rw (near, changed)
                (decision_valid reanchor_execute same_id_reanchored (some c.detection_id)
                  (some moved) e.budget_state (ground arith) finite built.budget)
        ]
      ]

  reference_named :
      (r : EntityDetection)
      → find (has_detection_id e.intent.reference_detection_id) e.reference_observation.detections
        ≡ some r
      → is_blank r.detection_id ≡ false
  reference_named r found =
      let same =
        find_sound (has_detection_id e.intent.reference_detection_id)
          e.reference_observation.detections r found in
      ground (arith, intent_texts)

  current_there :
      (c : EntityDetection)
      → matching_unique_detection e.current_observation e.intent.target_entity_id ≡ valid c
      → Memᴰ c e.current_observation.detections
  current_there c found =
      let target = matching-IsTarget e.current_observation e.intent.target_entity_id c found in
      (mem-select (is_candidate e.intent.target_entity_id) c e.current_observation.detections
        (rw target.only (Memᴰ.head refl))).0

  current_named :
      (c : EntityDetection)
      → matching_unique_detection e.current_observation e.intent.target_entity_id ≡ valid c
      → is_blank c.detection_id ≡ false
  current_named c found =
      All-mem (λ (d : EntityDetection). is_blank d.detection_id ≡ false)
        e.current_observation.detections c built.detections (current_there c found)

  near_enough :
      (r c : EntityDetection)
      → find (has_detection_id e.intent.reference_detection_id) e.reference_observation.detections
        ≡ some r
      → matching_unique_detection e.current_observation e.intent.target_entity_id ≡ valid c
      → is_measure (distance g (position r.pose) (position c.pose)) ≡ true
  near_enough r c there found =
      All-mem
        (λ (d : EntityDetection).
          is_measure (distance g (position r.pose) (position d.pose)) ≡ true)
        e.current_observation.detections c
        (All-find
          (λ (x : EntityDetection).
            All
              (λ (d : EntityDetection).
                is_measure (distance g (position x.pose) (position d.pose)) ≡ true)
              e.current_observation.detections)
          (has_detection_id e.intent.reference_detection_id) e.reference_observation.detections r
          built.measured there)
        (current_there c found)

  spatial_valid :
      (d : LocalTwoButtonDecision)
      → decide_spatial g e ≡ some d
      → is_valid_decision is_measure d ≡ true
  unfolding decide_spatial
  spatial_valid d decided =
      elim (Check-cases
        (matching_unique_detection e.current_observation e.intent.target_entity_id)) [
          | inr (action, reason, refusal) ↦
              let same : decision e hold_ambiguous reason none none e.budget_state ≡ d =
                ground arith in
              rw (← same) (
                decision_valid hold_ambiguous reason none none e.budget_state refl refl
                  built.budget)
          | inl (c, found) ↦
              elim (Option-cases (
                find (has_detection_id e.intent.reference_detection_id)
                  e.reference_observation.detections)) [
                    | inl missing ↦ absurd (ground arith)
                    | inr (r, there) ↦
                        let same : choose g e r c ≡ d = ground arith in
                        rw (← same) (
                          choose_valid r c (reference_named r there) (current_named c found)
                            (near_enough r c there found))
                  ]
        ]

  verified_valid :
      (d : LocalTwoButtonDecision)
      → decide_verified g e ≡ some d
      → is_valid_decision is_measure d ≡ true
  unfolding decide_verified
  verified_valid d decided = elim (Option-cases (level_shortcut e e.level_evidence)) [
    | inl missing ↦ spatial_valid d (ground arith)
    | inr (s, shortcut) ↦ shortcut_valid d (ground arith)
  ]

  -- For an intent that its constructor accepts, a current observation and detections with
  -- identifiers that are not blank, level evidence whose observation identifier is not blank if
  -- there is any, a budget state that is not blank, and distances between the detections of both
  -- observations that are finite and not negative, every decision of the policy passes the checks
  -- of `LocalTwoButtonDecision`.
  pub decide_two_button_valid :
      (h : Digests) (d : LocalTwoButtonDecision)
      → decide_two_button h g e ≡ some d
      → is_valid_decision is_measure d ≡ true
  unfolding decide_two_button
  decide_two_button_valid h d decided =
      elim (Check-cases (verify_reference h g e.intent e.reference_observation)) [
        | inr (action, reason, refusal) ↦
            let same : hold e action reason ≡ d = ground arith in
            rw (← same) (decision_valid action reason none none not_admitted refl refl refl)
        | inl (tt, reference_ok) ↦
            elim (Check-cases (
              verify_current_context h e.intent e.reference_observation e.current_observation
                e.expected_source_id)) [
                  | inr (action, reason, refusal) ↦
                      let same : decision e action reason none none e.budget_state ≡ d =
                        ground arith in
                      rw (← same) (
                        decision_valid action reason none none e.budget_state refl refl
                          built.budget)
                  | inl (tt, context_ok) ↦ verified_valid d (ground arith)
                ]
      ]
