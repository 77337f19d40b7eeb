-- ===== src/Policy/Recognize.antt =====
-- Whether `decide_two_button` reaches a decision, and what a recognised effect rests on.
use deferred_teleoperation.Base.{
  ◌≡◌, Bool, true, false, none, some, arith, find, Option-cases, inl, inr, ◌⊎◌,
}
use deferred_teleoperation.M3a.{
  EntityDetection, TwoButtonLevelEvidence, TwoButtonAction, recognize_effect, hold_ambiguous,
  Reason, LocalTwoButtonDecision, Digests,
}
use deferred_teleoperation.Policy.{Geometry}
use deferred_teleoperation.Policy.Reference.{
  valid, refused, has_detection_id, verify_detection, verify_reference, verify_current_context,
  differs_from, detection_of, matching_unique_detection,
}
use deferred_teleoperation.Policy.Decide.{
  Evidence, decision, hold, level_shortcut, choose, decide_spatial, decide_verified,
  decide_two_button,
}
use deferred_teleoperation.Policy.Sound.{
  Check-cases, IsReference, verify_reference_lem, find-single,
}

-- `RECOGNIZE_EFFECT`.
abbrev pub is_recognition : TwoButtonAction → Bool
is_recognition recognize_effect = true
is_recognition _ = false

decide_spatial_total :
    (h : Digests) (g : Geometry) (e : Evidence) (r : EntityDetection)
    → IsReference h g e.intent e.reference_observation r
    → (d : LocalTwoButtonDecision) × (decide_spatial g e ≡ some d)
unfolding decide_spatial
decide_spatial_total h g e r known =
    elim (Check-cases (matching_unique_detection e.current_observation e.intent.target_entity_id)) [
      | inr (action, reason, refusal) ↦
          (decision e hold_ambiguous reason none none e.budget_state, ground arith)
      | inl (c, found) ↦
          let present =
            find-single (has_detection_id e.intent.reference_detection_id)
              e.reference_observation.detections r known.only in
          (choose g e r c, ground arith)
    ]

decide_verified_total :
    (h : Digests) (g : Geometry) (e : Evidence) (r : EntityDetection)
    → IsReference h g e.intent e.reference_observation r
    → (d : LocalTwoButtonDecision) × (decide_verified g e ≡ some d)
unfolding decide_verified
decide_verified_total h g e r known = elim (Option-cases (level_shortcut e e.level_evidence)) [
  | inl missing ↦ let (d, decided) = decide_spatial_total h g e r known in (d, ground arith)
  | inr (d, shortcut) ↦ (d, ground arith)
]

-- Whatever the evidence, the policy reaches a decision: once the reference is verified, the search
-- for the reference detection finds it.
pub decide_two_button_total :
    (h : Digests) (g : Geometry) (e : Evidence)
    → (d : LocalTwoButtonDecision) × (decide_two_button h g e ≡ some d)
unfolding decide_two_button
decide_two_button_total h g e =
    elim (Check-cases (verify_reference h g e.intent e.reference_observation)) [
      | inr (action, reason, refusal) ↦ (hold e action reason, ground arith)
      | inl (tt, reference_ok) ↦
          let (r, known) = verify_reference_lem h g e.intent e.reference_observation reference_ok in
          let (d, decided) = decide_verified_total h g e r known in
          elim (Check-cases (
            verify_current_context h e.intent e.reference_observation e.current_observation
              e.expected_source_id)) [
                | inr (action, reason, refusal) ↦
                    (decision e action reason none none e.budget_state, ground arith)
                | inl (tt, context_ok) ↦ (d, ground arith)
              ]
    ]

refusal_is_hold :
    (h : Digests) (g : Geometry) (e : Evidence) (action : TwoButtonAction) (reason : Reason)
    → (verify_reference h g e.intent e.reference_observation ≡ refused action reason)
      ⊎ (verify_current_context h e.intent e.reference_observation e.current_observation
            e.expected_source_id
          ≡ refused action reason)
    → is_recognition action ≡ false
unfolding verify_current_context verify_reference verify_detection
refusal_is_hold h g e action reason (inl refusal) =
    elim (Option-cases (detection_of e.intent.reference_detection_id e.reference_observation)) [
      | inl missing ↦ ground arith
      | inr (r, found) ↦ ground arith
    ]
refusal_is_hold h g e action reason (inr refusal) = ground arith

spatial_is_not_recognition :
    (g : Geometry) (e : Evidence) (d : LocalTwoButtonDecision)
    → decide_spatial g e ≡ some d
    → is_recognition d.action ≡ false
unfolding decide_spatial decision choose
spatial_is_not_recognition g e d decided =
    elim (Check-cases (matching_unique_detection e.current_observation e.intent.target_entity_id)) [
      | inr (action, reason, refusal) ↦ ground arith
      | inl (c, found) ↦
          elim (Option-cases (
            find (has_detection_id e.intent.reference_detection_id)
              e.reference_observation.detections)) [
                | inl missing ↦ absurd (ground arith)
                | inr (r, present) ↦ ground arith
              ]
    ]

-- Level evidence of the target, from the expected device, that it is latched and was meant to be.
pub record IsLatched (e : Evidence) (l : TwoButtonLevelEvidence) : Type 0 where
  pub given : e.level_evidence ≡ some l
  pub target : l.target_entity_id ≡ e.intent.target_entity_id
  pub device : differs_from e.expected_device_id l.device_id ≡ false
  pub desired : l.desired_latched ≡ true
  pub actual : l.actual_latched ≡ true

shortcut-IsLatched :
    (e : Evidence) (d : LocalTwoButtonDecision)
    → level_shortcut e e.level_evidence ≡ some d
    → is_recognition d.action ≡ true
    → (l : TwoButtonLevelEvidence) × IsLatched e l
unfolding level_shortcut decision
shortcut-IsLatched e d shortcut recognised = elim (Option-cases e.level_evidence) [
  | inl missing ↦ absurd (ground arith)
  | inr (l, present) ↦ (
    l,
    record {
      given = present;
      target = ground arith;
      device = ground arith;
      desired = ground arith;
      actual = ground arith;
    },
  )
]

recognition_lem :
    (h : Digests) (g : Geometry) (e : Evidence) (d : LocalTwoButtonDecision)
    → decide_two_button h g e ≡ some d
    → is_recognition d.action ≡ true
    → (verify_reference h g e.intent e.reference_observation ≡ valid tt)
      × (verify_current_context h e.intent e.reference_observation e.current_observation
            e.expected_source_id
          ≡ valid tt)
      × (level_shortcut e e.level_evidence ≡ some d)
unfolding decide_two_button decide_verified decision
recognition_lem h g e d decided recognised =
    elim (Check-cases (verify_reference h g e.intent e.reference_observation)) [
      | inr (action, reason, refusal) ↦
          absurd (ground (arith, refusal_is_hold h g e action reason (inl refusal)))
      | inl (tt, reference_ok) ↦
          elim (Check-cases (
            verify_current_context h e.intent e.reference_observation e.current_observation
              e.expected_source_id)) [
                | inr (action, reason, refusal) ↦
                    absurd (ground (arith, refusal_is_hold h g e action reason (inr refusal)))
                | inl (tt, context_ok) ↦ elim (Option-cases (level_shortcut e e.level_evidence)) [
                  | inl missing ↦ absurd (ground (arith, spatial_is_not_recognition g e d))
                  | inr (s, shortcut) ↦ (reference_ok, context_ok, ground arith)
                ]
              ]
    ]

-- A decision to recognise the effect rests on a verified reference and current context, and on
-- level evidence of the target, from the expected device if one is expected, that was to be
-- latched and is.
pub recognition_sound :
    (h : Digests) (g : Geometry) (e : Evidence) (d : LocalTwoButtonDecision)
    → decide_two_button h g e ≡ some d
    → is_recognition d.action ≡ true
    → (l : TwoButtonLevelEvidence) × IsLatched e l
      × (r : EntityDetection) × IsReference h g e.intent e.reference_observation r
      × (verify_current_context h e.intent e.reference_observation e.current_observation
            e.expected_source_id
          ≡ valid tt)
recognition_sound h g e d decided recognised =
    let (reference_ok, context_ok, shortcut) = recognition_lem h g e d decided recognised in
    let (r, known) = verify_reference_lem h g e.intent e.reference_observation reference_ok in
    let (l, latched) = shortcut-IsLatched e d shortcut recognised in
    (l, latched, r, known, context_ok)
