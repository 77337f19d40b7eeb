-- ===== src/Policy/Sound.antt =====
-- What a decision to press rests on.
use deferred_teleoperation.Base.{
  ◌≡◌, refl, Bool, true, false, Option, none, some, List, [], ◌∷◌, arith, find, select,
  Option-cases, inl, inr, ◌⊎◌,
}
use deferred_teleoperation.Wire.{Text}
use deferred_teleoperation.M3a.{
  EntityDetection, TwoButtonObservation, M3aEnsureLatchedIntent, TwoButtonAction, execute,
  reanchor_execute, Reason, LocalTwoButtonDecision, Digests, recomputed,
}
use deferred_teleoperation.Policy.{Geometry, distance, position}
use deferred_teleoperation.Policy.Reference.{
  Check, valid, refused, is_only, single, detection_of, has_detection_id, verify_detection,
  verify_reference, verify_current_context, is_candidate, check_unique, judge,
  matching_unique_detection,
}
use deferred_teleoperation.Policy.Decide.{
  Evidence, decision, level_shortcut, choose, decide_spatial, decide_verified, decide_two_button,
}

pub Check-cases {ℓ} :
    {A : Type ℓ} (c : Check A)
    → ((a : A) × (c ≡ valid a)) ⊎ ((t : TwoButtonAction) × (r : Reason) × (c ≡ refused t r))
Check-cases (valid a) = inl (a, refl)
Check-cases (refused t r) = inr (t, r, refl)

-- `EXECUTE` or `REANCHOR_EXECUTE`.
abbrev pub is_press : TwoButtonAction → Bool
is_press execute = true
is_press reanchor_execute = true
is_press _ = false

-- The detection that the intent was authored on is the only one with its identifier, shows the target
-- alone and in the authored pose, in an observation with the authored content.
pub record IsReference (h : Digests) (g : Geometry) (i : M3aEnsureLatchedIntent)
    (o : TwoButtonObservation) (r : EntityDetection) : Type 0 where
  pub only : detection_of i.reference_detection_id o ≡ some r
  pub target : is_only i.target_entity_id r.candidate_entity_ids ≡ true
  pub pose : g.same_pose r.pose i.reference_pose ≡ true
  pub named : o.observation_id ≡ i.reference_observation_id
  pub digest : o.canonical_payload_digest ≡ i.reference_digest
  pub intact : recomputed h o ≡ i.reference_digest

-- The detection is the only one of the observation that shows the target, it shows nothing else, and it
-- is visible.
pub record IsTarget (target : Text) (o : TwoButtonObservation) (c : EntityDetection) : Type 0 where
  pub only : select (is_candidate target) o.detections ≡ c ∷ []
  pub alone : is_only target c.candidate_entity_ids ≡ true
  pub visible : c.visibility ≡ true

pub verify_reference_lem :
    (h : Digests) (g : Geometry) (i : M3aEnsureLatchedIntent) (o : TwoButtonObservation)
    → verify_reference h g i o ≡ valid tt
    → (r : EntityDetection) × IsReference h g i o r
unfolding verify_reference
verify_reference_lem h g i o e = elim (Option-cases (detection_of i.reference_detection_id o)) [
  | inl missing ↦ absurd (ground arith)
  | inr (r, found) ↦ (
    r,
    record {
      only = found;
      target = ground arith;
      pose = ground arith;
      named = ground arith;
      digest = ground arith;
      intact = ground arith;
    },
  )
]

judge-IsTarget :
    (target : Text) (ds : List EntityDetection) (c : EntityDetection)
    → judge target ds ≡ valid c
    → (ds ≡ c ∷ []) × (is_only target c.candidate_entity_ids ≡ true) × (c.visibility ≡ true)
unfolding check_unique
judge-IsTarget target [] c e = absurd (ground arith)
judge-IsTarget target (d ∷ []) c e = ground arith
judge-IsTarget target (d ∷ x ∷ rest) c e = absurd (ground arith)

pub matching-IsTarget :
    (o : TwoButtonObservation) (target : Text) (c : EntityDetection)
    → matching_unique_detection o target ≡ valid c
    → IsTarget target o c
unfolding matching_unique_detection
matching-IsTarget o target c e =
    let (only, alone, visible) =
      judge-IsTarget target (select (is_candidate target) o.detections) c e in
    record { only = only; alone = alone; visible = visible }

single-cons :
    (d : EntityDetection) (rest : List EntityDetection) (r : EntityDetection)
    → single (d ∷ rest) ≡ some r
    → d ≡ r
single-cons d [] r e = ground arith
single-cons d (x ∷ rest) r e = absurd (ground arith)

pub find-single :
    (p : EntityDetection → Bool) (ds : List EntityDetection) (r : EntityDetection)
    → single (select p ds) ≡ some r
    → find p ds ≡ some r
unfolding find
find-single p [] r e = absurd (ground arith)
find-single p (d ∷ ds) r e = ground (arith, find-single p ds r, single-cons d (select p ds) r)

-- Where the level evidence does not decide and both detections are known, the distance decides.
decide_spatial_lem :
    (h : Digests) (g : Geometry) (e : Evidence) (r : EntityDetection)
    → IsReference h g e.intent e.reference_observation r
    → (d : LocalTwoButtonDecision) → decide_spatial g e ≡ some d
    → is_press d.action ≡ true
    → (c : EntityDetection) × IsTarget e.intent.target_entity_id e.current_observation c
      × (g.exceeds (distance g (position r.pose) (position c.pose)) e.intent.max_displacement_m
          ≡ false)
      × (d ≡ choose g e r c)
unfolding decide_spatial choose decision
decide_spatial_lem h g e r known d decided press =
    elim (Check-cases (matching_unique_detection e.current_observation e.intent.target_entity_id)) [
      | inr (action, reason, refusal) ↦ absurd (ground arith)
      | inl (c, found) ↦
          let present =
            find-single (has_detection_id e.intent.reference_detection_id)
              e.reference_observation.detections r known.only in
          (
            c,
            matching-IsTarget e.current_observation e.intent.target_entity_id c found,
            ground arith,
            ground arith,
          )
    ]

level_shortcut_lem :
    (e : Evidence) (d : LocalTwoButtonDecision)
    → level_shortcut e e.level_evidence ≡ some d
    → is_press d.action ≡ false
unfolding level_shortcut decision
level_shortcut_lem e d decided = elim (Option-cases e.level_evidence) [
  | inl missing ↦ absurd (ground arith)
  | inr (l, present) ↦ ground arith
]

-- The detections and the facts that a decision to press rests on.
pub record IsJustified (h : Digests) (g : Geometry) (e : Evidence) (d : LocalTwoButtonDecision)
    : Type 0 where
  pub reference : EntityDetection
  pub current : EntityDetection
  pub authored : IsReference h g e.intent e.reference_observation reference
  pub target : IsTarget e.intent.target_entity_id e.current_observation current
  pub context :
      verify_current_context h e.intent e.reference_observation e.current_observation
        e.expected_source_id
      ≡ valid tt
  pub unlatched : level_shortcut e e.level_evidence ≡ none
  pub within :
      g.exceeds
        (distance g (position reference.pose) (position current.pose))
        e.intent.max_displacement_m
      ≡ false
  pub chosen : d ≡ choose g e reference current

decide_verified_lem :
    (h : Digests) (g : Geometry) (e : Evidence) (r : EntityDetection)
    → IsReference h g e.intent e.reference_observation r
    → (d : LocalTwoButtonDecision) → decide_verified g e ≡ some d
    → is_press d.action ≡ true
    → (level_shortcut e e.level_evidence ≡ none) × (decide_spatial g e ≡ some d)
unfolding decide_verified
decide_verified_lem h g e r known d decided press =
    elim (Option-cases (level_shortcut e e.level_evidence)) [
      | inl missing ↦ (missing, ground arith)
      | inr (s, shortcut) ↦ absurd (ground (arith, level_shortcut_lem e s shortcut))
    ]

verify_detection_holds :
    (g : Geometry) (i : M3aEnsureLatchedIntent) (r : EntityDetection) (action : TwoButtonAction)
    (reason : Reason)
    → verify_detection g i r ≡ refused action reason
    → is_press action ≡ false
unfolding verify_detection
verify_detection_holds g i r action reason refusal = ground arith

-- A refusal of the reference or of the context is a hold.
verify_reference_holds :
    (h : Digests) (g : Geometry) (i : M3aEnsureLatchedIntent) (o : TwoButtonObservation)
    (action : TwoButtonAction) (reason : Reason)
    → verify_reference h g i o ≡ refused action reason
    → is_press action ≡ false
unfolding verify_reference
verify_reference_holds h g i o action reason refusal =
    elim (Option-cases (detection_of i.reference_detection_id o)) [
      | inl missing ↦ ground arith
      | inr (r, found) ↦ ground (arith, verify_detection_holds g i r action reason)
    ]

verify_current_context_holds :
    (h : Digests) (i : M3aEnsureLatchedIntent) (reference current : TwoButtonObservation)
    (source : Option Text) (action : TwoButtonAction) (reason : Reason)
    → verify_current_context h i reference current source ≡ refused action reason
    → is_press action ≡ false
unfolding verify_current_context
verify_current_context_holds h i reference current source action reason refusal = ground arith

verified :
    (h : Digests) (g : Geometry) (e : Evidence) (d : LocalTwoButtonDecision)
    → decide_two_button h g e ≡ some d
    → is_press d.action ≡ true
    → (verify_reference h g e.intent e.reference_observation ≡ valid tt)
      × (verify_current_context h e.intent e.reference_observation e.current_observation
            e.expected_source_id
          ≡ valid tt)
      × (decide_verified g e ≡ some d)
unfolding decide_two_button decision
verified h g e d decided press =
    elim (Check-cases (verify_reference h g e.intent e.reference_observation)) [
      | inr (action, reason, refusal) ↦ absurd (
          ground (
            arith,
            verify_reference_holds h g e.intent e.reference_observation action reason refusal,
          ))
      | inl (tt, reference_ok) ↦
          elim (Check-cases (
            verify_current_context h e.intent e.reference_observation e.current_observation
              e.expected_source_id)) [
                | inr (action, reason, refusal) ↦ absurd (
                    ground (
                      arith,
                      verify_current_context_holds h e.intent e.reference_observation
                          e.current_observation e.expected_source_id action reason refusal,
                    ))
                | inl (tt, context_ok) ↦ (reference_ok, context_ok, ground arith)
              ]
    ]

-- A decision to press, as it is or anew, rests on a reference observation that is the one the
-- intent was authored on, with its recomputed digest, on the only detection with the authored
-- identifier, target and pose, on a verified current context, on level evidence that does not
-- decide by itself, and on the only current detection of the target, which is visible, shows
-- nothing else and lies within the tolerance; and it is the decision that the distance of the two
-- makes.
pub decide_two_button-IsJustified :
    (h : Digests) (g : Geometry) (e : Evidence) (d : LocalTwoButtonDecision)
    → decide_two_button h g e ≡ some d
    → is_press d.action ≡ true
    → IsJustified h g e d
decide_two_button-IsJustified h g e d decided press =
    let (reference_ok, context_ok, rest) = verified h g e d decided press in
    let (r, known) = verify_reference_lem h g e.intent e.reference_observation reference_ok in
    let (unlatched, spatial) = decide_verified_lem h g e r known d rest press in
    let (c, target, within, chosen) = decide_spatial_lem h g e r known d spatial press in
    record {
      reference = r;
      current = c;
      authored = known;
      target = target;
      context = context_ok;
      unlatched = unlatched;
      within = within;
      chosen = chosen;
    }
