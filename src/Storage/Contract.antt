-- ===== src/Storage/Contract.antt =====
-- Where state may be placed: recommendation/state-placement-policy.ts against its contract.
use open_interest_clusters.Prelude.{
  true, false, ◌≡◌, ◌≢◌, ◌⊎◌, inl, inr, ◌↔◌, refl, ap, List, [], ◌∷◌, arith, every, ok, map_result,
  map, All, if◌then◌else◌, Result-cases,
}
use open_interest_clusters.Prelude.Vocabulary.{includes, every-includes}
use open_interest_clusters.Js.{Value, str}
use open_interest_clusters.Consent.Words.{Decision, allow, deny}
use open_interest_clusters.Storage.Authority.{
  device_owned, user_owned, shared_operator, storage_authority_vocabulary, local_only,
  server_allowed, aggregate_only, processing_boundary_vocabulary, authority_verdict,
}
use open_interest_clusters.Storage.Placement.{
  ManifestEvaluation, StateDomain, aggregate_statistics, state_domain_name, state_domain_vocabulary,
  persistent, persistence_mode_vocabulary, PlacementReason, Manifest, Placement, subject_level,
  user_preference_state, normalize_manifest,
}
use open_interest_clusters.Storage.Evaluate.{
  personal_verdict, placement_verdict, manifest_value, evaluate_placement, is_allowed,
  evaluate_manifest, assert_manifest,
}
use open_interest_clusters.Storage.Laws.{
  known-domain, evaluate_authority-input, normalize_manifest_idem,
}

-- Persistent state can be deleted by its user, and exported where it records preferences.
abbrev pub IsUsersOwn : Manifest → StateDomain → Type 0
IsUsersOwn m d =
    ((m.persistence ≢ persistent) ⊎ (m.user_deletable ≡ true))
    × ((m.persistence ≢ persistent)
        ⊎ (user_preference_state d ≡ false)
        ⊎ (m.user_exportable ≡ true))

-- Where a state domain may be kept.
pub data MayHold (m : Manifest) (d : StateDomain) : Type 0 where
  aggregate :
      d ≡ aggregate_statistics
      → m.authority ≡ shared_operator
      → m.processing_boundary ≡ aggregate_only
      → MayHold m d
  on_device :
      d ≢ aggregate_statistics
      → m.authority ≡ device_owned
      → m.processing_boundary ≡ local_only
      → m.requires_network ≡ false
      → m.supports_offline ≡ true
      → IsUsersOwn m d
      → MayHold m d
  remote :
      d ≢ aggregate_statistics
      → m.authority ≡ user_owned
      → m.processing_boundary ≡ server_allowed
      → IsUsersOwn m d
      → MayHold m d

abbrev verdict : Manifest → StateDomain → Decision × PlacementReason
verdict m d =
    placement_verdict m d (authority_verdict m.processing_boundary m.authority (subject_level d)).0

verdict_complete : (m : Manifest) (d : StateDomain) → MayHold m d → (verdict m d).0 ≡ allow
unfolding placement_verdict personal_verdict authority_verdict subject_level
verdict_complete m d (aggregate is_aggregate authority boundary) =
    rw (is_aggregate, authority, boundary)
verdict_complete m d (on_device personal authority boundary online offline own) = ground arith
verdict_complete m d (remote personal authority boundary own) = ground arith

own_sound : (m : Manifest) (d : StateDomain) → (personal_verdict m d).0 ≡ allow → IsUsersOwn m d
unfolding personal_verdict
own_sound m d h = ground arith

verdict_cases :
    (m : Manifest) (d : StateDomain)
    → (verdict m d).0 ≡ allow
    → ((d ≡ aggregate_statistics)
        × (m.authority ≡ shared_operator)
        × (m.processing_boundary ≡ aggregate_only))
      ⊎ ((d ≢ aggregate_statistics)
          × (m.authority ≡ device_owned)
          × (m.processing_boundary ≡ local_only)
          × ((personal_verdict m d).0 ≡ allow))
      ⊎ ((d ≢ aggregate_statistics)
          × (m.authority ≡ user_owned)
          × (m.processing_boundary ≡ server_allowed)
          × ((personal_verdict m d).0 ≡ allow))
unfolding placement_verdict authority_verdict subject_level
verdict_cases m d h = ground arith

device_checks :
    (m : Manifest) (d : StateDomain)
    → m.authority ≡ device_owned
    → (personal_verdict m d).0 ≡ allow
    → (m.requires_network ≡ false) × (m.supports_offline ≡ true)
unfolding personal_verdict
device_checks m d authority h = ground arith

verdict_sound : (m : Manifest) (d : StateDomain) → (verdict m d).0 ≡ allow → MayHold m d
verdict_sound m d h = elim (verdict_cases m d h) [
  | inl (is_aggregate, authority, boundary) ↦ aggregate is_aggregate authority boundary
  | inr (inl (personal, authority, boundary, passed)) ↦
      let (online, offline) = device_checks m d authority passed in
      on_device personal authority boundary online offline (own_sound m d passed)
  | inr (inr (personal, authority, boundary, passed)) ↦
      remote personal authority boundary (own_sound m d passed)
]

-- The placement of a declared domain, evaluated.
abbrev placed : Manifest → StateDomain → Placement
placed m d = record {
  domain = d;
  decision = (verdict m d).0;
  reason = (verdict m d).1;
  authority_reason = (authority_verdict m.processing_boundary m.authority (subject_level d)).1;
}

module _ {N : Type 0} where
  evaluate_placement-placed :
      (v : Value N) (m : Manifest) (d : StateDomain)
      → normalize_manifest v ≡ ok m
      → includes m.domains d ≡ true
      → evaluate_placement v (str (state_domain_name d)) ≡ ok (placed m d)
  unfolding evaluate_placement
  evaluate_placement-placed v m d h declared =
      rw (h, known-domain N d, declared, evaluate_authority-input N m d)

  -- A domain that a valid manifest declares is always evaluated, and it is allowed exactly where
  -- the contract lets the adapter hold it: aggregate statistics with a shared operator under the
  -- aggregate boundary; any other domain on the device, offline and without a network, or in
  -- user-owned remote storage, where persistent state can be deleted and preferences exported.
  pub evaluate_placement-allow_iff :
      (v : Value N) (m : Manifest) (d : StateDomain)
      → normalize_manifest v ≡ ok m
      → includes m.domains d ≡ true
      → (p : Placement) × (evaluate_placement v (str (state_domain_name d)) ≡ ok p)
        × (p.domain ≡ d)
        × ((p.decision ≡ allow) ↔ MayHold m d)
  evaluate_placement-allow_iff v m d h declared = (
    placed m d,
    evaluate_placement-placed v m d h declared,
    refl,
    (verdict_sound m d, verdict_complete m d),
  )

module _ (N : Type 0) where
  map-placed :
      (m : Manifest)
      → normalize_manifest (manifest_value {N = N} m) ≡ ok m
      → (ds : List StateDomain) → every (includes m.domains) ds ≡ true
      → map_result
          (λ d. evaluate_placement (manifest_value {N = N} m) (str (state_domain_name d)))
          ds
        ≡ ok (map (placed m) ds)
  map-placed m h [] declared = refl
  map-placed m h (d ∷ ds) declared = rw (
    evaluate_placement-placed {N = N} (manifest_value m) m d h (ground arith),
    map-placed m h ds (ground arith),
  )

domains-placed :
    (m : Manifest) (ds : List StateDomain)
    → map (λ (p : Placement). p.domain) (map (placed m) ds) ≡ ds
domains-placed m [] = refl
domains-placed m (d ∷ ds) = ap (λ xs. d ∷ xs) (domains-placed m ds)

every_allowed_iff :
    (m : Manifest) (ds : List StateDomain)
    → (every is_allowed (map (placed m) ds) ≡ true) ↔ All (MayHold m) ds
every_allowed_iff m [] = (λ h. tt, λ h. refl)
every_allowed_iff m (d ∷ ds) =
    let (sound, complete) = every_allowed_iff m ds in
    (
      λ h. (verdict_sound m d (ground arith), sound (ground arith)),
      λ h. ground (arith, verdict_complete m d h.0, complete h.1),
    )

-- The evaluation of a manifest
abbrev evaluation_of : Manifest → ManifestEvaluation
evaluation_of m = record {
  adapter_id = m.adapter_id;
  decision = if every is_allowed (map (placed m) m.domains) then allow else deny;
  evaluations = map (placed m) m.domains;
}

module _ {N : Type 0} where
  evaluate_manifest-placed :
      (v : Value N) (m : Manifest)
      → normalize_manifest v ≡ ok m
      → evaluate_manifest v ≡ ok (evaluation_of m)
  unfolding evaluate_manifest
  evaluate_manifest-placed v m h =
      rw (h, map-placed N m (normalize_manifest_idem v m h) m.domains (every-includes m.domains))

  -- A valid manifest is always evaluated, under its adapter's id, with one placement for each domain,
  -- in their order; it is allowed exactly where the adapter may hold every one of its domains.
  pub evaluate_manifest-allow_iff :
      (v : Value N) (m : Manifest)
      → normalize_manifest v ≡ ok m
      → (e : ManifestEvaluation) × (evaluate_manifest v ≡ ok e)
        × (e.adapter_id ≡ m.adapter_id)
        × (map (λ (p : Placement). p.domain) e.evaluations ≡ m.domains)
        × ((e.decision ≡ allow) ↔ All (MayHold m) m.domains)
  evaluate_manifest-allow_iff v m h = (
    evaluation_of m,
    evaluate_manifest-placed v m h,
    refl,
    domains-placed m m.domains,
    (
      λ e. (every_allowed_iff m m.domains).0 (ground arith),
      λ a. ground (arith, (every_allowed_iff m m.domains).1 a),
    ),
  )

  assert_sound :
      (v : Value N) (m : Manifest)
      → assert_manifest v ≡ ok m
      → (normalize_manifest v ≡ ok m) × All (MayHold m) m.domains
  unfolding assert_manifest
  assert_sound v m h = elim (Result-cases (normalize_manifest v)) [
    | inr (e, bad) ↦ ground arith
    | inl (n, good) ↦
        let (e, evaluated, id, in_order, iff) =
          evaluate_manifest-allow_iff (manifest_value {N = N} n) n
            (normalize_manifest_idem v n good) in
        let same : n ≡ m = ground arith in (ground arith, rw same at (iff.0 (ground arith)))
  ]

  assert_complete :
      (v : Value N) (m : Manifest)
      → normalize_manifest v ≡ ok m
      → All (MayHold m) m.domains
      → assert_manifest v ≡ ok m
  unfolding assert_manifest
  assert_complete v m good holds =
      let (e, evaluated, id, in_order, iff) =
        evaluate_manifest-allow_iff (manifest_value {N = N} m) m
          (normalize_manifest_idem v m good) in
      let allowed : e.decision ≡ allow = iff.1 holds in
      rw (good, evaluated) (ground (arith, allowed))

  -- A manifest is asserted exactly when it is valid and its adapter may hold all its domains.
  pub assert_manifest_iff :
      (v : Value N) (m : Manifest)
      → (assert_manifest v ≡ ok m) ↔ ((normalize_manifest v ≡ ok m) × All (MayHold m) m.domains)
  assert_manifest_iff v m = (assert_sound v m, λ h. assert_complete v m h.0 h.1)
