-- ===== src/Signals/PolicyLaws.antt =====
-- What recommendation/public-signal-policy.ts lets through.
use open_interest_clusters.Prelude.{
  true, false, ◌≡◌, ◌≢◌, ◌⊎◌, inl, inr, ◌↔◌, refl, arith, ok, Result-cases, Bool-cases,
}
use open_interest_clusters.Consent.Words.{
  DataUse, ranking, local_personalization, activitypods, atproto, app_local, SourceVisibility,
  acl_controlled, AccessBasis, owner, solid_acl_control, public_web, allow,
}
use open_interest_clusters.Storage.Authority.{
  StorageAuthority, device_owned, ProcessingBoundary, server_allowed,
}
use open_interest_clusters.Signals.Words.{TrustBoundary}
use open_interest_clusters.Signals.Policy.{
  EffectKind, filtering, PolicyInput, PolicyEvaluation, signal_effect, resolved_storage_authority,
  is_explicit_public, is_atproto_public_repository, is_local_owner_evidence,
  is_user_controlled_remote_evidence, private_verdict, other_verdict, signal_verdict,
  evaluate_signal_policy, require_signal_policy,
}

abbrev pub IsPersonalUse : DataUse → Type 0
IsPersonalUse u = (u ≡ local_personalization) ⊎ (u ≡ ranking)

module _ {N : Type 0} where
  -- The evidence of a user's own device, processed there.
  pub record IsLocalOwner (i : PolicyInput N) (authority : StorageAuthority) : Type 0 where
    pub storage : authority ≡ device_owned
    pub protocol : i.evidence.protocol ≡ app_local
    pub visibility : i.evidence.source_visibility ≡ SourceVisibility.local_only
    pub basis : i.evidence.access_basis ≡ owner
    pub trust : i.evidence.trust_boundary ≡ TrustBoundary.user_owned
    pub boundary : i.privacy_boundary ≡ ProcessingBoundary.local_only
    pub off_server : i.consent.server_side_processing ≡ false
    pub purpose : IsPersonalUse i.data_use

  -- The evidence of a user's own pod, read under the user's access control.
  pub record IsOwnPod (i : PolicyInput N) (authority : StorageAuthority) : Type 0 where
    pub storage : authority ≡ StorageAuthority.user_owned
    pub protocol : i.evidence.protocol ≡ activitypods
    pub visibility : i.evidence.source_visibility ≡ acl_controlled
    pub basis : i.evidence.access_basis ≡ solid_acl_control
    pub trust : i.evidence.trust_boundary ≡ TrustBoundary.user_owned
    pub boundary : i.privacy_boundary ≡ server_allowed
    pub own_data : i.consent.contains_private_data ≡ true
    pub no_third_party : i.consent.contains_third_party_data ≡ false
    pub on_server : i.consent.server_side_processing ≡ true
    pub purpose : IsPersonalUse i.data_use

  -- The kinds of evidence that may become a signal of the effect.
  pub data Admissible (i : PolicyInput N) (effect : EffectKind) (authority : StorageAuthority)
      : Type 0 where
    public_web_page :
        i.consent.contains_private_data ≡ false
        → i.evidence.source_visibility ≡ SourceVisibility.public
        → i.evidence.access_basis ≡ public_web
        → Admissible i effect authority
    public_repository :
        i.consent.contains_private_data ≡ false
        → i.evidence.protocol ≡ atproto
        → i.evidence.source_visibility ≡ SourceVisibility.atproto_public_repo
        → i.evidence.access_basis ≡ AccessBasis.atproto_public_repo
        → Admissible i effect authority
    local_owner : IsLocalOwner i authority → Admissible i effect authority
    own_pod : IsOwnPod i authority → Admissible i effect authority
    private_filter :
        effect ≡ filtering
        → i.evidence.protocol ≢ app_local
        → i.consent.contains_private_data ≡ true
        → authority ≡ device_owned
        → i.privacy_boundary ≡ ProcessingBoundary.local_only
        → i.consent.server_side_processing ≡ false
        → Admissible i effect authority

  IsLocalOwner-iff :
      (i : PolicyInput N) (a : StorageAuthority)
      → (is_local_owner_evidence i a ≡ true) ↔ IsLocalOwner i a
  unfolding is_local_owner_evidence
  IsLocalOwner-iff i a = (
    λ h. record {
      storage = ground arith;
      protocol = ground arith;
      visibility = ground arith;
      basis = ground arith;
      trust = ground arith;
      boundary = ground arith;
      off_server = ground arith;
      purpose = ground arith;
    },
    λ h. ground arith,
  )

  IsOwnPod-iff :
      (i : PolicyInput N) (a : StorageAuthority)
      → (is_user_controlled_remote_evidence i a ≡ true) ↔ IsOwnPod i a
  unfolding is_user_controlled_remote_evidence
  IsOwnPod-iff i a = (
    λ h. record {
      storage = ground arith;
      protocol = ground arith;
      visibility = ground arith;
      basis = ground arith;
      trust = ground arith;
      boundary = ground arith;
      own_data = ground arith;
      no_third_party = ground arith;
      on_server = ground arith;
      purpose = ground arith;
    },
    λ h. ground arith,
  )

  other_sound :
      (i : PolicyInput N) (effect : EffectKind) (a : StorageAuthority)
      → (other_verdict i effect a).0 ≡ allow
      → Admissible i effect a
  unfolding other_verdict private_verdict
  other_sound i effect a h =
      private_filter (ground arith) (ground arith) (ground arith) (ground arith) (ground arith)
        (ground arith)

  verdict_sound :
      (i : PolicyInput N) (effect : EffectKind) (a : StorageAuthority)
      → (signal_verdict i effect a).0 ≡ allow
      → Admissible i effect a
  unfolding signal_verdict
  verdict_sound i effect a h = elim (Bool-cases (is_explicit_public i)) [
    | inl e ↦
        unfold is_explicit_public in public_web_page (ground arith) (ground arith) (ground arith)
    | inr e ↦ elim (Bool-cases (is_atproto_public_repository i)) [
      | inl e' ↦
          unfold is_atproto_public_repository in
          public_repository (ground arith) (ground arith) (ground arith) (ground arith)
      | inr e' ↦ elim (Bool-cases (is_local_owner_evidence i a)) [
        | inl e'' ↦ local_owner ((IsLocalOwner-iff i a).0 e'')
        | inr e'' ↦ elim (Bool-cases (is_user_controlled_remote_evidence i a)) [
          | inl e3 ↦ own_pod ((IsOwnPod-iff i a).0 e3)
          | inr e3 ↦ other_sound i effect a (ground arith)
        ]
      ]
    ]
  ]

  verdict_complete :
      (i : PolicyInput N) (effect : EffectKind) (a : StorageAuthority)
      → Admissible i effect a
      → (signal_verdict i effect a).0 ≡ allow
  unfolding signal_verdict
  verdict_complete i effect a (public_web_page p v b) = unfold is_explicit_public in ground arith
  verdict_complete i effect a (public_repository p q v b) =
      unfold is_atproto_public_repository in ground arith
  verdict_complete i effect a (local_owner h) = ground (arith, (IsLocalOwner-iff i a).1 h)
  verdict_complete i effect a (own_pod h) = ground (arith, (IsOwnPod-iff i a).1 h)
  verdict_complete i effect a (private_filter f p q s b n) =
      unfold other_verdict private_verdict in ground arith

  -- Once its storage authority is resolved, a signal is evaluated with the effect of its action, and
  -- allowed exactly when its evidence is of an admissible kind: a public web page, a public
  -- repository, the user's own device, the user's own pod, or private data that only filters, on
  -- the device.
  pub evaluate_signal_policy-allow_iff :
      (i : PolicyInput N) (a : StorageAuthority)
      → resolved_storage_authority i ≡ ok a
      → (e : PolicyEvaluation) × (evaluate_signal_policy i ≡ ok e)
        × (e.effect ≡ signal_effect i)
        × (e.storage_authority ≡ a)
        × ((e.decision ≡ allow) ↔ Admissible i (signal_effect i) a)
  unfolding evaluate_signal_policy
  evaluate_signal_policy-allow_iff i a h = (
    record {
      decision = (signal_verdict i (signal_effect i) a).0;
      reason = (signal_verdict i (signal_effect i) a).1;
      effect = signal_effect i;
      storage_authority = a;
    },
    rw h,
    refl,
    refl,
    (verdict_sound i (signal_effect i) a, verdict_complete i (signal_effect i) a),
  )

  pub require_sound :
      (i : PolicyInput N) (e : PolicyEvaluation)
      → require_signal_policy i ≡ ok e
      → Admissible i e.effect e.storage_authority
  unfolding require_signal_policy evaluate_signal_policy
  require_sound i e h = elim (Result-cases (resolved_storage_authority i)) [
    | inr (f, bad) ↦ ground arith
    | inl (a, good) ↦
        let same_effect : e.effect ≡ signal_effect i = ground arith in
        let same_storage : e.storage_authority ≡ a = ground arith in
        rw (same_effect, same_storage) (verdict_sound i (signal_effect i) a (ground arith))
  ]

  -- A required signal that rests on private data is held by the device or by the user, and where it
  -- raises an affinity it is the user's own evidence: of the device or of the user's pod.
  pub require_signal_policy-private :
      (i : PolicyInput N) (e : PolicyEvaluation)
      → require_signal_policy i ≡ ok e
      → i.consent.contains_private_data ≡ true
      → ((e.storage_authority ≡ device_owned) ⊎ (e.storage_authority ≡ StorageAuthority.user_owned))
        × ((e.effect ≡ filtering)
            ⊎ IsLocalOwner i e.storage_authority
            ⊎ IsOwnPod i e.storage_authority)
  require_signal_policy-private i e h private_data = by_kind (require_sound i e h)
    where
      by_kind :
          Admissible i e.effect e.storage_authority
          → ((e.storage_authority ≡ device_owned)
              ⊎ (e.storage_authority ≡ StorageAuthority.user_owned))
            × ((e.effect ≡ filtering)
                ⊎ IsLocalOwner i e.storage_authority
                ⊎ IsOwnPod i e.storage_authority)
      by_kind (public_web_page p v b) = absurd (ground arith)
      by_kind (public_repository p q v b) = absurd (ground arith)
      by_kind (local_owner k) = (inl k.storage, inr (inl k))
      by_kind (own_pod k) = (inr k.storage, inr (inr k))
      by_kind (private_filter f p q s b n) = (inl s, inl f)
