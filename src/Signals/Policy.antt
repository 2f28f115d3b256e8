-- ===== src/Signals/Policy.antt =====
-- recommendation/public-signal-policy.ts: which evidence may become a signal, and with what effect.
use open_interest_clusters.Prelude.{
  String, Bool, true, false, not, ◌&&◌, ◌||◌, if◌then◌else◌, Failure, type_error, Result, ok, throw,
  ◌>>=◌, or_throw,
}
use Prim.Native.String
use open_interest_clusters.Js.{Value, undefined}
use open_interest_clusters.Js.Narrow.{known}
use open_interest_clusters.Consent.Words.{
  DataUse, Protocol, SourceVisibility, AccessBasis, Decision, allow, deny,
}
use open_interest_clusters.Consent.Evaluate.{ConsentEvent}
use open_interest_clusters.Storage.Authority.{
  StorageAuthority, storage_authority_vocabulary, ProcessingBoundary, infer_legacy_authority,
}
use open_interest_clusters.Signals.Words.{
  TargetKind, moderation_label, Action, dismiss, hide, block, mute, Polarity, positive, negative,
  SourceItemKind, TrustBoundary,
}
use open_interest_clusters.Signals.Fields.{
  is_device_owned, is_user_owned_storage, is_local_only, is_server_allowed, is_user_owned_trust,
  is_activitypods, is_atproto, is_app_local, is_public, is_public_repo, is_local_visibility,
  is_acl_controlled, is_public_web, is_repo_basis, is_owner, is_acl_control, is_personal_use,
}

-- RecommendationInterestEvidence
pub record Evidence : Type 0 where
  pub source_item_kind : SourceItemKind
  pub protocol : Protocol
  pub source_visibility : SourceVisibility
  pub access_basis : AccessBasis
  pub trust_boundary : TrustBoundary
  pub observed_at : String

-- RecommendationSignalEffectKind
pub data EffectKind : Type 0 where
  affinity filtering : EffectKind

-- RecommendationPublicSignalPolicyReason
pub data PolicyReason : Type 0 where
  allow_explicit_public allow_atproto_public_repo allow_local_owner : PolicyReason
  allow_user_controlled_remote allow_local_private_filter deny_private_affinity : PolicyReason
  deny_remote_private_filter deny_non_public_provider_evidence : PolicyReason
  deny_local_boundary_mismatch : PolicyReason

-- RecommendationPublicSignalPolicyInput; the storage authority is checked at run time.
pub record PolicyInput (N : Type 0) : Type 0 where
  pub action : Action
  pub polarity : Polarity
  pub target_kind : TargetKind
  pub data_use : DataUse
  pub privacy_boundary : ProcessingBoundary
  pub storage_authority : Value N
  pub evidence : Evidence
  pub consent : ConsentEvent

-- RecommendationPublicSignalPolicyEvaluation
pub record PolicyEvaluation : Type 0 where
  pub decision : Decision
  pub reason : PolicyReason
  pub effect : EffectKind
  pub storage_authority : StorageAuthority

-- FILTER_ACTIONS
abbrev pub is_filter_action : Action → Bool
is_filter_action dismiss = true
is_filter_action hide = true
is_filter_action block = true
is_filter_action mute = true
is_filter_action _ = false

abbrev pub is_negative : Polarity → Bool
is_negative negative = true
is_negative _ = false

abbrev pub is_positive : Polarity → Bool
is_positive positive = true
is_positive _ = false

abbrev pub is_moderation_label : TargetKind → Bool
is_moderation_label moderation_label = true
is_moderation_label _ = false

abbrev pub is_affinity : EffectKind → Bool
is_affinity affinity = true
is_affinity filtering = false

module _ {N : Type 0} where
  -- signalEffect
  unfoldable pub signal_effect : PolicyInput N → EffectKind
  signal_effect i =
      if (is_filter_action i.action && is_negative i.polarity)
        || (is_moderation_label i.target_kind && not (is_positive i.polarity))
      then filtering
      else affinity

  -- resolvedStorageAuthority
  unfoldable pub resolved_storage_authority : PolicyInput N → Result StorageAuthority
  resolved_storage_authority i = elim i.storage_authority [
    | undefined ↦
        if is_server_allowed i.privacy_boundary
          && is_activitypods i.evidence.protocol
          && is_acl_controlled i.evidence.source_visibility
          && is_acl_control i.evidence.access_basis
          && is_user_owned_trust i.evidence.trust_boundary
        then ok StorageAuthority.user_owned
        else ok (infer_legacy_authority i.privacy_boundary)
    | given ↦ or_throw (known given) (type_error "Invalid recommendation signal storage authority.")
  ]

  -- isExplicitPublic
  unfoldable pub is_explicit_public : PolicyInput N → Bool
  is_explicit_public i =
      not i.consent.contains_private_data
      && is_public i.evidence.source_visibility
      && is_public_web i.evidence.access_basis

  -- isAtprotoPublicRepository
  unfoldable pub is_atproto_public_repository : PolicyInput N → Bool
  is_atproto_public_repository i =
      not i.consent.contains_private_data
      && is_atproto i.evidence.protocol
      && is_public_repo i.evidence.source_visibility
      && is_repo_basis i.evidence.access_basis

  -- isLocalOwnerEvidence
  unfoldable pub is_local_owner_evidence : PolicyInput N → StorageAuthority → Bool
  is_local_owner_evidence i authority =
      is_device_owned authority
      && is_app_local i.evidence.protocol
      && is_local_visibility i.evidence.source_visibility
      && is_owner i.evidence.access_basis
      && is_user_owned_trust i.evidence.trust_boundary
      && is_local_only i.privacy_boundary
      && not i.consent.server_side_processing
      && is_personal_use i.data_use

  -- isUserControlledRemoteEvidence
  unfoldable pub is_user_controlled_remote_evidence : PolicyInput N → StorageAuthority → Bool
  is_user_controlled_remote_evidence i authority =
      is_user_owned_storage authority
      && is_activitypods i.evidence.protocol
      && is_acl_controlled i.evidence.source_visibility
      && is_acl_control i.evidence.access_basis
      && is_user_owned_trust i.evidence.trust_boundary
      && is_server_allowed i.privacy_boundary
      && i.consent.contains_private_data
      && not i.consent.contains_third_party_data
      && i.consent.server_side_processing
      && is_personal_use i.data_use

  -- The branches of evaluateRecommendationPublicSignalPolicy past the four kinds of allowed
  -- evidence, and the whole, as the decision with its reason.
  unfoldable pub private_verdict :
      PolicyInput N → EffectKind → StorageAuthority → Decision × PolicyReason
  private_verdict i effect authority =
      if is_affinity effect
      then (deny, deny_private_affinity)
      else if not (is_device_owned authority)
          || not (is_local_only i.privacy_boundary)
          || i.consent.server_side_processing
      then (deny, deny_remote_private_filter)
      else (allow, allow_local_private_filter)

  unfoldable pub other_verdict :
      PolicyInput N → EffectKind → StorageAuthority → Decision × PolicyReason
  other_verdict i effect authority =
      if is_app_local i.evidence.protocol
      then (deny, deny_local_boundary_mismatch)
      else if i.consent.contains_private_data
      then private_verdict i effect authority
      else (deny, deny_non_public_provider_evidence)

  unfoldable pub signal_verdict :
      PolicyInput N → EffectKind → StorageAuthority → Decision × PolicyReason
  signal_verdict i effect authority =
      if is_explicit_public i
      then (allow, allow_explicit_public)
      else if is_atproto_public_repository i
      then (allow, allow_atproto_public_repo)
      else if is_local_owner_evidence i authority
      then (allow, allow_local_owner)
      else if is_user_controlled_remote_evidence i authority
      then (allow, allow_user_controlled_remote)
      else other_verdict i effect authority

  -- evaluateRecommendationPublicSignalPolicy
  unfoldable pub evaluate_signal_policy : PolicyInput N → Result PolicyEvaluation
  evaluate_signal_policy i = do
    let effect = signal_effect i
    authority ← resolved_storage_authority i
    ok (record {
      decision = (signal_verdict i effect authority).0;
      reason = (signal_verdict i effect authority).1;
      effect = effect;
      storage_authority = authority;
    })

-- The reason as the error's message shows it.
abbrev pub reason_text : PolicyReason → String
reason_text allow_explicit_public = "signal.allow.explicit_public"
reason_text allow_atproto_public_repo = "signal.allow.atproto_public_repo"
reason_text allow_local_owner = "signal.allow.local_owner"
reason_text allow_user_controlled_remote = "signal.allow.user_controlled_remote"
reason_text allow_local_private_filter = "signal.allow.local_private_filter"
reason_text deny_private_affinity = "signal.deny.private_affinity"
reason_text deny_remote_private_filter = "signal.deny.remote_private_filter"
reason_text deny_non_public_provider_evidence = "signal.deny.non_public_provider_evidence"
reason_text deny_local_boundary_mismatch = "signal.deny.local_boundary_mismatch"

abbrev pub policy_violation : PolicyReason → Failure
policy_violation reason = type_error (
    String.◌++◌ "Recommendation interest signal violates public-only policy: "
      (String.◌++◌ (reason_text reason) "."))

-- requireRecommendationPublicSignalPolicy
unfoldable pub require_signal_policy : {N : Type 0} → PolicyInput N → Result PolicyEvaluation
require_signal_policy i = do
  evaluation ← evaluate_signal_policy i
  elim evaluation.decision [
    | deny ↦ throw (policy_violation evaluation.reason)
    | allow ↦ ok evaluation
  ]
