-- ===== src/Consent/Evaluate.antt =====
-- recommendation/consent.ts: evaluateRecommendationConsent, its events and its evaluations.
use open_interest_clusters.Prelude.{
  String, Bool, true, false, not, ◌&&◌, ◌==◌, Option, none, some, if◌then◌else◌,
}
use open_interest_clusters.Js.{Value, undefined, null}
use open_interest_clusters.Js.Text.{is_not_blank}
use open_interest_clusters.Consent.Words.{
  DataUse, Protocol, SourceVisibility, AccessBasis, Decision, allow, deny, ReasonCode,
  allow_explicit, deny_default, deny_invalid_policy, deny_invalid_request, deny_revoked,
  deny_deleted, deny_use_not_allowed, deny_subject_mismatch, deny_server_processing_not_allowed,
  deny_visibility_scope, deny_acl_required, deny_access_basis_unknown, deny_protocol_scope_unknown,
  deny_provider_policy, deny_private_data_use_not_allowed, deny_third_party_private_data,
}
use open_interest_clusters.Consent.Request.{
  Policy, Request, is_true, is_false, includes_use, valid_policy, valid_request, safe_data_use,
  effective_private_data,
}

-- PrivacySafeRecommendationConsentEvent
pub record ConsentEvent : Type 0 where
  pub decision : Decision
  pub reason : ReasonCode
  pub data_use : DataUse
  pub protocol : Protocol
  pub source_visibility : SourceVisibility
  pub access_basis : AccessBasis
  pub contains_private_data : Bool
  pub contains_third_party_data : Bool
  pub server_side_processing : Bool

-- RecommendationConsentEvaluation
pub record Evaluation : Type 0 where
  pub event : ConsentEvent
  pub open event use *
  pub audit_event : ConsentEvent

-- visibilityAllowsAccess; `none` is "allow"
unfoldable pub visibility_allows_access : SourceVisibility → AccessBasis → Option ReasonCode
visibility_allows_access SourceVisibility.unknown basis = some deny_visibility_scope
visibility_allows_access _ AccessBasis.unknown = some deny_access_basis_unknown
visibility_allows_access SourceVisibility.public _ = none
visibility_allows_access SourceVisibility.unlisted _ = none
visibility_allows_access SourceVisibility.atproto_public_repo _ = none
visibility_allows_access SourceVisibility.followers_only AccessBasis.follower_relationship = none
visibility_allows_access SourceVisibility.followers_only AccessBasis.mutual_relationship = none
visibility_allows_access SourceVisibility.followers_only AccessBasis.owner = none
visibility_allows_access SourceVisibility.followers_only _ = some deny_visibility_scope
visibility_allows_access SourceVisibility.mentioned_only AccessBasis.mentioned_recipient = none
visibility_allows_access SourceVisibility.mentioned_only AccessBasis.owner = none
visibility_allows_access SourceVisibility.mentioned_only _ = some deny_visibility_scope
visibility_allows_access SourceVisibility.mutuals_only AccessBasis.mutual_relationship = none
visibility_allows_access SourceVisibility.mutuals_only AccessBasis.owner = none
visibility_allows_access SourceVisibility.mutuals_only _ = some deny_visibility_scope
visibility_allows_access SourceVisibility.local_only AccessBasis.provider_policy = none
visibility_allows_access SourceVisibility.local_only AccessBasis.owner = none
visibility_allows_access SourceVisibility.local_only _ = some deny_visibility_scope
visibility_allows_access SourceVisibility.acl_controlled AccessBasis.solid_acl_read = none
visibility_allows_access SourceVisibility.acl_controlled AccessBasis.solid_acl_control = none
visibility_allows_access SourceVisibility.acl_controlled AccessBasis.owner = none
visibility_allows_access SourceVisibility.acl_controlled _ = some deny_acl_required

-- createPrivacySafeConsentEvent
unfoldable pub create_event : Request → Decision → ReasonCode → Bool → ConsentEvent
create_event r decision reason private_data = record {
  decision = decision;
  reason = reason;
  data_use = r.data_use;
  protocol = r.protocol;
  source_visibility = r.source_visibility;
  access_basis = r.access_basis;
  contains_private_data = private_data;
  contains_third_party_data = is_true r.contains_third_party_data;
  server_side_processing = is_true r.server_side_processing;
}

-- createEvaluation
unfoldable pub create_evaluation : Request → Decision → ReasonCode → Bool → Evaluation
unfolding create_event
create_evaluation r decision reason private_data =
    let event = create_event r decision reason private_data in
    record { event = event; audit_event = event }

-- fallbackRequest
unfoldable pub fallback_request : DataUse → Request
fallback_request use_kind = record {
  subject_id = "redacted";
  data_use = use_kind;
  protocol = Protocol.unknown;
  source_visibility = SourceVisibility.unknown;
  access_basis = AccessBasis.unknown;
  contains_private_data = none;
  contains_third_party_data = none;
  server_side_processing = none;
  provider_policy_allows_processing = none;
}

-- `isNonEmptyString` of an optional text
abbrev pub is_set : Option String → Bool
is_set none = false
is_set (some s) = is_not_blank s

abbrev pub is_unknown_protocol : Protocol → Bool
is_unknown_protocol Protocol.unknown = true
is_unknown_protocol _ = false

-- The decision and the reason of a branch that returns an evaluation.
abbrev pub Verdict : Type 0
Verdict = Decision × ReasonCode

-- The last checks, once the visibility allows access.
unfoldable pub private_data_verdict : Policy → Request → Bool → Verdict
private_data_verdict p r private_data =
    if private_data && not (includes_use p.private_data_uses r.data_use)
    then (deny, deny_private_data_use_not_allowed)
    else if private_data
        && is_true r.contains_third_party_data
        && not (includes_use p.third_party_private_data_uses r.data_use)
    then (deny, deny_third_party_private_data)
    else (allow, allow_explicit)

-- The checks of a valid policy against a valid request, in the order of the source.
unfoldable pub policy_verdict : Policy → Request → Bool → Verdict
policy_verdict p r private_data =
    if not (p.subject_id == r.subject_id)
    then (deny, deny_subject_mismatch)
    else if is_set p.revoked_at
    then (deny, deny_revoked)
    else if is_set p.delete_derived_data_requested_at
    then (deny, deny_deleted)
    else if not (includes_use (some p.allowed_data_uses) r.data_use)
    then (deny, deny_use_not_allowed)
    else if is_true r.server_side_processing
        && not (includes_use p.server_side_data_uses r.data_use)
    then (deny, deny_server_processing_not_allowed)
    else if is_false r.provider_policy_allows_processing
    then (deny, deny_provider_policy)
    else elim (visibility_allows_access r.source_visibility r.access_basis) [
      | some reason ↦ (deny, reason)
      | none ↦ private_data_verdict p r private_data
    ]

module _ {N : Type 0} where
  -- The policy argument: null and undefined are the default deny.
  unfoldable pub given_policy_verdict : Value N → Request → Bool → Verdict
  given_policy_verdict undefined r private_data = (deny, deny_default)
  given_policy_verdict null r private_data = (deny, deny_default)
  given_policy_verdict policy r private_data = elim (valid_policy policy) [
    | none ↦ (deny, deny_invalid_policy)
    | some p ↦ policy_verdict p r private_data
  ]

  unfoldable pub evaluate_request : Value N → Request → Evaluation
  evaluate_request policy r =
      let private_data = effective_private_data r in
      let verdict =
        if is_unknown_protocol r.protocol
        then (deny, deny_protocol_scope_unknown)
        else given_policy_verdict policy r private_data in
      create_evaluation r verdict.0 verdict.1 private_data

  -- evaluateRecommendationConsent
  unfoldable pub evaluate : Value N → Value N → Evaluation
  evaluate policy request = elim (valid_request request) [
    | none ↦
        create_evaluation (fallback_request (safe_data_use request)) deny deny_invalid_request false
    | some r ↦ evaluate_request policy r
  ]
