-- ===== src/Storage/Evaluate.antt =====
-- recommendation/state-placement-policy.ts: the evaluation of a state domain and of a manifest.
use open_interest_clusters.Prelude.{
  Bool, true, false, not, ◌&&◌, List, [], ◌∷◌, every, if◌then◌else◌, Result, ok, throw, ◌>>=◌, ◌>>◌,
  or_throw, ensure, map_result, type_error,
}
use open_interest_clusters.Prelude.Vocabulary.{includes}
use open_interest_clusters.Js.{Value, Items, bool, str, arr, obj, nil, cons, end, field}
use open_interest_clusters.Js.Narrow.{known}
use open_interest_clusters.Consent.Words.{Decision, allow, deny}
use open_interest_clusters.Storage.Authority.{
  StorageAuthority, device_owned, provider_owned, shared_operator, storage_authority_name,
  ProcessingBoundary, aggregate_only, processing_boundary_name, evaluate_storage_authority,
}
use open_interest_clusters.Storage.Placement.{
  ManifestEvaluation, StateDomain, aggregate_statistics, state_domain_name, state_domain_vocabulary,
  PersistenceMode, persistent, persistence_mode_name, PlacementReason, allow_device_local_first,
  allow_user_controlled_remote, allow_aggregate_statistics, deny_storage_authority,
  deny_personal_state_provider_controlled, deny_aggregate_domain_mismatch,
  deny_local_adapter_requires_network, deny_local_adapter_not_offline_capable,
  deny_persistent_state_not_user_deletable, deny_user_state_not_exportable, subject_level,
  user_preference_state, Manifest, Placement, undeclared_domain, normalize_manifest,
}

abbrev pub is_provider_owned : StorageAuthority → Bool
is_provider_owned provider_owned = true
is_provider_owned _ = false

abbrev pub is_device_owned : StorageAuthority → Bool
is_device_owned device_owned = true
is_device_owned _ = false

abbrev pub is_shared_operator : StorageAuthority → Bool
is_shared_operator shared_operator = true
is_shared_operator _ = false

abbrev pub is_aggregate_only : ProcessingBoundary → Bool
is_aggregate_only aggregate_only = true
is_aggregate_only _ = false

abbrev pub is_aggregate_statistics : StateDomain → Bool
is_aggregate_statistics aggregate_statistics = true
is_aggregate_statistics _ = false

abbrev pub is_persistent : PersistenceMode → Bool
is_persistent persistent = true
is_persistent _ = false

-- The checks past the authority and the aggregate domain.
unfoldable pub personal_verdict : Manifest → StateDomain → Decision × PlacementReason
personal_verdict m domain =
    if is_device_owned m.authority && m.requires_network
    then (deny, deny_local_adapter_requires_network)
    else if is_device_owned m.authority && not m.supports_offline
    then (deny, deny_local_adapter_not_offline_capable)
    else if is_persistent m.persistence && not m.user_deletable
    then (deny, deny_persistent_state_not_user_deletable)
    else if is_persistent m.persistence && user_preference_state domain && not m.user_exportable
    then (deny, deny_user_state_not_exportable)
    else if is_device_owned m.authority
    then (allow, allow_device_local_first)
    else (allow, allow_user_controlled_remote)

-- The branches of evaluateRecommendationStatePlacement, by the decision on the authority.
unfoldable pub placement_verdict : Manifest → StateDomain → Decision → Decision × PlacementReason
placement_verdict m domain deny =
    if subject_level domain && is_provider_owned m.authority
    then (deny, deny_personal_state_provider_controlled)
    else (deny, deny_storage_authority)
placement_verdict m domain allow =
    if is_aggregate_statistics domain
    then if is_shared_operator m.authority && is_aggregate_only m.processing_boundary
      then (allow, allow_aggregate_statistics)
      else (deny, deny_aggregate_domain_mismatch)
    else personal_verdict m domain

abbrev pub domain_items : {N : Type 0} → List StateDomain → Items N
domain_items [] = nil
domain_items (d ∷ ds) = cons (str (state_domain_name d)) (domain_items ds)

-- A normalized manifest as the value that it is.
unfoldable pub manifest_value : {N : Type 0} → Manifest → Value N
manifest_value m = obj (
    field "adapterId" (str m.adapter_id) (
      field "domains" (arr (domain_items m.domains)) (
        field "authority" (str (storage_authority_name m.authority)) (
          field "processingBoundary" (str (processing_boundary_name m.processing_boundary)) (
            field "persistence" (str (persistence_mode_name m.persistence)) (
              field "requiresNetwork" (bool m.requires_network) (
                field "supportsOffline" (bool m.supports_offline) (
                  field "userExportable" (bool m.user_exportable) (
                    field "userDeletable" (bool m.user_deletable)
                      (field "encryptedAtRest" (bool m.encrypted_at_rest) end))))))))))

-- The argument that evaluateRecommendationStatePlacement builds for the authority's evaluation.
abbrev pub authority_input : {N : Type 0} → Manifest → StateDomain → Value N
authority_input m domain = obj (
    field "authority" (str (storage_authority_name m.authority)) (
      field "processingBoundary" (str (processing_boundary_name m.processing_boundary))
        (field "subjectLevel" (bool (subject_level domain)) end)))

abbrev pub is_allowed : Placement → Bool
is_allowed p = elim p.decision [ allow ↦ true | deny ↦ false ]

module _ {N : Type 0} where
  -- evaluateRecommendationStatePlacement
  unfoldable pub evaluate_placement : Value N → Value N → Result Placement
  evaluate_placement manifest_input domain_input = do
    m ← normalize_manifest manifest_input
    domain ← or_throw (known domain_input) undeclared_domain
    ensure (includes m.domains domain) undeclared_domain
    authority ← evaluate_storage_authority {N = N} (authority_input m domain)
    ok (record {
      domain = domain;
      decision = (placement_verdict m domain authority.0).0;
      reason = (placement_verdict m domain authority.0).1;
      authority_reason = authority.1;
    })

  -- evaluateRecommendationStateStorageManifest
  unfoldable pub evaluate_manifest : Value N → Result ManifestEvaluation
  evaluate_manifest input = do
    m ← normalize_manifest input
    evaluations ←
        map_result (λ d. evaluate_placement (manifest_value {N = N} m) (str (state_domain_name d)))
          m.domains
    ok (record {
      adapter_id = m.adapter_id;
      decision = if every is_allowed evaluations then allow else deny;
      evaluations = evaluations;
    })

  -- assertRecommendationStateStorageManifest
  unfoldable pub assert_manifest : Value N → Result Manifest
  assert_manifest input = do
    m ← normalize_manifest input
    evaluation ← evaluate_manifest (manifest_value {N = N} m)
    elim evaluation.decision [
      | deny ↦ throw (type_error "Recommendation state storage adapter violates placement policy.")
      | allow ↦ ok m
    ]
