-- ===== src/Storage/Authority.antt =====
-- recommendation/storage-authority.ts: who may hold state of which processing boundary.
use open_interest_clusters.Prelude.{
  String, ◌≡◌, refl, Bool, true, false, List, [], ◌∷◌, some, Failure, type_error, Result, ok, ◌>>=◌,
  ◌>>◌, or_throw, ensure,
}
use open_interest_clusters.Prelude.Vocabulary.{Vocabulary, find}
use open_interest_clusters.Js.{Value, get, is_object}
use open_interest_clusters.Js.Narrow.{known, optional_boolean}
use open_interest_clusters.Consent.Words.{Decision, allow, deny}
use open_interest_clusters.Consent.Request.{is_true}

pub data StorageAuthority : Type 0 where
  device_owned user_owned provider_owned shared_operator : StorageAuthority

abbrev pub storage_authority_name : StorageAuthority → String
storage_authority_name device_owned = "device_owned"
storage_authority_name user_owned = "user_owned"
storage_authority_name provider_owned = "provider_owned"
storage_authority_name shared_operator = "shared_operator"

abbrev pub storage_authorities : List StorageAuthority
storage_authorities = device_owned ∷ user_owned ∷ provider_owned ∷ shared_operator ∷ []

pub storage_authority_found :
    (e : StorageAuthority)
    → find storage_authority_name storage_authorities (storage_authority_name e) ≡ some e
storage_authority_found device_owned = refl
storage_authority_found user_owned = refl
storage_authority_found provider_owned = refl
storage_authority_found shared_operator = refl

instance abbrev pub storage_authority_vocabulary : Vocabulary StorageAuthority
storage_authority_vocabulary = record {
  name = storage_authority_name;
  members = storage_authorities;
  found = storage_authority_found;
}

pub data ProcessingBoundary : Type 0 where
  local_only server_allowed aggregate_only : ProcessingBoundary

abbrev pub processing_boundary_name : ProcessingBoundary → String
processing_boundary_name local_only = "local_only"
processing_boundary_name server_allowed = "server_allowed"
processing_boundary_name aggregate_only = "aggregate_only"

abbrev pub processing_boundaries : List ProcessingBoundary
processing_boundaries = local_only ∷ server_allowed ∷ aggregate_only ∷ []

pub processing_boundary_found :
    (e : ProcessingBoundary)
    → find processing_boundary_name processing_boundaries (processing_boundary_name e) ≡ some e
processing_boundary_found local_only = refl
processing_boundary_found server_allowed = refl
processing_boundary_found aggregate_only = refl

instance abbrev pub processing_boundary_vocabulary : Vocabulary ProcessingBoundary
processing_boundary_vocabulary = record {
  name = processing_boundary_name;
  members = processing_boundaries;
  found = processing_boundary_found;
}

-- RecommendationStorageAuthorityReason
pub data StorageReason : Type 0 where
  allow_device_owned allow_user_owned allow_aggregate_only : StorageReason
  deny_provider_owned deny_shared_operator deny_authority_boundary_mismatch : StorageReason

-- inferLegacyRecommendationStorageAuthority
unfoldable pub infer_legacy_authority : ProcessingBoundary → StorageAuthority
infer_legacy_authority local_only = device_owned
infer_legacy_authority aggregate_only = shared_operator
infer_legacy_authority server_allowed = provider_owned

-- evaluateRecommendationStorageAuthority, past the check of its input; the last argument is
-- `subjectLevel === true`.
unfoldable pub authority_verdict :
    ProcessingBoundary → StorageAuthority → Bool → Decision × StorageReason
authority_verdict local_only device_owned subject_level = (allow, allow_device_owned)
authority_verdict local_only _ subject_level = (deny, deny_authority_boundary_mismatch)
authority_verdict server_allowed user_owned subject_level = (allow, allow_user_owned)
authority_verdict server_allowed provider_owned subject_level = (deny, deny_provider_owned)
authority_verdict server_allowed shared_operator subject_level = (deny, deny_shared_operator)
authority_verdict server_allowed _ subject_level = (deny, deny_authority_boundary_mismatch)
authority_verdict aggregate_only shared_operator true = (deny, deny_shared_operator)
authority_verdict aggregate_only shared_operator false = (allow, allow_aggregate_only)
authority_verdict aggregate_only _ subject_level = (deny, deny_authority_boundary_mismatch)

abbrev pub invalid_authority_input : Failure
invalid_authority_input = type_error "Invalid recommendation storage authority evaluation input."

-- evaluateRecommendationStorageAuthority
unfoldable pub evaluate_storage_authority :
    {N : Type 0} → Value N → Result (Decision × StorageReason)
evaluate_storage_authority input = do
  ensure (is_object input) invalid_authority_input
  authority ← or_throw (known (get input "authority")) invalid_authority_input
  boundary ← or_throw (known (get input "processingBoundary")) invalid_authority_input
  subject_level ← or_throw (optional_boolean (get input "subjectLevel")) invalid_authority_input
  ok (authority_verdict boundary authority (is_true subject_level))
