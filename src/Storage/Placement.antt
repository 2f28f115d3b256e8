-- ===== src/Storage/Placement.antt =====
-- recommendation/state-placement-policy.ts: where a storage adapter may keep which state.
use open_interest_clusters.Prelude.{
  ℕ, String, ◌≡◌, refl, Bool, true, false, not, ◌&&◌, List, [], ◌∷◌, some, ◌==◌, leb, nat_eq,
  length, if◌then◌else◌, Failure, type_error, Result, ok, throw, ◌>>=◌, ◌>>◌, or_throw, ensure,
}
use open_interest_clusters.Prelude.Vocabulary.{Vocabulary, find, unique}
use open_interest_clusters.Js.{Value, bool, str, get, is_plain_record}
use open_interest_clusters.Js.Narrow.{known, known_list}
use open_interest_clusters.Js.Text.{is_not_blank, trim, utf16_length, has_unsafe_control_character}
use open_interest_clusters.Consent.Words.{Decision}
use open_interest_clusters.Storage.Authority.{
  StorageAuthority, storage_authority_vocabulary, ProcessingBoundary,
  processing_boundary_vocabulary, StorageReason,
}

pub data StateDomain : Type 0 where
  interest_profile seen_history dismissal_history feedback_history bandit_state : StateDomain
  label_evidence profile_embedding candidate_cache explanation_cache aggregate_statistics :
      StateDomain

abbrev pub state_domain_name : StateDomain → String
state_domain_name interest_profile = "interest_profile"
state_domain_name seen_history = "seen_history"
state_domain_name dismissal_history = "dismissal_history"
state_domain_name feedback_history = "feedback_history"
state_domain_name bandit_state = "bandit_state"
state_domain_name label_evidence = "label_evidence"
state_domain_name profile_embedding = "profile_embedding"
state_domain_name candidate_cache = "candidate_cache"
state_domain_name explanation_cache = "explanation_cache"
state_domain_name aggregate_statistics = "aggregate_statistics"

abbrev pub state_domains : List StateDomain
state_domains =
    interest_profile ∷ seen_history ∷ dismissal_history ∷ feedback_history ∷ bandit_state
    ∷ label_evidence ∷ profile_embedding ∷ candidate_cache ∷ explanation_cache
    ∷ aggregate_statistics ∷ []

pub state_domain_found :
    (e : StateDomain) → find state_domain_name state_domains (state_domain_name e) ≡ some e
state_domain_found interest_profile = refl
state_domain_found seen_history = refl
state_domain_found dismissal_history = refl
state_domain_found feedback_history = refl
state_domain_found bandit_state = refl
state_domain_found label_evidence = refl
state_domain_found profile_embedding = refl
state_domain_found candidate_cache = refl
state_domain_found explanation_cache = refl
state_domain_found aggregate_statistics = refl

instance abbrev pub state_domain_vocabulary : Vocabulary StateDomain
state_domain_vocabulary = record {
  name = state_domain_name;
  members = state_domains;
  found = state_domain_found;
}

pub data PersistenceMode : Type 0 where
  ephemeral persistent : PersistenceMode

abbrev pub persistence_mode_name : PersistenceMode → String
persistence_mode_name ephemeral = "ephemeral"
persistence_mode_name persistent = "persistent"

abbrev pub persistence_modes : List PersistenceMode
persistence_modes = ephemeral ∷ persistent ∷ []

pub persistence_mode_found :
    (e : PersistenceMode)
    → find persistence_mode_name persistence_modes (persistence_mode_name e) ≡ some e
persistence_mode_found ephemeral = refl
persistence_mode_found persistent = refl

instance abbrev pub persistence_mode_vocabulary : Vocabulary PersistenceMode
persistence_mode_vocabulary = record {
  name = persistence_mode_name;
  members = persistence_modes;
  found = persistence_mode_found;
}

-- RecommendationStatePlacementReason
pub data PlacementReason : Type 0 where
  allow_device_local_first allow_user_controlled_remote allow_aggregate_statistics : PlacementReason
  deny_storage_authority deny_personal_state_provider_controlled : PlacementReason
  deny_aggregate_domain_mismatch deny_local_adapter_requires_network : PlacementReason
  deny_local_adapter_not_offline_capable deny_persistent_state_not_user_deletable : PlacementReason
  deny_user_state_not_exportable : PlacementReason

-- DOMAIN_METADATA: `subjectLevel` and `userPreferenceState` of each domain
unfoldable pub subject_level : StateDomain → Bool
subject_level aggregate_statistics = false
subject_level _ = true

unfoldable pub user_preference_state : StateDomain → Bool
user_preference_state profile_embedding = false
user_preference_state candidate_cache = false
user_preference_state explanation_cache = false
user_preference_state aggregate_statistics = false
user_preference_state _ = true

-- RecommendationStateStorageAdapterManifest
pub record Manifest : Type 0 where
  pub adapter_id : String
  pub domains : List StateDomain
  pub authority : StorageAuthority
  pub processing_boundary : ProcessingBoundary
  pub persistence : PersistenceMode
  pub requires_network : Bool
  pub supports_offline : Bool
  pub user_exportable : Bool
  pub user_deletable : Bool
  pub encrypted_at_rest : Bool

-- RecommendationStatePlacementEvaluation
pub record Placement : Type 0 where
  pub domain : StateDomain
  pub decision : Decision
  pub reason : PlacementReason
  pub authority_reason : StorageReason

-- RecommendationStateStorageManifestEvaluation
pub record ManifestEvaluation : Type 0 where
  pub adapter_id : String
  pub decision : Decision
  pub evaluations : List Placement

abbrev pub invalid_manifest : Failure
invalid_manifest = type_error "Invalid recommendation state storage adapter manifest."

abbrev pub undeclared_domain : Failure
undeclared_domain = type_error "Recommendation state domain is not declared by the storage adapter."

-- MAX_ADAPTER_ID_LENGTH
abbrev pub max_adapter_id_length : ℕ
max_adapter_id_length = 128

-- The texts that validateAdapterId lets through.
unfoldable pub is_adapter_id : String → Bool
is_adapter_id s =
    is_not_blank s
    && s == trim s
    && leb (utf16_length s) max_adapter_id_length
    && not (has_unsafe_control_character s)

-- The domains that a manifest may list: at least one, and none twice.
unfoldable pub are_domains : List StateDomain → Bool
are_domains domains =
    not (nat_eq (length domains) 0) && nat_eq (length (unique domains)) (length domains)

module _ {N : Type 0} where
  -- validateAdapterId
  unfoldable pub validate_adapter_id : Value N → Result String
  validate_adapter_id (str s) =
      if is_adapter_id s
      then ok s
      else throw (type_error "Invalid recommendation state storage adapter ID.")
  validate_adapter_id _ = throw (type_error "Invalid recommendation state storage adapter ID.")

  -- `typeof value === "boolean"`
  abbrev pub boolean : Value N → Result Bool
  boolean (bool b) = ok b
  boolean _ = throw invalid_manifest

  -- normalizeRecommendationStateStorageAdapterManifest
  unfoldable pub normalize_manifest : Value N → Result Manifest
  normalize_manifest input = do
    ensure (is_plain_record input) invalid_manifest
    domains ← or_throw (known_list (get input "domains")) invalid_manifest
    ensure (are_domains domains) invalid_manifest
    authority ← or_throw (known (get input "authority")) invalid_manifest
    processing_boundary ← or_throw (known (get input "processingBoundary")) invalid_manifest
    persistence ← or_throw (known (get input "persistence")) invalid_manifest
    requires_network ← boolean (get input "requiresNetwork")
    supports_offline ← boolean (get input "supportsOffline")
    user_exportable ← boolean (get input "userExportable")
    user_deletable ← boolean (get input "userDeletable")
    encrypted_at_rest ← boolean (get input "encryptedAtRest")
    adapter_id ← validate_adapter_id (get input "adapterId")
    ok (record {
      adapter_id = adapter_id;
      domains = domains;
      authority = authority;
      processing_boundary = processing_boundary;
      persistence = persistence;
      requires_network = requires_network;
      supports_offline = supports_offline;
      user_exportable = user_exportable;
      user_deletable = user_deletable;
      encrypted_at_rest = encrypted_at_rest;
    })
