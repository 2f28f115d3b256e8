-- ===== src/Consent/Words.antt =====
-- The vocabularies of recommendation/consent.ts: each constant array with its union type.
use open_interest_clusters.Prelude.{String, ◌≡◌, refl, List, [], ◌∷◌, some}
use open_interest_clusters.Prelude.Vocabulary.{Vocabulary, find}

pub data DataUse : Type 0 where
  ranking embeddings local_personalization server_personalization analytics : DataUse

abbrev pub data_use_name : DataUse → String
data_use_name ranking = "ranking"
data_use_name embeddings = "embeddings"
data_use_name local_personalization = "local_personalization"
data_use_name server_personalization = "server_personalization"
data_use_name analytics = "analytics"

abbrev pub data_uses : List DataUse
data_uses = ranking ∷ embeddings ∷ local_personalization ∷ server_personalization ∷ analytics ∷ []

pub data_use_found : (e : DataUse) → find data_use_name data_uses (data_use_name e) ≡ some e
data_use_found ranking = refl
data_use_found embeddings = refl
data_use_found local_personalization = refl
data_use_found server_personalization = refl
data_use_found analytics = refl

instance abbrev pub data_use_vocabulary : Vocabulary DataUse
data_use_vocabulary = record { name = data_use_name; members = data_uses; found = data_use_found }

pub data SourceVisibility : Type 0 where
  public unlisted followers_only mentioned_only mutuals_only : SourceVisibility
  local_only acl_controlled atproto_public_repo unknown : SourceVisibility

abbrev pub source_visibility_name : SourceVisibility → String
source_visibility_name public = "public"
source_visibility_name unlisted = "unlisted"
source_visibility_name followers_only = "followers_only"
source_visibility_name mentioned_only = "mentioned_only"
source_visibility_name mutuals_only = "mutuals_only"
source_visibility_name local_only = "local_only"
source_visibility_name acl_controlled = "acl_controlled"
source_visibility_name atproto_public_repo = "atproto_public_repo"
source_visibility_name unknown = "unknown"

abbrev pub source_visibilitys : List SourceVisibility
source_visibilitys =
    public ∷ unlisted ∷ followers_only ∷ mentioned_only ∷ mutuals_only ∷ local_only ∷ acl_controlled
    ∷ atproto_public_repo ∷ unknown ∷ []

pub source_visibility_found :
    (e : SourceVisibility)
    → find source_visibility_name source_visibilitys (source_visibility_name e) ≡ some e
source_visibility_found public = refl
source_visibility_found unlisted = refl
source_visibility_found followers_only = refl
source_visibility_found mentioned_only = refl
source_visibility_found mutuals_only = refl
source_visibility_found local_only = refl
source_visibility_found acl_controlled = refl
source_visibility_found atproto_public_repo = refl
source_visibility_found unknown = refl

instance abbrev pub source_visibility_vocabulary : Vocabulary SourceVisibility
source_visibility_vocabulary = record {
  name = source_visibility_name;
  members = source_visibilitys;
  found = source_visibility_found;
}

pub data AccessBasis : Type 0 where
  public_web authenticated_api follower_relationship mentioned_recipient mutual_relationship :
      AccessBasis
  owner solid_acl_read solid_acl_control atproto_public_repo oauth_scope : AccessBasis
  provider_policy unknown : AccessBasis

abbrev pub access_basis_name : AccessBasis → String
access_basis_name public_web = "public_web"
access_basis_name authenticated_api = "authenticated_api"
access_basis_name follower_relationship = "follower_relationship"
access_basis_name mentioned_recipient = "mentioned_recipient"
access_basis_name mutual_relationship = "mutual_relationship"
access_basis_name owner = "owner"
access_basis_name solid_acl_read = "solid_acl_read"
access_basis_name solid_acl_control = "solid_acl_control"
access_basis_name atproto_public_repo = "atproto_public_repo"
access_basis_name oauth_scope = "oauth_scope"
access_basis_name provider_policy = "provider_policy"
access_basis_name unknown = "unknown"

abbrev pub access_basiss : List AccessBasis
access_basiss =
    public_web ∷ authenticated_api ∷ follower_relationship ∷ mentioned_recipient
    ∷ mutual_relationship ∷ owner ∷ solid_acl_read ∷ solid_acl_control ∷ atproto_public_repo
    ∷ oauth_scope ∷ provider_policy ∷ unknown ∷ []

pub access_basis_found :
    (e : AccessBasis) → find access_basis_name access_basiss (access_basis_name e) ≡ some e
access_basis_found public_web = refl
access_basis_found authenticated_api = refl
access_basis_found follower_relationship = refl
access_basis_found mentioned_recipient = refl
access_basis_found mutual_relationship = refl
access_basis_found owner = refl
access_basis_found solid_acl_read = refl
access_basis_found solid_acl_control = refl
access_basis_found atproto_public_repo = refl
access_basis_found oauth_scope = refl
access_basis_found provider_policy = refl
access_basis_found unknown = refl

instance abbrev pub access_basis_vocabulary : Vocabulary AccessBasis
access_basis_vocabulary = record {
  name = access_basis_name;
  members = access_basiss;
  found = access_basis_found;
}

pub data Protocol : Type 0 where
  activitypub activitypods atproto app_local unknown : Protocol

abbrev pub protocol_name : Protocol → String
protocol_name activitypub = "activitypub"
protocol_name activitypods = "activitypods"
protocol_name atproto = "atproto"
protocol_name app_local = "app_local"
protocol_name unknown = "unknown"

abbrev pub protocols : List Protocol
protocols = activitypub ∷ activitypods ∷ atproto ∷ app_local ∷ unknown ∷ []

pub protocol_found : (e : Protocol) → find protocol_name protocols (protocol_name e) ≡ some e
protocol_found activitypub = refl
protocol_found activitypods = refl
protocol_found atproto = refl
protocol_found app_local = refl
protocol_found unknown = refl

instance abbrev pub protocol_vocabulary : Vocabulary Protocol
protocol_vocabulary = record { name = protocol_name; members = protocols; found = protocol_found }

pub data DerivedDataTarget : Type 0 where
  profile embeddings source_references event_history candidate_cache : DerivedDataTarget

abbrev pub derived_data_target_name : DerivedDataTarget → String
derived_data_target_name profile = "profile"
derived_data_target_name embeddings = "embeddings"
derived_data_target_name source_references = "source_references"
derived_data_target_name event_history = "event_history"
derived_data_target_name candidate_cache = "candidate_cache"

abbrev pub derived_data_targets : List DerivedDataTarget
derived_data_targets =
    profile ∷ embeddings ∷ source_references ∷ event_history ∷ candidate_cache ∷ []

pub derived_data_target_found :
    (e : DerivedDataTarget)
    → find derived_data_target_name derived_data_targets (derived_data_target_name e) ≡ some e
derived_data_target_found profile = refl
derived_data_target_found embeddings = refl
derived_data_target_found source_references = refl
derived_data_target_found event_history = refl
derived_data_target_found candidate_cache = refl

instance abbrev pub derived_data_target_vocabulary : Vocabulary DerivedDataTarget
derived_data_target_vocabulary = record {
  name = derived_data_target_name;
  members = derived_data_targets;
  found = derived_data_target_found;
}

pub data Decision : Type 0 where
  allow deny : Decision

-- RecommendationConsentReasonCode; the dots of a code are left out of its constructor.
pub data ReasonCode : Type 0 where
  allow_explicit deny_default deny_invalid_policy deny_invalid_request deny_revoked : ReasonCode
  deny_deleted deny_use_not_allowed deny_subject_mismatch : ReasonCode
  deny_server_processing_not_allowed deny_visibility_scope deny_acl_required : ReasonCode
  deny_access_basis_unknown deny_protocol_scope_unknown deny_provider_policy : ReasonCode
  deny_private_data_use_not_allowed deny_third_party_private_data : ReasonCode

abbrev pub decision_name : Decision → String
decision_name allow = "allow"
decision_name deny = "deny"

abbrev pub reason_name : ReasonCode → String
reason_name allow_explicit = "consent.allow.explicit"
reason_name deny_default = "consent.deny.default"
reason_name deny_invalid_policy = "consent.deny.invalid_policy"
reason_name deny_invalid_request = "consent.deny.invalid_request"
reason_name deny_revoked = "consent.deny.revoked"
reason_name deny_deleted = "consent.deny.deleted"
reason_name deny_use_not_allowed = "consent.deny.use_not_allowed"
reason_name deny_subject_mismatch = "consent.deny.subject_mismatch"
reason_name deny_server_processing_not_allowed = "consent.deny.server_processing_not_allowed"
reason_name deny_visibility_scope = "access.deny.visibility_scope"
reason_name deny_acl_required = "access.deny.acl_required"
reason_name deny_access_basis_unknown = "access.deny.access_basis_unknown"
reason_name deny_protocol_scope_unknown = "access.deny.protocol_scope_unknown"
reason_name deny_provider_policy = "policy.deny.provider_policy"
reason_name deny_private_data_use_not_allowed = "safety.deny.private_data_use_not_allowed"
reason_name deny_third_party_private_data = "safety.deny.third_party_private_data"
