-- ===== src/Signals/Fields.antt =====
-- recommendation/public-signal-policy.ts: the comparisons of a field with one constant, by which its
-- predicates are written.
use open_interest_clusters.Prelude.{Bool, true, false}
use open_interest_clusters.Consent.Words.{
  DataUse, ranking, local_personalization, Protocol, activitypods, atproto, app_local,
  SourceVisibility, acl_controlled, AccessBasis, owner, solid_acl_control, public_web,
}
use open_interest_clusters.Storage.Authority.{
  StorageAuthority, device_owned, storage_authority_vocabulary, ProcessingBoundary, server_allowed,
}
use open_interest_clusters.Signals.Words.{TrustBoundary}

abbrev pub is_device_owned : StorageAuthority → Bool
is_device_owned device_owned = true
is_device_owned _ = false

abbrev pub is_user_owned_storage : StorageAuthority → Bool
is_user_owned_storage StorageAuthority.user_owned = true
is_user_owned_storage _ = false

abbrev pub is_local_only : ProcessingBoundary → Bool
is_local_only ProcessingBoundary.local_only = true
is_local_only _ = false

abbrev pub is_server_allowed : ProcessingBoundary → Bool
is_server_allowed server_allowed = true
is_server_allowed _ = false

abbrev pub is_user_owned_trust : TrustBoundary → Bool
is_user_owned_trust TrustBoundary.user_owned = true
is_user_owned_trust _ = false

abbrev pub is_activitypods : Protocol → Bool
is_activitypods activitypods = true
is_activitypods _ = false

abbrev pub is_atproto : Protocol → Bool
is_atproto atproto = true
is_atproto _ = false

abbrev pub is_app_local : Protocol → Bool
is_app_local app_local = true
is_app_local _ = false

abbrev pub is_public : SourceVisibility → Bool
is_public SourceVisibility.public = true
is_public _ = false

abbrev pub is_public_repo : SourceVisibility → Bool
is_public_repo SourceVisibility.atproto_public_repo = true
is_public_repo _ = false

abbrev pub is_local_visibility : SourceVisibility → Bool
is_local_visibility SourceVisibility.local_only = true
is_local_visibility _ = false

abbrev pub is_acl_controlled : SourceVisibility → Bool
is_acl_controlled acl_controlled = true
is_acl_controlled _ = false

abbrev pub is_public_web : AccessBasis → Bool
is_public_web public_web = true
is_public_web _ = false

abbrev pub is_repo_basis : AccessBasis → Bool
is_repo_basis AccessBasis.atproto_public_repo = true
is_repo_basis _ = false

abbrev pub is_owner : AccessBasis → Bool
is_owner owner = true
is_owner _ = false

abbrev pub is_acl_control : AccessBasis → Bool
is_acl_control solid_acl_control = true
is_acl_control _ = false

-- `dataUse === "local_personalization" || dataUse === "ranking"`
abbrev pub is_personal_use : DataUse → Bool
is_personal_use local_personalization = true
is_personal_use ranking = true
is_personal_use _ = false
