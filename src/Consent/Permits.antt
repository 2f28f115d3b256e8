-- ===== src/Consent/Permits.antt =====
-- When a policy permits a request, stated apart from the order of the checks: the contract of
-- recommendation/consent.ts.
use open_interest_clusters.Prelude.{
  true, false, ◌≡◌, ◌≢◌, ◌⊎◌, ◌↔◌, Option, none, some, List, [], ◌∷◌, arith, eq_iff,
}
use open_interest_clusters.Prelude.Vocabulary.{Elem, includes_iff}
use open_interest_clusters.Consent.Words.{
  DataUse, data_use_vocabulary, Protocol, SourceVisibility, public, unlisted, followers_only,
  mentioned_only, mutuals_only, local_only, acl_controlled, AccessBasis, follower_relationship,
  mutual_relationship, mentioned_recipient, owner, provider_policy, solid_acl_read,
  solid_acl_control, allow, allow_explicit,
}
use open_interest_clusters.Consent.Request.{Policy, Request, includes_use, effective_private_data}
use open_interest_clusters.Consent.Evaluate.{
  is_set, visibility_allows_access, private_data_verdict, policy_verdict,
}

-- What each visibility asks of the access basis.
pub data Accessible : SourceVisibility → AccessBasis → Type 0 where
  by_all :
      {v : SourceVisibility} {b : AccessBasis}
      → Elem v (public ∷ unlisted ∷ SourceVisibility.atproto_public_repo ∷ [])
      → b ≢ AccessBasis.unknown
      → Accessible v b
  by_follower :
      {b : AccessBasis}
      → Elem b (follower_relationship ∷ mutual_relationship ∷ owner ∷ [])
      → Accessible followers_only b
  by_mention :
      {b : AccessBasis} → Elem b (mentioned_recipient ∷ owner ∷ []) → Accessible mentioned_only b
  by_mutual :
      {b : AccessBasis} → Elem b (mutual_relationship ∷ owner ∷ []) → Accessible mutuals_only b
  by_host : {b : AccessBasis} → Elem b (provider_policy ∷ owner ∷ []) → Accessible local_only b
  by_acl :
      {b : AccessBasis}
      → Elem b (solid_acl_read ∷ solid_acl_control ∷ owner ∷ [])
      → Accessible acl_controlled b

-- An optional list of uses grants a use when it is given and names it.
abbrev pub Grants : Option (List DataUse) → DataUse → Type 0
Grants none use_kind = ⊥
Grants (some uses) use_kind = Elem use_kind uses

-- Data is private when the request says so, or its source is not public.
abbrev pub IsPrivate : Request → Type 0
IsPrivate r =
    (r.contains_private_data ≡ some true)
    ⊎ Elem r.source_visibility
        (followers_only ∷ mentioned_only ∷ mutuals_only ∷ local_only ∷ acl_controlled ∷ [])

pub record Permits (p : Policy) (r : Request) : Type 0 where
  pub protocol : r.protocol ≢ Protocol.unknown
  pub subject : p.subject_id ≡ r.subject_id
  pub not_revoked : is_set p.revoked_at ≡ false
  pub not_deleted : is_set p.delete_derived_data_requested_at ≡ false
  pub use_allowed : Elem r.data_use p.allowed_data_uses
  pub server_side :
      (r.server_side_processing ≢ some true) ⊎ Grants p.server_side_data_uses r.data_use
  pub provider : r.provider_policy_allows_processing ≢ some false
  pub access : Accessible r.source_visibility r.access_basis
  pub private_use : (¬ IsPrivate r) ⊎ Grants p.private_data_uses r.data_use
  pub third_party :
      (¬ IsPrivate r)
      ⊎ (r.contains_third_party_data ≢ some true)
      ⊎ Grants p.third_party_private_data_uses r.data_use

includes_use_iff :
    (uses : Option (List DataUse)) (use_kind : DataUse)
    → (includes_use uses use_kind ≡ true) ↔ Grants uses use_kind
unfolding includes_use
includes_use_iff none use_kind = (λ h. cc, λ h. absurd h)
includes_use_iff (some uses) use_kind = includes_iff uses use_kind

access_sound :
    (v : SourceVisibility) (b : AccessBasis) → visibility_allows_access v b ≡ none → Accessible v b
unfolding visibility_allows_access
access_sound SourceVisibility.unknown b h = cc
access_sound public b h = by_all (ground arith) (ground arith)
access_sound unlisted b h = by_all (ground arith) (ground arith)
access_sound SourceVisibility.atproto_public_repo b h = by_all (ground arith) (ground arith)
access_sound followers_only b h = by_follower (ground arith)
access_sound mentioned_only b h = by_mention (ground arith)
access_sound mutuals_only b h = by_mutual (ground arith)
access_sound local_only b h = by_host (ground arith)
access_sound acl_controlled b h = by_acl (ground arith)

access_complete :
    {v : SourceVisibility} {b : AccessBasis} → Accessible v b → visibility_allows_access v b ≡ none
unfolding visibility_allows_access
access_complete {v} {b} (by_all e known) = ground arith
access_complete {b} (by_follower e) = ground arith
access_complete {b} (by_mention e) = ground arith
access_complete {b} (by_mutual e) = ground arith
access_complete {b} (by_host e) = ground arith
access_complete {b} (by_acl e) = ground arith

pub IsPrivate-iff : (r : Request) → (effective_private_data r ≡ true) ↔ IsPrivate r
unfolding effective_private_data
IsPrivate-iff r = ground arith

Grants-sound : (p : Option (List DataUse)) (u : DataUse) → includes_use p u ≡ true → Grants p u
Grants-sound p u = (includes_use_iff p u).0

IsPrivate-verdict_sound :
    (p : Policy) (r : Request)
    → (private_data_verdict p r (effective_private_data r)).0 ≡ allow
    → ((¬ IsPrivate r) ⊎ Grants p.private_data_uses r.data_use)
      × ((¬ IsPrivate r)
          ⊎ (r.contains_third_party_data ≢ some true)
          ⊎ Grants p.third_party_private_data_uses r.data_use)
unfolding private_data_verdict
IsPrivate-verdict_sound p r h = ground (
  arith,
  IsPrivate-iff r,
  includes_use_iff p.private_data_uses r.data_use,
  includes_use_iff p.third_party_private_data_uses r.data_use,
)

private_verdict_complete :
    (p : Policy) (r : Request)
    → (¬ IsPrivate r) ⊎ Grants p.private_data_uses r.data_use
    → (¬ IsPrivate r)
      ⊎ (r.contains_third_party_data ≢ some true)
      ⊎ Grants p.third_party_private_data_uses r.data_use
    → private_data_verdict p r (effective_private_data r) ≡ (allow, allow_explicit)
unfolding private_data_verdict
private_verdict_complete p r h k = ground (
  arith,
  IsPrivate-iff r,
  includes_use_iff p.private_data_uses r.data_use,
  includes_use_iff p.third_party_private_data_uses r.data_use,
)

-- The checks of a policy let a request through exactly when the policy permits it.
pub policy_verdict_sound :
    (p : Policy) (r : Request)
    → r.protocol ≢ Protocol.unknown
    → (policy_verdict p r (effective_private_data r)).0 ≡ allow
    → Permits p r
unfolding policy_verdict
policy_verdict_sound p r known h =
    let last : (private_data_verdict p r (effective_private_data r)).0 ≡ allow = ground arith in
    record {
      protocol = known;
      subject = ground (arith, eq_iff p.subject_id r.subject_id);
      not_revoked = ground arith;
      not_deleted = ground arith;
      use_allowed = (includes_use_iff (some p.allowed_data_uses) r.data_use).0 (ground arith);
      server_side = ground (arith, includes_use_iff p.server_side_data_uses r.data_use);
      provider = ground arith;
      access = access_sound r.source_visibility r.access_basis (ground arith);
      private_use = (IsPrivate-verdict_sound p r last).0;
      third_party = (IsPrivate-verdict_sound p r last).1;
    }

pub policy_verdict_complete :
    (p : Policy) (r : Request)
    → Permits p r
    → policy_verdict p r (effective_private_data r) ≡ (allow, allow_explicit)
unfolding policy_verdict
policy_verdict_complete p r h = ground (
  arith,
  eq_iff p.subject_id r.subject_id,
  includes_use_iff (some p.allowed_data_uses) r.data_use,
  includes_use_iff p.server_side_data_uses r.data_use,
  access_complete h.access,
  private_verdict_complete p r h.private_use h.third_party,
)
