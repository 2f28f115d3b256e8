-- ===== src/Consent/Request.antt =====
-- recommendation/consent.ts: the policy and the request, and the checks that an unknown value is
-- one of these.
use open_interest_clusters.Prelude.{String, Bool, true, false, ◌||◌, List, Option, none, some}
use open_interest_clusters.Prelude.Vocabulary.{includes}
use open_interest_clusters.Js.{Value, get, is_object}
use open_interest_clusters.Js.Narrow.{
  ◌>>=◌, ◌>>◌, guard, non_empty_string, optional_string, optional_boolean, known, known_list,
  optional_known_list,
}
use open_interest_clusters.Consent.Words.{
  DataUse, ranking, data_use_vocabulary, Protocol, protocol_vocabulary, SourceVisibility,
  source_visibility_vocabulary, followers_only, mentioned_only, mutuals_only, local_only,
  acl_controlled, AccessBasis, access_basis_vocabulary,
}

pub record Policy : Type 0 where
  pub subject_id : String
  pub allowed_data_uses : List DataUse
  pub private_data_uses : Option (List DataUse)
  pub third_party_private_data_uses : Option (List DataUse)
  pub server_side_data_uses : Option (List DataUse)
  pub revoked_at : Option String
  pub delete_derived_data_requested_at : Option String

pub record Request : Type 0 where
  pub subject_id : String
  pub data_use : DataUse
  pub protocol : Protocol
  pub source_visibility : SourceVisibility
  pub access_basis : AccessBasis
  pub contains_private_data : Option Bool
  pub contains_third_party_data : Option Bool
  pub server_side_processing : Option Bool
  pub provider_policy_allows_processing : Option Bool

-- `value === true`, `value === false` of an optional boolean
abbrev pub is_true : Option Bool → Bool
is_true (some true) = true
is_true _ = false

abbrev pub is_false : Option Bool → Bool
is_false (some false) = true
is_false _ = false

-- includesUse
unfoldable pub includes_use : Option (List DataUse) → DataUse → Bool
includes_use none use_kind = false
includes_use (some uses) use_kind = includes uses use_kind

abbrev pub or_ranking : Option DataUse → DataUse
or_ranking (some use_kind) = use_kind
or_ranking none = ranking

module _ {N : Type 0} where
  -- isValidPolicy
  unfoldable pub valid_policy : Value N → Option Policy
  valid_policy policy = do
    guard (is_object policy)
    subject_id ← non_empty_string (get policy "subjectId")
    allowed ← known_list (get policy "allowedDataUses")
    private_uses ← optional_known_list (get policy "privateDataUses")
    third_party ← optional_known_list (get policy "thirdPartyPrivateDataUses")
    server_side ← optional_known_list (get policy "serverSideDataUses")
    revoked_at ← optional_string (get policy "revokedAt")
    delete_requested_at ← optional_string (get policy "deleteDerivedDataRequestedAt")
    some (record {
      subject_id = subject_id;
      allowed_data_uses = allowed;
      private_data_uses = private_uses;
      third_party_private_data_uses = third_party;
      server_side_data_uses = server_side;
      revoked_at = revoked_at;
      delete_derived_data_requested_at = delete_requested_at;
    })

  -- isValidRequest
  unfoldable pub valid_request : Value N → Option Request
  valid_request request = do
    guard (is_object request)
    subject_id ← non_empty_string (get request "subjectId")
    data_use ← known (get request "dataUse")
    protocol ← known (get request "protocol")
    visibility ← known (get request "sourceVisibility")
    basis ← known (get request "accessBasis")
    private_data ← optional_boolean (get request "containsPrivateData")
    third_party ← optional_boolean (get request "containsThirdPartyData")
    server_side ← optional_boolean (get request "serverSideProcessing")
    provider_allows ← optional_boolean (get request "providerPolicyAllowsProcessing")
    some (record {
      subject_id = subject_id;
      data_use = data_use;
      protocol = protocol;
      source_visibility = visibility;
      access_basis = basis;
      contains_private_data = private_data;
      contains_third_party_data = third_party;
      server_side_processing = server_side;
      provider_policy_allows_processing = provider_allows;
    })

  -- getSafeDataUseFromInvalidRequest; `get` is undefined, and no use, of what is no object
  unfoldable pub safe_data_use : Value N → DataUse
  safe_data_use request = or_ranking (known (get request "dataUse"))

-- isPrivateVisibility
unfoldable pub is_private_visibility : SourceVisibility → Bool
is_private_visibility followers_only = true
is_private_visibility mentioned_only = true
is_private_visibility mutuals_only = true
is_private_visibility local_only = true
is_private_visibility acl_controlled = true
is_private_visibility _ = false

-- deriveEffectivePrivateData
unfoldable pub effective_private_data : Request → Bool
unfolding is_private_visibility
effective_private_data r =
    is_true r.contains_private_data || is_private_visibility r.source_visibility
