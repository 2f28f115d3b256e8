-- ===== src/Sources/Adapter.antt =====
-- recommendation/source-adapter.ts: adapters and reading one, and the consent request of an item.
use open_interest_clusters.Prelude.{
  String, Bool, List, Option, none, some, length, nat_eq, Failure, type_error, Result, ok, throw,
  or_throw,
}
use open_interest_clusters.Prelude.Results
use open_interest_clusters.Prelude.Vocabulary.{unique}
use open_interest_clusters.Js.{Value, undefined, bool, num, str, obj, end, field, get, is_object}
use open_interest_clusters.Js.Host.{Host}
use open_interest_clusters.Js.Narrow.{◌>>=◌, ◌>>◌, guard, known, known_list}
use open_interest_clusters.Consent.Words.{
  DataUse, data_use_vocabulary, data_use_name, protocol_vocabulary, protocol_name,
  source_visibility_name, access_basis_name,
}
use open_interest_clusters.Consent.Request.{Request}
use open_interest_clusters.Enforcement.Gate.{GateError}
use open_interest_clusters.Sources.Words.{Capability, capability_vocabulary}
use open_interest_clusters.Sources.Item.{
  Item, ReadRequest, ReadResult, max_adapter_id_length, max_identifier_length, bounded_text,
  normalize_item, normalize_read_request, normalize_result,
}

-- RecommendationSourceAdapter: its fields as they are given, and its function `read`, if that is a
-- function, on a world W. The read has no answer where it throws or rejects.
pub record Adapter (N W : Type 0) : Type 0 where
  pub fields : Value N
  pub read : Option (ReadRequest N → W → Option (Value N) × W)

-- What a read throws: an error of a check, of the consent gate, or of the adapter, or the engine's
-- TypeError where a property of null or undefined is read.
pub data ReadError : Type 0 where
  invalid : Failure → ReadError
  refused : GateError → ReadError
  adapter_failed no_properties : ReadError

pub data Answer (T : Type 0) : Type 0 where
  returned : T → Answer T
  thrown : ReadError → Answer T

abbrev pub answer_of : {T : Type 0} → Result T → Answer T
answer_of (ok value) = returned value
answer_of (throw failure) = thrown (invalid failure)

-- An optional property: a value that is undefined reads as one that is left out.
abbrev pub optional_value : {A N : Type 0} → (A → Value N) → Option A → Value N
optional_value f none = undefined
optional_value f (some a) = f a

-- A read request as the object that it is
abbrev pub read_request_value : {N : Type 0} → ReadRequest N → Value N
read_request_value r = obj (
    field "subjectId" (str r.subject_id) (
      field "since" (optional_value str r.since) (
        field "cursor" (optional_value str r.cursor)
          (field "limit" (optional_value num r.limit) end))))

-- A consent request as the object that it is
abbrev pub request_value : {N : Type 0} → Request → Value N
request_value r = obj (
    field "subjectId" (str r.subject_id) (
      field "dataUse" (str (data_use_name r.data_use)) (
        field "protocol" (str (protocol_name r.protocol)) (
          field "sourceVisibility" (str (source_visibility_name r.source_visibility)) (
            field "accessBasis" (str (access_basis_name r.access_basis)) (
              field "containsPrivateData" (optional_value bool r.contains_private_data) (
                field "containsThirdPartyData" (optional_value bool r.contains_third_party_data) (
                  field "serverSideProcessing" (optional_value bool r.server_side_processing) (
                    field "providerPolicyAllowsProcessing"
                      (optional_value bool r.provider_policy_allows_processing) end)))))))))

-- createConsentRequestFromNormalizedSource of recommendation/consent-gated-source-adapter.ts, and
-- the request that createRecommendationConsentRequestFromSource builds
unfoldable pub item_request : String → DataUse → Item → Request
item_request subject_id data_use source = record {
  subject_id = subject_id;
  data_use = data_use;
  protocol = source.context.protocol;
  source_visibility = source.context.source_visibility;
  access_basis = source.context.access_basis;
  contains_private_data = source.context.contains_private_data;
  contains_third_party_data = source.context.contains_third_party_data;
  server_side_processing = source.context.server_side_processing;
  provider_policy_allows_processing = source.context.provider_policy_allows_processing;
}

-- hasUniqueAdapterCapabilities
unfoldable pub has_unique_capabilities : List Capability → Bool
has_unique_capabilities capabilities = nat_eq (length (unique capabilities)) (length capabilities)

module _ {N : Type 0} where
  -- The subject and the use of the input of createRecommendationConsentRequestFromSource
  unfoldable pub valid_source_input : Value N → Option (String × DataUse)
  valid_source_input input = do
    guard (is_object input)
    subject_id ← bounded_text max_identifier_length (get input "subjectId")
    data_use ← known (get input "dataUse")
    some (subject_id, data_use)

  -- createRecommendationConsentRequestFromSource
  unfoldable pub create_consent_request : Value N → Result Request
  create_consent_request input =
      Results.◌>>=◌
        (or_throw (valid_source_input input)
          (type_error "Invalid recommendation consent source input."))
        (λ checked.
          Results.◌>>=◌ (normalize_item (get input "source"))
            (λ source. ok (item_request checked.0 checked.1 source)))

module _ {W : Type 0} (host : Host) where
  -- isRecommendationSourceAdapter, with the function that it finds
  unfoldable pub valid_adapter :
      Adapter host.Number W → Option (ReadRequest host.Number → W → Option (Value host.Number) × W)
  valid_adapter adapter = do
    guard (is_object adapter.fields)
    id ← bounded_text max_adapter_id_length (get adapter.fields "id")
    protocol ← known ⦃v = protocol_vocabulary⦄ (get adapter.fields "protocol")
    capabilities ← known_list (get adapter.fields "capabilities")
    guard (has_unique_capabilities capabilities)
    adapter.read

  -- What the adapter answers, in a world
  abbrev pub after_read : Option (Value host.Number) × W → Answer ReadResult × W
  after_read (none, w) = (thrown adapter_failed, w)
  after_read (some value, w) = (answer_of (normalize_result value), w)

  -- readRecommendationSourceAdapter
  unfoldable pub read_adapter :
      Adapter host.Number W → Value host.Number → W → Answer ReadResult × W
  read_adapter adapter request w = elim (valid_adapter adapter) [
    | none ↦ (thrown (invalid (type_error "Invalid recommendation source adapter.")), w)
    | some read ↦ elim (normalize_read_request host request) [
      | throw failure ↦ (thrown (invalid failure), w)
      | ok safe ↦ after_read (read safe w)
    ]
  ]
