-- ===== src/Sources/Item.antt =====
-- recommendation/source-adapter.ts: the items of a source, and the requests and results of a read.
use open_interest_clusters.Prelude.{
  ℕ, String, Bool, true, false, not, ◌&&◌, List, Option, none, some, leb, if◌then◌else◌, map_result,
  type_error, Result, ok, or_throw,
}
use open_interest_clusters.Js.{Value, undefined, num, str, arr, items, get, is_object}
use open_interest_clusters.Prelude.Results
use open_interest_clusters.Js.Host.{Host}
use open_interest_clusters.Js.Narrow.{◌>>=◌, ◌>>◌, guard, optional_boolean, known}
use open_interest_clusters.Js.Text.{is_not_blank, utf16_length, has_unsafe_control_character}
use open_interest_clusters.Consent.Words.{
  Protocol, protocol_vocabulary, SourceVisibility, source_visibility_vocabulary, AccessBasis,
  access_basis_vocabulary,
}
use open_interest_clusters.Signals.Words.{
  SourceItemKind, source_item_kind_vocabulary, TrustBoundary, trust_boundary_vocabulary,
}
use open_interest_clusters.Sources.Timestamp.{parse_timestamp, Moment}

-- RecommendationSourceContext
pub record Context : Type 0 where
  pub protocol : Protocol
  pub source_visibility : SourceVisibility
  pub access_basis : AccessBasis
  pub contains_private_data : Option Bool
  pub contains_third_party_data : Option Bool
  pub server_side_processing : Option Bool
  pub provider_policy_allows_processing : Option Bool

-- RecommendationSourceProvenance
pub record Provenance : Type 0 where
  pub adapter_id : String
  pub source_system : String
  pub observed_at : String
  pub trust_boundary : TrustBoundary
  pub opaque_source_id : Option String

-- RecommendationSourceItem
pub record Item : Type 0 where
  pub kind : SourceItemKind
  pub context : Context
  pub provenance : Provenance

-- RecommendationSourceAdapterReadRequest
pub record ReadRequest (N : Type 0) : Type 0 where
  pub subject_id : String
  pub since : Option String
  pub cursor : Option String
  pub limit : Option N

-- RecommendationSourceAdapterReadResult
pub record ReadResult : Type 0 where
  pub items : List Item
  pub cursor : Option String

-- The lengths that the checks allow
abbrev pub max_adapter_id_length : ℕ
max_adapter_id_length = 256

abbrev pub max_identifier_length : ℕ
max_identifier_length = 2048

abbrev pub max_cursor_length : ℕ
max_cursor_length = 1024

-- isBoundedNonEmptyString of a text
unfoldable pub is_bounded_text : ℕ → String → Bool
is_bounded_text max s =
    is_not_blank s && leb (utf16_length s) max && not (has_unsafe_control_character s)

abbrev pub is_moment : Option Moment → Bool
is_moment none = false
is_moment (some t) = true

-- isStrictRfc3339Timestamp of a text
unfoldable pub is_timestamp : String → Bool
is_timestamp s = is_bounded_text max_identifier_length s && is_moment (parse_timestamp s)

module _ {N : Type 0} where
  -- isBoundedNonEmptyString
  unfoldable pub bounded_text : ℕ → Value N → Option String
  bounded_text max (str s) = if is_bounded_text max s then some s else none
  bounded_text max _ = none

  -- isStrictRfc3339Timestamp
  unfoldable pub strict_timestamp : Value N → Option String
  strict_timestamp (str s) = if is_timestamp s then some s else none
  strict_timestamp _ = none

  -- `value === undefined || check(value)`
  abbrev pub optional : {A : Type 0} → (Value N → Option A) → Value N → Option (Option A)
  optional check undefined = some none
  optional check value = check value >>= λ a. some (some a)

  -- isValidSourceContext
  unfoldable pub valid_context : Value N → Option Context
  valid_context value = do
    guard (is_object value)
    protocol ← known (get value "protocol")
    visibility ← known (get value "sourceVisibility")
    basis ← known (get value "accessBasis")
    private_data ← optional_boolean (get value "containsPrivateData")
    third_party ← optional_boolean (get value "containsThirdPartyData")
    server_side ← optional_boolean (get value "serverSideProcessing")
    provider_allows ← optional_boolean (get value "providerPolicyAllowsProcessing")
    some (record {
      protocol = protocol;
      source_visibility = visibility;
      access_basis = basis;
      contains_private_data = private_data;
      contains_third_party_data = third_party;
      server_side_processing = server_side;
      provider_policy_allows_processing = provider_allows;
    })

  -- isValidSourceProvenance
  unfoldable pub valid_provenance : Value N → Option Provenance
  valid_provenance value = do
    guard (is_object value)
    adapter_id ← bounded_text max_adapter_id_length (get value "adapterId")
    source_system ← bounded_text max_adapter_id_length (get value "sourceSystem")
    observed_at ← strict_timestamp (get value "observedAt")
    trust ← known (get value "trustBoundary")
    source_id ← optional (bounded_text max_identifier_length) (get value "opaqueSourceId")
    some (record {
      adapter_id = adapter_id;
      source_system = source_system;
      observed_at = observed_at;
      trust_boundary = trust;
      opaque_source_id = source_id;
    })

  -- isRecommendationSourceItem
  unfoldable pub valid_item : Value N → Option Item
  valid_item value = do
    guard (is_object value)
    kind ← known (get value "kind")
    context ← valid_context (get value "context")
    provenance ← valid_provenance (get value "provenance")
    some (record { kind = kind; context = context; provenance = provenance })

  -- normalizeRecommendationSourceItem
  unfoldable pub normalize_item : Value N → Result Item
  normalize_item value =
      or_throw (valid_item value) (type_error "Invalid recommendation source item.")

  -- `candidate.items`, an array
  abbrev pub item_list : Value N → Option (List (Value N))
  item_list (arr vs) = some (items vs)
  item_list _ = none

  -- The checks of normalizeRecommendationSourceAdapterReadResult before its items
  unfoldable pub valid_result : Value N → Option (List (Value N) × Option String)
  valid_result value = do
    guard (is_object value)
    vs ← item_list (get value "items")
    cursor ← optional (bounded_text max_cursor_length) (get value "cursor")
    some (vs, cursor)

  -- normalizeRecommendationSourceAdapterReadResult
  unfoldable pub normalize_result : Value N → Result ReadResult
  normalize_result value =
      Results.◌>>=◌
        (or_throw (valid_result value)
          (type_error "Invalid recommendation source adapter read result."))
        (λ parts.
          Results.◌>>=◌ (map_result normalize_item parts.0)
            (λ xs. ok (record { items = xs; cursor = parts.1 })))

module _ (host : Host) where
  -- isOptionalPositiveInteger of a defined value; no number above 0 is at most 0
  unfoldable pub positive_integer : Value host.Number → Option host.Number
  positive_integer (num n) =
      if host.is_integer n && not (host.at_most n host.zero_number) then some n else none
  positive_integer _ = none

  -- isValidAdapterReadRequest
  unfoldable pub valid_read_request : Value host.Number → Option (ReadRequest host.Number)
  valid_read_request value = do
    guard (is_object value)
    subject_id ← bounded_text max_identifier_length (get value "subjectId")
    since ← optional strict_timestamp (get value "since")
    cursor ← optional (bounded_text max_cursor_length) (get value "cursor")
    limit ← optional positive_integer (get value "limit")
    some (record { subject_id = subject_id; since = since; cursor = cursor; limit = limit })

  -- normalizeRecommendationSourceAdapterReadRequest
  unfoldable pub normalize_read_request : Value host.Number → Result (ReadRequest host.Number)
  normalize_read_request value =
      or_throw (valid_read_request value)
        (type_error "Invalid recommendation source adapter read request.")
