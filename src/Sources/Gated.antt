-- ===== src/Sources/Gated.antt =====
-- recommendation/consent-gated-source-adapter.ts: readRecommendationSourceAdapterWithConsent.
use open_interest_clusters.Prelude.{
  ℕ, suc, String, Bool, true, false, List, [], ◌∷◌, Option, none, some, if◌then◌else◌, type_error,
  Result, ok, throw, or_throw, ◌>>=◌, ◌==◌,
}
use mathlib.Core.Option
use open_interest_clusters.Js.{Value, undefined, null, str, get}
use open_interest_clusters.Js.Host.{Host}
use open_interest_clusters.Js.Narrow.{known}
use open_interest_clusters.Consent.Words.{
  DataUse, data_use_vocabulary, Protocol, app_local, atproto, protocol_vocabulary, SourceVisibility,
  AccessBasis, public_web, Decision, allow, deny,
}
use open_interest_clusters.Consent.Request.{Request}
use open_interest_clusters.Consent.Evaluate.{Evaluation, evaluate}
use open_interest_clusters.Enforcement.Gate.{
  EnforcementOptions, GateError, denied_error, record_audit_event,
}
use open_interest_clusters.Sources.Item.{Item, ReadRequest, ReadResult, normalize_read_request}
use open_interest_clusters.Sources.Adapter.{
  Adapter, invalid, no_properties, refused, Answer, returned, thrown, request_value,
  read_request_value, item_request, read_adapter,
}

-- RecommendationDeniedSourceItemMode
pub data DeniedItemMode : Type 0 where
  fail_closed filter_denied : DeniedItemMode

-- RecommendationConsentGatedSourceAdapterReadInput
pub record GatedInput (N W : Type 0) : Type 0 where
  pub adapter : Adapter N W
  pub read_request : Value N
  pub data_use : Value N
  pub policy : Value N
  pub enforcement_options : Option (EnforcementOptions W)
  pub denied_item_mode : Value N

-- RecommendationConsentGatedSourceAdapterReadResult
pub record GatedResult : Type 0 where
  pub items : List Item
  pub consent_evaluations : List Evaluation
  pub denied_item_count : ℕ
  pub cursor : Option String

-- What evaluateSourceItemConsent comes to: the item with its evaluation, null, or an error.
pub data ItemOutcome : Type 0 where
  allowed : Item → Evaluation → ItemOutcome
  filtered : ItemOutcome
  rejected : GateError → ItemOutcome

-- isDeniedItemMode, with the default
unfoldable pub denied_item_mode : {N : Type 0} → Value N → Option DeniedItemMode
denied_item_mode undefined = some fail_closed
denied_item_mode (str s) =
    if s == "fail_closed"
    then some fail_closed
    else if s == "filter_denied"
    then some filter_denied
    else none
denied_item_mode _ = none

-- `isKnownProtocol(value) && value !== "unknown" ? value : "app_local"`
abbrev pub protocol_or_local : Option Protocol → Protocol
protocol_or_local none = app_local
protocol_or_local (some Protocol.unknown) = app_local
protocol_or_local (some protocol) = protocol

-- preflightProtocol of an adapter with these fields; nothing where the adapter is null or undefined,
-- of which the engine reads no property.
unfoldable pub preflight_protocol : {N : Type 0} → Value N → Option Protocol
preflight_protocol undefined = none
preflight_protocol null = none
preflight_protocol fields = some (protocol_or_local (known {E = Protocol} (get fields "protocol")))

abbrev pub is_atproto : Protocol → Bool
is_atproto atproto = true
is_atproto _ = false

-- createPreflightConsentRequest, past preflightProtocol
abbrev pub preflight_of : String → DataUse → Protocol → Request
preflight_of subject_id data_use protocol = record {
  subject_id = subject_id;
  data_use = data_use;
  protocol = protocol;
  source_visibility =
      if is_atproto protocol then SourceVisibility.atproto_public_repo else SourceVisibility.public;
  access_basis = if is_atproto protocol then AccessBasis.atproto_public_repo else public_web;
  contains_private_data = some false;
  contains_third_party_data = some false;
  server_side_processing = some false;
  provider_policy_allows_processing = none;
}

-- createPreflightConsentRequest; nothing where preflightProtocol throws
unfoldable pub preflight_request : {N : Type 0} → String → DataUse → Value N → Option Request
preflight_request subject_id data_use fields =
    Option.map (preflight_of subject_id data_use) (preflight_protocol fields)

-- The decision on an item, past its audit
unfoldable pub item_outcome :
    DeniedItemMode → Item → Evaluation → Decision → Option GateError → ItemOutcome
item_outcome mode source evaluation deny (some error) = rejected (denied_error evaluation)
item_outcome mode source evaluation allow (some error) = rejected error
item_outcome filter_denied source evaluation deny none = filtered
item_outcome fail_closed source evaluation deny none = rejected (denied_error evaluation)
item_outcome mode source evaluation allow none = allowed source evaluation

-- The errors of the items whose evaluation rejects
unfoldable pub rejections : List ItemOutcome → List GateError
rejections [] = []
rejections (rejected error ∷ outcomes) = error ∷ rejections outcomes
rejections (_ ∷ outcomes) = rejections outcomes

-- The loop over the evaluations, and createReadResult
unfoldable pub collect : Option String → List ItemOutcome → GatedResult
collect cursor [] = record {
  items = [];
  consent_evaluations = [];
  denied_item_count = 0;
  cursor = cursor;
}
collect cursor (outcome ∷ outcomes) =
    let rest = collect cursor outcomes in
    elim outcome [
      | allowed source evaluation ↦ record rest {
        items = source ∷ rest.items;
        consent_evaluations = evaluation ∷ rest.consent_evaluations;
      }
      | _ ↦ record rest { denied_item_count = suc rest.denied_item_count }
    ]

module _ {N W : Type 0} (options : Option (EnforcementOptions W)) (policy : Value N) where
  -- evaluateSourceItemConsent
  unfoldable pub evaluate_item : String → DataUse → DeniedItemMode → Item → W → ItemOutcome × W
  evaluate_item subject_id data_use mode source w =
      let evaluation = evaluate policy (request_value (item_request subject_id data_use source)) in
      let (error, w') = record_audit_event evaluation.audit_event options w in
      (item_outcome mode source evaluation evaluation.decision error, w')

  -- The items of Promise.all: each call runs up to the answer of the audit sink before the next one
  -- starts, so that the sink sees the events in the order of the items, also past a rejection.
  unfoldable pub evaluate_items :
      String → DataUse → DeniedItemMode → List Item → W → List ItemOutcome × W
  evaluate_items subject_id data_use mode [] w = ([], w)
  evaluate_items subject_id data_use mode (source ∷ sources) w =
      let (outcome, w') = evaluate_item subject_id data_use mode source w in
      let (outcomes, end) = evaluate_items subject_id data_use mode sources w' in
      (outcome ∷ outcomes, end)

-- Promise.all over the items: it rejects with the error of one that rejects, the first one to
-- settle, which `first_settled` picks.
unfoldable pub settle :
    (GateError → List GateError → GateError) → Option String → List ItemOutcome → Answer GatedResult
settle first_settled cursor outcomes = elim (rejections outcomes) [
  | [] ↦ returned (collect cursor outcomes)
  | error ∷ errors ↦ thrown (refused (first_settled error errors))
]

-- `policy !== null && policy !== undefined`
abbrev pub is_given : {N : Type 0} → Value N → Bool
is_given undefined = false
is_given null = false
is_given _ = true

module _ {W : Type 0} (host : Host) where
  -- The checks of the mode, the use and the read request
  unfoldable pub gated_input :
      GatedInput host.Number W → Result (DeniedItemMode × DataUse × ReadRequest host.Number)
  gated_input input =
      or_throw (denied_item_mode input.denied_item_mode)
        (type_error "Invalid recommendation consent-gated source adapter read input.")
      >>= λ mode.
          or_throw (known input.data_use)
            (type_error "Invalid recommendation consent-gated source adapter read input.")
          >>= λ data_use.
              normalize_read_request host input.read_request >>= λ safe. ok (mode, data_use, safe)

module _ {W : Type 0} (host : Host) (first_settled : GateError → List GateError → GateError) where
  -- The evaluation of the items that the adapter returned
  abbrev pub gate_items :
      GatedInput host.Number W
      → String
      → DataUse
      → DeniedItemMode
      → Answer ReadResult × W
      → Answer GatedResult × W
  gate_items input subject_id data_use mode (thrown error, w) = (thrown error, w)
  gate_items input subject_id data_use mode (returned result, w) =
      let (outcomes, end) =
        evaluate_items input.enforcement_options input.policy subject_id data_use mode result.items
          w in
      (settle first_settled result.cursor outcomes, end)

  -- requirePolicyBeforeSourceRead and what follows it; without a policy the error is always thrown
  unfoldable pub gated_read :
      GatedInput host.Number W
      → DeniedItemMode
      → DataUse
      → ReadRequest host.Number
      → W
      → Answer GatedResult × W
  gated_read input mode data_use safe w =
      if is_given input.policy
      then gate_items input safe.subject_id data_use mode
          (read_adapter host input.adapter (read_request_value safe) w)
      else elim (preflight_request safe.subject_id data_use input.adapter.fields) [
        | none ↦ (thrown no_properties, w)
        | some asked ↦
            let evaluation = evaluate input.policy (request_value asked) in
            (
              thrown (refused (denied_error evaluation)),
              (record_audit_event evaluation.audit_event input.enforcement_options w).1,
            )
      ]

  -- readRecommendationSourceAdapterWithConsent
  unfoldable pub read_with_consent : GatedInput host.Number W → W → Answer GatedResult × W
  read_with_consent input w = elim (gated_input host input) [
    | throw failure ↦ (thrown (invalid failure), w)
    | ok (mode, data_use, safe) ↦ gated_read input mode data_use safe w
  ]
