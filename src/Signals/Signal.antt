-- ===== src/Signals/Signal.antt =====
-- recommendation/interest-signal.ts: signals, their validation and their normalization.
use open_interest_clusters.Prelude.{
  String, Bool, false, ◌&&◌, ◌==◌, Option, none, some, if◌then◌else◌, type_error, Result, ok,
  or_throw, ensure,
}
use open_interest_clusters.Prelude.Results
use open_interest_clusters.Prelude.Vocabulary.{◌===◌}
use open_interest_clusters.Js.{
  Value, undefined, null, bool, num, str, obj, end, field, get, is_object,
}
use open_interest_clusters.Js.Host.{Host}
use open_interest_clusters.Js.Narrow.{◌>>=◌, ◌>>◌, guard, non_empty_string, known}
use open_interest_clusters.Consent.Words.{
  DataUse, data_use_vocabulary, protocol_vocabulary, source_visibility_vocabulary,
  access_basis_vocabulary, allow, allow_explicit,
}
use open_interest_clusters.Consent.Evaluate.{ConsentEvent}
use open_interest_clusters.Storage.Authority.{ProcessingBoundary, processing_boundary_vocabulary}
use open_interest_clusters.Signals.Words.{
  TargetKind, domain, target_kind_vocabulary, Action, action_vocabulary, Polarity,
  polarity_vocabulary, source_item_kind_vocabulary, trust_boundary_vocabulary,
}
use open_interest_clusters.Signals.TargetKey.{is_safe_key, is_safe_domain_key}
use open_interest_clusters.Signals.Policy.{Evidence, PolicyInput, require_signal_policy}

-- RecommendationInterestTarget
pub record Target : Type 0 where
  pub kind : TargetKind
  pub key : String

-- RecommendationInterestSignal, over the numbers `N`
pub record Signal (N : Type 0) : Type 0 where
  pub target : Target
  pub action : Action
  pub polarity : Polarity
  pub strength : N
  pub confidence : N
  pub data_use : DataUse
  pub privacy_boundary : ProcessingBoundary
  pub evidence : Evidence
  pub consent : ConsentEvent
  pub expires_at : Option String

abbrev pub is_key_of : TargetKind → String → Bool
is_key_of domain key = is_safe_domain_key key
is_key_of _ key = is_safe_key key

-- The signal's consent is for its use of its evidence.
abbrev pub consent_matches : DataUse → Evidence → ConsentEvent → Bool
consent_matches data_use e c =
    c.data_use === data_use
    && c.protocol === e.protocol
    && c.source_visibility === e.source_visibility
    && c.access_basis === e.access_basis

module _ {N : Type 0} where
  -- isInterestTarget
  abbrev pub key_of : TargetKind → Value N → Option String
  key_of kind (str key) = if is_key_of kind key then some key else none
  key_of kind _ = none

  unfoldable pub valid_target : Value N → Option Target
  valid_target value = do
    guard (is_object value)
    kind ← known (get value "kind")
    key ← key_of kind (get value "key")
    some (record { kind = kind; key = key })

  -- isInterestEvidence
  unfoldable pub valid_evidence : Value N → Option Evidence
  valid_evidence value = do
    guard (is_object value)
    kind ← known (get value "sourceItemKind")
    protocol ← known (get value "protocol")
    visibility ← known (get value "sourceVisibility")
    basis ← known (get value "accessBasis")
    trust ← known (get value "trustBoundary")
    observed_at ← non_empty_string (get value "observedAt")
    some (record {
      source_item_kind = kind;
      protocol = protocol;
      source_visibility = visibility;
      access_basis = basis;
      trust_boundary = trust;
      observed_at = observed_at;
    })

  -- isBoolean
  abbrev pub boolean : Value N → Option Bool
  boolean (bool b) = some b
  boolean _ = none

  -- `value === text`
  abbrev pub is_text : Value N → String → Bool
  is_text (str s) text = s == text
  is_text _ text = false

  -- isConsentEvent
  unfoldable pub valid_consent_event : Value N → Option ConsentEvent
  valid_consent_event value = do
    guard (is_object value)
    guard (is_text (get value "decision") "allow")
    guard (is_text (get value "reason") "consent.allow.explicit")
    data_use ← known (get value "dataUse")
    protocol ← known (get value "protocol")
    visibility ← known (get value "sourceVisibility")
    basis ← known (get value "accessBasis")
    private_data ← boolean (get value "containsPrivateData")
    third_party ← boolean (get value "containsThirdPartyData")
    server_side ← boolean (get value "serverSideProcessing")
    some (record {
      decision = allow;
      reason = allow_explicit;
      data_use = data_use;
      protocol = protocol;
      source_visibility = visibility;
      access_basis = basis;
      contains_private_data = private_data;
      contains_third_party_data = third_party;
      server_side_processing = server_side;
    })

  -- isOptionalNonEmptyString
  abbrev pub optional_non_empty_string : Value N → Option (Option String)
  optional_non_empty_string undefined = some none
  optional_non_empty_string value = non_empty_string value >>= λ s. some (some s)

  -- `value ?? fallback`
  abbrev pub or_default : Value N → String → Value N
  or_default undefined fallback = str fallback
  or_default null fallback = str fallback
  or_default value fallback = value

  -- The candidate that normalizeRecommendationInterestSignal builds from its input. An expiry that
  -- is undefined is left out, which reads the same.
  abbrev pub candidate : Value N → Value N
  candidate input = obj (
      field "target" (get input "target") (
        field "action" (get input "action") (
          field "polarity" (or_default (get input "polarity") "neutral") (
            field "strength" (get input "strength") (
              field "confidence" (get input "confidence") (
                field "dataUse" (get input "dataUse") (
                  field "privacyBoundary" (or_default (get input "privacyBoundary") "local_only") (
                    field "evidence" (get input "evidence") (
                      field "consent" (get input "consent")
                        (field "expiresAt" (get input "expiresAt") end))))))))))

module _ (host : Host) where
  -- isBoundedUnitNumber
  unfoldable pub is_unit_number : host.Number → Bool
  is_unit_number x =
      host.is_finite x && host.at_most host.zero_number x && host.at_most x host.one_number

  abbrev pub unit_number : Value host.Number → Option host.Number
  unit_number (num x) = if is_unit_number x then some x else none
  unit_number _ = none

  -- isValidInterestSignal
  unfoldable pub valid_signal : Value host.Number → Option (Signal host.Number)
  valid_signal value = do
    guard (is_object value)
    target ← valid_target (get value "target")
    action ← known (get value "action")
    polarity ← known (get value "polarity")
    strength ← unit_number (get value "strength")
    confidence ← unit_number (get value "confidence")
    data_use ← known (get value "dataUse")
    privacy_boundary ← known (get value "privacyBoundary")
    evidence ← valid_evidence (get value "evidence")
    consent ← valid_consent_event (get value "consent")
    expires_at ← optional_non_empty_string (get value "expiresAt")
    guard (consent_matches data_use evidence consent)
    some (record {
      target = target;
      action = action;
      polarity = polarity;
      strength = strength;
      confidence = confidence;
      data_use = data_use;
      privacy_boundary = privacy_boundary;
      evidence = evidence;
      consent = consent;
      expires_at = expires_at;
    })

  -- The input of the public signal policy, with no storage authority.
  abbrev pub policy_input : Signal host.Number → PolicyInput host.Number
  policy_input s = record {
    action = s.action;
    polarity = s.polarity;
    target_kind = s.target.kind;
    data_use = s.data_use;
    privacy_boundary = s.privacy_boundary;
    storage_authority = undefined;
    evidence = s.evidence;
    consent = s.consent;
  }

  -- normalizeRecommendationInterestSignal; its frozen copies equal the signal.
  unfoldable pub normalize_signal : Value host.Number → Result (Signal host.Number)
  normalize_signal input =
      Results.◌>>◌
        (ensure (is_object input) (type_error "Invalid recommendation interest signal input."))
        (Results.◌>>=◌
          (or_throw (valid_signal (candidate input))
            (type_error "Invalid recommendation interest signal."))
          λ s. Results.◌>>=◌ (require_signal_policy (policy_input s)) λ _. ok s)
