-- ===== src/Ledger/Event.antt =====
-- recommendation/signal-ledger.ts: the events of the ledger, their validation and their digest.
use open_interest_clusters.Prelude.{
  ℕ, String, ◌≡◌, refl, Bool, not, ◌&&◌, ◌==◌, List, [], ◌∷◌, Option, none, some, leb,
  if◌then◌else◌, type_error, Result, ok, throw, ◌>>=◌, ◌>>◌, or_throw, ensure,
}
use open_interest_clusters.Prelude.Int.{ℤ}
use open_interest_clusters.Prelude.Vocabulary.{Vocabulary, find}
use open_interest_clusters.Js.{
  Value, Fields, undefined, bool, num, str, obj, end, field, get, is_plain_record,
}
use open_interest_clusters.Js.Host.{Host}
use open_interest_clusters.Js.Narrow.{known}
use open_interest_clusters.Js.Text.{is_not_blank, trim, utf16_length, has_unsafe_control_character}
use open_interest_clusters.Consent.Words.{
  data_use_name, protocol_name, source_visibility_name, access_basis_name,
}
use open_interest_clusters.Consent.Evaluate.{ConsentEvent}
use open_interest_clusters.Storage.Authority.{processing_boundary_name}
use open_interest_clusters.Signals.Words.{
  target_kind_name, action_name, polarity_name, source_item_kind_name, trust_boundary_name,
}
use open_interest_clusters.Signals.Policy.{Evidence}
use open_interest_clusters.Signals.Signal.{Signal, normalize_signal}
use open_interest_clusters.Runtime.Hash.{sha256_hex}
use open_interest_clusters.Ledger.Canonical.{stable_stringify}

pub data RetractionReason : Type 0 where
  source_deleted source_retracted label_negated expired consent_revoked corrected : RetractionReason

abbrev pub retraction_reason_name : RetractionReason → String
retraction_reason_name source_deleted = "source_deleted"
retraction_reason_name source_retracted = "source_retracted"
retraction_reason_name label_negated = "label_negated"
retraction_reason_name expired = "expired"
retraction_reason_name consent_revoked = "consent_revoked"
retraction_reason_name corrected = "corrected"

abbrev pub retraction_reasons : List RetractionReason
retraction_reasons =
    source_deleted ∷ source_retracted ∷ label_negated ∷ expired ∷ consent_revoked ∷ corrected ∷ []

pub retraction_reason_found :
    (e : RetractionReason)
    → find retraction_reason_name retraction_reasons (retraction_reason_name e) ≡ some e
retraction_reason_found source_deleted = refl
retraction_reason_found source_retracted = refl
retraction_reason_found label_negated = refl
retraction_reason_found expired = refl
retraction_reason_found consent_revoked = refl
retraction_reason_found corrected = refl

instance abbrev pub retraction_reason_vocabulary : Vocabulary RetractionReason
retraction_reason_vocabulary = record {
  name = retraction_reason_name;
  members = retraction_reasons;
  found = retraction_reason_found;
}

pub data Operation : Type 0 where
  apply retract : Operation

abbrev pub operation_name : Operation → String
operation_name apply = "apply"
operation_name retract = "retract"

abbrev pub operations : List Operation
operations = apply ∷ retract ∷ []

pub operation_found : (e : Operation) → find operation_name operations (operation_name e) ≡ some e
operation_found apply = refl
operation_found retract = refl

instance abbrev pub operation_vocabulary : Vocabulary Operation
operation_vocabulary = record {
  name = operation_name;
  members = operations;
  found = operation_found;
}

-- What an event does: NormalizedApplyEvent, NormalizedRetractEvent.
pub data Effect (N : Type 0) : Type 0 where
  applies : Signal N → Effect N
  retracts : String → RetractionReason → Effect N

-- NormalizedEvent
pub record Event (N : Type 0) : Type 0 where
  pub operation_id : String
  pub source_event_id : String
  pub occurred_at : String
  pub occurred_at_millis : ℤ
  pub effect : Effect N

-- MAX_ID_LENGTH
abbrev pub max_id_length : ℕ
max_id_length = 1024

-- The texts that boundedString lets through.
unfoldable pub is_bounded_text : ℕ → String → Bool
is_bounded_text max s =
    is_not_blank s
    && s == trim s
    && leb (utf16_length s) max
    && not (has_unsafe_control_character s)

-- boundedString
unfoldable pub bounded_string : {N : Type 0} → Value N → ℕ → String → Result String
bounded_string (str s) max message =
    if is_bounded_text max s then ok s else throw (type_error message)
bounded_string _ max message = throw (type_error message)

abbrev pub evidence_value : {N : Type 0} → Evidence → Value N
evidence_value e = obj (
    field "sourceItemKind" (str (source_item_kind_name e.source_item_kind)) (
      field "protocol" (str (protocol_name e.protocol)) (
        field "sourceVisibility" (str (source_visibility_name e.source_visibility)) (
          field "accessBasis" (str (access_basis_name e.access_basis)) (
            field "trustBoundary" (str (trust_boundary_name e.trust_boundary))
              (field "observedAt" (str e.observed_at) end))))))

-- The consent of a normalized signal is the explicit allow.
abbrev pub consent_value : {N : Type 0} → ConsentEvent → Value N
consent_value c = obj (
    field "decision" (str "allow") (
      field "reason" (str "consent.allow.explicit") (
        field "dataUse" (str (data_use_name c.data_use)) (
          field "protocol" (str (protocol_name c.protocol)) (
            field "sourceVisibility" (str (source_visibility_name c.source_visibility)) (
              field "accessBasis" (str (access_basis_name c.access_basis)) (
                field "containsPrivateData" (bool c.contains_private_data) (
                  field "containsThirdPartyData" (bool c.contains_third_party_data)
                    (field "serverSideProcessing" (bool c.server_side_processing) end)))))))))

abbrev pub optional_value : {N : Type 0} → Option String → Value N
optional_value none = undefined
optional_value (some t) = str t

-- A normalized signal as the value that it is.
unfoldable pub signal_value : {N : Type 0} → Signal N → Value N
signal_value s = obj (
    field "target"
      (obj
        (field "kind" (str (target_kind_name s.target.kind)) (field "key" (str s.target.key) end)))
      (field "action" (str (action_name s.action)) (
        field "polarity" (str (polarity_name s.polarity)) (
          field "strength" (num s.strength) (
            field "confidence" (num s.confidence) (
              field "dataUse" (str (data_use_name s.data_use)) (
                field "privacyBoundary" (str (processing_boundary_name s.privacy_boundary)) (
                  field "evidence" (evidence_value s.evidence) (
                    field "consent" (consent_value s.consent)
                      (field "expiresAt" (optional_value s.expires_at) end))))))))))

module _ (host : Host) where
  -- timestamp: the text and its milliseconds
  unfoldable pub timestamp : Value host.Number → String → Result (String × ℤ)
  timestamp value message = do
    normalized ← bounded_string value max_id_length message
    millis ← or_throw (host.date_parse normalized) (type_error message)
    ok (normalized, millis)

  -- The check of a signal's expiry.
  abbrev pub check_expiry : Option String → Result (Unit {0})
  check_expiry none = ok tt
  check_expiry (some t) =
      timestamp (str t) "Invalid recommendation signal ledger signal expiration timestamp." >>= λ _.
      ok tt

  -- The rest of the event, by its operation.
  unfoldable pub normalize_effect : Operation → Value host.Number → Result (Effect host.Number)
  normalize_effect apply input = do
    signal ← normalize_signal host (get input "signal")
    check_expiry signal.expires_at
    ok (applies signal)
  normalize_effect retract input = do
    target ←
        bounded_string (get input "retractsSourceEventId") max_id_length
          "Invalid recommendation signal ledger retraction target ID."
    reason ←
        or_throw (known (get input "reason"))
          (type_error "Invalid recommendation signal ledger retraction reason.")
    ok (retracts target reason)

  -- normalizeEvent
  unfoldable pub normalize_event : Value host.Number → Result (Event host.Number)
  normalize_event input = do
    ensure (is_plain_record input) (type_error "Invalid recommendation signal ledger event.")
    operation ←
        or_throw (known (get input "operation"))
          (type_error "Invalid recommendation signal ledger event.")
    operation_id ←
        bounded_string (get input "operationId") max_id_length
          "Invalid recommendation signal ledger operation ID."
    source_event_id ←
        bounded_string (get input "sourceEventId") max_id_length
          "Invalid recommendation signal ledger source event ID."
    (occurred_at, millis) ←
        timestamp (get input "occurredAt") "Invalid recommendation signal ledger timestamp."
    effect ← normalize_effect operation input
    ok (record {
      operation_id = operation_id;
      source_event_id = source_event_id;
      occurred_at = occurred_at;
      occurred_at_millis = millis;
      effect = effect;
    })

  -- A normalized event as the value that it is.
  abbrev pub effect_fields : Effect host.Number → Fields host.Number
  effect_fields (applies s) = field "operation" (str "apply") (field "signal" (signal_value s) end)
  effect_fields (retracts target reason) = field "operation" (str "retract") (
      field "retractsSourceEventId" (str target)
        (field "reason" (str (retraction_reason_name reason)) end))

  abbrev pub event_value : Event host.Number → Value host.Number
  event_value e = obj (
      field "operationId" (str e.operation_id) (
        field "sourceEventId" (str e.source_event_id) (
          field "occurredAt" (str e.occurred_at) (
            field "occurredAtMillis" (num (host.number_of e.occurred_at_millis))
              (effect_fields e.effect)))))

  -- `sha256Hex(stableStringify(event))`
  unfoldable pub digest_of : Event host.Number → Result String
  digest_of e = do text ← stable_stringify host (event_value e); ok (sha256_hex text)
