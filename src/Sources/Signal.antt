-- ===== src/Sources/Signal.antt =====
-- recommendation/interest-signal.ts: createRecommendationInterestSignalFromSource.
use open_interest_clusters.Prelude.{Result, ◌>>=◌, ◌>>◌, ensure, type_error}
use open_interest_clusters.Js.{Value, str, bool, obj, end, field, get, is_object}
use open_interest_clusters.Js.Host.{Host}
use open_interest_clusters.Consent.Words.{
  data_use_name, protocol_name, source_visibility_name, access_basis_name, decision_name,
  reason_name,
}
use open_interest_clusters.Consent.Evaluate.{ConsentEvent, Evaluation}
use open_interest_clusters.Signals.Policy.{Evidence}
use open_interest_clusters.Signals.Signal.{Signal, normalize_signal}
use open_interest_clusters.Ledger.Event.{evidence_value}
use open_interest_clusters.Sources.Item.{Item, normalize_item}

-- sourceEvidence
unfoldable pub source_evidence : Item → Evidence
source_evidence source = record {
  source_item_kind = source.kind;
  protocol = source.context.protocol;
  source_visibility = source.context.source_visibility;
  access_basis = source.context.access_basis;
  trust_boundary = source.provenance.trust_boundary;
  observed_at = source.provenance.observed_at;
}

-- A consent event as the object that it is
abbrev pub event_value : {N : Type 0} → ConsentEvent → Value N
event_value c = obj (
    field "decision" (str (decision_name c.decision)) (
      field "reason" (str (reason_name c.reason)) (
        field "dataUse" (str (data_use_name c.data_use)) (
          field "protocol" (str (protocol_name c.protocol)) (
            field "sourceVisibility" (str (source_visibility_name c.source_visibility)) (
              field "accessBasis" (str (access_basis_name c.access_basis)) (
                field "containsPrivateData" (bool c.contains_private_data) (
                  field "containsThirdPartyData" (bool c.contains_third_party_data)
                    (field "serverSideProcessing" (bool c.server_side_processing) end)))))))))

-- The input of normalizeRecommendationInterestSignal. A property that is undefined is left out
-- there, which reads the same.
unfoldable pub signal_input : {N : Type 0} → Value N → Item → Evaluation → Value N
signal_input input source evaluation = obj (
    field "target" (get input "target") (
      field "action" (get input "action") (
        field "strength" (get input "strength") (
          field "confidence" (get input "confidence") (
            field "dataUse" (get input "dataUse") (
              field "evidence" (evidence_value (source_evidence source)) (
                field "consent" (event_value evaluation.audit_event) (
                  field "polarity" (get input "polarity") (
                    field "privacyBoundary" (get input "privacyBoundary")
                      (field "expiresAt" (get input "expiresAt") end))))))))))

-- createRecommendationInterestSignalFromSource; `evaluation` is the property consentEvaluation of
-- the input, whose type has no check at run time.
unfoldable pub create_signal_from_source :
    (host : Host) → Value host.Number → Evaluation → Result (Signal host.Number)
create_signal_from_source host input evaluation =
    ensure (is_object input) (type_error "Invalid recommendation interest signal source input.")
    >> normalize_item (get input "source")
    >>= λ source. normalize_signal host (signal_input input source evaluation)
