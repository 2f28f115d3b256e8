-- ===== src/Sources/SignalLaws.antt =====
-- recommendation/interest-signal.ts, createRecommendationInterestSignalFromSource: what a signal
-- that comes from a source says of the source and of the consent.
use open_interest_clusters.Prelude.{
  ◌≡◌, ◌∙◌, sym, refl, arith, some, ok, ◌>>◌, >>=-eq-ok, ensure, Bool-cases, Option-cases,
  Result-cases, inl, inr,
}
use open_interest_clusters.Js.{Value, str, get, is_object}
use open_interest_clusters.Js.Host.{Host}
use open_interest_clusters.Js.Narrow.{known-name, guard, >>=-eq-some}
use open_interest_clusters.Js.Text.{is_not_blank}
use open_interest_clusters.Consent.Words.{
  data_use_vocabulary, protocol_vocabulary, source_visibility_vocabulary, access_basis_vocabulary,
  Decision, ReasonCode, allow, deny, allow_explicit, decision_name, reason_name,
}
use open_interest_clusters.Consent.Request.{Policy, Request, valid_policy, valid_request}
use open_interest_clusters.Consent.Evaluate.{
  ConsentEvent, Evaluation, evaluate, evaluate_request, create_evaluation, create_event,
}
use open_interest_clusters.Consent.Permits.{Permits}
use open_interest_clusters.Consent.Decisions.{evaluate-allow_iff, evaluate-audit}
use open_interest_clusters.Signals.Words.{source_item_kind_vocabulary, trust_boundary_vocabulary}
use open_interest_clusters.Signals.Policy.{Evidence, require_signal_policy}
use open_interest_clusters.Signals.Signal.{
  Signal, valid_evidence, valid_consent_event, valid_signal, candidate, policy_input,
  normalize_signal, is_text,
}
use open_interest_clusters.Signals.Laws.{
  IsValidSignal, HasParts, valid_signal-parts, normalize_signal-IsValidSignal,
}
use open_interest_clusters.Ledger.Event.{evidence_value}
use open_interest_clusters.Ledger.Again.{evidence_again}
use open_interest_clusters.Sources.Item.{Item, normalize_item}
use open_interest_clusters.Sources.Signal.{
  source_evidence, event_value, signal_input, create_signal_from_source,
}

allow_only :
    (N : Type 0) (d : Decision) {u : Unit {0}}
    → guard (is_text {N = N} (str (decision_name d)) "allow") ≡ some u
    → d ≡ allow
allow_only N allow h = refl
allow_only N deny h = ground arith

explicit_only :
    (N : Type 0) (r : ReasonCode) {u : Unit {0}}
    → guard (is_text {N = N} (str (reason_name r)) "consent.allow.explicit") ≡ some u
    → r ≡ allow_explicit
explicit_only N allow_explicit h = refl
explicit_only N _ h = ground arith

event-valid :
    (N : Type 0) (c v : ConsentEvent) → valid_consent_event (event_value {N = N} c) ≡ some v → v ≡ c
unfolding valid_consent_event is_object
event-valid N c v h =
    let (u, is_allow, h1) =
      >>=-eq-some (guard (is_text {N = N} (str (decision_name c.decision)) "allow")) _ h in
    let (w, is_explicit, h2) =
      >>=-eq-some (guard (is_text {N = N} (str (reason_name c.reason)) "consent.allow.explicit")) _
        h1 in
    let decided : c.decision ≡ allow = allow_only N c.decision is_allow in
    let explicit : c.reason ≡ allow_explicit = explicit_only N c.reason is_explicit in
    let read =
      rw
        (
          known-name N c.data_use,
          known-name N c.protocol,
          known-name N c.source_visibility,
          known-name N c.access_basis,
        )
        at h2 in
    ground (arith, decided, explicit, read)

evidence-valid :
    (N : Type 0) (e v : Evidence) → valid_evidence (evidence_value {N = N} e) ≡ some v → v ≡ e
unfolding valid_evidence is_object
evidence-valid N e v h = elim (Bool-cases (is_not_blank e.observed_at)) [
  | inl named ↦
      let again : valid_evidence (evidence_value {N = N} e) ≡ some e = evidence_again N e named in
      let same : some e ≡ some v = sym again ∙ h in ground arith
  | inr blank ↦
      let read =
        rw
          (
            known-name N e.source_item_kind,
            known-name N e.protocol,
            known-name N e.source_visibility,
            known-name N e.access_basis,
            known-name N e.trust_boundary,
            blank,
          )
          at h in
      ground (arith, read)
]

module _ (host : Host) where
  -- What normalization reads of the evidence and the consent of its input
  normalize_signal-parts :
      (v : Value host.Number) (s : Signal host.Number)
      → normalize_signal host v ≡ ok s
      → HasParts host (candidate v) s
  unfolding normalize_signal
  normalize_signal-parts v s h = elim (Option-cases (valid_signal host (candidate v))) [
    | inl bad ↦ ground arith
    | inr (n, good) ↦ elim (Result-cases (require_signal_policy (policy_input host n))) [
      | inr (f, refused) ↦ ground arith
      | inl (e, passed) ↦
          let same : n ≡ s = ground arith in
          rw same at (valid_signal-parts host (candidate v) n good)
    ]
  ]

  -- What the signal says is what the source and the evaluation say.
  create_signal-parts :
      (input : Value host.Number) (evaluation : Evaluation) (s : Signal host.Number)
      → create_signal_from_source host input evaluation ≡ ok s
      → (source : Item) × (normalize_item (get input "source") ≡ ok source)
        × (s.evidence ≡ source_evidence source)
        × (s.consent ≡ evaluation.audit_event)
        × IsValidSignal host s
  unfolding create_signal_from_source signal_input source_evidence
  create_signal-parts input evaluation s h =
      let (source, checked, made) = >>=-eq-ok (_ >> normalize_item (get input "source")) _ h in
      let (u, is, named) = >>=-eq-ok (ensure (is_object input) _) _ checked in
      let (valid, admitted) =
        normalize_signal-IsValidSignal host (signal_input input source evaluation) s made in
      let parts = normalize_signal-parts (signal_input input source evaluation) s made in
      (
        source,
        named,
        evidence-valid host.Number (source_evidence source) s.evidence parts.1,
        event-valid host.Number evaluation.audit_event s.consent parts.2,
        valid,
      )

  -- The event of an evaluation repeats what its valid request names.
  audit_event-request :
      (policy request : Value host.Number) (r : Request)
      → valid_request request ≡ some r
      → ((evaluate policy request).audit_event.data_use ≡ r.data_use)
        × ((evaluate policy request).audit_event.protocol ≡ r.protocol)
        × ((evaluate policy request).audit_event.source_visibility ≡ r.source_visibility)
        × ((evaluate policy request).audit_event.access_basis ≡ r.access_basis)
  unfolding evaluate evaluate_request create_evaluation create_event
  audit_event-request policy request r h = rw (evaluate, h) (refl, refl, refl, refl)

  -- A signal that is made from a source with the evaluation of a policy and a request has the
  -- evidence of the source's item and the event of the evaluation; the policy permits the request,
  -- which names the use of the signal and the protocol, the visibility and the access basis of the
  -- item.
  pub create_signal_from_source-permitted :
      (input policy request : Value host.Number) (s : Signal host.Number)
      → create_signal_from_source host input (evaluate policy request) ≡ ok s
      → (source : Item) × (p : Policy) × (r : Request) × (normalize_item (get input "source")
          ≡ ok source)
        × (s.evidence ≡ source_evidence source)
        × (s.consent ≡ (evaluate policy request).audit_event)
        × (valid_policy policy ≡ some p)
        × (valid_request request ≡ some r)
        × Permits p r
        × (r.data_use ≡ s.data_use)
        × (r.protocol ≡ source.context.protocol)
        × (r.source_visibility ≡ source.context.source_visibility)
        × (r.access_basis ≡ source.context.access_basis)
  unfolding source_evidence
  create_signal_from_source-permitted input policy request s h =
      let (source, named, evidence, consent, valid) =
        create_signal-parts input (evaluate policy request) s h in
      let decided : (evaluate policy request).decision ≡ allow =
        ground (arith, valid.decided, consent, (evaluate-audit policy request).0.same) in
      let (p, r, is_p, is_r, permits) = (evaluate-allow_iff policy request).0 decided in
      let (use_same, protocol_same, visibility_same, basis_same) =
        audit_event-request policy request r is_r in
      (
        source,
        p,
        r,
        named,
        evidence,
        consent,
        is_p,
        is_r,
        permits,
        ground (arith, valid.same_use, consent, evidence, use_same),
        ground (arith, valid.same_protocol, consent, evidence, protocol_same),
        ground (arith, valid.same_visibility, consent, evidence, visibility_same),
        ground (arith, valid.same_basis, consent, evidence, basis_same),
      )
