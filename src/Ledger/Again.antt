-- ===== src/Ledger/Again.antt =====
-- recommendation/interest-signal.ts: a normalized signal, taken as the value that it is.
use open_interest_clusters.Prelude.{String, ◌≡◌, refl, true, Option, none, some, arith, ok}
use open_interest_clusters.Js.{Value, str, obj, field, end, is_object}
use open_interest_clusters.Js.Host.{Host}
use open_interest_clusters.Js.Narrow.{known-name}
use open_interest_clusters.Js.Text.{is_not_blank}
use open_interest_clusters.Consent.Words.{
  data_use_vocabulary, protocol_vocabulary, source_visibility_vocabulary, access_basis_vocabulary,
  allow, allow_explicit,
}
use open_interest_clusters.Consent.Evaluate.{ConsentEvent}
use open_interest_clusters.Signals.Words.{
  action_vocabulary, polarity_vocabulary, target_kind_name, target_kind_vocabulary,
  source_item_kind_vocabulary, trust_boundary_vocabulary,
}
use open_interest_clusters.Signals.Policy.{Evidence}
use open_interest_clusters.Signals.Signal.{
  Target, Signal, is_key_of, valid_target, valid_evidence, valid_consent_event,
  optional_non_empty_string, consent_matches, candidate, valid_signal, normalize_signal,
}
use open_interest_clusters.Signals.Laws.{IsGivenText, IsValidSignal, normalize_signal-IsValidSignal}
use open_interest_clusters.Prelude.Vocabulary.{===_iff}
use open_interest_clusters.Storage.Authority.{processing_boundary_vocabulary}
use open_interest_clusters.Ledger.Event.{
  evidence_value, consent_value, optional_value, signal_value,
}

module _ (N : Type 0) where
  pub evidence_again :
      (e : Evidence)
      → is_not_blank e.observed_at ≡ true
      → valid_evidence (evidence_value {N = N} e) ≡ some e
  unfolding valid_evidence is_object
  evidence_again e h = rw (
    known-name N e.source_item_kind,
    known-name N e.protocol,
    known-name N e.source_visibility,
    known-name N e.access_basis,
    known-name N e.trust_boundary,
    h,
  )

  consent_again :
      (c : ConsentEvent)
      → c.decision ≡ allow
      → c.reason ≡ allow_explicit
      → valid_consent_event (consent_value {N = N} c) ≡ some c
  unfolding valid_consent_event is_object
  consent_again c decided explicit =
      rw
        (
          known-name N c.data_use,
          known-name N c.protocol,
          known-name N c.source_visibility,
          known-name N c.access_basis,
        )
        (ground arith)

  target_again :
      (t : Target)
      → is_key_of t.kind t.key ≡ true
      → valid_target {N = N}
          (obj (field "kind" (str (target_kind_name t.kind)) (field "key" (str t.key) end)))
        ≡ some t
  unfolding valid_target is_object
  target_again t h = rw (known-name N t.kind, h)

  expiry_again :
      (o : Option String)
      → IsGivenText o
      → optional_non_empty_string {N = N} (optional_value o) ≡ some o
  expiry_again none h = refl
  expiry_again (some text) h = rw h

module _ (host : Host) where
  signal_again :
      (s : Signal host.Number)
      → IsValidSignal host s
      → valid_signal host (candidate (signal_value s)) ≡ some s
  unfolding valid_signal signal_value is_object
  signal_again s h =
      let matches : consent_matches s.data_use s.evidence s.consent ≡ true = ground (
        arith,
        (===_iff s.consent.data_use s.data_use).1 h.same_use,
        (===_iff s.consent.protocol s.evidence.protocol).1 h.same_protocol,
        (===_iff s.consent.source_visibility s.evidence.source_visibility).1 h.same_visibility,
        (===_iff s.consent.access_basis s.evidence.access_basis).1 h.same_basis,
      ) in
      rw (
        target_again host.Number s.target h.key,
        known-name host.Number s.action,
        known-name host.Number s.polarity,
        h.strength,
        h.confidence,
        known-name host.Number s.data_use,
        known-name host.Number s.privacy_boundary,
        evidence_again host.Number s.evidence h.observed,
        consent_again host.Number s.consent h.decided h.explicit,
        expiry_again host.Number s.expires_at h.expiry,
        matches,
      )

  -- A normalized signal, taken as the value that it is, normalizes to itself.
  pub normalize_signal_idem :
      (v : Value host.Number) (s : Signal host.Number)
      → normalize_signal host v ≡ ok s
      → normalize_signal host (signal_value s) ≡ ok s
  unfolding normalize_signal is_object signal_value
  normalize_signal_idem v s h =
      let (valid, required) = normalize_signal-IsValidSignal host v s h in
      rw (signal_again s valid, required.1) refl
