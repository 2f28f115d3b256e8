-- ===== src/Signals/Laws.antt =====
-- recommendation/interest-signal.ts: what holds of a normalized signal.
use mathlib.Core.Path.{subst}
use open_interest_clusters.Prelude.{String, Option, none}
use open_interest_clusters.Js.{str}
use open_interest_clusters.Prelude.{
  Bool, true, false, ◌≡◌, inl, inr, refl, some, arith, ok, Option-cases, Result-cases,
}
use open_interest_clusters.Prelude.Vocabulary.{===_iff}
use open_interest_clusters.Js.{Value, num, get, is_object}
use open_interest_clusters.Js.Host.{Host}
use open_interest_clusters.Js.Text.{is_not_blank}
use open_interest_clusters.Js.Narrow.{guard, known, >>=-eq-some}
use open_interest_clusters.Consent.Words.{
  data_use_vocabulary, protocol_vocabulary, source_visibility_vocabulary, access_basis_vocabulary,
  allow, allow_explicit,
}
use open_interest_clusters.Consent.Evaluate.{ConsentEvent}
use open_interest_clusters.Storage.Authority.{processing_boundary_vocabulary}
use open_interest_clusters.Signals.Words.{
  target_kind_vocabulary, action_vocabulary, polarity_vocabulary, source_item_kind_vocabulary,
  trust_boundary_vocabulary,
}
use open_interest_clusters.Signals.Policy.{Evidence, PolicyEvaluation, require_signal_policy}
use open_interest_clusters.Signals.PolicyLaws.{Admissible, require_sound}
use open_interest_clusters.Signals.Signal.{
  Target, Signal, is_key_of, valid_target, valid_evidence, valid_consent_event,
  optional_non_empty_string, consent_matches, candidate, is_unit_number, unit_number, valid_signal,
  policy_input, normalize_signal,
}

-- A text that is given is not blank.
abbrev pub IsGivenText : Option String → Type 0
IsGivenText none = Unit
IsGivenText (some text) = is_not_blank text ≡ true

-- What validation establishes of a signal.
pub record IsValidSignal (host : Host) (s : Signal host.Number) : Type 0 where
  pub key : is_key_of s.target.kind s.target.key ≡ true
  pub strength : is_unit_number host s.strength ≡ true
  pub confidence : is_unit_number host s.confidence ≡ true
  pub observed : is_not_blank s.evidence.observed_at ≡ true
  pub decided : s.consent.decision ≡ allow
  pub explicit : s.consent.reason ≡ allow_explicit
  pub same_use : s.consent.data_use ≡ s.data_use
  pub same_protocol : s.consent.protocol ≡ s.evidence.protocol
  pub same_visibility : s.consent.source_visibility ≡ s.evidence.source_visibility
  pub expiry : IsGivenText s.expires_at
  pub same_basis : s.consent.access_basis ≡ s.evidence.access_basis

guard-true : (b : Bool) {u : Unit {0}} → guard b ≡ some u → b ≡ true
guard-true true h = refl
guard-true false h = cc

some_injective : {A : Type 0} {a b : A} → some a ≡ some b → a ≡ b
some_injective h = cc

module _ {N : Type 0} where
  valid_target-key :
      (v : Value N) (t : Target) → valid_target v ≡ some t → is_key_of t.kind t.key ≡ true
  unfolding valid_target
  valid_target-key v t h = ground arith

  valid_evidence-observed :
      (v : Value N) (e : Evidence) → valid_evidence v ≡ some e → is_not_blank e.observed_at ≡ true
  unfolding valid_evidence
  valid_evidence-observed v e h = ground arith

  optional-IsGivenText :
      (v : Value N) (o : Option String) → optional_non_empty_string v ≡ some o → IsGivenText o
  optional-IsGivenText v none h = tt
  optional-IsGivenText (str s) (some text) h = ground arith
  optional-IsGivenText _ (some text) h = ground arith

  valid_consent-explicit :
      (v : Value N) (c : ConsentEvent)
      → valid_consent_event v ≡ some c
      → (c.decision ≡ allow) × (c.reason ≡ allow_explicit)
  unfolding valid_consent_event
  valid_consent-explicit v c h = ground arith

module _ (host : Host) where
  unit_number_ok :
      (v : Value host.Number) (x : host.Number)
      → unit_number host v ≡ some x
      → is_unit_number host x ≡ true
  unit_number_ok (num y) x h = ground arith
  unit_number_ok _ x h = cc

  -- What validation found at the parts of a signal that the laws speak of.
  abbrev pub HasParts : Value host.Number → Signal host.Number → Type 0
  HasParts v s =
      (valid_target (get v "target") ≡ some s.target)
      × (valid_evidence (get v "evidence") ≡ some s.evidence)
      × (valid_consent_event (get v "consent") ≡ some s.consent)
      × (is_unit_number host s.strength ≡ true)
      × (is_unit_number host s.confidence ≡ true)
      × (consent_matches s.data_use s.evidence s.consent ≡ true)
      × IsGivenText s.expires_at

  pub valid_signal-parts :
      (v : Value host.Number) (s : Signal host.Number) → valid_signal host v ≡ some s → HasParts v s
  unfolding valid_signal
  valid_signal-parts v s h =
      let (u, object, h0) = >>=-eq-some (guard (is_object v)) _ h in
      let (target, e1, h1) = >>=-eq-some (valid_target (get v "target")) _ h0 in
      let (action, e2, h2) = >>=-eq-some (known (get v "action")) _ h1 in
      let (polarity, e3, h3) = >>=-eq-some (known (get v "polarity")) _ h2 in
      let (strength, e4, h4) = >>=-eq-some (unit_number host (get v "strength")) _ h3 in
      let (confidence, e5, h5) = >>=-eq-some (unit_number host (get v "confidence")) _ h4 in
      let (data_use, e6, h6) = >>=-eq-some (known (get v "dataUse")) _ h5 in
      let (boundary, e7, h7) = >>=-eq-some (known (get v "privacyBoundary")) _ h6 in
      let (evidence, e8, h8) = >>=-eq-some (valid_evidence (get v "evidence")) _ h7 in
      let (consent, e9, h9) = >>=-eq-some (valid_consent_event (get v "consent")) _ h8 in
      let (expires, e10, h10) = >>=-eq-some (optional_non_empty_string (get v "expiresAt")) _ h9 in
      let (w, e11, h11) = >>=-eq-some (guard (consent_matches data_use evidence consent)) _ h10 in
      let unit_strength = unit_number_ok (get v "strength") strength e4 in
      let unit_confidence = unit_number_ok (get v "confidence") confidence e5 in
      let matches = guard-true (consent_matches data_use evidence consent) e11 in
      subst (HasParts v) (some_injective h11) (
        e1,
        e8,
        e9,
        unit_strength,
        unit_confidence,
        matches,
        optional-IsGivenText (get v "expiresAt") expires e10,
      )

  valid_signal-IsValidSignal :
      (v : Value host.Number) (s : Signal host.Number)
      → valid_signal host v ≡ some s
      → IsValidSignal host s
  valid_signal-IsValidSignal v s h =
      let (target, evidence, consent, strength, confidence, matches, expiry) =
        valid_signal-parts v s h in
      let (decided, explicit) = valid_consent-explicit (get v "consent") s.consent consent in
      record {
        key = valid_target-key (get v "target") s.target target;
        strength = strength;
        confidence = confidence;
        observed = valid_evidence-observed (get v "evidence") s.evidence evidence;
        decided = decided;
        explicit = explicit;
        expiry = expiry;
        same_use = (===_iff s.consent.data_use s.data_use).0 (ground arith);
        same_protocol = (===_iff s.consent.protocol s.evidence.protocol).0 (ground arith);
        same_visibility =
            (===_iff s.consent.source_visibility s.evidence.source_visibility).0 (ground arith);
        same_basis = (===_iff s.consent.access_basis s.evidence.access_basis).0 (ground arith);
      }

  -- A normalized signal is valid: its key is privacy-safe for its kind, its strength and confidence
  -- lie in the unit interval, and its consent is the explicit allow of its own use of its own
  -- evidence. The public signal policy lets its evidence through.
  pub normalize_signal-IsValidSignal :
      (v : Value host.Number) (s : Signal host.Number)
      → normalize_signal host v ≡ ok s
      → IsValidSignal host s
        × ((e : PolicyEvaluation) × (require_signal_policy (policy_input host s) ≡ ok e)
            × Admissible (policy_input host s) e.effect e.storage_authority)
  unfolding normalize_signal
  normalize_signal-IsValidSignal v s h = elim (Option-cases (valid_signal host (candidate v))) [
    | inl bad ↦ ground arith
    | inr (n, good) ↦ elim (Result-cases (require_signal_policy (policy_input host n))) [
      | inr (f, refused) ↦ ground arith
      | inl (e, passed) ↦
          let same : n ≡ s = ground arith in
          subst
            (λ m.
              IsValidSignal host m
              × ((d : PolicyEvaluation) × (require_signal_policy (policy_input host m) ≡ ok d)
                  × Admissible (policy_input host m) d.effect d.storage_authority))
            same
            (
              valid_signal-IsValidSignal (candidate v) n good,
              (e, passed, require_sound (policy_input host n) e passed),
            )
    ]
  ]
