-- ===== src/Sources/GatedLaws.antt =====
-- recommendation/consent-gated-source-adapter.ts: readRecommendationSourceAdapterWithConsent as a
-- whole.
use open_interest_clusters.Prelude.{
  ◌≡◌, refl, ap, arith, String, true, false, List, [], ◌∷◌, Option, ok, Bool-cases, Result-cases,
  inl, inr, ◌⊎◌,
}
use open_interest_clusters.Js.Host.{Host}
use open_interest_clusters.Js.Text.{is_not_blank}
use open_interest_clusters.Consent.Words.{
  DataUse, data_use_vocabulary, protocol_vocabulary, deny_default,
}
use open_interest_clusters.Consent.Evaluate.{ConsentEvent, evaluate}
use open_interest_clusters.Enforcement.Gate.{GateError, consent_denied, record_audit_event}
use open_interest_clusters.Sources.Item.{ReadRequest, ReadResult}
use open_interest_clusters.Sources.Adapter.{
  Answer, returned, thrown, refused, no_properties, request_value, read_request_value, read_adapter,
}
use open_interest_clusters.Sources.Gated.{
  DeniedItemMode, GatedInput, GatedResult, ItemOutcome, rejections, collect, evaluate_items, settle,
  is_given, gate_items, gated_read, gated_input, read_with_consent,
}
use open_interest_clusters.Sources.Laws.{Gates, evaluate_items-Gates}
use open_interest_clusters.Sources.GatedInput.{
  preflight_request-known, denied_by_default, gated_input-subject,
}

settle-returned :
    (first : GateError → List GateError → GateError) (cursor : Option String)
    (outcomes : List ItemOutcome) (r : GatedResult)
    → settle first cursor outcomes ≡ returned r
    → (rejections outcomes ≡ []) × (collect cursor outcomes ≡ r)
unfolding settle
settle-returned first cursor outcomes r h = by_errors (rejections outcomes) refl
  where
    by_errors :
        (errors : List GateError)
        → rejections outcomes ≡ errors
        → (rejections outcomes ≡ []) × (collect cursor outcomes ≡ r)
    by_errors [] none_of = (none_of, ground arith)
    by_errors (error ∷ errors) some_of = ground arith

collect-cursor :
    (cursor : Option String) (outcomes : List ItemOutcome)
    → (collect cursor outcomes).cursor ≡ cursor
unfolding collect
collect-cursor cursor [] = refl
collect-cursor cursor (outcome ∷ outcomes) = ground (arith, collect-cursor cursor outcomes)

module _ (host : Host) where
  -- What a gated read that returns has made of the items that the adapter returned
  pub record IsGated {W : Type 0} (input : GatedInput host.Number W) (w end : W) (r : GatedResult)
      : Type 0 where
    pub mode : DeniedItemMode
    pub data_use : DataUse
    pub safe : ReadRequest host.Number
    pub result : ReadResult
    pub answered : W
    pub checked : gated_input host input ≡ ok (mode, data_use, safe)
    pub given : is_given input.policy ≡ true
    pub read :
        read_adapter host input.adapter (read_request_value safe) w ≡ (returned result, answered)
    pub cursor : r.cursor ≡ result.cursor
    pub gates :
        Gates input.enforcement_options input.policy safe.subject_id data_use mode result.items
          r.items r.consent_evaluations r.denied_item_count answered end

  gate_items-returned :
      {W : Type 0} (first : GateError → List GateError → GateError)
      (input : GatedInput host.Number W) (subject_id : String) (data_use : DataUse)
      (mode : DeniedItemMode) (answer : Answer ReadResult × W) (r : GatedResult) (end : W)
      → gate_items host first input subject_id data_use mode answer ≡ (returned r, end)
      → (result : ReadResult) × (w : W) × (answer ≡ (returned result, w))
        × (r.cursor ≡ result.cursor)
        × Gates input.enforcement_options input.policy subject_id data_use mode result.items r.items
            r.consent_evaluations r.denied_item_count w end
  gate_items-returned first input subject_id data_use mode (thrown error, w) r end h = ground arith
  gate_items-returned {W = W} first input subject_id data_use mode (returned result, w) r end h =
      let run : List ItemOutcome × W =
        evaluate_items input.enforcement_options input.policy subject_id data_use mode result.items
          w in
      let (quiet, is_r) = settle-returned first result.cursor run.0 r (ap (λ o. o.0) h) in
      let is_end : run.1 ≡ end = ap (λ o. o.1) h in
      (
        result,
        w,
        refl,
        rw (← is_r) (collect-cursor result.cursor run.0),
        rw (← is_r, ← is_end)
            (evaluate_items-Gates input.enforcement_options input.policy subject_id data_use mode
              result.items result.cursor w quiet),
      )

  -- A gated read that returns had valid input and a policy, and its adapter was read and answered;
  -- of the items of the answer, in their order, it returns those that the policy permits, each with
  -- its evaluation, and counts the denied ones, which it leaves out only where the mode is to
  -- filter; the event of every item, kept or left out, was audited.
  pub read_with_consent-IsGated :
      {W : Type 0} (first : GateError → List GateError → GateError)
      (input : GatedInput host.Number W) (w end : W) (r : GatedResult)
      → read_with_consent host first input w ≡ (returned r, end)
      → IsGated input w end r
  unfolding read_with_consent gated_read
  read_with_consent-IsGated first input w end r h = elim (Result-cases (gated_input host input)) [
    | inr (f, failed) ↦ ground arith
    | inl ((mode, data_use, safe), checked) ↦ elim (Bool-cases (is_given input.policy)) [
      | inr missing ↦ ground arith
      | inl given ↦
          let gated : gate_items host first input safe.subject_id data_use mode
                (read_adapter host input.adapter (read_request_value safe) w)
              ≡ (returned r, end) =
            rw (read_with_consent, checked, gated_read, given) at h in
          let (result, v, read, cursor, gates) =
            gate_items-returned first input safe.subject_id data_use mode _ r end gated in
          record {
            mode = mode;
            data_use = data_use;
            safe = safe;
            result = result;
            answered = v;
            checked = checked;
            given = given;
            read = read;
            cursor = cursor;
            gates = gates;
          }
    ]
  ]

  -- Where there is no policy, a read whose input is otherwise valid does not read the adapter. Of an
  -- adapter that is null or undefined it ends in the engine's TypeError, with nothing audited; of any
  -- other it ends in the denied error with the default reason, whatever the audit sink and its
  -- failure mode, in the world that the audit of the denied event leaves.
  pub read_with_consent-no_policy :
      {W : Type 0} (first : GateError → List GateError → GateError)
      (input : GatedInput host.Number W) (w : W) (mode : DeniedItemMode) (data_use : DataUse)
      (safe : ReadRequest host.Number)
      → is_given input.policy ≡ false
      → gated_input host input ≡ ok (mode, data_use, safe)
      → ((is_given input.adapter.fields ≡ false)
          × (read_with_consent host first input w ≡ (thrown no_properties, w)))
        ⊎ ((is_given input.adapter.fields ≡ true)
            × (event : ConsentEvent) × (read_with_consent host first input w ≡ (
              thrown (refused (consent_denied deny_default event)),
              (record_audit_event event input.enforcement_options w).1,
            )))
  unfolding read_with_consent gated_read
  read_with_consent-no_policy first input w mode data_use safe missing checked =
      elim (preflight_request-known safe.subject_id data_use input.adapter.fields) [
        | inl (nothing, no_request) ↦
            inl (nothing, rw (read_with_consent, checked, gated_read, missing, no_request) refl)
        | inr (given, asked, is_request, same, known_protocol) ↦
            let named : is_not_blank asked.subject_id ≡ true =
              rw same (gated_input-subject host input mode data_use safe checked) in
            let by_default : (evaluate input.policy (request_value asked)).reason ≡ deny_default =
              denied_by_default input.policy asked missing named known_protocol in
            inr (
              given,
              (evaluate input.policy (request_value asked)).audit_event,
              rw (read_with_consent, checked, gated_read, missing, is_request, by_default) refl,
            )
      ]
