-- ===== src/Sources/Laws.antt =====
-- recommendation/consent-gated-source-adapter.ts: what a gated read returns, and what it keeps from
-- being read.
use open_interest_clusters.Prelude.{
  ℕ, suc, ◌≡◌, refl, ap, arith, String, Bool, true, List, [], ◌∷◌, Option, none, some,
}
use open_interest_clusters.Js.{Value, bool, is_object}
use open_interest_clusters.Js.Narrow.{known-name, optional_boolean}
use open_interest_clusters.Js.Text.{is_not_blank}
use open_interest_clusters.Consent.Words.{
  DataUse, data_use_vocabulary, protocol_vocabulary, source_visibility_vocabulary,
  access_basis_vocabulary, Decision, allow, deny,
}
use open_interest_clusters.Consent.Request.{Request, valid_request}
use open_interest_clusters.Consent.Evaluate.{Evaluation, evaluate}
use open_interest_clusters.Consent.Decisions.{IsPermitted, evaluate-allow_iff}
use open_interest_clusters.Enforcement.Gate.{EnforcementOptions, GateError, record_audit_event}
use open_interest_clusters.Enforcement.GateLaws.{Audited, record_audit-Audited}
use open_interest_clusters.Sources.Item.{Item}
use open_interest_clusters.Sources.Adapter.{optional_value, request_value, item_request}
use open_interest_clusters.Sources.Gated.{
  DeniedItemMode, fail_closed, filter_denied, ItemOutcome, filtered, item_outcome, rejections,
  collect, evaluate_item, evaluate_items,
}

module _ {N W : Type 0} (options : Option (EnforcementOptions W)) (policy : Value N)
    (subject_id : String) (data_use : DataUse) (mode : DeniedItemMode) where
  -- The consent request of an item, as an object
  abbrev pub asked : Item → Value N
  asked source = request_value (item_request subject_id data_use source)

  -- What a gated read makes of the items of a source, one after the other, from one world to
  -- another: an item that the policy permits is kept with its evaluation, one that it denies is
  -- left out and counted, if the mode is to filter, and the event of each is audited.
  pub data Gates : List Item → List Item → List Evaluation → ℕ → W → W → Type 0 where
    ends : {w : W} → Gates [] [] [] 0 w w
    keeps :
        {sources kept : List Item} {evaluations : List Evaluation} {n : ℕ} {v w end : W}
        (source : Item)
        → IsPermitted policy (asked source)
        → Audited (evaluate policy (asked source)).audit_event options v w
        → Gates sources kept evaluations n w end
        → Gates
            (source ∷ sources)
            (source ∷ kept)
            (evaluate policy (asked source) ∷ evaluations)
            n
            v
            end
    leaves_out :
        {sources kept : List Item} {evaluations : List Evaluation} {n : ℕ} {v w end : W}
        (source : Item)
        → (evaluate policy (asked source)).decision ≡ deny
        → mode ≡ filter_denied
        → Audited (evaluate policy (asked source)).audit_event options v w
        → Gates sources kept evaluations n w end
        → Gates (source ∷ sources) kept evaluations (suc n) v end

  -- What is collected of the outcomes of these items
  abbrev pub Collected : List Item → List ItemOutcome → Option String → W → W → Type 0
  Collected sources outcomes cursor w end =
      Gates sources (collect cursor outcomes).items (collect cursor outcomes).consent_evaluations
        (collect cursor outcomes).denied_item_count w end

  item_step :
      (source : Item) (d : Decision) (error : Option GateError) (outcomes : List ItemOutcome)
      (cursor : Option String) (sources : List Item) (v w end : W)
      → (evaluate policy (asked source)).decision ≡ d
      → record_audit_event (evaluate policy (asked source)).audit_event options v ≡ (error, w)
      → rejections (item_outcome mode source (evaluate policy (asked source)) d error ∷ outcomes)
        ≡ []
      → (rejections outcomes ≡ [] → Collected sources outcomes cursor w end)
      → Collected
          (source ∷ sources)
          (item_outcome mode source (evaluate policy (asked source)) d error ∷ outcomes)
          cursor
          v
          end
  unfolding rejections collect item_outcome
  item_step source deny (some error) outcomes cursor sources v w end decided audited quiet rest =
      ground arith
  item_step source allow (some error) outcomes cursor sources v w end decided audited quiet rest =
      ground arith
  item_step source allow none outcomes cursor sources v w end decided audited quiet rest =
      keeps source ((evaluate-allow_iff policy (asked source)).0 decided)
        (record_audit-Audited (evaluate policy (asked source)).audit_event options v w audited)
        (rest quiet)
  item_step source deny none outcomes cursor sources v w end decided audited quiet rest =
      by_mode mode refl
    where
      by_mode :
          (m : DeniedItemMode)
          → mode ≡ m
          → Collected
              (source ∷ sources)
              (item_outcome mode source (evaluate policy (asked source)) deny none ∷ outcomes)
              cursor
              v
              end
      by_mode fail_closed is_m = ground arith
      by_mode filter_denied is_m =
          let out : item_outcome mode source (evaluate policy (asked source)) deny none ≡ filtered =
            rw is_m refl in
          rw out (
            leaves_out source decided is_m
              (record_audit-Audited (evaluate policy (asked source)).audit_event options v w
                audited)
              (rest (rw out at quiet)))

  pub evaluate_items-Gates :
      (sources : List Item) (cursor : Option String) (w : W)
      → rejections (evaluate_items options policy subject_id data_use mode sources w).0 ≡ []
      → Collected sources
          (evaluate_items options policy subject_id data_use mode sources w).0
          cursor
          w
          (evaluate_items options policy subject_id data_use mode sources w).1
  unfolding evaluate_items evaluate_item rejections collect
  evaluate_items-Gates [] cursor w quiet = ends
  evaluate_items-Gates (source ∷ sources) cursor w quiet =
      let e = evaluate policy (asked source) in
      let r = record_audit_event e.audit_event options w in
      item_step source e.decision r.0
        (evaluate_items options policy subject_id data_use mode sources r.1).0 cursor sources w r.1
        (evaluate_items options policy subject_id data_use mode sources r.1).1 refl refl quiet
        (λ rest. evaluate_items-Gates sources cursor r.1 rest)

  -- To fail closed keeps every item.
  pub Gates-fail_closed :
      {sources kept : List Item} {evaluations : List Evaluation} {n : ℕ} {w end : W}
      → mode ≡ fail_closed
      → Gates sources kept evaluations n w end
      → (kept ≡ sources) × (n ≡ 0)
  Gates-fail_closed closed ends = (refl, refl)
  Gates-fail_closed closed (keeps source permitted audited rest) =
      let (same, zero) = Gates-fail_closed closed rest in (ap (λ xs. source ∷ xs) same, zero)
  Gates-fail_closed closed (leaves_out source denied is_m audited rest) = ground arith

-- An optional text, true, false or undefined reads back as itself.
optional_boolean-value :
    (N : Type 0) (o : Option Bool) → optional_boolean {N = N} (optional_value bool o) ≡ some o
optional_boolean-value N none = refl
optional_boolean-value N (some b) = refl

-- A request whose subject is not blank is valid, as the object that it is.
pub valid_request-value :
    (N : Type 0) (r : Request)
    → is_not_blank r.subject_id ≡ true
    → valid_request {N = N} (request_value r) ≡ some r
unfolding valid_request is_object
valid_request-value N r named =
    rw
      (
        valid_request,
        named,
        known-name N r.data_use,
        known-name N r.protocol,
        known-name N r.source_visibility,
        known-name N r.access_basis,
        optional_boolean-value N r.contains_private_data,
        optional_boolean-value N r.contains_third_party_data,
        optional_boolean-value N r.server_side_processing,
        optional_boolean-value N r.provider_policy_allows_processing,
      )
      refl
