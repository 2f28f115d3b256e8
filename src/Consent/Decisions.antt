-- ===== src/Consent/Decisions.antt =====
-- What evaluateRecommendationConsent decides and what its events tell.
use open_interest_clusters.Prelude.{
  String, Bool, true, false, ◌≡◌, ◌≢◌, ◌⊎◌, inl, inr, ◌↔◌, refl, none, some, arith, ◌==◌,
  Option-cases,
}
use open_interest_clusters.Js.{Value, undefined, null, obj, is_object, get}
use open_interest_clusters.Js.Narrow.{known}
use open_interest_clusters.Consent.Words.{
  DataUse, ranking, data_use_vocabulary, Protocol, SourceVisibility, AccessBasis, allow, deny,
  allow_explicit, deny_invalid_request,
}
use open_interest_clusters.Consent.Request.{
  Policy, Request, valid_policy, valid_request, effective_private_data, safe_data_use,
}
use open_interest_clusters.Consent.Evaluate.{
  ConsentEvent, Evaluation, policy_verdict, private_data_verdict, given_policy_verdict,
  visibility_allows_access, evaluate_request, evaluate, create_evaluation, create_event,
  fallback_request,
}
use open_interest_clusters.Consent.Permits.{
  Permits, IsPrivate, IsPrivate-iff, policy_verdict_sound, policy_verdict_complete,
}

visibility-ne_explicit :
    (v : SourceVisibility) (b : AccessBasis) → visibility_allows_access v b ≢ some allow_explicit
unfolding visibility_allows_access
visibility-ne_explicit SourceVisibility.unknown b h = cc
visibility-ne_explicit v b h = ground arith

policy-explicit :
    (p : Policy) (r : Request) (private_data : Bool)
    → ((policy_verdict p r private_data).0 ≡ allow)
      ↔ ((policy_verdict p r private_data).1 ≡ allow_explicit)
unfolding policy_verdict private_data_verdict
policy-explicit p r private_data =
    ground (arith, visibility-ne_explicit r.source_visibility r.access_basis)

-- The decision and the reason of an evaluation agree, and its audit event is its event.
pub record IsAudited (e : Evaluation) : Type 0 where
  pub same : e.audit_event ≡ e.event
  pub explicit : (e.decision ≡ allow) ↔ (e.reason ≡ allow_explicit)

-- What the event of a well-formed request tells: what the request says, but for its subject.
pub record IsReport (r : Request) (e : ConsentEvent) : Type 0 where
  pub data_use : e.data_use ≡ r.data_use
  pub protocol : e.protocol ≡ r.protocol
  pub visibility : e.source_visibility ≡ r.source_visibility
  pub basis : e.access_basis ≡ r.access_basis
  pub private_data : (e.contains_private_data ≡ true) ↔ IsPrivate r
  pub third_party : (e.contains_third_party_data ≡ true) ↔ (r.contains_third_party_data ≡ some true)
  pub server_side : (e.server_side_processing ≡ true) ↔ (r.server_side_processing ≡ some true)

-- What the event of a malformed request tells: that it is denied as such, and the data use, which is
-- that of the request where it names one, else ranking.
pub record IsRedacted {N : Type 0} (request : Value N) (e : ConsentEvent) : Type 0 where
  pub decision : e.decision ≡ deny
  pub reason : e.reason ≡ deny_invalid_request
  pub data_use :
      (known {E = DataUse} (get request "dataUse") ≡ some e.data_use)
      ⊎ ((known {E = DataUse} (get request "dataUse") ≡ none) × (e.data_use ≡ ranking))
  pub private_data : e.contains_private_data ≡ false
  pub third_party : e.contains_third_party_data ≡ false
  pub server_side : e.server_side_processing ≡ false
  pub protocol : e.protocol ≡ Protocol.unknown
  pub visibility : e.source_visibility ≡ SourceVisibility.unknown
  pub basis : e.access_basis ≡ AccessBasis.unknown

module _ {N : Type 0} where
  pub given_policy-valid :
      (policy : Value N) {p : Policy} (r : Request) (private_data : Bool)
      → valid_policy policy ≡ some p
      → given_policy_verdict policy r private_data ≡ policy_verdict p r private_data
  unfolding given_policy_verdict valid_policy is_object
  given_policy-valid undefined r private_data h = cc
  given_policy-valid null r private_data h = cc
  given_policy-valid (obj fs) r private_data h = ground arith
  given_policy-valid _ r private_data h = cc

  given_policy_allow :
      (policy : Value N) (r : Request) (private_data : Bool)
      → (given_policy_verdict policy r private_data).0 ≡ allow
      → (p : Policy) × (valid_policy policy ≡ some p)
        × ((policy_verdict p r private_data).0 ≡ allow)
  unfolding given_policy_verdict
  given_policy_allow undefined r private_data h = cc
  given_policy_allow null r private_data h = cc
  given_policy_allow policy r private_data h = elim (Option-cases (valid_policy policy)) [
    | inl e ↦ ground arith
    | inr (p, e) ↦ (p, e, ground arith)
  ]

  evaluate-allow_sound :
      (policy request : Value N)
      → (evaluate policy request).decision ≡ allow
      → (p : Policy) × (r : Request) × (valid_policy policy ≡ some p)
        × (valid_request request ≡ some r)
        × Permits p r
  unfolding evaluate evaluate_request create_evaluation
  evaluate-allow_sound policy request h = elim (Option-cases (valid_request request)) [
    | inl e ↦ ground arith
    | inr (r, e) ↦
        let given : (given_policy_verdict policy r (effective_private_data r)).0 ≡ allow =
          ground arith in
        let (p, valid, allowed) = given_policy_allow policy r (effective_private_data r) given in
        (p, r, valid, e, policy_verdict_sound p r (ground arith) allowed)
  ]

  evaluate-allow_complete :
      (policy request : Value N) (p : Policy) (r : Request)
      → valid_policy policy ≡ some p
      → valid_request request ≡ some r
      → Permits p r
      → (evaluate policy request).decision ≡ allow
  unfolding evaluate evaluate_request create_evaluation
  evaluate-allow_complete policy request p r hp hr h = ground (
    arith,
    h.protocol,
    policy_verdict_complete p r h,
    given_policy-valid policy r (effective_private_data r) hp,
  )

  given_policy-explicit :
      (policy : Value N) (r : Request) (private_data : Bool)
      → ((given_policy_verdict policy r private_data).0 ≡ allow)
        ↔ ((given_policy_verdict policy r private_data).1 ≡ allow_explicit)
  unfolding given_policy_verdict
  given_policy-explicit undefined r private_data = ground arith
  given_policy-explicit null r private_data = ground arith
  given_policy-explicit policy r private_data = elim (Option-cases (valid_policy policy)) [
    | inl e ↦ ground arith
    | inr (p, e) ↦ ground (arith, policy-explicit p r private_data)
  ]

  -- The two values are a policy and a request, and the policy permits the request.
  abbrev pub IsPermitted : Value N → Value N → Type 0
  IsPermitted policy request =
      (p : Policy) × (r : Request) × (valid_policy policy ≡ some p)
      × (valid_request request ≡ some r)
      × Permits p r

  -- A request is allowed exactly when both values are well formed and the policy permits the
  -- request: the protocol is known, the subjects agree, the policy is neither revoked nor marked
  -- for deletion, the use is allowed, the provider does not object, the visibility is accessible
  -- on the access basis, and server-side, private and third-party private data are granted where
  -- they are involved.
  pub evaluate-allow_iff :
      (policy request : Value N)
      → ((evaluate policy request).decision ≡ allow) ↔ IsPermitted policy request
  evaluate-allow_iff policy request = (
    evaluate-allow_sound policy request,
    λ h. evaluate-allow_complete policy request h.0 h.1 h.2 h.3 h.4,
  )

  evaluate_request-audit :
      (policy : Value N) (r : Request)
      → IsAudited (evaluate_request policy r) × IsReport r (evaluate_request policy r).event
  unfolding evaluate_request create_evaluation create_event
  evaluate_request-audit policy r = (
    ground (arith, given_policy-explicit policy r (effective_private_data r)),
    record {
      data_use = refl;
      protocol = refl;
      visibility = refl;
      basis = refl;
      private_data = IsPrivate-iff r;
      third_party = ground arith;
      server_side = ground arith;
    },
  )

  fallback-IsRedacted :
      (request : Value N)
      → IsRedacted request
          (create_evaluation
            (fallback_request (safe_data_use request))
            deny
            deny_invalid_request
            false).event
  unfolding create_evaluation create_event fallback_request safe_data_use
  fallback-IsRedacted request = record {
    decision = refl;
    reason = refl;
    data_use = elim (Option-cases (known {E = DataUse} (get request "dataUse"))) [
      | inl e ↦ inr (e, rw e refl)
      | inr (u, e) ↦ inl (rw e refl)
    ];
    private_data = refl;
    third_party = refl;
    server_side = refl;
    protocol = refl;
    visibility = refl;
    basis = refl;
  }

  -- Every evaluation carries its own event as the audit event, and allows exactly when the reason
  -- is the explicit allow. Of a well-formed request the event reports the use, protocol, visibility
  -- and access basis of the request, third-party data and server-side processing exactly when the
  -- request says so, and private data exactly when it says so or its visibility is one of followers,
  -- mentioned, mutuals, local or access-controlled. The event of any other request is the deny of an
  -- invalid request and tells nothing but the data use, if the request names one: protocol,
  -- visibility and access basis are unknown, and no private data, third-party data or server-side
  -- processing is reported.
  pub evaluate-audit :
      (policy request : Value N)
      → IsAudited (evaluate policy request)
        × (((r : Request) × (valid_request request ≡ some r)
              × IsReport r (evaluate policy request).event)
            ⊎ ((valid_request request ≡ none) × IsRedacted request (evaluate policy request).event))
  unfolding evaluate create_evaluation
  evaluate-audit policy request = elim (Option-cases (valid_request request)) [
    | inl e ↦ (ground arith, inr (e, rw (evaluate, e) (fallback-IsRedacted request)))
    | inr (r, e) ↦
        let (audited, told) = evaluate_request-audit policy r in
        (rw (evaluate, e) audited, inl (r, e, rw (evaluate, e) told))
  ]

  -- The events do not depend on who the subject is: for well-formed values, renaming the subject
  -- of the policy and of the request, so that they agree as before, leaves the evaluation as it is.
  pub evaluate-rename_subject :
      (policy request policy' request' : Value N) (p : Policy) (r : Request) (a b : String)
      → valid_policy policy ≡ some p
      → valid_request request ≡ some r
      → valid_policy policy' ≡ some (record p { subject_id = a })
      → valid_request request' ≡ some (record r { subject_id = b })
      → (p.subject_id == r.subject_id) ≡ (a == b)
      → evaluate policy' request' ≡ evaluate policy request
  unfolding evaluate evaluate_request create_evaluation policy_verdict private_data_verdict
      effective_private_data
  evaluate-rename_subject policy request policy' request' p r a b hp hr hp' hr' same =
      let s : Request = record r { subject_id = b } in
      ground (
        arith,
        given_policy-valid policy r (effective_private_data r) hp,
        given_policy-valid policy' s (effective_private_data s) hp',
      )
