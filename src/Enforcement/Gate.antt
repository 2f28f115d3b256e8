-- ===== src/Enforcement/Gate.antt =====
-- recommendation/consent-enforcement.ts: requireRecommendationConsent and
-- withRecommendationConsent.
use open_interest_clusters.Prelude.{Bool, true, false, Option, none, some, if◌then◌else◌}
use open_interest_clusters.Js.{Value}
use open_interest_clusters.Consent.Words.{ReasonCode, Decision, allow, deny}
use open_interest_clusters.Consent.Evaluate.{ConsentEvent, Evaluation, evaluate}

-- RecommendationConsentAuditFailureMode: the two values of its type, which is not checked at run time
pub data FailureMode : Type 0 where
  fail_closed ignore : FailureMode

-- RecommendationConsentEnforcementOptions. The sink's answer is false where it throws or rejects.
pub record EnforcementOptions (W : Type 0) : Type 0 where
  pub audit_sink : Option (ConsentEvent → W → Bool × W)
  pub audit_failure_mode : Option FailureMode

-- RecommendationConsentDeniedError, RecommendationConsentAuditError
pub data GateError : Type 0 where
  consent_denied : ReasonCode → ConsentEvent → GateError
  audit_failed : ConsentEvent → GateError

-- What an awaited call comes to.
pub data Outcome (T : Type 0) : Type 0 where
  done : T → Outcome T
  failed : GateError → Outcome T

-- `(options.auditFailureMode ?? "fail_closed") === "fail_closed"`
abbrev pub fails_closed : Option FailureMode → Bool
fails_closed (some ignore) = false
fails_closed _ = true

-- `new RecommendationConsentDeniedError(evaluation)`
abbrev pub denied_error : Evaluation → GateError
denied_error evaluation = consent_denied evaluation.reason evaluation.audit_event

-- After the audit: a deny is thrown as such, also where the audit failed.
abbrev pub after_audit : Evaluation → Decision → Option GateError → Outcome Evaluation
after_audit evaluation deny error = failed (denied_error evaluation)
after_audit evaluation allow (some error) = failed error
after_audit evaluation allow none = done evaluation

module _ {W : Type 0} where
  -- What the call of the sink comes to, by its answer; `none` where nothing is thrown.
  abbrev pub after_sink : ConsentEvent → Option FailureMode → Bool × W → Option GateError × W
  after_sink event mode (true, w) = (none, w)
  after_sink event mode (false, w) =
      (if fails_closed mode then some (audit_failed event) else none, w)

  -- recordConsentAuditEvent
  unfoldable pub record_audit_event :
      ConsentEvent → Option (EnforcementOptions W) → W → Option GateError × W
  record_audit_event event none w = (none, w)
  record_audit_event event (some options) w = elim options.audit_sink [
    | none ↦ (none, w)
    | some sink ↦ after_sink event options.audit_failure_mode (sink event w)
  ]

  -- requireRecommendationConsent
  unfoldable pub require_consent :
      {N : Type 0} → Value N → Value N → Option (EnforcementOptions W) → W → Outcome Evaluation × W
  require_consent policy request options w =
      let evaluation = evaluate policy request in
      let (error, w') = record_audit_event evaluation.audit_event options w in
      (after_audit evaluation evaluation.decision error, w')

  abbrev pub and_then : {T : Type 0} → Outcome Evaluation × W → (W → T × W) → Outcome T × W
  and_then (failed error, w) operation = (failed error, w)
  and_then (done evaluation, w) operation = let (t, w') = operation w in (done t, w')

  -- withRecommendationConsent; `T` is what the operation returns or throws.
  unfoldable pub with_consent :
      {N T : Type 0}
      → Value N
      → Value N
      → (W → T × W)
      → Option (EnforcementOptions W)
      → W
      → Outcome T × W
  with_consent policy request operation options w =
      and_then (require_consent policy request options w) operation
