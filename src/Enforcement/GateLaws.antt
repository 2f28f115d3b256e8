-- ===== src/Enforcement/GateLaws.antt =====
-- When the gate of recommendation/consent-enforcement.ts lets an operation run.
use open_interest_clusters.Prelude.{
  Bool, true, false, ◌≡◌, ◌≢◌, inl, inr, ◌⊎◌, Bool-cases, refl, Option, none, some, arith,
  Option-cases,
}
use open_interest_clusters.Js.{Value}
use open_interest_clusters.Consent.Words.{Decision, allow, deny}
use open_interest_clusters.Consent.Evaluate.{ConsentEvent, Evaluation, evaluate}
use open_interest_clusters.Consent.Decisions.{IsPermitted, evaluate-allow_iff}
use open_interest_clusters.Enforcement.Gate.{
  EnforcementOptions, FailureMode, ignore, GateError, consent_denied, audit_failed, done, failed,
  denied_error, fails_closed, after_sink, record_audit_event, after_audit, require_consent,
  and_then, with_consent,
}

fails_closed-ignore : (m : Option FailureMode) → fails_closed m ≡ false → m ≡ some ignore
fails_closed-ignore m h = ground arith

module _ {W : Type 0} where
  -- How the audit of an event can have ended in the world `w'` where nothing was thrown: there is
  -- no sink, the sink recorded the event, or its failure is ignored.
  pub data Audited (event : ConsentEvent) (options : Option (EnforcementOptions W)) (w w' : W)
      : Type 0 where
    no_options : options ≡ none → w' ≡ w → Audited event options w w'
    no_sink :
        (o : EnforcementOptions W)
        → options ≡ some o
        → o.audit_sink ≡ none
        → w' ≡ w
        → Audited event options w w'
    recorded :
        (o : EnforcementOptions W) (sink : ConsentEvent → W → Bool × W)
        → options ≡ some o
        → o.audit_sink ≡ some sink
        → sink event w ≡ (true, w')
        → Audited event options w w'
    ignored :
        (o : EnforcementOptions W) (sink : ConsentEvent → W → Bool × W)
        → options ≡ some o
        → o.audit_sink ≡ some sink
        → o.audit_failure_mode ≡ some ignore
        → sink event w ≡ (false, w')
        → Audited event options w w'

  sink_case :
      (event : ConsentEvent) (w w' : W) (o : EnforcementOptions W)
      (sink : ConsentEvent → W → Bool × W) (answer : Bool × W)
      → o.audit_sink ≡ some sink
      → sink event w ≡ answer
      → after_sink event o.audit_failure_mode answer ≡ (none, w')
      → Audited event (some o) w w'
  sink_case event w w' o sink (true, v) has_sink called e = recorded o sink refl has_sink (cc)
  sink_case event w w' o sink (false, v) has_sink called e =
      ignored o sink refl has_sink (fails_closed-ignore o.audit_failure_mode (ground arith))
        (ground arith)

  pub record_audit-Audited :
      (event : ConsentEvent) (options : Option (EnforcementOptions W)) (w w' : W)
      → record_audit_event event options w ≡ (none, w')
      → Audited event options w w'
  unfolding record_audit_event
  record_audit-Audited event none w w' h = no_options refl (cc)
  record_audit-Audited event (some o) w w' h = elim (Option-cases o.audit_sink) [
    | inl missing ↦ no_sink o refl missing (ground arith)
    | inr (sink, has_sink) ↦
        sink_case event w w' o sink (sink event w) has_sink refl
          (rw (has_sink, record_audit_event) at h)
  ]

  and_then-done :
      {T : Type 0} (operation : W → T × W) (e : Evaluation) (d : Decision)
      (r : Option GateError × W) (t : T) (end : W)
      → and_then (after_audit e d r.0, r.1) operation ≡ (done t, end)
      → (d ≡ allow) × (r.0 ≡ none) × (operation r.1 ≡ (t, end))
  and_then-done operation e deny r t end h = ground arith
  and_then-done operation e allow (some error, v) t end h = ground arith
  and_then-done operation e allow (none, v) t end h = (refl, refl, ground arith)

  -- The audit sink threw or rejected in the world `w'`, and its failure is not ignored.
  pub record SinkFailed (event : ConsentEvent) (options : Option (EnforcementOptions W)) (w w' : W)
      : Type 0 where
    pub given : EnforcementOptions W
    pub sink : ConsentEvent → W → Bool × W
    pub is_given : options ≡ some given
    pub has_sink : given.audit_sink ≡ some sink
    pub closed : given.audit_failure_mode ≢ some ignore
    pub fails : sink event w ≡ (false, w')

  failed_sink_case :
      (event : ConsentEvent) (w w' : W) (o : EnforcementOptions W)
      (sink : ConsentEvent → W → Bool × W) (answer : Bool × W) (error : GateError)
      → o.audit_sink ≡ some sink
      → sink event w ≡ answer
      → after_sink event o.audit_failure_mode answer ≡ (some error, w')
      → (error ≡ audit_failed event) × SinkFailed event (some o) w w'
  failed_sink_case event w w' o sink (true, v) error has_sink called e = ground arith
  failed_sink_case event w w' o sink (false, v) error has_sink called e =
      elim (Bool-cases (fails_closed o.audit_failure_mode)) [
        | inr passes ↦ ground arith
        | inl closes ↦ (
          ground arith,
          record {
            given = o;
            sink = sink;
            is_given = refl;
            has_sink = has_sink;
            closed = λ ignored. ground arith;
            fails = ground arith;
          },
        )
      ]

  record_audit-SinkFailed :
      (event : ConsentEvent) (options : Option (EnforcementOptions W)) (w w' : W)
      (error : GateError)
      → record_audit_event event options w ≡ (some error, w')
      → (error ≡ audit_failed event) × SinkFailed event options w w'
  unfolding record_audit_event
  record_audit-SinkFailed event none w w' error h = ground arith
  record_audit-SinkFailed event (some o) w w' error h = elim (Option-cases o.audit_sink) [
    | inl missing ↦ ground arith
    | inr (sink, has_sink) ↦
        failed_sink_case event w w' o sink (sink event w) error has_sink refl
          (rw (has_sink, record_audit_event) at h)
  ]

  and_then-failed :
      {T : Type 0} (operation : W → T × W) (e : Evaluation) (d : Decision)
      (r : Option GateError × W) (error : GateError) (end : W)
      → and_then (after_audit e d r.0, r.1) operation ≡ (failed error, end)
      → ((d ≡ deny) × (error ≡ denied_error e) × (end ≡ r.1))
        ⊎ ((d ≡ allow) × (r ≡ (some error, end)))
  and_then-failed operation e deny r error end h = inl (refl, ground arith, ground arith)
  and_then-failed operation e allow (some problem, v) error end h = inr (refl, ground arith)
  and_then-failed operation e allow (none, v) error end h = ground arith

module _ {W N T : Type 0} (policy request : Value N) (operation : W → T × W)
    (options : Option (EnforcementOptions W)) (w : W) where
  -- A denied request ends in the denied error with the reason and the audit event of its
  -- evaluation, whether or not the audit failed and whatever its failure mode; the operation has
  -- not run, since the world is the one that the audit left.
  pub with_consent-denied :
      (evaluate policy request).decision ≡ deny
      → with_consent policy request operation options w ≡ (
        failed
            (consent_denied (evaluate policy request).reason (evaluate policy request).audit_event),
        (record_audit_event (evaluate policy request).audit_event options w).1,
      )
  unfolding with_consent require_consent
  with_consent-denied denied = rw denied

  -- The operation has run only for a permitted request whose audit threw nothing, in the world that
  -- the audit left, and its result and its world are those of the whole.
  pub with_consent-done :
      (t : T) (end : W)
      → with_consent policy request operation options w ≡ (done t, end)
      → IsPermitted policy request
        × ((w' : W) × Audited (evaluate policy request).audit_event options w w'
            × (operation w' ≡ (t, end)))
  unfolding with_consent require_consent
  with_consent-done t end h =
      let e = evaluate policy request in
      let r = record_audit_event e.audit_event options w in
      let (allowed, quiet, ran) = and_then-done operation e e.decision r t end h in
      (
        (evaluate-allow_iff policy request).0 allowed,
        (r.1, record_audit-Audited e.audit_event options w r.1 (ground arith), ran),
      )

  -- The gate ends in an error in two ways only, and the operation has run in neither: in the denied
  -- error, with the reason and the event of the evaluation, where the request is not permitted; or in
  -- the audit error, where it is permitted, the sink has failed to record the event and the failure
  -- mode is not to ignore that. The world is the one that the audit left.
  pub with_consent-failed :
      (error : GateError) (end : W)
      → with_consent policy request operation options w ≡ (failed error, end)
      → ((¬ IsPermitted policy request)
          × (error
              ≡ consent_denied
                  (evaluate policy request).reason
                  (evaluate policy request).audit_event)
          × (end ≡ (record_audit_event (evaluate policy request).audit_event options w).1))
        ⊎ (IsPermitted policy request
            × (error ≡ audit_failed (evaluate policy request).audit_event)
            × SinkFailed (evaluate policy request).audit_event options w end)
  unfolding with_consent require_consent
  with_consent-failed error end h =
      let e = evaluate policy request in
      elim (and_then-failed operation e e.decision (record_audit_event e.audit_event options w)
        error end h) [
          | inl (denied, is_error, is_end) ↦ inl (
            λ permitted. let allowed = (evaluate-allow_iff policy request).1 permitted in cc,
            is_error,
            is_end,
          )
          | inr (allowed, thrown) ↦
              let (is_error, fails) =
                record_audit-SinkFailed e.audit_event options w end error thrown in
              inr ((evaluate-allow_iff policy request).0 allowed, is_error, fails)
        ]
