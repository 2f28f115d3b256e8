-- ===== src/Tests/Enforcement.antt =====
-- Runs of recommendation/consent-enforcement.ts. The world counts the events that the sink saw and
-- the operations that ran.
use open_interest_clusters.Prelude.{
  ℕ, suc, String, ◌≡◌, ◌⊎◌, refl, Bool, true, false, [], ◌∷◌, Option, none, some,
}
use open_interest_clusters.Prelude.Vocabulary.{unique}
use open_interest_clusters.Js.{Value, str, arr}
use open_interest_clusters.Consent.Words.{derived_data_target_vocabulary, profile}
use open_interest_clusters.Consent.Evaluate.{ConsentEvent, evaluate}
use open_interest_clusters.Consent.Decisions.{IsPermitted}
use open_interest_clusters.Consent.Deletion.{DeletionIntent}
use open_interest_clusters.Enforcement.Gate.{
  EnforcementOptions, failed, consent_denied, audit_failed, record_audit_event, with_consent,
  require_consent,
}
use open_interest_clusters.Enforcement.GateLaws.{
  Audited, with_consent-denied, with_consent-done, SinkFailed, with_consent-failed,
}
use open_interest_clusters.Enforcement.Deletion.{
  DeletionResult, DeleterAnswer, returned, raised, wrapped, invalid_intent, invalid_deleter,
  valid_deletion_intent, valid_deletion_result, sanitize_deletion_result, receive, catch_error,
  execute_deletion,
}
use open_interest_clusters.Enforcement.DeletionLaws.{
  IsSanitized, IsVeiled, execute_deletion-deleted, execute_deletion-refused,
}
use open_interest_clusters.Tests.Samples.{object, texts, request_of}
use open_interest_clusters.Tests.Consent.{policy, request, deciding}

abbrev World : Type 0
World = ℕ × ℕ

abbrev sink_of : Bool → ConsentEvent → World → Bool × World
sink_of answer event (seen, ran) = (answer, (suc seen, ran))

abbrev options_of : Bool → Option (EnforcementOptions World)
options_of answer = some (record { audit_sink = some (sink_of answer); audit_failure_mode = none })

abbrev operation : World → String × World
operation (seen, ran) = ("ranked", (seen, suc ran))

abbrev refused_request : Value ℕ
refused_request = request_of "did:plc:ann" "followers_only"

with_consent-denied_example :
    with_consent policy refused_request operation (options_of false) (0, 0) ≡ (
      failed (
          consent_denied
            (evaluate policy refused_request).reason
            (evaluate policy refused_request).audit_event),
      (record_audit_event
          (evaluate policy refused_request).audit_event
          (options_of false)
          (0, 0)).1,
    )
unfolding deciding
with_consent-denied_example =
    with_consent-denied policy refused_request operation (options_of false) (0, 0) refl

with_consent-done_example :
    IsPermitted policy request
    × ((w' : World) × Audited (evaluate policy request).audit_event (options_of true) (0, 0) w'
        × (operation w' ≡ ("ranked", (1, 1))))
unfolding with_consent require_consent record_audit_event deciding
with_consent-done_example =
    with_consent-done policy request operation (options_of true) (0, 0) "ranked" (1, 1) refl

with_consent-failed_example :
    ((¬ IsPermitted policy request)
      × (audit_failed (evaluate policy request).audit_event
          ≡ consent_denied (evaluate policy request).reason (evaluate policy request).audit_event)
      × ((1, 0)
          ≡ (record_audit_event (evaluate policy request).audit_event (options_of false) (0, 0)).1))
    ⊎ (IsPermitted policy request
        × (audit_failed (evaluate policy request).audit_event
            ≡ audit_failed (evaluate policy request).audit_event)
        × SinkFailed (evaluate policy request).audit_event (options_of false) (0, 0) (1, 0))
unfolding with_consent require_consent record_audit_event deciding
with_consent-failed_example =
    with_consent-failed policy request operation (options_of false) (0, 0)
      (audit_failed (evaluate policy request).audit_event) (1, 0) refl

abbrev intent : Value ℕ
intent = object (
    ("subjectId", str "did:plc:ann")
    ∷ ("requestedAt", str "2026-01-01")
    ∷ ("scope", str "recommendation_derived_data")
    ∷ ("targets", arr (texts ("profile" ∷ [])))
    ∷ [])

abbrev deletion_answer : Value ℕ
deletion_answer = object (
    ("deletedTargets", arr (texts ("profile" ∷ "profile" ∷ [])))
    ∷ ("skippedTargets", arr (texts []))
    ∷ ("completedAt", str "2026-01-02")
    ∷ [])

abbrev deleter : Option (Value ℕ → ℕ → DeleterAnswer ℕ × ℕ)
deleter = some (λ i w. (returned deletion_answer, suc w))

abbrev failing : Option (Value ℕ → ℕ → DeleterAnswer ℕ × ℕ)
failing = some (λ i w. (raised (record { is_type_error = false; message = "row 17: ann" }), suc w))

abbrev profile_deleted : DeletionResult
profile_deleted = record {
  deleted_targets = profile ∷ [];
  skipped_targets = [];
  completed_at = "2026-01-02";
}

execute_deletion-deleted_example :
    ((valid : DeletionIntent) × (valid_deletion_intent intent ≡ some valid))
    × ((delete : Value ℕ → ℕ → DeleterAnswer ℕ × ℕ) × (value : Value ℕ) × (raw : DeletionResult)
        × (deleter ≡ some delete)
        × (delete intent 0 ≡ (returned value, 1))
        × (valid_deletion_result value ≡ some raw)
        × IsSanitized raw profile_deleted)
unfolding execute_deletion valid_deletion_intent valid_deletion_result sanitize_deletion_result
    receive deciding unique
execute_deletion-deleted_example = execute_deletion-deleted intent deleter 0 1 profile_deleted refl

abbrev before : ℕ
before = 0

abbrev after : ℕ
after = 1

execute_deletion-refused_example :
    ((after ≡ before) × (valid_deletion_intent intent ≡ none) × (wrapped ≡ invalid_intent))
    ⊎ ((after ≡ before) × (failing ≡ none) × (wrapped ≡ invalid_deleter))
    ⊎ IsVeiled wrapped
unfolding execute_deletion valid_deletion_intent receive catch_error deciding
execute_deletion-refused_example = execute_deletion-refused intent failing before after wrapped refl
