-- ===== src/Enforcement/Deletion.antt =====
-- recommendation/consent-enforcement.ts: executeRecommendationDerivedDataDeletion.
use text.Mathlib.Text.{starts_with}
use open_interest_clusters.Prelude.{
  String, Bool, true, false, ◌&&◌, List, Option, none, some, ◌==◌, if◌then◌else◌,
}
use open_interest_clusters.Prelude.Vocabulary.{unique}
use open_interest_clusters.Js.{Value, str, arr, nil, get, is_object}
use open_interest_clusters.Js.Narrow.{◌>>=◌, ◌>>◌, guard, non_empty_string, known_list}
use open_interest_clusters.Consent.Words.{DerivedDataTarget, derived_data_target_vocabulary}
use open_interest_clusters.Consent.Deletion.{DeletionIntent}

-- RecommendationDerivedDataDeletionResult
pub record DeletionResult : Type 0 where
  pub deleted_targets : List DerivedDataTarget
  pub skipped_targets : List DerivedDataTarget
  pub completed_at : String

-- What a deleter that throws or rejects throws: whether it is a TypeError, and its message.
pub record RaisedError : Type 0 where
  pub is_type_error : Bool
  pub message : String

-- How the call of a deleter ends.
pub data DeleterAnswer (N : Type 0) : Type 0 where
  returned : Value N → DeleterAnswer N
  raised : RaisedError → DeleterAnswer N

-- `wrapped` is RecommendationDerivedDataDeletionError.
pub data DeletionError : Type 0 where
  invalid_intent invalid_deleter wrapped : DeletionError
  rethrown : RaisedError → DeletionError

pub data DeletionOutcome : Type 0 where
  deleted : DeletionResult → DeletionOutcome
  refused : DeletionError → DeletionOutcome

-- `new TypeError("Invalid recommendation derived data deletion result.")`
abbrev pub invalid_result : RaisedError
invalid_result = record {
  is_type_error = true;
  message = "Invalid recommendation derived data deletion result.";
}

abbrev pub unless : Bool → Option (Unit {0})
unless true = none
unless false = some tt

-- The `catch` of the call and the check of its answer.
unfoldable pub catch_error : RaisedError → DeletionError
catch_error error =
    if error.is_type_error
      && starts_with error.message "Invalid recommendation derived data deletion result"
    then rethrown error
    else wrapped

module _ {N : Type 0} where
  -- `value === text`
  abbrev pub is_text : Value N → String → Bool
  is_text (str s) text = s == text
  is_text _ text = false

  abbrev pub is_empty_list : Value N → Bool
  is_empty_list (arr nil) = true
  is_empty_list _ = false

  -- isValidDeletionIntent
  unfoldable pub valid_deletion_intent : Value N → Option DeletionIntent
  valid_deletion_intent intent = do
    guard (is_object intent)
    subject_id ← non_empty_string (get intent "subjectId")
    requested_at ← non_empty_string (get intent "requestedAt")
    guard (is_text (get intent "scope") "recommendation_derived_data")
    unless (is_empty_list (get intent "targets"))
    targets ← known_list (get intent "targets")
    some (record { subject_id = subject_id; requested_at = requested_at; targets = targets })

  -- isValidDeletionResult
  unfoldable pub valid_deletion_result : Value N → Option DeletionResult
  valid_deletion_result result = do
    guard (is_object result)
    deleted_targets ← known_list (get result "deletedTargets")
    skipped_targets ← known_list (get result "skippedTargets")
    completed_at ← non_empty_string (get result "completedAt")
    some (record {
      deleted_targets = deleted_targets;
      skipped_targets = skipped_targets;
      completed_at = completed_at;
    })

  -- sanitizeDeletionResult; `none` where it throws `invalid_result`
  unfoldable pub sanitize_deletion_result : Value N → Option DeletionResult
  sanitize_deletion_result result = do
    valid ← valid_deletion_result result
    some (record valid {
      deleted_targets = unique valid.deleted_targets;
      skipped_targets = unique valid.skipped_targets;
    })

  unfoldable pub receive : DeleterAnswer N → DeletionOutcome
  receive (raised error) = refused (catch_error error)
  receive (returned value) = elim (sanitize_deletion_result value) [
    | none ↦ refused (catch_error invalid_result)
    | some result ↦ deleted result
  ]

  -- executeRecommendationDerivedDataDeletion; the deleter is `none` where the value given for it
  -- has no function deleteDerivedData.
  unfoldable pub execute_deletion :
      {W : Type 0} → Value N → Option (Value N → W → DeleterAnswer N × W) → W → DeletionOutcome × W
  execute_deletion intent deleter w = elim (valid_deletion_intent intent) [
    | none ↦ (refused invalid_intent, w)
    | some valid ↦ elim deleter [
      | none ↦ (refused invalid_deleter, w)
      | some delete ↦ let (answer, w') = delete intent w in (receive answer, w')
    ]
  ]
