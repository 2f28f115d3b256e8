-- ===== src/Enforcement/DeletionLaws.antt =====
-- What executeRecommendationDerivedDataDeletion returns and what it lets through of a failure.
use text.Mathlib.Text.{starts_with}
use open_interest_clusters.Prelude.{
  String, true, ap, Bool-cases, ◌≡◌, ◌⊎◌, inl, inr, refl, Option, none, some, arith, Option-cases,
}
use open_interest_clusters.Prelude.Vocabulary.{
  includes, unique, IsUnique, unique-IsUnique, includes-unique,
}
use open_interest_clusters.Js.{Value}
use open_interest_clusters.Consent.Words.{DerivedDataTarget, derived_data_target_vocabulary}
use open_interest_clusters.Consent.Deletion.{DeletionIntent}
use open_interest_clusters.Enforcement.Deletion.{
  DeletionResult, RaisedError, DeleterAnswer, returned, raised, DeletionError, invalid_intent,
  invalid_deleter, wrapped, rethrown, deleted, refused, invalid_result, valid_deletion_intent,
  valid_deletion_result, sanitize_deletion_result, catch_error, receive, execute_deletion,
}

-- `r` is `raw` with each target named once.
pub record IsSanitized (raw r : DeletionResult) : Type 0 where
  pub deleted_once : IsUnique r.deleted_targets
  pub skipped_once : IsUnique r.skipped_targets
  pub same_deleted :
      (t : DerivedDataTarget) → includes r.deleted_targets t ≡ includes raw.deleted_targets t
  pub same_skipped :
      (t : DerivedDataTarget) → includes r.skipped_targets t ≡ includes raw.skipped_targets t
  pub same_time : r.completed_at ≡ raw.completed_at

abbrev pub complaint : String
complaint = "Invalid recommendation derived data deletion result"

-- The generic deletion error, or a TypeError that says that the deletion result is invalid.
abbrev pub IsVeiled : DeletionError → Type 0
IsVeiled error =
    (error ≡ wrapped)
    ⊎ ((e : RaisedError) × (error ≡ rethrown e)
        × (e.is_type_error ≡ true)
        × (starts_with e.message complaint ≡ true))

catch_error-IsVeiled : (e : RaisedError) → IsVeiled (catch_error e)
unfolding catch_error
catch_error-IsVeiled e = elim (Bool-cases e.is_type_error) [
  | inl is_type ↦ elim (Bool-cases (starts_with e.message complaint)) [
    | inl starts ↦ inr (e, rw (is_type, starts), is_type, starts)
    | inr other ↦ inl (rw (is_type, other))
  ]
  | inr other ↦ inl (rw other)
]

module _ {N : Type 0} where
  sanitize_inverse :
      (value : Value N) (r : DeletionResult)
      → sanitize_deletion_result value ≡ some r
      → (raw : DeletionResult) × (valid_deletion_result value ≡ some raw) × IsSanitized raw r
  unfolding sanitize_deletion_result
  sanitize_inverse value r h = elim (Option-cases (valid_deletion_result value)) [
    | inl e ↦ ground arith
    | inr (raw, e) ↦
        let ds : r.deleted_targets ≡ unique raw.deleted_targets = ground arith in
        let ss : r.skipped_targets ≡ unique raw.skipped_targets = ground arith in
        (
          raw,
          e,
          record {
            deleted_once = rw ds (unique-IsUnique raw.deleted_targets);
            skipped_once = rw ss (unique-IsUnique raw.skipped_targets);
            same_deleted = λ t. rw ds (includes-unique raw.deleted_targets t);
            same_skipped = λ t. rw ss (includes-unique raw.skipped_targets t);
            same_time = ground arith;
          },
        )
  ]

  receive-deleted :
      (answer : DeleterAnswer N) (r : DeletionResult)
      → receive answer ≡ deleted r
      → (value : Value N) × (answer ≡ returned value) × (sanitize_deletion_result value ≡ some r)
  unfolding receive
  receive-deleted (raised e) r h = cc
  receive-deleted (returned value) r h = (value, refl, ground arith)

  receive-rethrown :
      (answer : DeleterAnswer N) (error : DeletionError)
      → receive answer ≡ refused error
      → IsVeiled error
  unfolding receive
  receive-rethrown (raised e) error h =
      let same : catch_error e ≡ error = cc in rw same at (catch_error-IsVeiled e)
  receive-rethrown (returned value) error h = elim (Option-cases (sanitize_deletion_result value)) [
    | inl bad ↦
        let same : catch_error invalid_result ≡ error = ground arith in
        rw same at (catch_error-IsVeiled invalid_result)
    | inr (r, good) ↦ ground arith
  ]

module _ {N W : Type 0} (intent : Value N) (deleter : Option (Value N → W → DeleterAnswer N × W))
    (w end : W) where
  -- A deletion succeeds only for a valid intent and with the value that the deleter returned for
  -- it, in the world that the deleter left: a valid result, with each target named once.
  pub execute_deletion-deleted :
      (r : DeletionResult)
      → execute_deletion intent deleter w ≡ (deleted r, end)
      → ((valid : DeletionIntent) × (valid_deletion_intent intent ≡ some valid))
        × ((delete : Value N → W → DeleterAnswer N × W) × (value : Value N) × (raw : DeletionResult)
            × (deleter ≡ some delete)
            × (delete intent w ≡ (returned value, end))
            × (valid_deletion_result value ≡ some raw)
            × IsSanitized raw r)
  unfolding execute_deletion
  execute_deletion-deleted r h = elim (Option-cases (valid_deletion_intent intent)) [
    | inl bad ↦ ground arith
    | inr (valid, good) ↦ elim (Option-cases deleter) [
      | inl missing ↦ ground arith
      | inr (delete, given) ↦
          let called : (receive (delete intent w).0, (delete intent w).1) ≡ (deleted r, end) =
            rw (good, given, execute_deletion) at h in
          let (value, answered, sane) =
            receive-deleted (delete intent w).0 r (ap (λ o. o.0) called) in
          let (raw, is_result, clean) = sanitize_inverse value r sane in
          ((valid, good), (delete, value, raw, given, ground arith, is_result, clean))
    ]
  ]

  -- A deletion that fails before the deleter is called leaves the world as it is; after a call, the
  -- error is the generic deletion error, or a TypeError whose message says that the deletion result
  -- is invalid, so that no other message of the deleter comes out.
  pub execute_deletion-refused :
      (error : DeletionError)
      → execute_deletion intent deleter w ≡ (refused error, end)
      → ((end ≡ w) × (valid_deletion_intent intent ≡ none) × (error ≡ invalid_intent))
        ⊎ ((end ≡ w) × (deleter ≡ none) × (error ≡ invalid_deleter))
        ⊎ IsVeiled error
  unfolding execute_deletion
  execute_deletion-refused error h = elim (Option-cases (valid_deletion_intent intent)) [
    | inl bad ↦ inl (ground arith, bad, ground arith)
    | inr (valid, good) ↦ elim (Option-cases deleter) [
      | inl missing ↦ inr (inl (ground arith, missing, ground arith))
      | inr (delete, given) ↦ inr (inr (receive-rethrown (delete intent w).0 error (ground arith)))
    ]
  ]
