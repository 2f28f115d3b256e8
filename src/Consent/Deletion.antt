-- ===== src/Consent/Deletion.antt =====
-- recommendation/consent.ts: marking a policy for deletion, and the intent to delete derived data.
use open_interest_clusters.Prelude.{
  String, Option, none, some, List, [], ◌∷◌, Failure, type_error, Result, ok, throw, ◌>>=◌,
  or_throw,
}
use mathlib.Core.Option
use open_interest_clusters.Prelude.Vocabulary.{member, unique}
use open_interest_clusters.Js.{Value, str, obj, put}
use open_interest_clusters.Js.Narrow.{non_empty_string}
use open_interest_clusters.Consent.Words.{
  DerivedDataTarget, derived_data_targets, derived_data_target_vocabulary,
}
use open_interest_clusters.Consent.Request.{valid_policy}

-- RecommendationDerivedDataDeletionIntent; its scope is the one constant of its type.
pub record DeletionIntent : Type 0 where
  pub subject_id : String
  pub requested_at : String
  pub targets : List DerivedDataTarget

module _ {N : Type 0} where
  -- `{ ...policy, [key]: value }`
  unfoldable pub spread : Value N → String → Value N → Value N
  spread (obj fs) key value = obj (put key value fs)
  spread policy key value = policy

  -- markRecommendationConsentForDeletion. Copies of the arrays equal the arrays, and a valid
  -- policy is an object, so the result is the policy with one property given anew.
  unfoldable pub mark_for_deletion : Value N → Value N → Result (Value N)
  mark_for_deletion policy requested_at = do
    valid ←
        or_throw (valid_policy policy)
          (type_error "Invalid recommendation consent deletion request.")
    at ←
        or_throw (non_empty_string requested_at)
          (type_error "Invalid recommendation consent deletion request.")
    ok (spread policy "deleteDerivedDataRequestedAt" (str at))

abbrev pub invalid_targets : Failure
invalid_targets = type_error "Invalid recommendation derived data deletion targets."

-- `targets.some((target) => !RECOMMENDATION_DERIVED_DATA_TARGETS.includes(target))` is false
abbrev pub known_targets : List String → Option (List DerivedDataTarget)
known_targets [] = some []
known_targets (t ∷ ts) = elim (member t) [
  | none ↦ none
  | some k ↦ Option.map (λ ks. k ∷ ks) (known_targets ts)
]

-- The default is every target. The order of the two steps does not show: the texts are all known
-- with their repeats exactly when they are without.
abbrev pub requested_targets : Option (List String) → Option (List DerivedDataTarget)
requested_targets none = some derived_data_targets
requested_targets (some texts) = known_targets texts

abbrev pub non_empty : {E : Type 0} → List E → Result (List E)
non_empty [] = throw invalid_targets
non_empty (x ∷ xs) = ok (x ∷ xs)

-- createRecommendationDerivedDataDeletionIntent
unfoldable pub create_deletion_intent :
    {N : Type 0} → Value N → Value N → Option (List String) → Result DeletionIntent
create_deletion_intent subject_id requested_at targets = do
  subject ←
      or_throw (non_empty_string subject_id)
        (type_error "Invalid recommendation derived data deletion intent.")
  at ←
      or_throw (non_empty_string requested_at)
        (type_error "Invalid recommendation derived data deletion intent.")
  known ← or_throw (requested_targets targets) invalid_targets
  kept ← non_empty (unique known)
  ok (record { subject_id = subject; requested_at = at; targets = kept })
