-- ===== src/Tests/Signals.antt =====
-- Runs of recommendation/public-signal-policy.ts and recommendation/interest-signal.ts.
use open_interest_clusters.Prelude.{ℕ, ◌≡◌, ◌⊎◌, ◌↔◌, refl, true, false, [], ◌∷◌, none, ok}
use open_interest_clusters.Prelude.Vocabulary.{◌===◌}
use open_interest_clusters.Js.{Value, bool, num, str, is_object}
use open_interest_clusters.Js.Narrow.{known}
use open_interest_clusters.Js.Text.{is_not_blank, utf16_length, has_ascii_control_character}
use open_interest_clusters.Consent.Words.{
  ranking, app_local, owner, SourceVisibility, allow, allow_explicit,
}
use open_interest_clusters.Consent.Evaluate.{ConsentEvent}
use open_interest_clusters.Storage.Authority.{
  StorageAuthority, device_owned, ProcessingBoundary, infer_legacy_authority,
}
use open_interest_clusters.Signals.Words.{hashtag, like, positive, reaction, TrustBoundary}
use open_interest_clusters.Signals.Policy.{
  Evidence, PolicyInput, PolicyEvaluation, affinity, filtering, allow_local_owner, signal_effect,
  resolved_storage_authority, evaluate_signal_policy, require_signal_policy, signal_verdict,
  is_explicit_public, is_atproto_public_repository, is_local_owner_evidence,
}
use open_interest_clusters.Signals.PolicyLaws.{
  Admissible, IsLocalOwner, IsOwnPod, evaluate_signal_policy-allow_iff,
  require_signal_policy-private,
}
use open_interest_clusters.Signals.Signal.{
  Signal, policy_input, is_unit_number, valid_target, valid_evidence, valid_consent_event,
  valid_signal, normalize_signal,
}
use open_interest_clusters.Signals.TargetKey.{is_safe_key}
use open_interest_clusters.Signals.Laws.{IsValidSignal, normalize_signal-IsValidSignal}
use open_interest_clusters.Ledger.Event.{signal_value}
use open_interest_clusters.Ledger.Again.{normalize_signal_idem}
use open_interest_clusters.Tests.Samples.{whole_numbers, object}

-- A like of the user's own, kept on the device.
abbrev pub own_consent : ConsentEvent
own_consent = record {
  decision = allow;
  reason = allow_explicit;
  data_use = ranking;
  protocol = app_local;
  source_visibility = SourceVisibility.local_only;
  access_basis = owner;
  contains_private_data = true;
  contains_third_party_data = false;
  server_side_processing = false;
}

abbrev pub own_evidence : Evidence
own_evidence = record {
  source_item_kind = reaction;
  protocol = app_local;
  source_visibility = SourceVisibility.local_only;
  access_basis = owner;
  trust_boundary = TrustBoundary.user_owned;
  observed_at = "2026-01-01";
}

abbrev pub own_like : Signal ℕ
own_like = record {
  target = record { kind = hashtag; key = "birds" };
  action = like;
  polarity = positive;
  strength = 1;
  confidence = 1;
  data_use = ranking;
  privacy_boundary = ProcessingBoundary.local_only;
  evidence = own_evidence;
  consent = own_consent;
  expires_at = none;
}

abbrev like_input : PolicyInput ℕ
like_input = policy_input whole_numbers own_like

abbrev like_evaluation : PolicyEvaluation
like_evaluation = record {
  decision = allow;
  reason = allow_local_owner;
  effect = affinity;
  storage_authority = device_owned;
}

abbrev pub written_like : Value ℕ
written_like = object (
    ("target", object (("kind", str "hashtag") ∷ ("key", str "birds") ∷ []))
    ∷ ("action", str "like")
    ∷ ("polarity", str "positive")
    ∷ ("strength", num 1)
    ∷ ("confidence", num 1)
    ∷ ("dataUse", str "ranking")
    ∷ (
      "evidence",
      object (
          ("sourceItemKind", str "reaction")
          ∷ ("protocol", str "app_local")
          ∷ ("sourceVisibility", str "local_only")
          ∷ ("accessBasis", str "owner")
          ∷ ("trustBoundary", str "user_owned")
          ∷ ("observedAt", str "2026-01-01")
          ∷ []),
    )
    ∷ (
      "consent",
      object (
          ("decision", str "allow")
          ∷ ("reason", str "consent.allow.explicit")
          ∷ ("dataUse", str "ranking")
          ∷ ("protocol", str "app_local")
          ∷ ("sourceVisibility", str "local_only")
          ∷ ("accessBasis", str "owner")
          ∷ ("containsPrivateData", bool true)
          ∷ ("containsThirdPartyData", bool false)
          ∷ ("serverSideProcessing", bool false)
          ∷ []),
    )
    ∷ [])

-- What the runs compute with.
unfoldable requiring : Unit {0}
unfolding require_signal_policy evaluate_signal_policy resolved_storage_authority signal_verdict
    is_explicit_public is_atproto_public_repository is_local_owner_evidence infer_legacy_authority
    signal_effect
requiring = tt

unfoldable pub normalizing : Unit {0}
unfolding requiring normalize_signal is_object valid_signal valid_target known is_safe_key
    is_not_blank utf16_length has_ascii_control_character is_unit_number valid_evidence
    valid_consent_event ◌===◌
normalizing = tt

evaluate_signal_policy-allow_iff_example :
    (e : PolicyEvaluation) × (evaluate_signal_policy like_input ≡ ok e)
    × (e.effect ≡ signal_effect like_input)
    × (e.storage_authority ≡ device_owned)
    × ((e.decision ≡ allow) ↔ Admissible like_input (signal_effect like_input) device_owned)
unfolding requiring
evaluate_signal_policy-allow_iff_example =
    evaluate_signal_policy-allow_iff like_input device_owned refl

require_signal_policy-private_example :
    ((device_owned ≡ device_owned) ⊎ (device_owned ≡ StorageAuthority.user_owned))
    × ((affinity ≡ filtering)
        ⊎ IsLocalOwner like_input device_owned
        ⊎ IsOwnPod like_input device_owned)
unfolding requiring
require_signal_policy-private_example =
    require_signal_policy-private like_input like_evaluation refl refl

normalize_signal-IsValidSignal_example :
    IsValidSignal whole_numbers own_like
    × ((e : PolicyEvaluation) × (require_signal_policy (policy_input whole_numbers own_like) ≡ ok e)
        × Admissible (policy_input whole_numbers own_like) e.effect e.storage_authority)
unfolding normalizing
normalize_signal-IsValidSignal_example =
    normalize_signal-IsValidSignal whole_numbers written_like own_like refl

normalize_signal_idem_example : normalize_signal whole_numbers (signal_value own_like) ≡ ok own_like
unfolding normalizing
normalize_signal_idem_example = normalize_signal_idem whole_numbers written_like own_like refl
