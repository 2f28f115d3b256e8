-- ===== src/Tests/Storage.antt =====
-- Runs of recommendation/state-placement-policy.ts.
use open_interest_clusters.Prelude.{ℕ, ◌≡◌, ◌↔◌, refl, true, false, [], ◌∷◌, ok, map, All}
use open_interest_clusters.Prelude.Vocabulary.{includes, unique, ◌===◌}
use open_interest_clusters.Js.{Value, bool, str, arr, is_plain_record}
use open_interest_clusters.Js.Narrow.{all_known, known}
use open_interest_clusters.Js.Text.{is_not_blank, trim, utf16_length, has_unsafe_control_character}
use open_interest_clusters.Consent.Words.{allow}
use open_interest_clusters.Storage.Authority.{device_owned, local_only}
use open_interest_clusters.Storage.Placement.{
  ManifestEvaluation, interest_profile, bandit_state, state_domain_vocabulary, persistent, Manifest,
  Placement, is_adapter_id, are_domains, validate_adapter_id, normalize_manifest,
}
use open_interest_clusters.Storage.Evaluate.{
  manifest_value, evaluate_placement, evaluate_manifest, assert_manifest,
}
use open_interest_clusters.Storage.Laws.{normalize_manifest_idem}
use open_interest_clusters.Storage.Contract.{
  MayHold, evaluate_placement-allow_iff, evaluate_manifest-allow_iff, assert_manifest_iff,
}
use open_interest_clusters.Tests.Samples.{object, texts}

abbrev manifest : Manifest
manifest = record {
  adapter_id = "indexeddb";
  domains = interest_profile ∷ bandit_state ∷ [];
  authority = device_owned;
  processing_boundary = local_only;
  persistence = persistent;
  requires_network = false;
  supports_offline = true;
  user_exportable = true;
  user_deletable = true;
  encrypted_at_rest = true;
}

-- The manifest as it is written, with a property that is no part of it.
abbrev written : Value ℕ
written = object (
    ("adapterId", str "indexeddb")
    ∷ ("comment", str "local")
    ∷ ("domains", arr (texts ("interest_profile" ∷ "bandit_state" ∷ [])))
    ∷ ("authority", str "device_owned")
    ∷ ("processingBoundary", str "local_only")
    ∷ ("persistence", str "persistent")
    ∷ ("requiresNetwork", bool false)
    ∷ ("supportsOffline", bool true)
    ∷ ("userExportable", bool true)
    ∷ ("userDeletable", bool true)
    ∷ ("encryptedAtRest", bool true)
    ∷ [])

written_is_manifest : normalize_manifest written ≡ ok manifest
unfolding normalize_manifest validate_adapter_id is_adapter_id are_domains is_plain_record all_known
    known unique includes ◌===◌ is_not_blank trim utf16_length has_unsafe_control_character
written_is_manifest = refl

normalize_manifest_idem_example : normalize_manifest (manifest_value {N = ℕ} manifest) ≡ ok manifest
normalize_manifest_idem_example = normalize_manifest_idem written manifest written_is_manifest

evaluate_placement-allow_iff_example :
    (p : Placement) × (evaluate_placement written (str "bandit_state") ≡ ok p)
    × (p.domain ≡ bandit_state)
    × ((p.decision ≡ allow) ↔ MayHold manifest bandit_state)
unfolding includes ◌===◌
evaluate_placement-allow_iff_example =
    evaluate_placement-allow_iff written manifest bandit_state written_is_manifest refl

evaluate_manifest-allow_iff_example :
    (e : ManifestEvaluation) × (evaluate_manifest written ≡ ok e)
    × (e.adapter_id ≡ manifest.adapter_id)
    × (map (λ (p : Placement). p.domain) e.evaluations ≡ manifest.domains)
    × ((e.decision ≡ allow) ↔ All (MayHold manifest) manifest.domains)
evaluate_manifest-allow_iff_example =
    evaluate_manifest-allow_iff written manifest written_is_manifest

assert_manifest_iff_example :
    (assert_manifest written ≡ ok manifest)
    ↔ ((normalize_manifest written ≡ ok manifest) × All (MayHold manifest) manifest.domains)
assert_manifest_iff_example = assert_manifest_iff written manifest
