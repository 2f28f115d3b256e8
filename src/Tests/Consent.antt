-- ===== src/Tests/Consent.antt =====
-- Runs of recommendation/consent.ts.
use open_interest_clusters.Prelude.{
  ℕ, String, ◌≡◌, refl, List, [], ◌∷◌, Option, none, some, arith, ◌↔◌, ◌≢◌, ◌⊎◌,
}
use open_interest_clusters.Prelude.Vocabulary.{Elem, IsUnique, includes, unique, ◌===◌}
use open_interest_clusters.Js.{Value, str, is_object}
use open_interest_clusters.Js.Narrow.{all_known, known}
use open_interest_clusters.Js.Text.{is_not_blank}
use open_interest_clusters.Consent.Words.{
  DataUse, ranking, analytics, activitypub, public, public_web, allow, deny, DerivedDataTarget,
  derived_data_target_vocabulary, profile, embeddings,
}
use open_interest_clusters.Consent.Request.{
  Policy, Request, valid_policy, valid_request, includes_use, effective_private_data,
}
use open_interest_clusters.Consent.Evaluate.{
  evaluate, evaluate_request, create_evaluation, given_policy_verdict, policy_verdict,
  visibility_allows_access, private_data_verdict,
}
use open_interest_clusters.Consent.Decisions.{
  IsPermitted, evaluate-allow_iff, evaluate-audit, IsAudited, IsReport, IsRedacted,
  evaluate-rename_subject,
}
use open_interest_clusters.Consent.Deletion.{
  spread, mark_for_deletion, create_deletion_intent, DeletionIntent,
}
use open_interest_clusters.Consent.Asked.{AreTargets, IsAsked}
use open_interest_clusters.Consent.Revocation.{
  mark-deny, evaluate_mono, create_deletion_intent_targets,
}
use open_interest_clusters.Tests.Samples.{policy_of, request_of}

abbrev pub policy : Value ℕ
policy = policy_of "did:plc:ann" ("ranking" ∷ [])

abbrev wider_policy : Value ℕ
wider_policy = policy_of "did:plc:ann" ("ranking" ∷ "analytics" ∷ [])

abbrev pub request : Value ℕ
request = request_of "did:plc:ann" "public"

abbrev plain : String → List DataUse → Policy
plain subject uses = record {
  subject_id = subject;
  allowed_data_uses = uses;
  private_data_uses = none;
  third_party_private_data_uses = none;
  server_side_data_uses = none;
  revoked_at = none;
  delete_derived_data_requested_at = none;
}

abbrev asked : String → Request
asked subject = record {
  subject_id = subject;
  data_use = ranking;
  protocol = activitypub;
  source_visibility = public;
  access_basis = public_web;
  contains_private_data = none;
  contains_third_party_data = none;
  server_side_processing = none;
  provider_policy_allows_processing = none;
}

unfoldable pub parsing : Unit {0}
unfolding valid_policy valid_request is_object is_not_blank all_known known
parsing = tt

policy_valid : valid_policy policy ≡ some (plain "did:plc:ann" (ranking ∷ []))
unfolding parsing
policy_valid = refl

wider_policy_valid :
    valid_policy wider_policy ≡ some (plain "did:plc:ann" (ranking ∷ analytics ∷ []))
unfolding parsing
wider_policy_valid = refl

request_valid : valid_request request ≡ some (asked "did:plc:ann")
unfolding parsing
request_valid = refl

-- What a run of the evaluation computes with.
unfoldable pub deciding : Unit {0}
unfolding evaluate parsing evaluate_request create_evaluation given_policy_verdict policy_verdict
    includes_use includes ◌===◌ visibility_allows_access private_data_verdict effective_private_data
deciding = tt

pub request_allowed : (evaluate policy request).decision ≡ allow
unfolding deciding
request_allowed = refl

evaluate-allow_iff_example :
    ((evaluate policy request).decision ≡ allow) ↔ IsPermitted policy request
evaluate-allow_iff_example = evaluate-allow_iff policy request

evaluate-audit_example :
    IsAudited (evaluate policy request)
    × (((r : Request) × (valid_request request ≡ some r)
          × IsReport r (evaluate policy request).event)
        ⊎ ((valid_request request ≡ none) × IsRedacted request (evaluate policy request).event))
evaluate-audit_example = evaluate-audit policy request

evaluate-rename_subject_example :
    evaluate (policy_of "did:plc:bob" ("ranking" ∷ [])) (request_of "did:plc:bob" "public")
    ≡ evaluate policy request
unfolding parsing
evaluate-rename_subject_example =
    evaluate-rename_subject policy request (policy_of "did:plc:bob" ("ranking" ∷ []))
      (request_of "did:plc:bob" "public") (plain "did:plc:ann" (ranking ∷ [])) (asked "did:plc:ann")
      "did:plc:bob" "did:plc:bob" refl refl refl refl refl

evaluate_mono_example : (evaluate wider_policy request).decision ≡ allow
evaluate_mono_example =
    evaluate_mono policy wider_policy request (plain "did:plc:ann" (ranking ∷ []))
      (plain "did:plc:ann" (ranking ∷ analytics ∷ [])) policy_valid wider_policy_valid
      (record {
        subject = refl;
        revoked = refl;
        deleted = refl;
        uses = λ u h. ground arith;
        server_side = λ u h. h;
        private_use = λ u h. h;
        third_party = λ u h. h;
      })
      request_allowed

abbrev text : String → Value ℕ
text s = str s

abbrev marked : Value ℕ
marked = spread policy "deleteDerivedDataRequestedAt" (str "2026-01-01")

mark-deny_example :
    ((p : Policy) × (at : String) × (valid_policy policy ≡ some p)
      × (text "2026-01-01" ≡ text at)
      × (valid_policy marked ≡ some (record p { delete_derived_data_requested_at = some at })))
    × ((r : Value ℕ) → (evaluate marked r).decision ≡ deny)
unfolding mark_for_deletion parsing
mark-deny_example = mark-deny policy (str "2026-01-01") marked refl

abbrev intent : DeletionIntent
intent = record {
  subject_id = "did:plc:ann";
  requested_at = "2026-01-01";
  targets = profile ∷ embeddings ∷ [];
}

abbrev asked_targets : Option (List String)
asked_targets = some ("profile" ∷ "embeddings" ∷ "profile" ∷ [])

create_deletion_intent_targets_example :
    (text "did:plc:ann" ≡ text intent.subject_id)
    × (text "2026-01-01" ≡ text intent.requested_at)
    × (intent.targets ≢ [])
    × IsUnique intent.targets
    × AreTargets asked_targets
    × ((t : DerivedDataTarget) → Elem t intent.targets ↔ IsAsked asked_targets t)
unfolding create_deletion_intent deciding unique
create_deletion_intent_targets_example =
    create_deletion_intent_targets (text "did:plc:ann") (text "2026-01-01") asked_targets intent
      refl
