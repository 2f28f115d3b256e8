-- ===== src/Tests/Sources.antt =====
-- Runs of recommendation/source-adapter.ts and recommendation/consent-gated-source-adapter.ts.
use open_interest_clusters.Prelude.{
  ℕ, suc, true, false, ◌⊎◌, inl, ◌≡◌, refl, List, [], ◌∷◌, none, some, ok, arith,
}
use open_interest_clusters.Js.{Value, undefined, nil, cons, arr, str, num}
use open_interest_clusters.Prelude.Vocabulary.{unique, includes, ◌===◌}
use open_interest_clusters.Js.{is_object}
use open_interest_clusters.Js.Narrow.{known, all_known}
use open_interest_clusters.Js.Text.{is_not_blank, utf16_length, has_unsafe_control_character}
use open_interest_clusters.Consent.Words.{
  ranking, activitypub, public_web, SourceVisibility, deny_default,
}
use open_interest_clusters.Consent.Request.{
  Policy, Request, valid_policy, valid_request, effective_private_data, is_private_visibility,
  includes_use,
}
use open_interest_clusters.Consent.Evaluate.{
  ConsentEvent, evaluate, evaluate_request, given_policy_verdict, policy_verdict,
  visibility_allows_access, private_data_verdict, create_evaluation, create_event,
}
use open_interest_clusters.Consent.Permits.{Permits}
use open_interest_clusters.Enforcement.Gate.{GateError, consent_denied, record_audit_event}
use open_interest_clusters.Signals.Words.{post, TrustBoundary}
use open_interest_clusters.Signals.Signal.{Signal}
use open_interest_clusters.Sources.Timestamp.{
  Moment, parse_timestamp, match_timestamp, four_digits, two_digits, digit, expect, skip_fraction,
  zone, skip_digits, offset, in_range, days_in_month,
}
use open_interest_clusters.Sources.Moment.{IsMoment}
use open_interest_clusters.Sources.TimestampLaws.{
  written, parse_timestamp-IsMoment, parse_timestamp-written,
}
use open_interest_clusters.Sources.Item.{
  Item, ReadRequest, normalize_read_request, valid_read_request, bounded_text, is_bounded_text,
  normalize_result, valid_result, normalize_item, valid_item, valid_context, valid_provenance,
  strict_timestamp, is_timestamp,
}
use open_interest_clusters.Sources.Adapter.{
  Adapter, returned, thrown, refused, no_properties, request_value, item_request, read_adapter,
  valid_adapter, has_unique_capabilities,
}
use open_interest_clusters.Sources.Gated.{
  fail_closed, is_given, GatedInput, GatedResult, denied_item_mode, gated_input, gated_read,
  read_with_consent, evaluate_items, evaluate_item, item_outcome, rejections, collect, settle,
}
use open_interest_clusters.Sources.GatedLaws.{
  IsGated, read_with_consent-IsGated, read_with_consent-no_policy,
}
use open_interest_clusters.Sources.Signal.{source_evidence, signal_input, create_signal_from_source}
use open_interest_clusters.Sources.SignalLaws.{create_signal_from_source-permitted}
use open_interest_clusters.Tests.Samples.{whole_numbers, object, policy_of}
use open_interest_clusters.Tests.Signals.{own_like, own_evidence, normalizing}

abbrev noon : Moment
noon = record {
  year = 2024;
  month = 2;
  day = 29;
  hour = 12;
  minute = 0;
  second = 0;
  offset = some (1, 30);
}

parsing : Unit {0}
unfolding parse_timestamp match_timestamp four_digits two_digits digit expect skip_fraction zone
    skip_digits offset in_range days_in_month
parsing = tt

noon_parses : parse_timestamp "2024-02-29T12:00:00.5-01:30" ≡ some noon
unfolding parsing
noon_parses = refl

parse_timestamp-IsMoment_example : IsMoment noon
parse_timestamp-IsMoment_example =
    parse_timestamp-IsMoment "2024-02-29T12:00:00.5-01:30" noon noon_parses

noon-IsMoment : IsMoment noon
unfolding days_in_month
noon-IsMoment = record {
  year = omega arith;
  month = (omega arith, omega arith);
  day = record {
    first = omega arith;
    most = omega arith;
    short = λ h. omega arith;
    february = λ h. omega arith;
    leap = λ h last. (refl, inl (λ k. omega arith));
  };
  hour = omega arith;
  minute = omega arith;
  second = omega arith;
  leap = λ h. omega arith;
  offset = (omega arith, omega arith);
}

parse_timestamp-written_example : parse_timestamp (written noon) ≡ some noon
parse_timestamp-written_example = parse_timestamp-written noon noon-IsMoment

abbrev post_value : Value ℕ
post_value = object (
    ("kind", str "post")
    ∷ (
      "context",
      object (
          ("protocol", str "activitypub")
          ∷ ("sourceVisibility", str "public")
          ∷ ("accessBasis", str "public_web")
          ∷ []),
    )
    ∷ (
      "provenance",
      object (
          ("adapterId", str "pod")
          ∷ ("sourceSystem", str "pod")
          ∷ ("observedAt", str "2026-01-01T00:00:00Z")
          ∷ ("trustBoundary", str "user_owned")
          ∷ []),
    )
    ∷ [])

abbrev post_item : Item
post_item = record {
  kind = post;
  context = record {
    protocol = activitypub;
    source_visibility = SourceVisibility.public;
    access_basis = public_web;
    contains_private_data = none;
    contains_third_party_data = none;
    server_side_processing = none;
    provider_policy_allows_processing = none;
  };
  provenance = record {
    adapter_id = "pod";
    source_system = "pod";
    observed_at = "2026-01-01T00:00:00Z";
    trust_boundary = TrustBoundary.user_owned;
    opaque_source_id = none;
  };
}

-- An adapter that answers one post, in a world that counts its reads
abbrev pod : Adapter ℕ ℕ
pod = record {
  fields = object (
      ("id", str "pod")
      ∷ ("protocol", str "activitypub")
      ∷ ("capabilities", arr (cons (str "read_public") nil))
      ∷ []);
  read = some (λ r w. (some (object (("items", arr (cons post_value nil)) ∷ [])), suc w));
}

abbrev gated : Value ℕ → GatedInput ℕ ℕ
gated policy = record {
  adapter = pod;
  read_request = object (("subjectId", str "ada") ∷ []);
  data_use = str "ranking";
  policy = policy;
  enforcement_options = none;
  denied_item_mode = undefined;
}

abbrev first_of : GateError → List GateError → GateError
first_of error errors = error

abbrev ada_reads : ReadRequest ℕ
ada_reads = record { subject_id = "ada"; since = none; cursor = none; limit = none }

abbrev one_post : GatedResult
one_post = record {
  items = post_item ∷ [];
  consent_evaluations =
      evaluate (policy_of "ada" ("ranking" ∷ []))
        (request_value (item_request "ada" ranking post_item))
      ∷ [];
  denied_item_count = 0;
  cursor = none;
}

checking : Unit {0}
unfolding gated_input parsing denied_item_mode known normalize_read_request valid_read_request
    is_object bounded_text is_bounded_text is_not_blank utf16_length has_unsafe_control_character
checking = tt

reading : Unit {0}
unfolding read_with_consent checking gated_read read_adapter valid_adapter all_known
    has_unique_capabilities unique includes ◌===◌ normalize_result valid_result normalize_item
    valid_item valid_context valid_provenance strict_timestamp is_timestamp evaluate_items
    evaluate_item item_request record_audit_event item_outcome rejections collect settle evaluate
    valid_request evaluate_request effective_private_data is_private_visibility given_policy_verdict
    valid_policy policy_verdict includes_use visibility_allows_access private_data_verdict
    create_evaluation create_event
reading = tt

input_passes : gated_input whole_numbers (gated undefined) ≡ ok (fail_closed, ranking, ada_reads)
unfolding checking
input_passes = refl

read_runs :
    read_with_consent whole_numbers first_of (gated (policy_of "ada" ("ranking" ∷ []))) 0
    ≡ (returned one_post, 1)
unfolding reading
read_runs = refl

read_with_consent-IsGated_example :
    IsGated whole_numbers (gated (policy_of "ada" ("ranking" ∷ []))) 0 1 one_post
read_with_consent-IsGated_example =
    read_with_consent-IsGated whole_numbers first_of (gated (policy_of "ada" ("ranking" ∷ []))) 0 1
      one_post read_runs

read_with_consent-no_policy_example :
    ((is_given pod.fields ≡ false)
      × (read_with_consent whole_numbers first_of (gated undefined) 0 ≡ (thrown no_properties, 0)))
    ⊎ ((is_given pod.fields ≡ true)
        × (event : ConsentEvent) × (read_with_consent whole_numbers first_of (gated undefined) 0 ≡ (
          thrown (refused (consent_denied deny_default event)),
          (record_audit_event event none 0).1,
        )))
read_with_consent-no_policy_example =
    read_with_consent-no_policy whole_numbers first_of (gated undefined) 0 fail_closed ranking
      ada_reads refl input_passes

-- A like of the user's own, as an item of a source, and a signal that is made from it.
abbrev own_value : Value ℕ
own_value = object (
    ("kind", str "reaction")
    ∷ (
      "context",
      object (
          ("protocol", str "app_local")
          ∷ ("sourceVisibility", str "local_only")
          ∷ ("accessBasis", str "owner")
          ∷ []),
    )
    ∷ (
      "provenance",
      object (
          ("adapterId", str "app")
          ∷ ("sourceSystem", str "app")
          ∷ ("observedAt", str "2026-01-01T00:00:00Z")
          ∷ ("trustBoundary", str "user_owned")
          ∷ []),
    )
    ∷ [])

abbrev like_input : Value ℕ
like_input = object (
    ("source", own_value)
    ∷ ("target", object (("kind", str "hashtag") ∷ ("key", str "birds") ∷ []))
    ∷ ("action", str "like")
    ∷ ("polarity", str "positive")
    ∷ ("strength", num 1)
    ∷ ("confidence", num 1)
    ∷ ("dataUse", str "ranking")
    ∷ [])

abbrev own_policy : Value ℕ
own_policy = object (
    ("subjectId", str "ada")
    ∷ ("allowedDataUses", arr (cons (str "ranking") nil))
    ∷ ("privateDataUses", arr (cons (str "ranking") nil))
    ∷ [])

abbrev own_request : Value ℕ
own_request = object (
    ("subjectId", str "ada")
    ∷ ("dataUse", str "ranking")
    ∷ ("protocol", str "app_local")
    ∷ ("sourceVisibility", str "local_only")
    ∷ ("accessBasis", str "owner")
    ∷ [])

abbrev own_signal : Signal ℕ
own_signal = record own_like {
  evidence = record own_evidence { observed_at = "2026-01-01T00:00:00Z" };
}

signal_made :
    create_signal_from_source whole_numbers like_input (evaluate own_policy own_request)
    ≡ ok own_signal
unfolding create_signal_from_source signal_input source_evidence reading normalizing
signal_made = refl

create_signal_from_source-permitted_example :
    (source : Item) × (p : Policy) × (r : Request) × (normalize_item own_value ≡ ok source)
    × (own_signal.evidence ≡ source_evidence source)
    × (own_signal.consent ≡ (evaluate own_policy own_request).audit_event)
    × (valid_policy own_policy ≡ some p)
    × (valid_request own_request ≡ some r)
    × Permits p r
    × (r.data_use ≡ own_signal.data_use)
    × (r.protocol ≡ source.context.protocol)
    × (r.source_visibility ≡ source.context.source_visibility)
    × (r.access_basis ≡ source.context.access_basis)
create_signal_from_source-permitted_example =
    create_signal_from_source-permitted whole_numbers like_input own_policy own_request own_signal
      signal_made
