-- ===== src/Sources/GatedInput.antt =====
-- recommendation/consent-gated-source-adapter.ts: the input that a gated read has checked, and the
-- request it asks the policy before it reads.
use open_interest_clusters.Prelude.{
  ℕ, ◌≡◌, refl, arith, String, true, false, Option, none, some, ◌⊎◌, inl, inr, Failure, ok,
  or_throw, >>=-eq-ok,
}
use open_interest_clusters.Js.{Value, undefined, null, str, is_object, get}
use open_interest_clusters.Js.Host.{Host}
use open_interest_clusters.Js.Narrow.{known, >>=-eq-some, guard}
use open_interest_clusters.Js.Text.{is_not_blank}
use open_interest_clusters.Consent.Words.{
  DataUse, data_use_vocabulary, Protocol, protocol_vocabulary, deny_default,
}
use open_interest_clusters.Consent.Request.{Request}
use open_interest_clusters.Consent.Evaluate.{
  evaluate, evaluate_request, given_policy_verdict, create_evaluation, create_event,
  is_unknown_protocol,
}
use open_interest_clusters.Sources.Item.{
  ReadRequest, is_bounded_text, bounded_text, valid_read_request, normalize_read_request,
  max_identifier_length, max_cursor_length, optional, strict_timestamp, positive_integer,
}
use open_interest_clusters.Sources.Adapter.{request_value}
use open_interest_clusters.Sources.Gated.{
  DeniedItemMode, GatedInput, is_given, gated_input, preflight_protocol, preflight_request,
  preflight_of, protocol_or_local, denied_item_mode,
}
use open_interest_clusters.Sources.Laws.{valid_request-value}

known_or_local : (p : Option Protocol) → is_unknown_protocol (protocol_or_local p) ≡ false
known_or_local p = ground arith

-- A preflight request is made of every adapter but null and undefined, and its protocol is known.
pub preflight_request-known :
    {N : Type 0} (subject_id : String) (data_use : DataUse) (fields : Value N)
    → ((is_given fields ≡ false) × (preflight_request subject_id data_use fields ≡ none))
      ⊎ ((is_given fields ≡ true)
          × (r : Request) × (preflight_request subject_id data_use fields ≡ some r)
          × (r.subject_id ≡ subject_id)
          × (is_unknown_protocol r.protocol ≡ false))
unfolding preflight_request preflight_protocol
preflight_request-known subject_id data_use undefined = inl (refl, refl)
preflight_request-known subject_id data_use null = inl (refl, refl)
preflight_request-known subject_id data_use fields = inr (
  refl,
  preflight_of subject_id data_use (protocol_or_local (known (get fields "protocol"))),
  refl,
  refl,
  known_or_local (known (get fields "protocol")),
)

-- Without a policy a request that has a subject and a known protocol is denied by default.
pub denied_by_default :
    {N : Type 0} (policy : Value N) (r : Request)
    → is_given policy ≡ false
    → is_not_blank r.subject_id ≡ true
    → is_unknown_protocol r.protocol ≡ false
    → (evaluate policy (request_value r)).reason ≡ deny_default
unfolding evaluate evaluate_request given_policy_verdict create_evaluation create_event
denied_by_default {N = N} undefined r h named known_protocol =
    rw (evaluate, valid_request-value N r named, known_protocol) refl
denied_by_default {N = N} null r h named known_protocol =
    rw (evaluate, valid_request-value N r named, known_protocol) refl
denied_by_default policy r h named known_protocol = ground arith

module _ (host : Host) where
  bounded_text-not_blank :
      (max : ℕ) (value : Value host.Number) (s : String)
      → bounded_text max value ≡ some s
      → is_not_blank s ≡ true
  unfolding bounded_text is_bounded_text
  bounded_text-not_blank max (str t) s h = ground arith
  bounded_text-not_blank max _ s h = ground arith

  subject-not_blank :
      (value : Value host.Number) (r : ReadRequest host.Number)
      → valid_read_request host value ≡ some r
      → is_not_blank r.subject_id ≡ true
  unfolding valid_read_request
  subject-not_blank value r h =
      let (u, is, h1) = >>=-eq-some (guard (is_object value)) _ h in
      let (subject, named, h2) =
        >>=-eq-some (bounded_text max_identifier_length (get value "subjectId")) _ h1 in
      let (since, h3', h3) = >>=-eq-some (optional strict_timestamp (get value "since")) _ h2 in
      let (cursor, h4', h4) =
        >>=-eq-some (optional (bounded_text max_cursor_length) (get value "cursor")) _ h3 in
      let (limit, h5', h5) =
        >>=-eq-some (optional (positive_integer host) (get value "limit")) _ h4 in
      let same : subject ≡ r.subject_id = ground arith in
      rw (← same)
        (bounded_text-not_blank max_identifier_length (get value "subjectId") subject named)

  or_throw-ok :
      {T : Type 0} (o : Option T) (f : Failure) (value : T)
      → or_throw o f ≡ ok value
      → o ≡ some value
  or_throw-ok none f value h = ground arith
  or_throw-ok (some a) f value h = ground arith

  pub gated_input-subject :
      {W : Type 0} (input : GatedInput host.Number W) (mode : DeniedItemMode) (data_use : DataUse)
      (safe : ReadRequest host.Number)
      → gated_input host input ≡ ok (mode, data_use, safe)
      → is_not_blank safe.subject_id ≡ true
  unfolding gated_input normalize_read_request
  gated_input-subject input mode data_use safe h =
      let (m, modal, h1) = >>=-eq-ok (or_throw (denied_item_mode input.denied_item_mode) _) _ h in
      let (u, used, h2) = >>=-eq-ok (or_throw (known {E = DataUse} input.data_use) _) _ h1 in
      let (r, requested, h3) = >>=-eq-ok (normalize_read_request host input.read_request) _ h2 in
      let same : r ≡ safe = ground arith in
      rw same at (
        subject-not_blank input.read_request r
          (or_throw-ok (valid_read_request host input.read_request) _ r requested))

  pub gated_input-mode :
      {W : Type 0} (input : GatedInput host.Number W) (mode : DeniedItemMode) (data_use : DataUse)
      (safe : ReadRequest host.Number)
      → gated_input host input ≡ ok (mode, data_use, safe)
      → denied_item_mode input.denied_item_mode ≡ some mode
  unfolding gated_input
  gated_input-mode input mode data_use safe h =
      let (m, modal, h1) = >>=-eq-ok (or_throw (denied_item_mode input.denied_item_mode) _) _ h in
      let (u, used, h2) = >>=-eq-ok (or_throw (known {E = DataUse} input.data_use) _) _ h1 in
      let (r, requested, h3) = >>=-eq-ok (normalize_read_request host input.read_request) _ h2 in
      let same : m ≡ mode = ground arith in
      rw same at (or_throw-ok (denied_item_mode input.denied_item_mode) _ m modal)
