-- ===== src/Tests/Profile.antt =====
-- Runs of recommendation/profile-store.ts.
use open_interest_clusters.Prelude.{
  ℕ, ◌+◌, ◌≤◌, String, ◌≡◌, ◌≢◌, refl, true, false, ◌==◌, List, [], ◌∷◌, none, length, Result, ok,
  throw, arith, ap, eq_iff,
}
use open_interest_clusters.Prelude.Int.{pos}
use open_interest_clusters.Prelude.Dict.{Dict, lookup}
use open_interest_clusters.Prelude.Vocabulary.{includes}
use open_interest_clusters.Js.{is_object, Value, Items, nil, cons, arr, str}
use open_interest_clusters.Js.Text.{utf16_length, has_ascii_control_character, is_not_blank}
use open_interest_clusters.Storage.Authority.{ProcessingBoundary}
use open_interest_clusters.Ledger.Event.{signal_value}
use open_interest_clusters.Profile.Entry.{Timestamp, Prepared, target_key, timestamp_millis}
use open_interest_clusters.Profile.Store.{
  State, Settings, IngestResult, valid_subject_id, normalize_now, empty_snapshot,
}
use open_interest_clusters.Profile.Operations.{
  Batch, prepare_signal, prepare_batch, state_or_empty, ingest_input, ingest_signals, read_input,
  read_profile, is_deletion_intent, delete_input, delete_profile,
}
use open_interest_clusters.Profile.Invariant.{IsStore}
use open_interest_clusters.Profile.Laws.{Ingests, ingest_signals-Ingests}
use open_interest_clusters.Profile.Reads.{
  Reads, read_profile-Reads, read_profile-ingest_signals, read_profile-delete_profile,
}
use open_interest_clusters.Profile.Runs.{
  Call, ingests, reads, deletes, after, after_all, after_all-IsStore, empty-IsStore,
}
use open_interest_clusters.Profile.Apart.{lookup-after_other}
use open_interest_clusters.Tests.Samples.{whole_numbers, object}
use open_interest_clusters.Tests.Signals.{own_like, normalizing}

abbrev profile_settings : Settings
profile_settings = record {
  max_entries = 2;
  allowed_privacy_boundaries = ProcessingBoundary.local_only ∷ [];
}

-- Two likes of the same target
abbrev likes : Items ℕ
likes = cons (signal_value own_like) (cons (signal_value own_like) nil)

abbrev ingest_likes : Value ℕ
ingest_likes = object (("subjectId", str "ada") ∷ ("signals", arr likes) ∷ [])

abbrev forget_ada : Value ℕ
forget_ada = object (
    ("subjectId", str "ada")
    ∷ ("scope", str "recommendation_derived_data")
    ∷ ("targets", arr (cons (str "profile") nil))
    ∷ [])

abbrev second_day : Timestamp
second_day = record { value = "2026-01-02"; millis = pos 2 }

abbrev calls : List (Call whole_numbers)
calls =
    ingests ingest_likes none "2026-01-02"
    ∷ ingests (str "no input") none "2026-01-02"
    ∷ reads (str "ada") "2026-01-03"
    ∷ deletes forget_ada none "no time"
    ∷ []

after_all-IsStore_example :
    IsStore whole_numbers profile_settings (after_all whole_numbers profile_settings calls [])
after_all-IsStore_example =
    after_all-IsStore whole_numbers profile_settings calls []
      (empty-IsStore whole_numbers profile_settings)

abbrev ready : Prepared ℕ
ready = record {
  signal = own_like;
  key = "hashtag:birds";
  observed_at_millis = pos 1;
  expires_at_millis = none;
}

abbrev two_likes : Batch ℕ
two_likes = record { accepted = ready ∷ ready ∷ []; skipped = 0 }

abbrev raw_likes : List (Value ℕ)
raw_likes = signal_value own_like ∷ signal_value own_like ∷ []

input_passes :
    ingest_input whole_numbers ingest_likes none "2026-01-02" ≡ ok ("ada", second_day, raw_likes)
unfolding ingest_input is_object valid_subject_id normalize_now timestamp_millis is_not_blank
    utf16_length has_ascii_control_character
input_passes = refl

batch_passes : prepare_batch whole_numbers profile_settings second_day raw_likes ≡ ok two_likes
unfolding prepare_batch prepare_signal timestamp_millis includes normalizing signal_value target_key
batch_passes = refl

ingest_signals-Ingests_example :
    Ingests whole_numbers profile_settings "ada" second_day two_likes []
      (ingest_signals whole_numbers profile_settings ingest_likes none "2026-01-02" [])
    × (length two_likes.accepted + two_likes.skipped ≡ length raw_likes)
ingest_signals-Ingests_example =
    ingest_signals-Ingests whole_numbers profile_settings ingest_likes none "2026-01-02" [] "ada"
      second_day raw_likes two_likes (empty-IsStore whole_numbers profile_settings) input_passes
      batch_passes

abbrev one_profile : Dict (State ℕ)
one_profile =
    after_all whole_numbers profile_settings (ingests ingest_likes none "2026-01-02" ∷ []) []

one_profile-IsStore : IsStore whole_numbers profile_settings one_profile
one_profile-IsStore =
    after_all-IsStore whole_numbers profile_settings (ingests ingest_likes none "2026-01-02" ∷ [])
      [] (empty-IsStore whole_numbers profile_settings)

read_passes : read_input whole_numbers (str "ada") "2026-01-02" ≡ ok ("ada", second_day)
unfolding read_input valid_subject_id normalize_now timestamp_millis is_not_blank utf16_length
    has_ascii_control_character
read_passes = refl

read_profile-Reads_example :
    Reads whole_numbers profile_settings "ada" second_day one_profile
      (read_profile whole_numbers (str "ada") "2026-01-02" one_profile)
read_profile-Reads_example =
    read_profile-Reads whole_numbers profile_settings (str "ada") "2026-01-02" one_profile "ada"
      second_day one_profile-IsStore read_passes

two_fit :
    length (state_or_empty whole_numbers (lookup "ada" []) second_day).entries
      + length two_likes.accepted
    ≤ profile_settings.max_entries
unfolding lookup
two_fit = omega arith

read_profile-ingest_signals_example :
    (r : IngestResult ℕ) × (profiles : Dict (State ℕ)) × (ingest_signals whole_numbers
        profile_settings ingest_likes none "2026-01-02" []
      ≡ (ok r, profiles))
    × (read_profile whole_numbers (str "ada") "2026-01-02" profiles ≡ (ok r.profile, profiles))
read_profile-ingest_signals_example =
    read_profile-ingest_signals whole_numbers profile_settings ingest_likes (str "ada") none
      "2026-01-02" "2026-01-02" [] "ada" second_day raw_likes two_likes
      (empty-IsStore whole_numbers profile_settings) input_passes batch_passes two_fit read_passes

delete_passes : delete_input whole_numbers forget_ada none "2026-01-02" ≡ ok ("ada", second_day)
unfolding delete_input is_deletion_intent is_object is_not_blank valid_subject_id utf16_length
    has_ascii_control_character normalize_now timestamp_millis
delete_passes = refl

read_profile-delete_profile_example :
    ((read_profile whole_numbers
        (str "ada")
        "2026-01-02"
        (delete_profile whole_numbers forget_ada none "2026-01-02" one_profile).1).0
      ≡ ok (empty_snapshot "2026-01-02"))
    × ((other : String)
        → ("ada" == other) ≡ false
        → lookup other (delete_profile whole_numbers forget_ada none "2026-01-02" one_profile).1
          ≡ lookup other one_profile)
read_profile-delete_profile_example =
    read_profile-delete_profile whole_numbers profile_settings forget_ada (str "ada") none
      "2026-01-02" "2026-01-02" one_profile "ada" second_day second_day one_profile-IsStore
      delete_passes read_passes

text_or_empty : Result String → String
text_or_empty (ok text) = text
text_or_empty (throw failure) = ""

other_subject : valid_subject_id whole_numbers (str "ada") ≢ ok "bob"
unfolding text_or_empty valid_subject_id is_not_blank utf16_length has_ascii_control_character
other_subject h =
    let same : "ada" ≡ "bob" = ap text_or_empty h in
    let equal : ("ada" == "bob") ≡ true = (eq_iff "ada" "bob").1 same in ground arith

lookup-after_other_example :
    lookup "bob"
      (after whole_numbers profile_settings (deletes forget_ada none "2026-01-02") one_profile)
    ≡ lookup "bob" one_profile
lookup-after_other_example =
    lookup-after_other whole_numbers profile_settings (deletes forget_ada none "2026-01-02") "bob"
      one_profile one_profile-IsStore other_subject
