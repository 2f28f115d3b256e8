-- ===== src/Profile/Operations.antt =====
-- recommendation/profile-store.ts: createInMemoryRecommendationProfileStore. The profiles are a map
-- from subjects; an operation that throws returns the profiles too.
use open_interest_clusters.Prelude.{
  ℕ, suc, String, Bool, false, ◌&&◌, not, ◌==◌, List, [], ◌∷◌, Option, none, some, leb, length, any,
  if◌then◌else◌, type_error, Result, ok, throw, ◌>>=◌, ◌>>◌, or_throw, ensure, nat_eq,
}
use open_interest_clusters.Prelude.Int.{ℤ, pos, leb_ℤ}
use open_interest_clusters.Prelude.Dict.{Dict, lookup, insert, delete, is_some}
use open_interest_clusters.Prelude.Vocabulary.{includes}
use open_interest_clusters.Js.{Value, Items, str, arr, items, get, is_object}
use open_interest_clusters.Js.Host.{Host}
use open_interest_clusters.Js.Narrow.{all_known, non_empty_string}
use open_interest_clusters.Storage.Authority.{
  ProcessingBoundary, local_only, processing_boundary_vocabulary,
}
use open_interest_clusters.Signals.Signal.{valid_signal, normalize_signal}
use open_interest_clusters.Profile.Entry.{Timestamp, Prepared, target_key, timestamp_millis}
use open_interest_clusters.Profile.Store.{
  State, Snapshot, IngestResult, Settings, empty_state, empty_snapshot, trim_entries, snapshot_of,
  valid_subject_id, normalize_now, sort_records, prune_expired, ingest_all_prepared,
}

-- PreparedSignalBatch
pub record Batch (N : Type 0) : Type 0 where
  pub accepted : List (Prepared N)
  pub skipped : ℕ

module _ (host : Host) where
  -- normalizeMaxEntries; an integer that is not safe is above the bound
  unfoldable pub normalize_max_entries : Option host.Number → Result ℕ
  normalize_max_entries none = ok 10000
  normalize_max_entries (some value) = elim (host.safe_integer value) [
    | some (pos n) ↦
        if leb 1 n && leb n 100000
        then ok n
        else throw (type_error "Invalid recommendation profile max entries.")
    | _ ↦ throw (type_error "Invalid recommendation profile max entries.")
  ]

  -- normalizeAllowedPrivacyBoundaries
  unfoldable pub normalize_boundaries :
      Option (Items host.Number) → Result (List ProcessingBoundary)
  normalize_boundaries none = ok (local_only ∷ [])
  normalize_boundaries (some values) =
      or_throw (all_known values)
        (type_error "Invalid recommendation profile privacy boundary configuration.")
      >>= λ boundaries.
          ensure (not (nat_eq (length boundaries) 0))
            (type_error "Invalid recommendation profile privacy boundary configuration.")
          >> ok boundaries

  -- createInMemoryRecommendationProfileStore: the constants that its operations share
  unfoldable pub create_settings : Option host.Number → Option (Items host.Number) → Result Settings
  create_settings max boundaries = normalize_max_entries max >>= λ max_entries.
      normalize_boundaries boundaries >>= λ allowed.
      ok (record { max_entries = max_entries; allowed_privacy_boundaries = allowed })

  -- The expiry of a signal in milliseconds
  abbrev pub optional_millis : Option String → Result (Option ℤ)
  optional_millis none = ok none
  optional_millis (some text) = timestamp_millis host text >>= λ millis. ok (some millis)

  -- `expiresAtMillis !== undefined && expiresAtMillis <= now.millis`
  abbrev pub has_passed : Option ℤ → ℤ → Bool
  has_passed none now = false
  has_passed (some millis) now = leb_ℤ millis now

  -- The body of the loop of prepareSignalBatch: `none` for a signal that has expired.
  unfoldable pub prepare_signal :
      Settings → Timestamp → Value host.Number → Result (Option (Prepared host.Number))
  prepare_signal c now raw =
      ensure (is_some (valid_signal host raw))
        (type_error "Invalid recommendation profile interest signal.")
      >> normalize_signal host raw
      >>= λ signal.
          ensure (includes c.allowed_privacy_boundaries signal.privacy_boundary)
            (type_error "Recommendation profile signal privacy boundary is not allowed.")
          >> timestamp_millis host signal.evidence.observed_at
          >>= λ observed. optional_millis signal.expires_at >>= λ expires. ok (
              if has_passed expires now.millis
              then none
              else some (record {
                signal = signal;
                key = target_key signal.target;
                observed_at_millis = observed;
                expires_at_millis = expires;
              }))

  abbrev pub add_prepared : Option (Prepared host.Number) → Batch host.Number → Batch host.Number
  add_prepared none b = record b { skipped = suc b.skipped }
  add_prepared (some p) b = record b { accepted = p ∷ b.accepted }

  -- prepareSignalBatch
  unfoldable pub prepare_batch :
      Settings → Timestamp → List (Value host.Number) → Result (Batch host.Number)
  prepare_batch c now [] = ok (record { accepted = []; skipped = 0 })
  prepare_batch c now (raw ∷ raws) =
      prepare_signal c now raw >>= λ p. prepare_batch c now raws >>= λ b. ok (add_prepared p b)

  -- The state that ingestSignals starts from.
  abbrev pub state_or_empty : Option (State host.Number) → Timestamp → State host.Number
  state_or_empty none now = empty_state now.value
  state_or_empty (some s) now = s

  -- ingestSignals on the copy of a state: the new state and its snapshot
  unfoldable pub ingest_state :
      Settings
      → Timestamp
      → List (Prepared host.Number)
      → State host.Number
      → Result (State host.Number × Snapshot host.Number)
  ingest_state c now accepted s = ingest_all_prepared host now accepted s >>= λ filled.
      (prune_expired host now filled).0 >>= λ _.
      (let pruned = (prune_expired host now filled).1 in
        let (kept, records) =
          trim_entries (sort_records host pruned.entries) c.max_entries pruned in
        ok (kept, snapshot_of kept records))

  -- `Array.isArray(input.signals)`
  abbrev pub signal_list : Value host.Number → Result (List (Value host.Number))
  signal_list (arr signals) = ok (items signals)
  signal_list _ = throw (type_error "Invalid recommendation profile signal ingest input.")

  -- The checks of the input of ingestSignals: the subject, the time and the signals
  unfoldable pub ingest_input :
      Value host.Number
      → Option String
      → String
      → Result (String × Timestamp × List (Value host.Number))
  ingest_input input now clock =
      ensure (is_object input && is_some (non_empty_string (get input "subjectId")))
        (type_error "Invalid recommendation profile signal ingest input.")
      >> signal_list (get input "signals")
      >>= λ signals. valid_subject_id host (get input "subjectId") >>= λ subject_id.
          normalize_now host now clock >>= λ time. ok (subject_id, time, signals)

  -- ingestSignals; `now` is the field of the input that has no check at run time
  unfoldable pub ingest_signals :
      Settings
      → Value host.Number
      → Option String
      → String
      → Dict (State host.Number)
      → Result (IngestResult host.Number) × Dict (State host.Number)
  ingest_signals c input now clock profiles = elim (ingest_input input now clock) [
    | throw failure ↦ (throw failure, profiles)
    | ok (subject_id, time, signals) ↦ elim (prepare_batch c time signals) [
      | throw failure ↦ (throw failure, profiles)
      | ok batch ↦
          elim (ingest_state c time batch.accepted
            (state_or_empty (lookup subject_id profiles) time)) [
              | throw failure ↦ (throw failure, profiles)
              | ok (s, profile) ↦ (
                ok (record {
                  accepted_signal_count = length batch.accepted;
                  skipped_expired_signal_count = batch.skipped;
                  profile = profile;
                }),
                insert subject_id s profiles,
              )
            ]
    ]
  ]

  -- createSnapshot of a stored state, which it prunes
  unfoldable pub read_state :
      Timestamp → State host.Number → Result (Snapshot host.Number) × State host.Number
  read_state now s =
      let (pruned, s') = prune_expired host now s in
      (pruned >>= λ _. ok (snapshot_of s' (sort_records host s'.entries)), s')

  -- The checks of readProfile: the subject and the time
  unfoldable pub read_input : Value host.Number → String → Result (String × Timestamp)
  read_input subject_id clock = valid_subject_id host subject_id >>= λ subject_id'.
      normalize_now host none clock >>= λ now. ok (subject_id', now)

  -- readProfile
  unfoldable pub read_profile :
      Value host.Number
      → String
      → Dict (State host.Number)
      → Result (Snapshot host.Number) × Dict (State host.Number)
  read_profile subject_id clock profiles = elim (read_input subject_id clock) [
    | throw failure ↦ (throw failure, profiles)
    | ok (id, now) ↦ elim (lookup id profiles) [
      | none ↦ (ok (empty_snapshot now.value), profiles)
      | some s ↦ ((read_state now s).0, insert id (read_state now s).1 profiles)
    ]
  ]

  -- `value === text`
  abbrev pub is_text : Value host.Number → String → Bool
  is_text (str s) text = s == text
  is_text _ text = false

  abbrev pub includes_text : Value host.Number → String → Bool
  includes_text (arr values) text = any (λ v. is_text v text) (items values)
  includes_text _ text = false

  -- The condition of deleteProfile
  unfoldable pub is_deletion_intent : Value host.Number → Bool
  is_deletion_intent intent =
      is_object intent
      && is_some (non_empty_string (get intent "subjectId"))
      && is_text (get intent "scope") "recommendation_derived_data"
      && includes_text (get intent "targets") "profile"

  -- The checks of the intent of deleteProfile
  unfoldable pub delete_input :
      Value host.Number → Option String → String → Result (String × Timestamp)
  delete_input intent requested_at clock =
      ensure (is_deletion_intent intent)
        (type_error "Invalid recommendation profile deletion intent.")
      >> valid_subject_id host (get intent "subjectId")
      >>= λ subject_id. normalize_now host requested_at clock >>= λ now. ok (subject_id, now)

  -- deleteProfile; `requested_at` is the field of the intent that has no check at run time
  unfoldable pub delete_profile :
      Value host.Number
      → Option String
      → String
      → Dict (State host.Number)
      → Result (Snapshot host.Number) × Dict (State host.Number)
  delete_profile intent requested_at clock profiles =
      elim (delete_input intent requested_at clock) [
        | throw failure ↦ (throw failure, profiles)
        | ok (subject_id, now) ↦ (ok (empty_snapshot now.value), delete subject_id profiles)
      ]
