-- ===== src/Profile/Store.antt =====
-- recommendation/profile-store.ts: the store's operations. An ingest works on a copy of the
-- profile, which is stored at its end; a read prunes the stored profile in place.
use Prim.Native.Nat.{Ordering}
use open_interest_clusters.Prelude.{
  ℕ, ◌+◌, ◌-◌, String, Bool, true, false, ◌&&◌, not, List, [], ◌∷◌, Option, none, some, ltb, leb,
  length, take, drop, map, if◌then◌else◌, type_error, Result, ok, throw, ◌>>=◌, ◌>>◌, or_throw,
  ensure,
}
use open_interest_clusters.Prelude.Int.{ℤ}
use open_interest_clusters.Prelude.Sort.{sort}
use open_interest_clusters.Prelude.Dict.{Dict, lookup, insert, delete}
use open_interest_clusters.Js.{Value}
use open_interest_clusters.Js.Host.{Host}
use open_interest_clusters.Js.Json.{text_at_most}
use open_interest_clusters.Js.Narrow.{non_empty_string}
use open_interest_clusters.Js.Text.{utf16_length, has_ascii_control_character}
use open_interest_clusters.Consent.Words.{protocol_name, source_visibility_name}
use open_interest_clusters.Storage.Authority.{
  ProcessingBoundary, processing_boundary_name, processing_boundary_vocabulary,
}
use open_interest_clusters.Signals.Words.{target_kind_name}
use open_interest_clusters.Signals.Signal.{Target}
use open_interest_clusters.Profile.Entry.{
  Entry, Timestamp, Prepared, timestamp_millis, max_timestamp, is_expired, create_entry,
  apply_signal,
}

-- MutableProfileState
pub record State (N : Type 0) : Type 0 where
  pub updated_at : String
  pub signal_count : ℕ
  pub entries : Dict (Entry N)

-- RecommendationProfileSnapshot; its schema version is the one constant of its type. An entry of a
-- snapshot is the stored entry with its sets sorted.
pub record Snapshot (N : Type 0) : Type 0 where
  pub updated_at : String
  pub signal_count : ℕ
  pub entries : List (Entry N)

-- RecommendationProfileSignalIngestResult
pub record IngestResult (N : Type 0) : Type 0 where
  pub accepted_signal_count : ℕ
  pub skipped_expired_signal_count : ℕ
  pub profile : Snapshot N

-- The constants that a store is created with.
pub record Settings : Type 0 where
  pub max_entries : ℕ
  pub allowed_privacy_boundaries : List ProcessingBoundary

-- createEmptyState
abbrev pub empty_state : {N : Type 0} → String → State N
empty_state updated_at = record { updated_at = updated_at; signal_count = 0; entries = [] }

-- createEmptySnapshot
abbrev pub empty_snapshot : {N : Type 0} → String → Snapshot N
empty_snapshot updated_at = record { updated_at = updated_at; signal_count = 0; entries = [] }

-- freezeSortedSet
unfoldable pub sorted_set : {E : Type 0} → (E → String) → List E → List E
sorted_set name set = sort (λ a b. text_at_most (name a) (name b)) set

-- cloneEntry
unfoldable pub clone_entry : {N : Type 0} → Entry N → Entry N
clone_entry e = record e {
  privacy_boundaries = sorted_set processing_boundary_name e.privacy_boundaries;
  protocols = sorted_set protocol_name e.protocols;
  source_visibilities = sorted_set source_visibility_name e.source_visibilities;
}

-- trimSortedEntries, the loop over the records past the limit; the difference is at least 0
unfoldable pub drop_records : {N : Type 0} → List (String × Entry N) → State N → State N
drop_records [] s = s
drop_records ((key, e) ∷ records) s =
    drop_records records
      (record s { signal_count = s.signal_count - e.signal_count; entries = delete key s.entries })

-- trimSortedEntries: the state, and the entries that are kept
unfoldable pub trim_entries :
    {N : Type 0} → List (String × Entry N) → ℕ → State N → State N × List (String × Entry N)
trim_entries records max s =
    if leb (length records) max
    then (s, records)
    else (drop_records (drop max records) s, take max records)

-- createSnapshotFromSortedEntries
unfoldable pub snapshot_of : {N : Type 0} → State N → List (String × Entry N) → Snapshot N
snapshot_of {N = N} s records = record {
  updated_at = s.updated_at;
  signal_count = s.signal_count;
  entries = map (λ (r : String × Entry N). clone_entry r.1) records;
}

module _ (host : Host) where
  -- assertValidSubjectId
  unfoldable pub valid_subject_id : Value host.Number → Result String
  valid_subject_id value =
      or_throw (non_empty_string value) (type_error "Invalid recommendation profile subject id.")
      >>= λ subject_id.
          ensure (leb (utf16_length subject_id) 512 && not (has_ascii_control_character subject_id))
            (type_error "Invalid recommendation profile subject id.")
          >> ok subject_id

  -- normalizeNow; `clock` is what the provider of the time returns
  unfoldable pub normalize_now : Option String → String → Result Timestamp
  normalize_now none clock =
      timestamp_millis host clock >>= λ millis. ok (record { value = clock; millis = millis })
  normalize_now (some value) clock =
      timestamp_millis host value >>= λ millis. ok (record { value = value; millis = millis })

  -- compareTargets is at most 0
  unfoldable pub target_first : Target → Target → Bool
  target_first a b =
      elim (host.locale_compare (target_kind_name a.kind) (target_kind_name b.kind)) [
        | Ordering.lt ↦ true
        | Ordering.gt ↦ false
        | Ordering.eq ↦ elim (host.locale_compare a.key b.key) [ Ordering.gt ↦ false | _ ↦ true ]
      ]

  -- compareProfileEntries is at most 0: the difference of two numbers has the sign of their order,
  -- and is 0 or NaN where neither is the smaller one.
  unfoldable pub record_first : String × Entry host.Number → String × Entry host.Number → Bool
  record_first a b =
      let left = host.magnitude a.1.score in
      let right = host.magnitude b.1.score in
      if host.at_most right left && not (host.at_most left right)
      then true
      else if host.at_most left right && not (host.at_most right left)
      then false
      else target_first a.1.target b.1.target

  -- sortEntryRecords
  unfoldable pub sort_records : Dict (Entry host.Number) → List (String × Entry host.Number)
  sort_records entries = sort record_first entries

  -- The loop of pruneExpiredEntries: the number of signals that it removed, or the error that ends
  -- it, and the entries that it leaves.
  unfoldable pub prune_entries : ℤ → Dict (Entry host.Number) → Result ℕ × Dict (Entry host.Number)
  prune_entries now [] = (ok 0, [])
  prune_entries now ((key, e) ∷ rest) =
      let (removed, left) = prune_entries now rest in
      elim (is_expired host e.expires_at now) [
        | throw failure ↦ (throw failure, (key, e) ∷ rest)
        | ok true ↦ (removed >>= λ n. ok (e.signal_count + n), left)
        | ok false ↦ (removed, (key, e) ∷ left)
      ]

  -- pruneExpiredEntries, past its loop; the difference is at least 0
  unfoldable pub prune_count :
      Timestamp → ℕ → State host.Number → Result (Unit {0}) × State host.Number
  prune_count now removed s =
      if ltb 0 removed
      then elim (max_timestamp host s.updated_at now.value now.millis) [
        | throw failure ↦ (throw failure, record s { signal_count = s.signal_count - removed })
        | ok updated_at ↦
            (ok tt, record s { signal_count = s.signal_count - removed; updated_at = updated_at })
      ]
      else (ok tt, s)

  -- pruneExpiredEntries
  unfoldable pub prune_expired :
      Timestamp → State host.Number → Result (Unit {0}) × State host.Number
  prune_expired now s =
      let (removed, left) = prune_entries now.millis s.entries in
      let s' : State host.Number = record s { entries = left } in
      elim removed [ throw failure ↦ (throw failure, s') | ok n ↦ prune_count now n s' ]

  -- The entry that the body of the loop of ingestSignals leaves under the key of a signal
  unfoldable pub next_entry :
      Timestamp → State host.Number → Prepared host.Number → Result (Entry host.Number)
  next_entry now s p = elim (lookup p.key s.entries) [
    | none ↦ ok (create_entry host p now)
    | some existing ↦ apply_signal host existing p now
  ]

  -- The body of the loop of ingestSignals
  unfoldable pub ingest_prepared :
      Timestamp → State host.Number → Prepared host.Number → Result (State host.Number)
  ingest_prepared now s p = next_entry now s p >>= λ entry.
      max_timestamp host s.updated_at now.value now.millis >>= λ updated_at. ok (record {
        updated_at = updated_at;
        signal_count = s.signal_count + 1;
        entries = insert p.key entry s.entries;
      })

  -- The loop of ingestSignals
  unfoldable pub ingest_all_prepared :
      Timestamp → List (Prepared host.Number) → State host.Number → Result (State host.Number)
  ingest_all_prepared now [] s = ok s
  ingest_all_prepared now (p ∷ ps) s =
      ingest_prepared now s p >>= λ s'. ingest_all_prepared now ps s'
