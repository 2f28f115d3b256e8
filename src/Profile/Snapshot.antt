-- ===== src/Profile/Snapshot.antt =====
-- recommendation/profile-store.ts: snapshots, and what ingestSignals and createSnapshot return on a
-- well-formed profile.
use open_interest_clusters.Prelude.{
  ◌+◌, ◌≤◌, String, ◌≡◌, refl, sym, ◌∙◌, arith, List, ◌↔◌, map, some, true, length, leb, All, ok,
}
use open_interest_clusters.Prelude.Sort.{sort, length-sort}
use open_interest_clusters.Prelude.Dict.{Dict, IsDict, lookup}
use open_interest_clusters.Js.Host.{Host}
use open_interest_clusters.Profile.Entry.{Entry, Timestamp, Prepared}
use open_interest_clusters.Profile.Store.{
  State, Snapshot, Settings, trim_entries, snapshot_of, clone_entry, record_first, sort_records,
  prune_expired,
}
use open_interest_clusters.Profile.Operations.{ingest_state, read_state}
use open_interest_clusters.Prelude.Each.{IsEach-of_lookups}
use open_interest_clusters.Profile.Totals.{total}
use open_interest_clusters.Prelude.Cut.{lookup-sort, sort-IsDict}
use open_interest_clusters.Profile.Trim.{total-sort}
use open_interest_clusters.Profile.Dropped.{
  trimmed, trimmed-IsProfile, lookup-trimmed, lookup-trimmed_before, trimmed-IsDict, total-trimmed,
}
use open_interest_clusters.Profile.Invariant.{IsTimestamp, IsProfile, IsPrepared}
use open_interest_clusters.Profile.Prune.{
  IsLive, IsUnexpired, IsLive-iff, prune_expired-IsPrunedState, prune_expired-live,
}
use open_interest_clusters.Profile.Ingest.{ingest_all_prepared-IsFilled}

module _ (host : Host) where
  -- The entries of the profile have not expired at this time.
  abbrev pub IsCurrent : Timestamp → State host.Number → Type 0
  IsCurrent now s =
      (key : String) (e : Entry host.Number)
      → lookup key s.entries ≡ some e
      → IsLive host now.millis e

  -- The snapshot shows these records of the profile, which are all that it stores.
  pub record Shows (s : State host.Number) (p : Snapshot host.Number) : Type 0 where
    pub records : Dict (Entry host.Number)
    pub shown : p ≡ snapshot_of s records
    pub complete : (key : String) → lookup key records ≡ lookup key s.entries
    pub once : IsDict records
    pub summed : p.signal_count ≡ total records
    pub entries : p.entries ≡ map (λ (r : String × Entry host.Number). clone_entry r.1) records
    pub updated : p.updated_at ≡ s.updated_at

  -- An ingest of signals that are ready, with its new profile and its snapshot
  pub record IsIngested (c : Settings) (now : Timestamp) (ps : List (Prepared host.Number))
      (s s' : State host.Number) (p : Snapshot host.Number) : Type 0 where
    pub ran : ingest_state host c now ps s ≡ ok (s', p)
    pub profile : IsProfile host c s'
    pub current : IsCurrent now s'
    pub shows : Shows s' p

  pub ingest_state-IsIngested :
      (c : Settings) (now : Timestamp) (ps : List (Prepared host.Number)) (s : State host.Number)
      → IsProfile host c s
      → All (IsPrepared host c) ps
      → IsTimestamp host now
      → (s' : State host.Number) × (p : Snapshot host.Number) × IsIngested c now ps s s' p
  unfolding ingest_state snapshot_of trim_entries
  ingest_state-IsIngested c now ps s h ready timed =
      let (m, ran, filled, grown) =
        ingest_all_prepared-IsFilled host c now ps s h.filled ready timed in
      let (n, pruned) = prune_expired-IsPrunedState host c now m filled timed in
      (
        (trimmed host c n).0,
        snapshot_of (trimmed host c n).0 (trimmed host c n).1,
        record {
          ran = rw (ingest_state, ran, pruned.ran) refl;
          profile = trimmed-IsProfile host c n pruned.filled;
          current = λ key e found.
              ((pruned.kept key e).0 (lookup-trimmed_before host c n key e pruned.filled found)).1;
          shows = record {
            records = (trimmed host c n).1;
            shown = refl;
            entries = refl;
            updated = refl;
            complete = λ key. lookup-trimmed host c n key pruned.filled;
            once = trimmed-IsDict host c n pruned.filled;
            summed =
                (trimmed-IsProfile host c n pruned.filled).filled.summed
                ∙ sym (total-trimmed host c n pruned.filled);
          };
        },
      )

  -- What readProfile makes of a profile: it keeps the entries that have no expiry or one after the
  -- time of the read, as they are, and drops the others.
  pub record Answers (c : Settings) (now : Timestamp) (s s' : State host.Number)
      (p : Snapshot host.Number) : Type 0 where
    pub ran : read_state host now s ≡ (ok p, s')
    pub profile : IsProfile host c s'
    pub current : IsCurrent now s'
    pub kept :
        (key : String) (e : Entry host.Number)
        → (lookup key s'.entries ≡ some e)
          ↔ ((lookup key s.entries ≡ some e) × IsUnexpired host now.millis e)
    pub shows : Shows s' p

  pub read_state-Answers :
      (c : Settings) (now : Timestamp) (s : State host.Number)
      → IsProfile host c s
      → IsTimestamp host now
      → (s' : State host.Number) × (p : Snapshot host.Number) × Answers c now s s' p
  unfolding read_state sort_records snapshot_of sort
  read_state-Answers c now s h timed =
      let (s', pruned) = prune_expired-IsPrunedState host c now s h.filled timed in
      (
        s',
        snapshot_of s' (sort_records host s'.entries),
        record {
          ran = rw (read_state, pruned.ran) refl;
          profile = record {
            filled = pruned.filled;
            bounded = omega (arith, pruned.shorter, h.bounded);
          };
          current = λ key e found. ((pruned.kept key e).0 found).1;
          kept = λ key e. ground (arith, pruned.kept key e, IsLive-iff host now.millis e);
          shows = record {
            records = sort_records host s'.entries;
            shown = refl;
            entries = refl;
            updated = refl;
            complete = λ key. lookup-sort (record_first host) key s'.entries pruned.filled.dict;
            once = sort-IsDict (record_first host) s'.entries pruned.filled.dict;
            summed = omega (arith, pruned.filled.summed, total-sort (record_first host) s'.entries);
          };
        },
      )

  -- The snapshot of all entries, as readProfile makes it
  abbrev pub whole : State host.Number → Snapshot host.Number
  whole s = snapshot_of s (sort_records host s.entries)

  -- An ingest after which no entry is past the limit returns what a read at its time does.
  pub ingest_state-fits :
      (c : Settings) (now : Timestamp) (ps : List (Prepared host.Number)) (s : State host.Number)
      → IsProfile host c s
      → All (IsPrepared host c) ps
      → IsTimestamp host now
      → length s.entries + length ps ≤ c.max_entries
      → (s' : State host.Number) × (ingest_state host c now ps s ≡ ok (s', whole s'))
        × (read_state host now s' ≡ (ok (whole s'), s'))
  unfolding ingest_state read_state trim_entries sort_records
  ingest_state-fits c now ps s h ready timed fits =
      let (m, ran, filled, grown) =
        ingest_all_prepared-IsFilled host c now ps s h.filled ready timed in
      let (n, pruned) = prune_expired-IsPrunedState host c now m filled timed in
      let few : leb (length (sort (record_first host) n.entries)) c.max_entries ≡ true =
        ground (arith, length-sort (record_first host) n.entries, pruned.shorter, grown) in
      let live : prune_expired host now n ≡ (ok tt, n) = prune_expired-live host now n (
        IsEach-of_lookups (λ key e. IsLive host now.millis e) n.entries pruned.filled.dict
          (λ key e found. ((pruned.kept key e).0 found).1)) in
      (n, rw (ingest_state, ran, pruned.ran, few) refl, rw (read_state, live) refl)
