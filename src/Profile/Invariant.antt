-- ===== src/Profile/Invariant.antt =====
-- recommendation/profile-store.ts: what holds of every entry, of every profile and of the map of
-- the profiles.
use open_interest_clusters.Prelude.{
  ◌+◌, ◌≤◌, ◌<◌, String, true, ◌≡◌, Option, none, some, every, length, ok,
}
use open_interest_clusters.Prelude.Int.{ℤ}
use open_interest_clusters.Prelude.Vocabulary.{includes}
use open_interest_clusters.Prelude.Dict.{Dict, IsDict}
use open_interest_clusters.Storage.Authority.{processing_boundary_vocabulary}
use open_interest_clusters.Js.Host.{Host}
use open_interest_clusters.Profile.Entry.{Entry, Prepared, Timestamp, target_key, timestamp_millis}
use open_interest_clusters.Profile.Store.{State, Settings}
use open_interest_clusters.Prelude.Each.{IsEach}
use open_interest_clusters.Profile.Totals.{total}

module _ (host : Host) where
  -- The text is a time.
  abbrev pub IsDated : String → Type 0
  IsDated text = (m : ℤ) × (timestamp_millis host text ≡ ok m)

  abbrev pub IsDatedIfAny : Option String → Type 0
  IsDatedIfAny none = Unit
  IsDatedIfAny (some text) = IsDated text

  -- The normalized time has its own milliseconds.
  abbrev pub IsTimestamp : Timestamp → Type 0
  IsTimestamp t = timestamp_millis host t.value ≡ ok t.millis

  -- An entry stands under the key of its target, counts each of its signals once, by polarity, has
  -- one at least, and holds only privacy boundaries that the store allows; its times are times.
  pub record IsEntry (c : Settings) (key : String) (e : Entry host.Number) : Type 0 where
    pub keyed : target_key e.target ≡ key
    pub counted :
        e.signal_count ≡ e.positive_signal_count + e.negative_signal_count + e.neutral_signal_count
    pub used : 0 < e.signal_count
    pub allowed : every (includes c.allowed_privacy_boundaries) e.privacy_boundaries ≡ true
    pub updated : IsDated e.updated_at
    pub expiring : IsDatedIfAny e.expires_at

  -- A profile whose entries may be more than the limit
  pub record IsFilled (c : Settings) (s : State host.Number) : Type 0 where
    pub dict : IsDict s.entries
    pub each : IsEach (IsEntry c) s.entries
    pub summed : s.signal_count ≡ total s.entries
    pub updated : IsDated s.updated_at

  -- A profile has well-formed entries, each under its key, at most as many as the limit, and counts
  -- the signals of its entries.
  pub record IsProfile (c : Settings) (s : State host.Number) : Type 0 where
    pub filled : IsFilled c s
    pub bounded : length s.entries ≤ c.max_entries

  pub record IsStore (c : Settings) (profiles : Dict (State host.Number)) : Type 0 where
    pub dict : IsDict profiles
    pub each : IsEach (λ subject s. IsProfile c s) profiles

  -- A signal that is ready: its key, its boundary and its times have been checked.
  pub record IsPrepared (c : Settings) (p : Prepared host.Number) : Type 0 where
    pub keyed : target_key p.signal.target ≡ p.key
    pub allowed : includes c.allowed_privacy_boundaries p.signal.privacy_boundary ≡ true
    pub observed : IsDated p.signal.evidence.observed_at
    pub expiring : IsDatedIfAny p.signal.expires_at
