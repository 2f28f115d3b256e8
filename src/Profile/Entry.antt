-- ===== src/Profile/Entry.antt =====
-- recommendation/profile-store.ts: entries, signals that are ready to be applied, and what a signal
-- does to an entry. A set is the list of its members in insertion order, each once.
use Prim.Native.String
use open_interest_clusters.Prelude.{
  ℕ, ◌+◌, String, Bool, false, not, List, [], ◌∷◌, ◌++◌, Option, none, some, if◌then◌else◌,
  type_error, Result, ok, ◌>>=◌, or_throw,
}
use open_interest_clusters.Prelude.Int.{ℤ, leb_ℤ}
use open_interest_clusters.Prelude.Vocabulary.{Vocabulary, includes}
use open_interest_clusters.Js.Host.{Host}
use open_interest_clusters.Consent.Words.{
  Protocol, protocol_vocabulary, SourceVisibility, source_visibility_vocabulary,
}
use open_interest_clusters.Storage.Authority.{ProcessingBoundary, processing_boundary_vocabulary}
use open_interest_clusters.Signals.Words.{Polarity, positive, negative, neutral, target_kind_name}
use open_interest_clusters.Signals.Signal.{Target, Signal}

-- MutableProfileEntry
pub record Entry (N : Type 0) : Type 0 where
  pub target : Target
  pub score : N
  pub confidence : N
  pub signal_count : ℕ
  pub positive_signal_count : ℕ
  pub negative_signal_count : ℕ
  pub neutral_signal_count : ℕ
  pub privacy_boundaries : List ProcessingBoundary
  pub protocols : List Protocol
  pub source_visibilities : List SourceVisibility
  pub updated_at : String
  pub expires_at : Option String

-- NormalizedTimestamp
pub record Timestamp : Type 0 where
  pub value : String
  pub millis : ℤ

-- PreparedInterestSignal
pub record Prepared (N : Type 0) : Type 0 where
  pub signal : Signal N
  pub key : String
  pub observed_at_millis : ℤ
  pub expires_at_millis : Option ℤ

-- `set.add(a)`
unfoldable pub add : {E : Type 0} ⦃v : Vocabulary E⦄ → E → List E → List E
add a set = if includes set a then set else set ++ a ∷ []

-- targetKey
unfoldable pub target_key : Target → String
target_key t = String.◌++◌ (target_kind_name t.kind) (String.◌++◌ ":" t.key)

-- `signal.polarity === "positive" ? 1 : 0` and its two likes
abbrev pub one_if_positive : Polarity → ℕ
one_if_positive positive = 1
one_if_positive _ = 0

abbrev pub one_if_negative : Polarity → ℕ
one_if_negative negative = 1
one_if_negative _ = 0

abbrev pub one_if_neutral : Polarity → ℕ
one_if_neutral neutral = 1
one_if_neutral _ = 0

module _ (host : Host) where
  -- timestampMillis
  unfoldable pub timestamp_millis : String → Result ℤ
  timestamp_millis value =
      or_throw (host.date_parse value) (type_error "Invalid recommendation profile timestamp.")

  -- maxTimestampWithRightMillis
  unfoldable pub max_timestamp : String → String → ℤ → Result String
  max_timestamp left right right_millis = timestamp_millis left >>= λ left_millis.
      ok (if leb_ℤ right_millis left_millis then left else right)

  -- latestExpiration
  unfoldable pub latest_expiration :
      Option String → Option String → Option ℤ → Result (Option String)
  latest_expiration (some left) (some right) (some right_millis) =
      max_timestamp left right right_millis >>= λ latest. ok (some latest)
  latest_expiration _ _ _ = ok none

  -- isExpiredTimestamp
  unfoldable pub is_expired : Option String → ℤ → Result Bool
  is_expired none now = ok false
  is_expired (some expires_at) now = timestamp_millis expires_at >>= λ millis. ok (leb_ℤ millis now)

  -- clampUnitScore; only NaN is not at most itself
  unfoldable pub clamp_unit_score : host.Number → host.Number
  clamp_unit_score value =
      if not (host.at_most value value)
      then host.zero_number
      else host.larger (host.negate host.one_number) (host.smaller host.one_number value)

  -- signalDelta
  unfoldable pub signal_delta : Polarity → host.Number → host.Number → host.Number
  signal_delta positive strength confidence = host.times strength confidence
  signal_delta negative strength confidence = host.negate (host.times strength confidence)
  signal_delta neutral strength confidence = host.zero_number

  -- `now.millis >= prepared.observedAtMillis ? now.value : signal.evidence.observedAt`
  abbrev pub applied_at : Prepared host.Number → Timestamp → String
  applied_at p now =
      if leb_ℤ p.observed_at_millis now.millis then now.value else p.signal.evidence.observed_at

  -- `Math.max(now.millis, prepared.observedAtMillis)`
  abbrev pub applied_at_millis : Prepared host.Number → Timestamp → ℤ
  applied_at_millis p now =
      if leb_ℤ p.observed_at_millis now.millis then now.millis else p.observed_at_millis

  -- createMutableEntry
  unfoldable pub create_entry : Prepared host.Number → Timestamp → Entry host.Number
  create_entry p now = record {
    target = p.signal.target;
    score = clamp_unit_score (signal_delta p.signal.polarity p.signal.strength p.signal.confidence);
    confidence = p.signal.confidence;
    signal_count = 1;
    positive_signal_count = one_if_positive p.signal.polarity;
    negative_signal_count = one_if_negative p.signal.polarity;
    neutral_signal_count = one_if_neutral p.signal.polarity;
    privacy_boundaries = p.signal.privacy_boundary ∷ [];
    protocols = p.signal.evidence.protocol ∷ [];
    source_visibilities = p.signal.evidence.source_visibility ∷ [];
    updated_at = applied_at p now;
    expires_at = p.signal.expires_at;
  }

  -- The entry that applySignalToEntry leaves, with these times
  abbrev pub merged :
      Entry host.Number → Prepared host.Number → String → Option String → Entry host.Number
  merged e p updated_at expires_at = record {
    target = e.target;
    score =
        clamp_unit_score (
          host.plus e.score (signal_delta p.signal.polarity p.signal.strength p.signal.confidence));
    confidence = host.larger e.confidence p.signal.confidence;
    signal_count = e.signal_count + 1;
    positive_signal_count = e.positive_signal_count + one_if_positive p.signal.polarity;
    negative_signal_count = e.negative_signal_count + one_if_negative p.signal.polarity;
    neutral_signal_count = e.neutral_signal_count + one_if_neutral p.signal.polarity;
    privacy_boundaries = add p.signal.privacy_boundary e.privacy_boundaries;
    protocols = add p.signal.evidence.protocol e.protocols;
    source_visibilities = add p.signal.evidence.source_visibility e.source_visibilities;
    updated_at = updated_at;
    expires_at = expires_at;
  }

  -- applySignalToEntry with updateEntryExpiration, on the copy that cloneMutableEntry made: the
  -- entry that is stored stays as it is, also where this throws.
  unfoldable pub apply_signal :
      Entry host.Number → Prepared host.Number → Timestamp → Result (Entry host.Number)
  apply_signal e p now =
      max_timestamp e.updated_at (applied_at p now) (applied_at_millis p now) >>= λ updated_at.
      latest_expiration e.expires_at p.signal.expires_at p.expires_at_millis >>= λ expires_at.
      ok (merged e p updated_at expires_at)
