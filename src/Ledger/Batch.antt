-- ===== src/Ledger/Batch.antt =====
-- recommendation/signal-ledger.ts: creating a ledger, ingesting a batch, and reading the ledger.
use Prim.Native.Nat.{Ordering}
use open_interest_clusters.Prelude.{
  ℕ, ◌+◌, String, Bool, true, false, ◌&&◌, List, [], ◌∷◌, none, some, leb, length, map,
  if◌then◌else◌, type_error, Result, ok, throw, ◌>>=◌, ◌>>◌, ensure,
}
use open_interest_clusters.Prelude.Int.{ℤ, pos, ltb_ℤ}
use open_interest_clusters.Prelude.Sort.{sort}
use open_interest_clusters.Prelude.Dict.{values}
use open_interest_clusters.Js.{Value, undefined, num, arr, items, get, is_plain_record}
use open_interest_clusters.Js.Host.{Host}
use open_interest_clusters.Signals.Signal.{Signal}
use open_interest_clusters.Ledger.Event.{RetractionReason, bounded_string, timestamp}
use open_interest_clusters.Ledger.State.{
  LedgerDecision, applied, retracted, duplicate, suppressed_by_retraction, IngestResult,
  ActiveEntry, Tombstone, Ledger, Settings, ingest,
}

-- RecommendationSignalLedgerBatchResult
pub record BatchResult : Type 0 where
  pub results : List IngestResult
  pub applied_count : ℕ
  pub retracted_count : ℕ
  pub duplicate_count : ℕ
  pub suppressed_count : ℕ
  pub active_signal_count : ℕ
  pub tombstone_count : ℕ

abbrev pub is_applied : LedgerDecision → Bool
is_applied applied = true
is_applied _ = false

abbrev pub is_retracted : LedgerDecision → Bool
is_retracted retracted = true
is_retracted _ = false

abbrev pub is_duplicate : LedgerDecision → Bool
is_duplicate duplicate = true
is_duplicate _ = false

abbrev pub is_suppressed : LedgerDecision → Bool
is_suppressed suppressed_by_retraction = true
is_suppressed _ = false

-- A counter of the loop, once it has passed over the results.
unfoldable pub count : (LedgerDecision → Bool) → List IngestResult → ℕ
count is_kind [] = 0
count is_kind (r ∷ rs) = (if is_kind r.decision then 1 else 0) + count is_kind rs

-- What listActiveSignals returns of an entry (cloneActive), and of a tombstone (cloneTombstone).
pub record ActiveView (N : Type 0) : Type 0 where
  pub source_event_key : String
  pub operation_key : String
  pub occurred_at : String
  pub signal : Signal N

abbrev pub clone_active : {N : Type 0} → ActiveEntry N → ActiveView N
clone_active e = record {
  source_event_key = e.source_event_key;
  operation_key = e.operation_key;
  occurred_at = e.occurred_at;
  signal = e.signal;
}

-- RecommendationSignalLedgerTombstone
pub record TombstoneView : Type 0 where
  pub source_event_key : String
  pub operation_key : String
  pub occurred_at : String
  pub reason : RetractionReason

abbrev pub clone_tombstone : Tombstone → TombstoneView
clone_tombstone t = record {
  source_event_key = t.source_event_key;
  operation_key = t.operation_key;
  occurred_at = t.occurred_at;
  reason = t.reason;
}

-- RecommendationSignalLedgerSnapshot
pub record Snapshot (N : Type 0) : Type 0 where
  pub active_signals : List (ActiveView N)
  pub tombstones : List TombstoneView
  pub operation_count : ℕ

module _ (host : Host) where
  -- positiveInteger; the bounds are 1 and MAX_OPERATIONS
  unfoldable pub positive_integer : Value host.Number → ℕ → Result ℕ
  positive_integer undefined fallback = ok fallback
  positive_integer (num n) fallback = elim (host.safe_integer n) [
    | some (pos k) ↦
        if leb 1 k && leb k 1000000
        then ok k
        else throw (type_error "Invalid recommendation signal ledger operation limit.")
    | _ ↦ throw (type_error "Invalid recommendation signal ledger operation limit.")
  ]
  positive_integer _ fallback =
      throw (type_error "Invalid recommendation signal ledger operation limit.")

  -- `value === undefined ? fallback : boundedString(value, max, message)`
  abbrev pub optional_bounded : Value host.Number → String → ℕ → String → Result String
  optional_bounded undefined fallback max message = ok fallback
  optional_bounded value fallback max message = bounded_string value max message

  -- createInMemoryRecommendationSignalLedger: the constants that its operations share
  unfoldable pub create_settings : Value host.Number → Result Settings
  create_settings options = do
    ensure (is_plain_record options) (type_error "Invalid recommendation signal ledger options.")
    namespace ←
        optional_bounded (get options "namespace") "recommendation-signal-ledger.v1" 128
          "Invalid recommendation signal ledger namespace."
    salt ← optional_bounded (get options "salt") "" 512 "Invalid recommendation signal ledger salt."
    max_operations ← positive_integer (get options "maxOperations") 100000
    ok (record { namespace = namespace; salt = salt; max_operations = max_operations })

  -- The loop of ingestBatch: the results so far or the error, and the ledger that it leaves.
  unfoldable pub ingest_all :
      Settings
      → List (Value host.Number)
      → Ledger host.Number
      → Result (List IngestResult) × Ledger host.Number
  ingest_all c [] l = (ok [], l)
  ingest_all c (event ∷ events) l = elim (ingest host c event l) [
    | throw failure ↦ (throw failure, l)
    | ok (result, l') ↦
        let (results, end) = ingest_all c events l' in (results >>= λ rs. ok (result ∷ rs), end)
  ]

  abbrev pub batch_result : Ledger host.Number → List IngestResult → BatchResult
  batch_result l results = record {
    results = results;
    applied_count = count is_applied results;
    retracted_count = count is_retracted results;
    duplicate_count = count is_duplicate results;
    suppressed_count = count is_suppressed results;
    active_signal_count = length l.active;
    tombstone_count = length l.tombstones;
  }

  -- ingestBatch: an event that throws ends it, with the earlier events ingested.
  unfoldable pub ingest_batch :
      Settings → Value host.Number → Ledger host.Number → Result BatchResult × Ledger host.Number
  ingest_batch c (arr vs) l =
      let (results, end) = ingest_all c (items vs) l in
      (results >>= λ rs. ok (batch_result end rs), end)
  ingest_batch c events l =
      (throw (type_error "Invalid recommendation signal ledger event batch."), l)

  -- `entry.signal.expiresAt === undefined || Date.parse(entry.signal.expiresAt) > nowMillis`
  unfoldable pub is_live : ℤ → ActiveEntry host.Number → Bool
  is_live now e = elim e.signal.expires_at [
    | none ↦ true
    | some text ↦ elim (host.date_parse text) [ none ↦ false | some millis ↦ ltb_ℤ now millis ]
  ]

  unfoldable pub live : ℤ → List (ActiveEntry host.Number) → List (ActiveEntry host.Number)
  live now [] = []
  live now (e ∷ es) = let rest = live now es in if is_live now e then e ∷ rest else rest

  -- The comparator of the two sorts is at most 0: by the time, then by the key.
  unfoldable pub in_order : ℤ → String → ℤ → String → Bool
  in_order millis key other_millis other_key =
      if ltb_ℤ millis other_millis
      then true
      else if ltb_ℤ other_millis millis
      then false
      else elim (host.locale_compare key other_key) [ Ordering.gt ↦ false | _ ↦ true ]

  unfoldable pub comes_first : ActiveEntry host.Number → ActiveEntry host.Number → Bool
  comes_first a b =
      in_order a.occurred_at_millis a.source_event_key b.occurred_at_millis b.source_event_key

  -- The time of the read: `clock` is `Date.now()`.
  abbrev pub read_time : ℤ → Value host.Number → Result ℤ
  read_time clock undefined = ok clock
  read_time clock value =
      timestamp host value "Invalid recommendation signal ledger read timestamp." >>= λ t. ok t.1

  -- listActiveSignals
  unfoldable pub list_active_signals :
      ℤ → Value host.Number → Ledger host.Number → Result (List (ActiveView host.Number))
  list_active_signals clock options l = do
    ensure (is_plain_record options)
        (type_error "Invalid recommendation signal ledger read options.")
    now ← read_time clock (get options "now")
    ok (map clone_active (sort comes_first (live now (values l.active))))

  unfoldable pub tombstone_first : Tombstone → Tombstone → Bool
  tombstone_first a b =
      in_order a.occurred_at_millis a.source_event_key b.occurred_at_millis b.source_event_key

  -- snapshot
  unfoldable pub snapshot :
      ℤ → Value host.Number → Ledger host.Number → Result (Snapshot host.Number)
  snapshot clock options l = do
    active ← list_active_signals clock options l
    ok (record {
      active_signals = active;
      tombstones = map clone_tombstone (sort tombstone_first (values l.tombstones));
      operation_count = length l.operations;
    })
