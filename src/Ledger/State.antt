-- ===== src/Ledger/State.antt =====
-- recommendation/signal-ledger.ts: the ledger's maps and its operations. An operation throws before
-- it writes, so a thrown error leaves the ledger as it was.
use Prim.Native.Nat.{Ordering}
use Prim.Native.String
use open_interest_clusters.Prelude.{
  ℕ, String, Bool, true, false, ◌==◌, [], Option, none, some, leb, length, if◌then◌else◌,
  type_error, range_error, Result, ok, throw, ◌>>=◌,
}
use open_interest_clusters.Prelude.Int.{ℤ, ltb_ℤ}
use open_interest_clusters.Prelude.Dict.{Dict, lookup, has, insert, delete}
use open_interest_clusters.Js.{Value}
use open_interest_clusters.Js.Host.{Host}
use open_interest_clusters.Runtime.Hash.{sha256_hex}
use open_interest_clusters.Signals.Signal.{Signal}
use open_interest_clusters.Ledger.Event.{
  RetractionReason, Event, applies, retracts, normalize_event, digest_of,
}

-- RecommendationSignalLedgerDecision
pub data LedgerDecision : Type 0 where
  applied retracted duplicate suppressed_by_retraction : LedgerDecision

-- RecommendationSignalLedgerIngestResult
pub record IngestResult : Type 0 where
  pub decision : LedgerDecision
  pub operation_key : String
  pub source_event_key : String
  pub active_signal_count : ℕ
  pub tombstone_count : ℕ

-- StoredOperation
pub record StoredOperation : Type 0 where
  pub digest : String
  pub result : IngestResult

-- StoredActiveEntry
pub record ActiveEntry (N : Type 0) : Type 0 where
  pub source_event_key : String
  pub operation_key : String
  pub occurred_at : String
  pub occurred_at_millis : ℤ
  pub signal : Signal N

-- StoredTombstone
pub record Tombstone : Type 0 where
  pub source_event_key : String
  pub operation_key : String
  pub occurred_at : String
  pub occurred_at_millis : ℤ
  pub reason : RetractionReason

-- The three maps of createInMemoryRecommendationSignalLedger.
pub record Ledger (N : Type 0) : Type 0 where
  pub operations : Dict StoredOperation
  pub active : Dict (ActiveEntry N)
  pub tombstones : Dict Tombstone

-- The constants that a ledger is created with.
pub record Settings : Type 0 where
  pub namespace : String
  pub salt : String
  pub max_operations : ℕ

-- `${namespace}\u0000${salt}\u0000${kind}\u0000${id}`
abbrev key_material : Settings → String → String → String
key_material c kind id = String.◌++◌ c.namespace (
    String.◌++◌ "\0"
      (String.◌++◌ c.salt (String.◌++◌ "\0" (String.◌++◌ kind (String.◌++◌ "\0" id)))))

-- keyForOperation
unfoldable pub key_for_operation : Settings → String → String
key_for_operation c operation_id =
    String.◌++◌ "signal-operation:" (sha256_hex (key_material c "operation" operation_id))

-- keyForSourceEvent
unfoldable pub key_for_source_event : Settings → String → String
key_for_source_event c source_event_id =
    String.◌++◌ "signal-source-event:" (sha256_hex (key_material c "source" source_event_id))

module _ {N : Type 0} where
  -- A result with the counts of `counts()`.
  unfoldable pub counted : Ledger N → LedgerDecision → String → String → IngestResult
  counted l decision operation_key source_event_key = record {
    decision = decision;
    operation_key = operation_key;
    source_event_key = source_event_key;
    active_signal_count = length l.active;
    tombstone_count = length l.tombstones;
  }

  -- `operations.set(operationKey, { digest, result })`
  unfoldable pub stored : Ledger N → String → IngestResult → IngestResult × Ledger N
  stored l digest result = (
    result,
    record l {
      operations =
          insert result.operation_key (record { digest = digest; result = result }) l.operations;
    },
  )

  -- The branch of an apply event; `target` is the key of its source event.
  unfoldable pub ingest_apply :
      Event N → Signal N → String → String → Ledger N → Result (IngestResult × Ledger N)
  ingest_apply e signal operation_key target l =
      if has target l.tombstones
      then ok (counted l suppressed_by_retraction operation_key target, l)
      else if has target l.active
      then throw (type_error "Conflicting recommendation signal ledger source event ID.")
      else let l' : Ledger N = record l {
        active =
            insert target
              (record {
                source_event_key = target;
                operation_key = operation_key;
                occurred_at = e.occurred_at;
                occurred_at_millis = e.occurred_at_millis;
                signal = signal;
              })
              l.active;
      } in
        ok (counted l' applied operation_key target, l')

module _ (host : Host) where
  -- shouldReplaceTombstone
  unfoldable pub should_replace_tombstone : Option Tombstone → ℤ → String → Bool
  should_replace_tombstone none millis operation_key = true
  should_replace_tombstone (some existing) millis operation_key =
      if ltb_ℤ millis existing.occurred_at_millis
      then false
      else if ltb_ℤ existing.occurred_at_millis millis
      then true
      else elim (host.locale_compare operation_key existing.operation_key) [
        | Ordering.gt ↦ true
        | _ ↦ false
      ]

  -- The branch of a retract event; `target` is the key of the source event that it retracts.
  unfoldable pub ingest_retract :
      Event host.Number
      → RetractionReason
      → String
      → String
      → Ledger host.Number
      → IngestResult × Ledger host.Number
  ingest_retract e reason operation_key target l =
      let tombstone : Tombstone = record {
        source_event_key = target;
        operation_key = operation_key;
        occurred_at = e.occurred_at;
        occurred_at_millis = e.occurred_at_millis;
        reason = reason;
      } in
      let replaces =
        should_replace_tombstone (lookup target l.tombstones) e.occurred_at_millis operation_key in
      let l' : Ledger host.Number = record l {
        tombstones = if replaces then insert target tombstone l.tombstones else l.tombstones;
        active = delete target l.active;
      } in
      (counted l' retracted operation_key target, l')

  -- The two branches, by the effect of the event.
  unfoldable pub ingest_effect :
      Settings
      → Event host.Number
      → String
      → Ledger host.Number
      → Result (IngestResult × Ledger host.Number)
  ingest_effect c e operation_key l = elim e.effect [
    | applies signal ↦
        ingest_apply e signal operation_key (key_for_source_event c e.source_event_id) l
    | retracts target reason ↦
        ok (ingest_retract e reason operation_key (key_for_source_event c target) l)
  ]

  -- The rest of ingest, of a normalized event with its digest.
  unfoldable pub ingest_event :
      Settings
      → Event host.Number
      → String
      → Ledger host.Number
      → Result (IngestResult × Ledger host.Number)
  ingest_event c e digest l = elim (lookup (key_for_operation c e.operation_id) l.operations) [
    | some prior ↦
        if prior.digest == digest
        then ok (
          record prior.result {
            decision = duplicate;
            active_signal_count = length l.active;
            tombstone_count = length l.tombstones;
          },
          l,
        )
        else throw (type_error "Conflicting recommendation signal ledger operation ID.")
    | none ↦
        if leb c.max_operations (length l.operations)
        then throw (range_error "Recommendation signal ledger operation limit exceeded.")
        else (ingest_effect c e (key_for_operation c e.operation_id) l >>= λ r.
            ok (stored r.1 digest r.0))
  ]

  -- ingest
  unfoldable pub ingest :
      Settings → Value host.Number → Ledger host.Number → Result (IngestResult × Ledger host.Number)
  ingest c input l = do
    e ← normalize_event host input
    digest ← digest_of host e
    ingest_event c e digest l

  -- clear
  abbrev pub empty_ledger : Ledger host.Number
  empty_ledger = record { operations = []; active = []; tombstones = [] }
