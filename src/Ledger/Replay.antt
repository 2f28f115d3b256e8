-- ===== src/Ledger/Replay.antt =====
-- recommendation/signal-ledger.ts: ingesting an event again.
use open_interest_clusters.Prelude.{
  String, ◌≡◌, inl, inr, refl, some, arith, eq_iff, eq_refl, length, ok,
}
use open_interest_clusters.Prelude.Dict.{lookup, lookup-insert}
use open_interest_clusters.Js.{Value}
use open_interest_clusters.Js.Host.{Host}
use open_interest_clusters.Ledger.Event.{Event}
use open_interest_clusters.Ledger.State.{
  IngestResult, StoredOperation, Ledger, Settings, duplicate, key_for_operation, stored,
  ingest_event, ingest,
}
use open_interest_clusters.Ledger.Invariant.{ingest_event-cases, repeated}
use open_interest_clusters.Ledger.Laws.{ingest_inverse, ingest_effect-counts}

module _ (host : Host) (c : Settings) where
  ingest_event-repeated :
      (e : Event host.Number) (digest : String) (l : Ledger host.Number) (prior : StoredOperation)
      → lookup (key_for_operation c e.operation_id) l.operations ≡ some prior
      → prior.digest ≡ digest
      → ingest_event host c e digest l ≡ ok (repeated l prior, l)
  unfolding ingest_event
  ingest_event-repeated e digest l prior found same = ground (arith, eq_refl digest)

  stored-lookup :
      (m : Ledger host.Number) (digest : String) (r : IngestResult) (k : String)
      → r.operation_key ≡ k
      → lookup k (stored m digest r).1.operations ≡ some (record { digest = digest; result = r })
  unfolding stored
  stored-lookup m digest r k is_key = ground (
    arith,
    lookup-insert r.operation_key k (record { digest = digest; result = r }) m.operations,
    eq_iff r.operation_key k,
  )

  repeated-stored :
      (m : Ledger host.Number) (digest : String) (r : IngestResult)
      → r.active_signal_count ≡ length m.active
      → r.tombstone_count ≡ length m.tombstones
      → repeated (stored m digest r).1 (record { digest = digest; result = r })
        ≡ record r { decision = duplicate }
  unfolding stored
  repeated-stored m digest r active tombstones = rw (← active, ← tombstones)

  ingest_event_again :
      (e : Event host.Number) (digest : String) (l : Ledger host.Number) (r : IngestResult)
      (l' : Ledger host.Number)
      → ingest_event host c e digest l ≡ ok (r, l')
      → ingest_event host c e digest l' ≡ ok (record r { decision = duplicate }, l')
  ingest_event_again e digest l r l' run = elim (ingest_event-cases host c e digest l r l' run) [
    | inl (prior, found, same, result, end) ↦
        rw (end, result) (ingest_event-repeated e digest l prior found same)
    | inr (m, new, free, ran, end) ↦
        let (key, active, tombstones) =
          ingest_effect-counts host c e (key_for_operation c e.operation_id) l r m ran in
        let found = stored-lookup m digest r (key_for_operation c e.operation_id) key in
        rw (end, ← repeated-stored m digest r active tombstones)
          (ingest_event-repeated e digest (stored m digest r).1
            (record { digest = digest; result = r }) found refl)
  ]

  -- Ingesting an event again, right after it was ingested without an error, changes nothing: the
  -- ledger stays as it is, and the result is the first one with the decision "duplicate".
  pub ingest_again :
      (input : Value host.Number) (l : Ledger host.Number) (r : IngestResult)
      (l' : Ledger host.Number)
      → ingest host c input l ≡ ok (r, l')
      → ingest host c input l' ≡ ok (record r { decision = duplicate }, l')
  unfolding ingest
  ingest_again input l r l' run =
      let (e, digest, is_event, is_digest, ran) = ingest_inverse host c input l (r, l') run in
      rw (is_event, is_digest) (ingest_event_again e digest l r l' ran)
