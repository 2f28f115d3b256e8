-- ===== src/Ledger/Laws.antt =====
-- recommendation/signal-ledger.ts: the ledger after an ingest and after a sequence of them.
use open_interest_clusters.Prelude.{
  ◌<◌, String, ◌≡◌, inl, inr, refl, none, arith, length, ok, >>=-eq-ok,
}
use open_interest_clusters.Prelude.Dict.{IsDict, lookup, insert-IsDict, length-insert_new}
use open_interest_clusters.Js.{Value}
use open_interest_clusters.Js.Host.{Host}
use open_interest_clusters.Ledger.Event.{
  Event, Effect, applies, retracts, normalize_event, digest_of,
}
use open_interest_clusters.Ledger.State.{
  IngestResult, Ledger, Settings, key_for_operation, counted, stored, ingest_apply, ingest_retract,
  ingest_effect, ingest_event, ingest, empty_ledger,
}
use open_interest_clusters.Ledger.Invariant.{
  IsApart, IsLedger, ingest_effect-IsApart, ingest_event-cases,
}

module _ (host : Host) (c : Settings) where
  pub ingest_inverse :
      (input : Value host.Number) (l : Ledger host.Number) (x : IngestResult × Ledger host.Number)
      → ingest host c input l ≡ ok x
      → (e : Event host.Number) × (digest : String) × (normalize_event host input ≡ ok e)
        × (digest_of host e ≡ ok digest)
        × (ingest_event host c e digest l ≡ ok x)
  unfolding ingest
  ingest_inverse input l x run =
      let (e, is_event, next) = >>=-eq-ok (normalize_event host input) _ run in
      let (digest, is_digest, ran) = >>=-eq-ok (digest_of host e) _ next in
      (e, digest, is_event, is_digest, ran)

  -- A result of an effect carries the key of its operation and the sizes of the maps.
  pub ingest_effect-counts :
      (e : Event host.Number) (k : String) (l : Ledger host.Number) (r : IngestResult)
      (m : Ledger host.Number)
      → ingest_effect host c e k l ≡ ok (r, m)
      → (r.operation_key ≡ k)
        × (r.active_signal_count ≡ length m.active)
        × (r.tombstone_count ≡ length m.tombstones)
  unfolding ingest_effect ingest_apply ingest_retract counted
  ingest_effect-counts e k l r m h = by_effect e.effect refl
    where
      by_effect :
          (f : Effect host.Number)
          → e.effect ≡ f
          → (r.operation_key ≡ k)
            × (r.active_signal_count ≡ length m.active)
            × (r.tombstone_count ≡ length m.tombstones)
      by_effect (applies s) is_f = ground arith
      by_effect (retracts target reason) is_f = ground arith

  stored-IsLedger :
      (m : Ledger host.Number) (digest : String) (r : IngestResult)
      → IsApart m
      → IsDict m.operations
      → lookup r.operation_key m.operations ≡ none
      → length m.operations < c.max_operations
      → IsLedger c (stored m digest r).1
  unfolding stored
  stored-IsLedger m digest r apart once new free = record {
    maps = record {
      active = apart.active;
      tombstones = apart.tombstones;
      apart = apart.apart;
      keyed = apart.keyed;
    };
    operations = insert-IsDict _ _ m.operations once;
    bounded = ground (
      arith,
      length-insert_new r.operation_key (record { digest = digest; result = r }) m.operations new,
    );
  }

  ingest_event-IsLedger :
      (e : Event host.Number) (digest : String) (l : Ledger host.Number) (r : IngestResult)
      (l' : Ledger host.Number)
      → IsLedger c l
      → ingest_event host c e digest l ≡ ok (r, l')
      → IsLedger c l'
  ingest_event-IsLedger e digest l r l' h run =
      elim (ingest_event-cases host c e digest l r l' run) [
        | inl (prior, found, same, result, end) ↦ rw end h
        | inr (m, new, free, ran, end) ↦
            let (apart, kept) =
              ingest_effect-IsApart host c e (key_for_operation c e.operation_id) l r m h.maps
                ran in
            let (key, active, tombstones) =
              ingest_effect-counts e (key_for_operation c e.operation_id) l r m ran in
            rw end (
              stored-IsLedger m digest r apart (rw kept h.operations) (rw (key, kept) new)
                (rw kept free))
      ]

  -- An ingest that throws nothing keeps a well-formed ledger well formed: every key stands once in
  -- its map, an active entry stands under its own source event, no source event is both active and
  -- retracted, and there are at most as many operations as the limit allows.
  pub ingest-IsLedger :
      (input : Value host.Number) (l : Ledger host.Number) (r : IngestResult)
      (l' : Ledger host.Number)
      → IsLedger c l
      → ingest host c input l ≡ ok (r, l')
      → IsLedger c l'
  ingest-IsLedger input l r l' h run =
      let (e, digest, is_event, is_digest, ran) = ingest_inverse input l (r, l') run in
      ingest_event-IsLedger e digest l r l' h ran

  pub empty_ledger-IsLedger : IsLedger c (empty_ledger host)
  empty_ledger-IsLedger = record {
    maps = record {
      active = tt;
      tombstones = tt;
      apart = λ key. inl (unfold lookup in refl);
      keyed = λ key e found. unfold lookup in ground arith;
    };
    operations = tt;
    bounded = ground arith;
  }
