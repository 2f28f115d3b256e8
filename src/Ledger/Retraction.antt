-- ===== src/Ledger/Retraction.antt =====
-- recommendation/signal-ledger.ts: what later events can do to a source event that was retracted.
use open_interest_clusters.Prelude.{
  String, ◌≡◌, inl, inr, refl, true, false, none, arith, eq_refl, Bool-cases, Option-cases, List,
  ok,
}
use open_interest_clusters.Prelude.Dict.{lookup, has, insert, lookup-insert}
use open_interest_clusters.Prelude.Int.{ℤ}
use open_interest_clusters.Js.{Value}
use open_interest_clusters.Js.Host.{Host}
use open_interest_clusters.Ledger.Event.{Event, Effect, applies, retracts, RetractionReason}
use open_interest_clusters.Ledger.State.{
  IngestResult, Ledger, Settings, Tombstone, retracted, counted, key_for_operation,
  key_for_source_event, stored, should_replace_tombstone, ingest_apply, ingest_retract,
  ingest_effect, ingest,
}
use open_interest_clusters.Ledger.Invariant.{IsApart, IsLedger, ingest_event-cases}
use open_interest_clusters.Ledger.Laws.{ingest_inverse, ingest-IsLedger}

module _ (host : Host) (c : Settings) where
  -- `n` is reached from `l` by ingests that threw nothing.
  pub data Leads (l : Ledger host.Number) : Ledger host.Number → Type 0 where
    stay : Leads l l
    step :
        {m n : Ledger host.Number} (input : Value host.Number) (r : IngestResult)
        → Leads l m
        → ingest host c input m ≡ ok (r, n)
        → Leads l n

  pub Leads-IsLedger : (l n : Ledger host.Number) → IsLedger c l → Leads l n → IsLedger c n
  Leads-IsLedger l n h stay = h
  Leads-IsLedger l n h (step {m} input r before run) =
      ingest-IsLedger host c input m r n (Leads-IsLedger l m h before) run

  insert-has :
      (key target : String) (t : Tombstone) (dict : List (String × Tombstone))
      → has key dict ≡ true
      → has key (insert target t dict) ≡ true
  unfolding has
  insert-has key target t dict h = ground (arith, lookup-insert target key t dict)

  insert-has_key :
      (target : String) (t : Tombstone) (dict : List (String × Tombstone))
      → has target (insert target t dict) ≡ true
  unfolding has
  insert-has_key target t dict = ground (arith, lookup-insert target target t dict, eq_refl target)

  kept-has :
      (target : String) (dict : List (String × Tombstone)) (millis : ℤ) (k : String)
      → should_replace_tombstone host (lookup target dict) millis k ≡ false
      → has target dict ≡ true
  unfolding has should_replace_tombstone
  kept-has target dict millis k kept = elim (Option-cases (lookup target dict)) [
    | inl missing ↦ ground arith
    | inr (t, there) ↦ ground arith
  ]

  ingest_retract-has :
      (e : Event host.Number) (reason : RetractionReason) (k target key : String)
      (l : Ledger host.Number)
      → has key l.tombstones ≡ true
      → has key (ingest_retract host e reason k target l).1.tombstones ≡ true
  unfolding ingest_retract
  ingest_retract-has e reason k target key l h =
      elim (Bool-cases
        (should_replace_tombstone host (lookup target l.tombstones) e.occurred_at_millis k)) [
          | inl replaces ↦ rw replaces (insert-has key target _ l.tombstones h)
          | inr kept ↦ rw kept h
        ]

  -- The target of a retraction has a tombstone afterwards: its own, or the one that it keeps.
  ingest_retract-buried :
      (e : Event host.Number) (reason : RetractionReason) (k target : String)
      (l : Ledger host.Number)
      → has
          (ingest_retract host e reason k target l).0.source_event_key
          (ingest_retract host e reason k target l).1.tombstones
        ≡ true
  unfolding ingest_retract has counted
  ingest_retract-buried e reason k target l =
      elim (Bool-cases
        (should_replace_tombstone host (lookup target l.tombstones) e.occurred_at_millis k)) [
          | inl replaces ↦ rw replaces (insert-has_key target _ l.tombstones)
          | inr kept ↦ rw kept (kept-has target l.tombstones e.occurred_at_millis k kept)
        ]

  ingest_effect-has :
      (e : Event host.Number) (k key : String) (l : Ledger host.Number) (r : IngestResult)
      (m : Ledger host.Number)
      → ingest_effect host c e k l ≡ ok (r, m)
      → (has key l.tombstones ≡ true → has key m.tombstones ≡ true)
        × (r.decision ≡ retracted → has r.source_event_key m.tombstones ≡ true)
  unfolding ingest_effect ingest_apply counted
  ingest_effect-has e k key l r m run = by_effect e.effect refl
    where
      by_effect :
          (f : Effect host.Number)
          → e.effect ≡ f
          → (has key l.tombstones ≡ true → has key m.tombstones ≡ true)
            × (r.decision ≡ retracted → has r.source_event_key m.tombstones ≡ true)
      by_effect (applies s) is_f = (λ h. ground arith, λ h. ground arith)
      by_effect (retracts target reason) is_f =
          let done : ingest_retract host e reason k (key_for_source_event c target) l ≡ (r, m) =
            ground arith in
          (
            λ h. rw done at (ingest_retract-has e reason k (key_for_source_event c target) key l h),
            λ h. rw done at (ingest_retract-buried e reason k (key_for_source_event c target) l),
          )

  ingest-has :
      (input : Value host.Number) (key : String) (l : Ledger host.Number) (r : IngestResult)
      (l' : Ledger host.Number)
      → ingest host c input l ≡ ok (r, l')
      → (has key l.tombstones ≡ true → has key l'.tombstones ≡ true)
        × (r.decision ≡ retracted → has r.source_event_key l'.tombstones ≡ true)
  unfolding stored
  ingest-has input key l r l' run =
      let (e, digest, is_event, is_digest, ran) = ingest_inverse host c input l (r, l') run in
      elim (ingest_event-cases host c e digest l r l' ran) [
        | inl (prior, found, same, result, end) ↦ (λ h. rw end h, λ h. ground arith)
        | inr (m, new, free, done, end) ↦
            let (kept, buried) =
              ingest_effect-has e (key_for_operation c e.operation_id) key l r m done in
            (λ h. rw end (kept h), λ h. rw end (buried h))
      ]

  Leads-has :
      (key : String) (l n : Ledger host.Number)
      → Leads l n
      → has key l.tombstones ≡ true
      → has key n.tombstones ≡ true
  Leads-has key l n stay h = h
  Leads-has key l n (step {m} input r before run) h =
      (ingest-has input key m r n run).0 (Leads-has key l m before h)

  inactive_of_has :
      (key : String) (l : Ledger host.Number)
      → IsApart l
      → has key l.tombstones ≡ true
      → lookup key l.active ≡ none
  unfolding has
  inactive_of_has key l h gone = ground (arith, h.apart key)

  -- Where an ingest into a well-formed ledger answers "retracted", the source event of its result
  -- is not active afterwards, nor in any ledger that later ingests lead to, whether its own apply
  -- event comes before or after.
  pub retracted-inactive :
      (input : Value host.Number) (l : Ledger host.Number) (r : IngestResult)
      (l' end : Ledger host.Number)
      → IsLedger c l
      → ingest host c input l ≡ ok (r, l')
      → r.decision ≡ retracted
      → Leads l' end
      → lookup r.source_event_key end.active ≡ none
  retracted-inactive input l r l' end h run is_retracted later =
      let kept : IsLedger c end =
        Leads-IsLedger l' end (ingest-IsLedger host c input l r l' h run) later in
      inactive_of_has r.source_event_key end kept.maps (
        Leads-has r.source_event_key l' end later
          ((ingest-has input r.source_event_key l r l' run).1 is_retracted))
