-- ===== src/Ledger/Invariant.antt =====
-- recommendation/signal-ledger.ts: what holds of the ledger's maps after every operation.
use open_interest_clusters.Prelude.{
  ◌≤◌, ◌<◌, String, ◌≡◌, ◌⊎◌, inl, inr, refl, false, none, some, arith, eq_iff, Bool-cases,
  Option-cases, length, leb, List, Result, ok, ◌>>=◌, >>=-eq-ok,
}
use open_interest_clusters.Prelude.Dict.{
  IsDict, lookup, has, insert, delete, lookup-insert, lookup-delete, insert-IsDict, delete-IsDict,
}
use open_interest_clusters.Js.Host.{Host}
use open_interest_clusters.Signals.Signal.{Signal}
use open_interest_clusters.Ledger.Event.{Event, Effect, applies, retracts, RetractionReason}
use open_interest_clusters.Ledger.State.{
  IngestResult, ActiveEntry, Ledger, Settings, key_for_operation, key_for_source_event, stored,
  should_replace_tombstone, Tombstone, StoredOperation, duplicate, ingest_apply, ingest_retract,
  ingest_effect, ingest_event,
}

-- What is active is not retracted: each key stands once in its map, an entry stands under its
-- source event, and no source event is active and retracted.
pub record IsApart {N : Type 0} (l : Ledger N) : Type 0 where
  pub active : IsDict l.active
  pub tombstones : IsDict l.tombstones
  pub apart : (key : String) → (lookup key l.active ≡ none) ⊎ (lookup key l.tombstones ≡ none)
  pub keyed :
      (key : String) (e : ActiveEntry N) → lookup key l.active ≡ some e → e.source_event_key ≡ key

-- The ledger of the settings: also its operations stand once, within the limit.
pub record IsLedger {N : Type 0} (c : Settings) (l : Ledger N) : Type 0 where
  pub maps : IsApart l
  pub operations : IsDict l.operations
  pub bounded : length l.operations ≤ c.max_operations

none_unless_has :
    {V : Type 0} (key : String) (dict : List (String × V))
    → has key dict ≡ false
    → lookup key dict ≡ none
unfolding has
none_unless_has key dict h = ground arith

module _ {N : Type 0} where
  activate-IsApart :
      (l : Ledger N) (target : String) (entry : ActiveEntry N)
      → IsApart l
      → lookup target l.tombstones ≡ none
      → entry.source_event_key ≡ target
      → IsApart (record l { active = insert target entry l.active })
  activate-IsApart l target entry h fresh named = record {
    active = insert-IsDict target entry l.active h.active;
    tombstones = h.tombstones;
    apart = λ key.
        ground (arith, lookup-insert target key entry l.active, eq_iff target key, h.apart key);
    keyed = λ key e found.
        ground (arith, lookup-insert target key entry l.active, eq_iff target key, h.keyed key e);
  }

  ingest_apply-IsApart :
      (e : Event N) (s : Signal N) (k target : String) (l : Ledger N) (r : IngestResult)
      (l' : Ledger N)
      → IsApart l
      → ingest_apply e s k target l ≡ ok (r, l')
      → IsApart l' × (l'.operations ≡ l.operations)
  unfolding ingest_apply
  ingest_apply-IsApart e s k target l r l' h run = elim (Bool-cases (has target l.tombstones)) [
    | inl gone ↦ let same : l ≡ l' = ground arith in (rw same at h, ground arith)
    | inr here ↦ elim (Bool-cases (has target l.active)) [
      | inl there ↦ ground arith
      | inr fresh ↦
          let entry : ActiveEntry N = record {
            source_event_key = target;
            operation_key = k;
            occurred_at = e.occurred_at;
            occurred_at_millis = e.occurred_at_millis;
            signal = s;
          } in
          let same : record l { active = insert target entry l.active } ≡ l' = ground arith in
          (
            rw same at
                (activate-IsApart l target entry h (none_unless_has target l.tombstones here) refl),
            ground arith,
          )
    ]
  ]

  bury-IsApart :
      (l : Ledger N) (target : String) (tombstone : Tombstone)
      → IsApart l
      → IsApart (record l {
        tombstones = insert target tombstone l.tombstones;
        active = delete target l.active;
      })
  bury-IsApart l target tombstone h = record {
    active = delete-IsDict target l.active h.active;
    tombstones = insert-IsDict target tombstone l.tombstones h.tombstones;
    apart = λ key. ground (
      arith,
      lookup-insert target key tombstone l.tombstones,
      lookup-delete target key l.active h.active,
      h.apart key,
    );
    keyed =
        λ key e found. ground (arith, lookup-delete target key l.active h.active, h.keyed key e);
  }

  deactivate-IsApart :
      (l : Ledger N) (target : String)
      → IsApart l
      → IsApart (record l { active = delete target l.active })
  deactivate-IsApart l target h = record {
    active = delete-IsDict target l.active h.active;
    tombstones = h.tombstones;
    apart = λ key. ground (arith, lookup-delete target key l.active h.active, h.apart key);
    keyed =
        λ key e found. ground (arith, lookup-delete target key l.active h.active, h.keyed key e);
  }

-- The result of an operation that the ledger has already.
abbrev pub repeated : {N : Type 0} → Ledger N → StoredOperation → IngestResult
repeated l prior = record prior.result {
  decision = duplicate;
  active_signal_count = length l.active;
  tombstone_count = length l.tombstones;
}

module _ (host : Host) where
  ingest_retract-IsApart :
      (e : Event host.Number) (reason : RetractionReason) (k target : String)
      (l : Ledger host.Number)
      → IsApart l
      → IsApart (ingest_retract host e reason k target l).1
        × ((ingest_retract host e reason k target l).1.operations ≡ l.operations)
  unfolding ingest_retract
  ingest_retract-IsApart e reason k target l h =
      elim (Bool-cases
        (should_replace_tombstone host (lookup target l.tombstones) e.occurred_at_millis k)) [
          | inl replaces ↦ rw replaces (bury-IsApart l target _ h, refl)
          | inr kept ↦ rw kept (deactivate-IsApart l target h, refl)
        ]

  pub ingest_effect-IsApart :
      (c : Settings) (e : Event host.Number) (k : String) (l : Ledger host.Number)
      (r : IngestResult) (l' : Ledger host.Number)
      → IsApart l
      → ingest_effect host c e k l ≡ ok (r, l')
      → IsApart l' × (l'.operations ≡ l.operations)
  unfolding ingest_effect ingest_apply
  ingest_effect-IsApart c e k l r l' h run = by_effect e.effect refl
    where
      by_effect :
          (f : Effect host.Number) → e.effect ≡ f → IsApart l' × (l'.operations ≡ l.operations)
      by_effect (applies s) is_f =
          ingest_apply-IsApart e s k (key_for_source_event c e.source_event_id) l r l' h
            (rw is_f at run)
      by_effect (retracts target reason) is_f =
          let done : ingest_retract host e reason k (key_for_source_event c target) l ≡ (r, l') =
            ground arith in
          let (kept, same) =
            ingest_retract-IsApart e reason k (key_for_source_event c target) l h in
          (rw done at kept, rw done at same)

  stored_inverse :
      (effect : Result (IngestResult × Ledger host.Number)) (digest : String)
      (x : IngestResult × Ledger host.Number) (r : IngestResult) (l' : Ledger host.Number)
      → effect ≡ ok x
      → ok (stored x.1 digest x.0) ≡ ok (r, l')
      → (m : Ledger host.Number) × (effect ≡ ok (r, m)) × (l' ≡ (stored m digest r).1)
  unfolding stored
  stored_inverse effect digest (r', m) r l' done h = (m, cc, cc)

  -- What an ingest of an event comes to: the stored result again, or a new operation.
  pub ingest_event-cases :
      (c : Settings) (e : Event host.Number) (digest : String) (l : Ledger host.Number)
      (r : IngestResult) (l' : Ledger host.Number)
      → ingest_event host c e digest l ≡ ok (r, l')
      → ((prior : StoredOperation) × (lookup (key_for_operation c e.operation_id) l.operations
            ≡ some prior)
          × (prior.digest ≡ digest)
          × (r ≡ repeated l prior)
          × (l' ≡ l))
        ⊎ ((m : Ledger host.Number) × (lookup (key_for_operation c e.operation_id) l.operations
              ≡ none)
            × (length l.operations < c.max_operations)
            × (ingest_effect host c e (key_for_operation c e.operation_id) l ≡ ok (r, m))
            × (l' ≡ (stored m digest r).1))
  unfolding ingest_event
  ingest_event-cases c e digest l r l' run =
      elim (Option-cases (lookup (key_for_operation c e.operation_id) l.operations)) [
        | inr (prior, found) ↦
            inl
              (prior, found, ground (arith, eq_iff prior.digest digest), ground arith, ground arith)
        | inl new ↦ elim (Bool-cases (leb c.max_operations (length l.operations))) [
          | inl full ↦ ground arith
          | inr free ↦
              let opened : (ingest_effect host c e (key_for_operation c e.operation_id) l >>= λ x.
              ok (stored x.1 digest x.0))
                  ≡ ok (r, l') =
                ground arith in
              let (x, done, same) =
                >>=-eq-ok (ingest_effect host c e (key_for_operation c e.operation_id) l) _
                  opened in
              let (m, ended, is_end) = stored_inverse _ digest x r l' done same in
              inr (m, new, ground arith, ended, is_end)
        ]
      ]
