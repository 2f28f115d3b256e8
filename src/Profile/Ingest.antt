-- ===== src/Profile/Ingest.antt =====
-- recommendation/profile-store.ts, the loop of ingestSignals: a signal that is ready is applied to a
-- well-formed profile without an error.
use open_interest_clusters.Prelude.{
  ◌+◌, ◌≤◌, String, Bool, ◌≡◌, refl, sym, arith, List, [], ◌∷◌, ◌++◌, Option, none, some, true,
  length, every, All, Bool-cases, Option-cases, inl, inr, ok,
}
use open_interest_clusters.Prelude.Int.{ℤ, leb_ℤ}
use open_interest_clusters.Prelude.Vocabulary.{includes}
use open_interest_clusters.Prelude.Dict.{lookup, insert, insert-IsDict, length-insert_most}
use open_interest_clusters.Js.Host.{Host}
use open_interest_clusters.Storage.Authority.{ProcessingBoundary, processing_boundary_vocabulary}
use open_interest_clusters.Signals.Words.{Polarity, positive, negative, neutral}
use open_interest_clusters.Profile.Entry.{
  Entry, Timestamp, Prepared, add, latest_expiration, create_entry, apply_signal, one_if_positive,
  one_if_negative, one_if_neutral, applied_at, applied_at_millis, merged,
}
use open_interest_clusters.Profile.Store.{
  State, Settings, next_entry, ingest_prepared, ingest_all_prepared,
}
use open_interest_clusters.Prelude.Each.{insert-IsEach, IsEach-lookup}
use open_interest_clusters.Profile.Totals.{total, total-insert_new, total-insert_again}
use open_interest_clusters.Profile.Invariant.{
  IsDated, IsDatedIfAny, IsTimestamp, IsEntry, IsFilled, IsPrepared,
}
use open_interest_clusters.Profile.Prune.{max_timestamp-IsDated}

every-append :
    {E : Type 0} (p : E → Bool) (xs : List E) (x : E)
    → every p xs ≡ true
    → p x ≡ true
    → every p (xs ++ x ∷ []) ≡ true
every-append p [] x h k = ground arith
every-append p (y ∷ ys) x h k = ground (arith, every-append p ys x)

every-add :
    (allowed xs : List ProcessingBoundary) (x : ProcessingBoundary)
    → every (includes allowed) xs ≡ true
    → includes allowed x ≡ true
    → every (includes allowed) (add x xs) ≡ true
unfolding add
every-add allowed xs x h k = ground (arith, every-append (includes allowed) xs x h k)

one_polarity : (p : Polarity) → one_if_positive p + one_if_negative p + one_if_neutral p ≡ 1
one_polarity positive = refl
one_polarity negative = refl
one_polarity neutral = refl

module _ (host : Host) where
  applied_at-IsDated :
      (p : Prepared host.Number) (now : Timestamp)
      → IsDated host p.signal.evidence.observed_at
      → IsTimestamp host now
      → IsDated host (applied_at host p now)
  applied_at-IsDated p now observed timed =
      elim (Bool-cases (leb_ℤ p.observed_at_millis now.millis)) [
        | inl past ↦ rw past (now.millis, timed)
        | inr future ↦ rw future observed
      ]

  latest_expiration-IsDated :
      (left right : Option String) (m : Option ℤ)
      → IsDatedIfAny host left
      → IsDatedIfAny host right
      → (latest : Option String) × (latest_expiration host left right m ≡ ok latest)
        × IsDatedIfAny host latest
  unfolding latest_expiration
  latest_expiration-IsDated none right m l r = (none, refl, tt)
  latest_expiration-IsDated (some left) none m l r = (none, refl, tt)
  latest_expiration-IsDated (some left) (some right) none l r = (none, refl, tt)
  latest_expiration-IsDated (some left) (some right) (some m) l r =
      let (latest, ran, dated) = max_timestamp-IsDated host left right m l r in
      (some latest, rw ran refl, dated)

  create_entry-IsEntry :
      (c : Settings) (p : Prepared host.Number) (now : Timestamp)
      → IsPrepared host c p
      → IsTimestamp host now
      → IsEntry host c p.key (create_entry host p now)
  unfolding create_entry
  create_entry-IsEntry c p now h timed = record {
    keyed = h.keyed;
    counted = sym (one_polarity p.signal.polarity);
    used = omega arith;
    allowed = ground (arith, h.allowed);
    updated = applied_at-IsDated p now h.observed timed;
    expiring = h.expiring;
  }

  -- What an entry becomes, with one more signal
  abbrev pub Applies : Settings → Entry host.Number → Prepared host.Number → Timestamp → Type 0
  Applies c e p now =
      (e' : Entry host.Number) × (apply_signal host e p now ≡ ok e')
      × IsEntry host c p.key e'
      × (e'.signal_count ≡ e.signal_count + 1)

  apply_signal-IsEntry :
      (c : Settings) (e : Entry host.Number) (p : Prepared host.Number) (now : Timestamp)
      → IsEntry host c p.key e
      → IsPrepared host c p
      → IsTimestamp host now
      → Applies c e p now
  unfolding apply_signal
  apply_signal-IsEntry c e p now old h timed =
      let (updated_at, updates, updated) =
        max_timestamp-IsDated host e.updated_at (applied_at host p now)
          (applied_at_millis host p now) old.updated (applied_at-IsDated p now h.observed timed) in
      let (expires_at, expires, expiring) =
        latest_expiration-IsDated e.expires_at p.signal.expires_at p.expires_at_millis old.expiring
          h.expiring in
      (
        merged host e p updated_at expires_at,
        rw (apply_signal, updates, expires) refl,
        record {
          keyed = old.keyed;
          counted = omega (arith, old.counted, one_polarity p.signal.polarity);
          used = omega arith;
          allowed =
              every-add c.allowed_privacy_boundaries e.privacy_boundaries p.signal.privacy_boundary
                old.allowed h.allowed;
          updated = updated;
          expiring = expiring;
        },
        refl,
      )

  next_entry-IsEntry :
      (c : Settings) (now : Timestamp) (s : State host.Number) (p : Prepared host.Number)
      → IsFilled host c s
      → IsPrepared host c p
      → IsTimestamp host now
      → (e : Entry host.Number) × (next_entry host now s p ≡ ok e)
        × IsEntry host c p.key e
        × (total (insert p.key e s.entries) ≡ total s.entries + 1)
  unfolding next_entry create_entry
  next_entry-IsEntry c now s p h ready timed = elim (Option-cases (lookup p.key s.entries)) [
    | inl new ↦ (
      create_entry host p now,
      rw (next_entry, new) refl,
      create_entry-IsEntry c p now ready timed,
      omega (arith, total-insert_new p.key (create_entry host p now) s.entries new),
    )
    | inr (old, found) ↦
        let there : IsEntry host c p.key old =
          IsEach-lookup (IsEntry host c) p.key old s.entries h.each found in
        let (e, ran, is_entry, count) = apply_signal-IsEntry c old p now there ready timed in
        (
          e,
          rw (next_entry, found, ran) refl,
          is_entry,
          omega (arith, total-insert_again p.key e old s.entries found, count),
        )
  ]

  ingest_prepared-IsFilled :
      (c : Settings) (now : Timestamp) (s : State host.Number) (p : Prepared host.Number)
      → IsFilled host c s
      → IsPrepared host c p
      → IsTimestamp host now
      → (s' : State host.Number) × (ingest_prepared host now s p ≡ ok s')
        × IsFilled host c s'
        × (length s'.entries ≤ length s.entries + 1)
  unfolding ingest_prepared
  ingest_prepared-IsFilled c now s p h ready timed =
      let (e, ran, is_entry, count) = next_entry-IsEntry c now s p h ready timed in
      let (updated_at, updates, updated) =
        max_timestamp-IsDated host s.updated_at now.value now.millis h.updated
          (now.millis, timed) in
      (
        record {
          updated_at = updated_at;
          signal_count = s.signal_count + 1;
          entries = insert p.key e s.entries;
        },
        rw (ran, updates) refl,
        record {
          dict = insert-IsDict p.key e s.entries h.dict;
          each = insert-IsEach (IsEntry host c) p.key e s.entries h.each is_entry;
          summed = omega (arith, count, h.summed);
          updated = updated;
        },
        length-insert_most p.key e s.entries,
      )

  pub ingest_all_prepared-IsFilled :
      (c : Settings) (now : Timestamp) (ps : List (Prepared host.Number)) (s : State host.Number)
      → IsFilled host c s
      → All (IsPrepared host c) ps
      → IsTimestamp host now
      → (s' : State host.Number) × (ingest_all_prepared host now ps s ≡ ok s')
        × IsFilled host c s'
        × (length s'.entries ≤ length s.entries + length ps)
  unfolding ingest_all_prepared
  ingest_all_prepared-IsFilled c now [] s h ready timed = (s, refl, h, omega arith)
  ingest_all_prepared-IsFilled c now (p ∷ ps) s h ready timed =
      let (m, ran, filled, one) = ingest_prepared-IsFilled c now s p h ready.0 timed in
      let (s', runs, end, more) = ingest_all_prepared-IsFilled c now ps m filled ready.1 timed in
      (s', rw (ran, runs) refl, end, omega (arith, one, more))
