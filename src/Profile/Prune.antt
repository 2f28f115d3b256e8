-- ===== src/Profile/Prune.antt =====
-- recommendation/profile-store.ts, pruneExpiredEntries: on a well-formed profile it throws nothing,
-- and leaves the entries that have not expired.
use open_interest_clusters.Prelude.{
  ℕ, ◌+◌, ◌-◌, ◌≤◌, String, ◌≡◌, ◌↔◌, refl, arith, [], ◌∷◌, Option, none, some, true, false, eq_iff,
  length, ltb, Bool-cases, Option-cases, inl, inr, ◌⊎◌, ok,
}
use open_interest_clusters.Prelude.Int.{ℤ, leb_ℤ, ◌<ℤ◌}
use open_interest_clusters.Prelude.Dict.{Dict, IsDict, lookup}
use open_interest_clusters.Js.Host.{Host}
use open_interest_clusters.Profile.Entry.{
  Entry, Timestamp, max_timestamp, is_expired, timestamp_millis,
}
use open_interest_clusters.Profile.Store.{
  State, Settings, prune_entries, prune_count, prune_expired,
}
use open_interest_clusters.Prelude.Each.{IsEach}
use open_interest_clusters.Profile.Totals.{total}
use open_interest_clusters.Profile.Invariant.{IsDated, IsDatedIfAny, IsTimestamp, IsEntry, IsFilled}

module _ (host : Host) where
  pub max_timestamp-IsDated :
      (left right : String) (m : ℤ)
      → IsDated host left
      → IsDated host right
      → (latest : String) × (max_timestamp host left right m ≡ ok latest) × IsDated host latest
  unfolding max_timestamp
  max_timestamp-IsDated left right m l r = elim (Bool-cases (leb_ℤ m l.0)) [
    | inl later ↦ (left, rw (l.1, later) refl, l)
    | inr earlier ↦ (right, rw (l.1, earlier) refl, r)
  ]

  is_expired-decides :
      (expires_at : Option String) (now : ℤ)
      → IsDatedIfAny host expires_at
      → (is_expired host expires_at now ≡ ok true) ⊎ (is_expired host expires_at now ≡ ok false)
  unfolding is_expired
  is_expired-decides none now h = inr refl
  is_expired-decides (some text) now (m, h) = elim (Bool-cases (leb_ℤ m now)) [
    | inl gone ↦ inl (rw (h, gone) refl)
    | inr live ↦ inr (rw (h, live) refl)
  ]

  -- The entry is live at this time.
  abbrev pub IsLive : ℤ → Entry host.Number → Type 0
  IsLive now e = is_expired host e.expires_at now ≡ ok false

  -- The entry has no expiry, or one that is a time after now.
  abbrev pub IsUnexpired : ℤ → Entry host.Number → Type 0
  IsUnexpired now e =
      (e.expires_at ≡ none)
      ⊎ ((text : String) × (millis : ℤ) × (e.expires_at ≡ some text)
          × (host.date_parse text ≡ some millis)
          × (now <ℤ millis))

  pub IsLive-iff : (now : ℤ) (e : Entry host.Number) → IsLive now e ↔ IsUnexpired now e
  unfolding is_expired timestamp_millis
  IsLive-iff now e = (sound, complete)
    where
      sound : IsLive now e → IsUnexpired now e
      sound h = elim (Option-cases e.expires_at) [
        | inl never ↦ inl never
        | inr (text, at) ↦ elim (Option-cases (host.date_parse text)) [
          | inl no_time ↦ ground arith
          | inr (millis, time) ↦ inr (text, millis, at, time, ground arith)
        ]
      ]

      complete : IsUnexpired now e → IsLive now e
      complete (inl never) = rw never refl
      complete (inr (text, millis, at, time, later)) = ground arith

  -- What the loop leaves of the entries: those that are live, and it counts the signals of the rest.
  record IsPruned (c : Settings) (now : ℤ) (d : Dict (Entry host.Number)) (n : ℕ)
      (left : Dict (Entry host.Number)) : Type 0 where
    ran : prune_entries host now d ≡ (ok n, left)
    dict : IsDict left
    each : IsEach (IsEntry host c) left
    counted : total left + n ≡ total d
    shorter : length left ≤ length d
    kept :
        (key : String) (e : Entry host.Number)
        → (lookup key left ≡ some e) ↔ ((lookup key d ≡ some e) × IsLive now e)

  none_unless_kept :
      (key : String) (d left : Dict (Entry host.Number)) (P : Entry host.Number → Type 0)
      → ((e : Entry host.Number) → lookup key left ≡ some e → (lookup key d ≡ some e) × P e)
      → lookup key d ≡ none
      → lookup key left ≡ none
  none_unless_kept key d left P kept h = elim (Option-cases (lookup key left)) [
    | inl absent ↦ absent
    | inr (e, found) ↦ let there : lookup key d ≡ some e = (kept e found).0 in cc
  ]

  prune_entries-IsPruned :
      (c : Settings) (now : ℤ) (d : Dict (Entry host.Number))
      → IsDict d
      → IsEach (IsEntry host c) d
      → (n : ℕ) × (left : Dict (Entry host.Number)) × IsPruned c now d n left
  unfolding prune_entries lookup
  prune_entries-IsPruned c now [] k h = (
    0,
    [],
    record {
      ran = refl;
      dict = tt;
      each = tt;
      counted = refl;
      shorter = omega arith;
      kept = λ key e. ground arith;
    },
  )
  prune_entries-IsPruned c now ((at, x) ∷ rest) k h =
      let (n, left, p) = prune_entries-IsPruned c now rest k.1 h.1 in
      let absent : lookup at left ≡ none =
        none_unless_kept at rest left (IsLive now) (λ e. (p.kept at e).0) k.0 in
      elim (is_expired-decides x.expires_at now h.0.expiring) [
        | inl gone ↦ (
          x.signal_count + n,
          left,
          record {
            ran = rw (prune_entries, gone, p.ran) refl;
            dict = p.dict;
            each = p.each;
            counted = omega (arith, p.counted);
            shorter = omega (arith, p.shorter);
            kept = λ key e. ground (arith, p.kept key e, eq_iff at key, absent, gone, k.0);
          },
        )
        | inr live ↦ (
          n,
          (at, x) ∷ left,
          record {
            ran = rw (prune_entries, live, p.ran) refl;
            dict = (absent, p.dict);
            each = (h.0, p.each);
            counted = omega (arith, p.counted);
            shorter = omega (arith, p.shorter);
            kept = λ key e. ground (arith, p.kept key e, eq_iff at key, absent, live, k.0);
          },
        )
      ]

  -- The profile after a prune
  pub record IsPrunedState (c : Settings) (now : Timestamp) (s s' : State host.Number)
      : Type 0 where
    pub ran : prune_expired host now s ≡ (ok tt, s')
    pub filled : IsFilled host c s'
    pub shorter : length s'.entries ≤ length s.entries
    pub kept :
        (key : String) (e : Entry host.Number)
        → (lookup key s'.entries ≡ some e) ↔ ((lookup key s.entries ≡ some e) × IsLive now.millis e)

  prune_count-runs :
      (now : Timestamp) (n : ℕ) (s : State host.Number)
      → IsDated host s.updated_at
      → IsTimestamp host now
      → (s' : State host.Number) × (prune_count host now n s ≡ (ok tt, s'))
        × (s'.entries ≡ s.entries)
        × (s'.signal_count ≡ s.signal_count - n)
        × IsDated host s'.updated_at
  unfolding prune_count
  prune_count-runs now n s dated timed = elim (Bool-cases (ltb 0 n)) [
    | inr nothing ↦ (s, rw nothing refl, refl, ground arith, dated)
    | inl some_gone ↦
        let (latest, ran, is_dated) =
          max_timestamp-IsDated s.updated_at now.value now.millis dated (now.millis, timed) in
        (
          record s { signal_count = s.signal_count - n; updated_at = latest },
          rw (some_gone, ran) refl,
          refl,
          refl,
          is_dated,
        )
  ]

  pub prune_expired-IsPrunedState :
      (c : Settings) (now : Timestamp) (s : State host.Number)
      → IsFilled host c s
      → IsTimestamp host now
      → (s' : State host.Number) × IsPrunedState c now s s'
  unfolding prune_expired
  prune_expired-IsPrunedState c now s h timed =
      let (n, left, p) = prune_entries-IsPruned c now.millis s.entries h.dict h.each in
      let (s', ran, same, count, dated) =
        prune_count-runs now n (record s { entries = left }) h.updated timed in
      (
        s',
        record {
          ran = rw (prune_expired, p.ran, p.ran, ran) refl;
          filled = record {
            dict = rw (← same) at p.dict;
            each = rw (← same) at p.each;
            summed = rw same (omega (arith, count, p.counted, h.summed));
            updated = dated;
          };
          shorter = rw same p.shorter;
          kept = rw same p.kept;
        },
      )

  prune_entries-live :
      (now : ℤ) (d : Dict (Entry host.Number))
      → IsEach (λ key e. IsLive now e) d
      → prune_entries host now d ≡ (ok 0, d)
  unfolding prune_entries
  prune_entries-live now [] h = refl
  prune_entries-live now ((at, x) ∷ rest) h =
      rw (prune_entries, h.0, prune_entries-live now rest h.1) refl

  -- A prune of a profile whose entries are all live changes nothing.
  pub prune_expired-live :
      (now : Timestamp) (s : State host.Number)
      → IsEach (λ key e. IsLive now.millis e) s.entries
      → prune_expired host now s ≡ (ok tt, s)
  unfolding prune_expired prune_count
  prune_expired-live now s h =
      let same : prune_entries host now.millis s.entries ≡ (ok 0, s.entries) =
        prune_entries-live now.millis s.entries h in
      rw (prune_expired, same, same) refl
