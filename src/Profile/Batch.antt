-- ===== src/Profile/Batch.antt =====
-- recommendation/profile-store.ts, prepareSignalBatch: what is known of the signals that it accepts.
use open_interest_clusters.Prelude.{
  ℕ, suc, ◌+◌, String, Bool, ◌≡◌, refl, arith, List, [], ◌∷◌, Option, none, some, true, false,
  length, All, Bool-cases, inl, inr, if◌then◌else◌, Failure, type_error, Result, ok, ◌>>◌, ensure,
  >>=-eq-ok,
}
use open_interest_clusters.Prelude.Int.{ℤ}
use open_interest_clusters.Prelude.Dict.{is_some}
use open_interest_clusters.Prelude.Vocabulary.{includes}
use open_interest_clusters.Js.{Value}
use open_interest_clusters.Js.Host.{Host}
use open_interest_clusters.Storage.Authority.{processing_boundary_vocabulary}
use open_interest_clusters.Signals.Signal.{Signal, valid_signal, normalize_signal}
use open_interest_clusters.Profile.Entry.{Timestamp, Prepared, target_key, timestamp_millis}
use open_interest_clusters.Profile.Store.{Settings}
use open_interest_clusters.Profile.Operations.{
  Batch, optional_millis, has_passed, prepare_signal, prepare_batch, add_prepared,
}
use open_interest_clusters.Profile.Invariant.{IsDated, IsDatedIfAny, IsPrepared}

ensured : (b : Bool) (u : Unit {0}) (f : Failure) → ensure b f ≡ ok u → b ≡ true
ensured true u f h = refl
ensured false u f h = cc

module _ (host : Host) where
  optional_millis-IsDated :
      (text : Option String) (m : Option ℤ)
      → optional_millis host text ≡ ok m
      → IsDatedIfAny host text
  optional_millis-IsDated none m h = tt
  optional_millis-IsDated (some text) m h =
      let (millis, ran, same) = >>=-eq-ok (timestamp_millis host text) _ h in (millis, ran)

  -- The signal that the loop pushes, from the parts that its checks have passed
  ready_signal :
      (c : Settings) (now : Timestamp) (signal : Signal host.Number) (observed : ℤ)
      (expires : Option ℤ) (p : Prepared host.Number) {named : Result (Signal host.Number)}
      → includes c.allowed_privacy_boundaries signal.privacy_boundary ≡ true
      → IsDated host signal.evidence.observed_at
      → IsDatedIfAny host signal.expires_at
      → ok (
          if has_passed host expires now.millis
          then none
          else some (record {
            signal = signal;
            key = target_key signal.target;
            observed_at_millis = observed;
            expires_at_millis = expires;
          }))
        ≡ ok (some p)
      → named ≡ ok signal
      → IsPrepared host c p
        × (named ≡ ok p.signal)
        × (has_passed host p.expires_at_millis now.millis ≡ false)
  ready_signal c now signal observed expires p allowed seen dated h named =
      elim (Bool-cases (has_passed host expires now.millis)) [
        | inl gone ↦ ground arith
        | inr live ↦
            let taken : Prepared host.Number = record {
              signal = signal;
              key = target_key signal.target;
              observed_at_millis = observed;
              expires_at_millis = expires;
            } in
            let same : taken ≡ p = ground arith in
            rw (← same) (
              record { keyed = refl; allowed = allowed; observed = seen; expiring = dated },
              named,
              live,
            )
      ]

  -- A signal that the loop takes: it is ready, and has not expired.
  pub prepare_signal-IsPrepared :
      (c : Settings) (now : Timestamp) (raw : Value host.Number) (p : Prepared host.Number)
      → prepare_signal host c now raw ≡ ok (some p)
      → IsPrepared host c p
        × (normalize_signal host raw ≡ ok p.signal)
        × (has_passed host p.expires_at_millis now.millis ≡ false)
  unfolding prepare_signal
  prepare_signal-IsPrepared c now raw p h =
      let (signal, checked, h1) =
        >>=-eq-ok
          (ensure (is_some (valid_signal host raw))
              (type_error "Invalid recommendation profile interest signal.")
            >> normalize_signal host raw)
          _ h in
      let (u, is_signal, named) =
        >>=-eq-ok (ensure (is_some (valid_signal host raw)) _) _ checked in
      let (observed, seen, h2) =
        >>=-eq-ok
          (ensure (includes c.allowed_privacy_boundaries signal.privacy_boundary)
              (type_error "Recommendation profile signal privacy boundary is not allowed.")
            >> timestamp_millis host signal.evidence.observed_at)
          _ h1 in
      let (v, allowed, timed) =
        >>=-eq-ok (ensure (includes c.allowed_privacy_boundaries signal.privacy_boundary) _) _
          seen in
      let (expires, dated, h3) = >>=-eq-ok (optional_millis host signal.expires_at) _ h2 in
      ready_signal c now signal observed expires p
        (ensured (includes c.allowed_privacy_boundaries signal.privacy_boundary) v _ allowed)
        (observed, timed) (optional_millis-IsDated signal.expires_at expires dated) h3 named

  add_prepared-IsPrepared :
      (c : Settings) (now : Timestamp) (raw : Value host.Number) (o : Option (Prepared host.Number))
      (b : Batch host.Number) {n : ℕ}
      → prepare_signal host c now raw ≡ ok o
      → All (IsPrepared host c) b.accepted
      → length b.accepted + b.skipped ≡ n
      → All (IsPrepared host c) (add_prepared host o b).accepted
        × (length (add_prepared host o b).accepted + (add_prepared host o b).skipped ≡ suc n)
  add_prepared-IsPrepared c now raw none b h ready count = (ready, omega (arith, count))
  add_prepared-IsPrepared c now raw (some p) b h ready count =
      (((prepare_signal-IsPrepared c now raw p h).0, ready), omega (arith, count))

  -- The loop counts each signal as taken or as expired, and what it takes is ready.
  pub prepare_batch-IsPrepared :
      (c : Settings) (now : Timestamp) (raws : List (Value host.Number)) (b : Batch host.Number)
      → prepare_batch host c now raws ≡ ok b
      → All (IsPrepared host c) b.accepted × (length b.accepted + b.skipped ≡ length raws)
  unfolding prepare_batch
  prepare_batch-IsPrepared c now [] b h =
      let same : record { accepted = []; skipped = 0 } ≡ b = ground arith in rw (← same) (tt, refl)
  prepare_batch-IsPrepared c now (raw ∷ raws) b h =
      let (o, first, h1) = >>=-eq-ok (prepare_signal host c now raw) _ h in
      let (rest, others, h2) = >>=-eq-ok (prepare_batch host c now raws) _ h1 in
      let same : add_prepared host o rest ≡ b = ground arith in
      let (ready, count) = prepare_batch-IsPrepared c now raws rest others in
      rw (← same) (add_prepared-IsPrepared c now raw o rest first ready count)
