-- ===== src/Profile/Reads.antt =====
-- recommendation/profile-store.ts: reading a profile, also after an ingest and after a deletion.
use open_interest_clusters.Prelude.{
  ◌+◌, ◌≤◌, String, ◌≡◌, refl, arith, List, Option, none, some, false, ◌==◌, eq_iff, length,
  Option-cases, inl, inr, ◌⊎◌, Result, ok, >>=-eq-ok,
}
use open_interest_clusters.Prelude.Dict.{
  Dict, lookup, insert, delete, lookup-insert, lookup-delete, insert_again,
}
use open_interest_clusters.Js.{Value}
use open_interest_clusters.Js.Host.{Host}
use open_interest_clusters.Profile.Entry.{Timestamp}
use open_interest_clusters.Profile.Store.{
  State, Snapshot, IngestResult, Settings, empty_snapshot, valid_subject_id, normalize_now,
}
use open_interest_clusters.Profile.Operations.{
  Batch, prepare_batch, state_or_empty, ingest_input, ingest_signals, read_input, read_profile,
  delete_input, delete_profile,
}
use open_interest_clusters.Prelude.Each.{IsEach-lookup}
use open_interest_clusters.Profile.Invariant.{IsTimestamp, IsProfile, IsStore}
use open_interest_clusters.Profile.Batch.{prepare_batch-IsPrepared}
use open_interest_clusters.Profile.Snapshot.{Answers, read_state-Answers, ingest_state-fits, whole}
use open_interest_clusters.Profile.Laws.{
  normalize_now-IsTimestamp, state_or_empty-IsProfile, ingest_input-IsTimestamp,
}

module _ (host : Host) where
  same_read_time :
      (subject subject' : String) (now now' : Timestamp)
      → IsTimestamp host now
      → ◌≡◌ {A = Result (String × Timestamp)} (ok (subject, now)) (ok (subject', now'))
      → IsTimestamp host now'
  same_read_time subject subject' now now' timed h =
      let same : now ≡ now' = ground arith in rw same at timed

  pub read_input-IsTimestamp :
      (id : Value host.Number) (clock subject : String) (now : Timestamp)
      → read_input host id clock ≡ ok (subject, now)
      → IsTimestamp host now
  unfolding read_input
  read_input-IsTimestamp id clock subject now h =
      let (subject', valid, h1) = >>=-eq-ok (valid_subject_id host id) _ h in
      let (time, timed, h2) = >>=-eq-ok (normalize_now host none clock) _ h1 in
      same_read_time subject' subject time now
        (normalize_now-IsTimestamp host none clock time timed) h2

  -- What a read returns and stores: nothing for a subject that has no profile, else the profile that
  -- it prunes
  abbrev pub Reads :
      Settings
      → String
      → Timestamp
      → Dict (State host.Number)
      → Result (Snapshot host.Number) × Dict (State host.Number)
      → Type 0
  Reads c subject now profiles outcome =
      ((lookup subject profiles ≡ none) × (outcome ≡ (ok (empty_snapshot now.value), profiles)))
      ⊎ ((s : State host.Number) × (s' : State host.Number) × (p : Snapshot host.Number) × (lookup
              subject profiles
            ≡ some s)
          × Answers host c now s s' p
          × (outcome ≡ (ok p, insert subject s' profiles)))

  -- A read of a well-formed store with a valid subject and clock throws nothing. Where the subject has
  -- no profile it returns an empty snapshot and changes nothing; else it stores the entries of the
  -- profile that have no expiry or one after the time of the read, all of them and no other, in a
  -- well-formed profile, and returns the snapshot that shows each of them once.
  pub read_profile-Reads :
      (c : Settings) (id : Value host.Number) (clock : String) (profiles : Dict (State host.Number))
      (subject : String) (now : Timestamp)
      → IsStore host c profiles
      → read_input host id clock ≡ ok (subject, now)
      → Reads c subject now profiles (read_profile host id clock profiles)
  unfolding read_profile
  read_profile-Reads c id clock profiles subject now h checked =
      elim (Option-cases (lookup subject profiles)) [
        | inl absent ↦ inl (absent, rw (read_profile, checked, absent) refl)
        | inr (s, found) ↦
            let (s', p, read) =
              read_state-Answers host c now s
                (IsEach-lookup (λ subject s. IsProfile host c s) subject s profiles h.each found)
                (read_input-IsTimestamp id clock subject now checked) in
            inr (s, s', p, found, read, rw (read_profile, checked, found, read.ran) refl)
      ]

  -- Where a profile and the signals of an ingest have no more entries together than the limit, a
  -- read at the time of the ingest returns the snapshot that the ingest returned, and changes
  -- nothing.
  pub read_profile-ingest_signals :
      (c : Settings) (input id : Value host.Number) (given : Option String) (clock clock' : String)
      (profiles : Dict (State host.Number)) (subject : String) (now : Timestamp)
      (signals : List (Value host.Number)) (b : Batch host.Number)
      → IsStore host c profiles
      → ingest_input host input given clock ≡ ok (subject, now, signals)
      → prepare_batch host c now signals ≡ ok b
      → length (state_or_empty host (lookup subject profiles) now).entries + length b.accepted
        ≤ c.max_entries
      → read_input host id clock' ≡ ok (subject, now)
      → (r : IngestResult host.Number) × (profiles' : Dict (State host.Number)) × (ingest_signals
            host c input given clock profiles
          ≡ (ok r, profiles'))
        × (read_profile host id clock' profiles' ≡ (ok r.profile, profiles'))
  unfolding ingest_signals read_profile
  read_profile-ingest_signals c input id given clock clock' profiles subject now signals b h checked
        prepared fits checked' =
      let timed : IsTimestamp host now =
        ingest_input-IsTimestamp host input given clock subject now signals checked in
      let (ready, count) = prepare_batch-IsPrepared host c now signals b prepared in
      let (s, ran, read) =
        ingest_state-fits host c now b.accepted (state_or_empty host (lookup subject profiles) now)
          (state_or_empty-IsProfile host c now subject profiles h timed) ready timed fits in
      let stored : lookup subject (insert subject s profiles) ≡ some s =
        ground (arith, lookup-insert subject subject s profiles, eq_iff subject subject) in
      (
        record {
          accepted_signal_count = length b.accepted;
          skipped_expired_signal_count = b.skipped;
          profile = whole host s;
        },
        insert subject s profiles,
        rw (ingest_signals, checked, prepared, ran) refl,
        rw
            (
              read_profile,
              checked',
              stored,
              read,
              insert_again subject s (insert subject s profiles) stored,
            )
            refl,
      )

  -- After a deletion a read of the subject returns an empty snapshot, and the profiles of the other
  -- subjects are as before.
  pub read_profile-delete_profile :
      (c : Settings) (intent id : Value host.Number) (at : Option String) (clock clock' : String)
      (profiles : Dict (State host.Number)) (subject : String) (requested now : Timestamp)
      → IsStore host c profiles
      → delete_input host intent at clock ≡ ok (subject, requested)
      → read_input host id clock' ≡ ok (subject, now)
      → ((read_profile host id clock' (delete_profile host intent at clock profiles).1).0
          ≡ ok (empty_snapshot now.value))
        × ((other : String)
            → (subject == other) ≡ false
            → lookup other (delete_profile host intent at clock profiles).1 ≡ lookup other profiles)
  unfolding read_profile delete_profile
  read_profile-delete_profile c intent id at clock clock' profiles subject requested now h checked
        checked' =
      let gone : lookup subject (delete subject profiles) ≡ none =
        ground (arith, lookup-delete subject subject profiles h.dict, eq_iff subject subject) in
      (
        rw (read_profile, checked', delete_profile, checked, gone) refl,
        λ other apart.
            rw (delete_profile, checked)
              (ground (arith, lookup-delete subject other profiles h.dict)),
      )
