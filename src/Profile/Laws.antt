-- ===== src/Profile/Laws.antt =====
-- recommendation/profile-store.ts: the operations of the store on well-formed profiles.
use open_interest_clusters.Prelude.{
  ◌+◌, String, ◌≡◌, refl, arith, List, Option, none, some, length, Option-cases, inl, inr, Result,
  ok, ◌>>◌, >>=-eq-ok,
}
use open_interest_clusters.Prelude.Dict.{Dict, lookup, insert, insert-IsDict}
use open_interest_clusters.Js.{Value, get}
use open_interest_clusters.Js.Host.{Host}
use open_interest_clusters.Profile.Entry.{Timestamp, timestamp_millis}
use open_interest_clusters.Profile.Store.{
  State, IngestResult, Settings, empty_state, valid_subject_id, normalize_now,
}
use open_interest_clusters.Profile.Operations.{
  Batch, prepare_batch, state_or_empty, signal_list, ingest_input, ingest_signals,
}
use open_interest_clusters.Prelude.Each.{insert-IsEach, IsEach-lookup}
use open_interest_clusters.Profile.Invariant.{IsTimestamp, IsProfile, IsStore}
use open_interest_clusters.Profile.Batch.{prepare_batch-IsPrepared}
use open_interest_clusters.Profile.Snapshot.{IsCurrent, Shows, ingest_state-IsIngested}

module _ (host : Host) where
  pub normalize_now-IsTimestamp :
      (given : Option String) (clock : String) (now : Timestamp)
      → normalize_now host given clock ≡ ok now
      → IsTimestamp host now
  unfolding normalize_now
  normalize_now-IsTimestamp none clock now h =
      let (m, ran, same) = >>=-eq-ok (timestamp_millis host clock) _ h in
      let is_now : record { value = clock; millis = m } ≡ now = ground arith in rw (← is_now) ran
  normalize_now-IsTimestamp (some text) clock now h =
      let (m, ran, same) = >>=-eq-ok (timestamp_millis host text) _ h in
      let is_now : record { value = text; millis = m } ≡ now = ground arith in rw (← is_now) ran

  -- A profile that has no signal yet
  empty_state-IsProfile :
      (c : Settings) (now : Timestamp)
      → IsTimestamp host now
      → IsProfile host c (empty_state now.value)
  empty_state-IsProfile c now timed = record {
    filled = record { dict = tt; each = tt; summed = refl; updated = (now.millis, timed) };
    bounded = omega arith;
  }

  pub state_or_empty-IsProfile :
      (c : Settings) (now : Timestamp) (subject : String) (profiles : Dict (State host.Number))
      → IsStore host c profiles
      → IsTimestamp host now
      → IsProfile host c (state_or_empty host (lookup subject profiles) now)
  state_or_empty-IsProfile c now subject profiles h timed =
      elim (Option-cases (lookup subject profiles)) [
        | inl new ↦ rw new (empty_state-IsProfile c now timed)
        | inr (s, found) ↦
            rw found
              (IsEach-lookup (λ subject s. IsProfile host c s) subject s profiles h.each found)
      ]

  pub insert-IsStore :
      (c : Settings) (subject : String) (s : State host.Number)
      (profiles : Dict (State host.Number))
      → IsStore host c profiles
      → IsProfile host c s
      → IsStore host c (insert subject s profiles)
  insert-IsStore c subject s profiles h p = record {
    dict = insert-IsDict subject s profiles h.dict;
    each = insert-IsEach (λ subject s. IsProfile host c s) subject s profiles h.each p;
  }

  -- What an ingest did: the profile that it stored, which its result shows
  pub record Ingests (c : Settings) (subject : String) (now : Timestamp) (b : Batch host.Number)
      (profiles : Dict (State host.Number))
      (outcome : Result (IngestResult host.Number) × Dict (State host.Number)) : Type 0 where
    pub result : IngestResult host.Number
    pub state : State host.Number
    pub ran : outcome ≡ (ok result, insert subject state profiles)
    pub accepted : result.accepted_signal_count ≡ length b.accepted
    pub skipped : result.skipped_expired_signal_count ≡ b.skipped
    pub profile : IsProfile host c state
    pub current : IsCurrent host now state
    pub shows : Shows host state result.profile

  same_time :
      {A : Type 0} (subject subject' : String) (now now' : Timestamp) (a a' : A)
      → IsTimestamp host now
      → ◌≡◌ {A = Result (String × Timestamp × A)} (ok (subject, now, a)) (ok (subject', now', a'))
      → IsTimestamp host now'
  same_time subject subject' now now' a a' timed h =
      let same : now ≡ now' = ground arith in rw same at timed

  pub ingest_input-IsTimestamp :
      (input : Value host.Number) (given : Option String) (clock subject : String) (now : Timestamp)
      (signals : List (Value host.Number))
      → ingest_input host input given clock ≡ ok (subject, now, signals)
      → IsTimestamp host now
  unfolding ingest_input
  ingest_input-IsTimestamp input given clock subject now signals h =
      let (xs, checked, h1) = >>=-eq-ok (_ >> signal_list host (get input "signals")) _ h in
      let (id, valid, h2) = >>=-eq-ok (valid_subject_id host (get input "subjectId")) _ h1 in
      let (time, timed, h3) = >>=-eq-ok (normalize_now host given clock) _ h2 in
      same_time id subject time now xs signals (normalize_now-IsTimestamp given clock time timed) h3

  -- An ingest whose input and signals pass the checks stores a well-formed profile whose entries
  -- have not expired, and throws nothing.
  pub ingest_signals-Ingests :
      (c : Settings) (input : Value host.Number) (given : Option String) (clock : String)
      (profiles : Dict (State host.Number)) (subject : String) (now : Timestamp)
      (signals : List (Value host.Number)) (b : Batch host.Number)
      → IsStore host c profiles
      → ingest_input host input given clock ≡ ok (subject, now, signals)
      → prepare_batch host c now signals ≡ ok b
      → Ingests c subject now b profiles (ingest_signals host c input given clock profiles)
        × (length b.accepted + b.skipped ≡ length signals)
  unfolding ingest_signals
  ingest_signals-Ingests c input given clock profiles subject now signals b h checked prepared =
      let timed : IsTimestamp host now =
        ingest_input-IsTimestamp input given clock subject now signals checked in
      let (ready, count) = prepare_batch-IsPrepared host c now signals b prepared in
      let (s, p, done) =
        ingest_state-IsIngested host c now b.accepted
          (state_or_empty host (lookup subject profiles) now)
          (state_or_empty-IsProfile c now subject profiles h timed) ready timed in
      (
        record {
          result = record {
            accepted_signal_count = length b.accepted;
            skipped_expired_signal_count = b.skipped;
            profile = p;
          };
          state = s;
          ran = rw (ingest_signals, checked, prepared, done.ran) refl;
          accepted = refl;
          skipped = refl;
          profile = done.profile;
          current = done.current;
          shows = done.shows;
        },
        count,
      )
