-- ===== src/Profile/Runs.antt =====
-- recommendation/profile-store.ts: any sequence of the store's operations, with inputs that are
-- valid or not.
use open_interest_clusters.Prelude.{String, List, [], ◌∷◌, Option, Result-cases, inl, inr}
use open_interest_clusters.Prelude.Dict.{Dict, delete-IsDict}
use open_interest_clusters.Js.{Value}
use open_interest_clusters.Js.Host.{Host}
use open_interest_clusters.Profile.Store.{State, Settings}
use open_interest_clusters.Profile.Operations.{
  prepare_batch, ingest_input, ingest_signals, read_input, read_profile, delete_input,
  delete_profile,
}
use open_interest_clusters.Prelude.Each.{delete-IsEach}
use open_interest_clusters.Profile.Invariant.{IsProfile, IsStore}
use open_interest_clusters.Profile.Laws.{ingest_signals-Ingests, insert-IsStore}
use open_interest_clusters.Profile.Reads.{read_profile-Reads}

module _ (host : Host) where
  -- A call of the store, with what its clock says
  pub data Call : Type 0 where
    ingests : Value host.Number → Option String → String → Call
    reads : Value host.Number → String → Call
    deletes : Value host.Number → Option String → String → Call

  -- The profiles after a call
  unfoldable pub after : Settings → Call → Dict (State host.Number) → Dict (State host.Number)
  after c (ingests input now clock) profiles = (ingest_signals host c input now clock profiles).1
  after c (reads subject_id clock) profiles = (read_profile host subject_id clock profiles).1
  after c (deletes intent requested_at clock) profiles =
      (delete_profile host intent requested_at clock profiles).1

  -- The profiles after the calls, the first one first
  unfoldable pub after_all :
      Settings → List Call → Dict (State host.Number) → Dict (State host.Number)
  after_all c [] profiles = profiles
  after_all c (call ∷ calls) profiles = after_all c calls (after c call profiles)

  ingest-IsStore :
      (c : Settings) (input : Value host.Number) (given : Option String) (clock : String)
      (profiles : Dict (State host.Number))
      → IsStore host c profiles
      → IsStore host c (ingest_signals host c input given clock profiles).1
  unfolding ingest_signals
  ingest-IsStore c input given clock profiles h =
      elim (Result-cases (ingest_input host input given clock)) [
        | inr (f, failed) ↦ rw (ingest_signals, failed) h
        | inl ((subject, now, signals), checked) ↦
            elim (Result-cases (prepare_batch host c now signals)) [
              | inr (f, failed) ↦ rw (ingest_signals, checked, failed) h
              | inl (b, prepared) ↦
                  let (done, count) =
                    ingest_signals-Ingests host c input given clock profiles subject now signals b h
                      checked prepared in
                  rw done.ran (insert-IsStore host c subject done.state profiles h done.profile)
            ]
      ]

  read-IsStore :
      (c : Settings) (id : Value host.Number) (clock : String) (profiles : Dict (State host.Number))
      → IsStore host c profiles
      → IsStore host c (read_profile host id clock profiles).1
  unfolding read_profile
  read-IsStore c id clock profiles h = elim (Result-cases (read_input host id clock)) [
    | inr (f, failed) ↦ rw (read_profile, failed) h
    | inl ((subject, now), checked) ↦
        elim (read_profile-Reads host c id clock profiles subject now h checked) [
          | inl (absent, ran) ↦ rw ran h
          | inr (s, s', p, found, read, ran) ↦
              rw ran (insert-IsStore host c subject s' profiles h read.profile)
        ]
  ]

  delete-IsStore :
      (c : Settings) (intent : Value host.Number) (at : Option String) (clock : String)
      (profiles : Dict (State host.Number))
      → IsStore host c profiles
      → IsStore host c (delete_profile host intent at clock profiles).1
  unfolding delete_profile
  delete-IsStore c intent at clock profiles h =
      elim (Result-cases (delete_input host intent at clock)) [
        | inr (f, failed) ↦ rw (delete_profile, failed) h
        | inl ((subject, now), checked) ↦
            rw (delete_profile, checked)
              (record {
                dict = delete-IsDict subject profiles h.dict;
                each = delete-IsEach (λ subject s. IsProfile host c s) subject profiles h.each;
              })
      ]

  after-IsStore :
      (c : Settings) (call : Call) (profiles : Dict (State host.Number))
      → IsStore host c profiles
      → IsStore host c (after c call profiles)
  unfolding after
  after-IsStore c (ingests input now clock) profiles h = ingest-IsStore c input now clock profiles h
  after-IsStore c (reads id clock) profiles h = read-IsStore c id clock profiles h
  after-IsStore c (deletes intent at clock) profiles h = delete-IsStore c intent at clock profiles h

  -- Any calls of the store, with valid or invalid inputs and also where they throw, keep it well
  -- formed: a profile has at most as many entries as the limit, each under its key, with the privacy
  -- boundaries that the store allows, and counts the signals of its entries, each once, by polarity.
  pub after_all-IsStore :
      (c : Settings) (calls : List Call) (profiles : Dict (State host.Number))
      → IsStore host c profiles
      → IsStore host c (after_all c calls profiles)
  unfolding after_all
  after_all-IsStore c [] profiles h = h
  after_all-IsStore c (call ∷ calls) profiles h =
      after_all-IsStore c calls (after c call profiles) (after-IsStore c call profiles h)

  pub empty-IsStore : (c : Settings) → IsStore host c []
  empty-IsStore c = record { dict = tt; each = tt }
