-- ===== src/Profile/Apart.antt =====
-- recommendation/profile-store.ts: a call leaves the profiles of the subjects that it does not name.
use open_interest_clusters.Prelude.{
  String, ◌≡◌, ◌≢◌, refl, ap, ◌∙◌, arith, List, Option, none, false, ◌==◌, eq_iff, Result-cases,
  Bool-cases, inl, inr, ok, ◌>>◌, >>=-eq-ok, ensure,
}
use open_interest_clusters.Prelude.Dict.{Dict, lookup, insert, lookup-insert, lookup-delete}
use open_interest_clusters.Js.{Value, get}
use open_interest_clusters.Js.Host.{Host}
use open_interest_clusters.Profile.Entry.{Timestamp}
use open_interest_clusters.Profile.Store.{State, Settings, valid_subject_id, normalize_now}
use open_interest_clusters.Profile.Operations.{
  signal_list, prepare_batch, ingest_input, ingest_signals, read_input, read_profile,
  is_deletion_intent, delete_input, delete_profile,
}
use open_interest_clusters.Profile.Invariant.{IsStore}
use open_interest_clusters.Profile.Laws.{ingest_signals-Ingests}
use open_interest_clusters.Profile.Reads.{read_profile-Reads}
use open_interest_clusters.Profile.Runs.{Call, ingests, reads, deletes, after}

module _ (host : Host) where
  -- The subject that a call names, as it is given
  abbrev pub named : Call host → Value host.Number
  named (ingests input now clock) = get input "subjectId"
  named (reads subject_id clock) = subject_id
  named (deletes intent requested_at clock) = get intent "subjectId"

  ingest_input-named :
      (input : Value host.Number) (given : Option String) (clock subject : String) (now : Timestamp)
      (signals : List (Value host.Number))
      → ingest_input host input given clock ≡ ok (subject, now, signals)
      → valid_subject_id host (get input "subjectId") ≡ ok subject
  unfolding ingest_input
  ingest_input-named input given clock subject now signals h =
      let (xs, checked, h1) = >>=-eq-ok (_ >> signal_list host (get input "signals")) _ h in
      let (id, valid, h2) = >>=-eq-ok (valid_subject_id host (get input "subjectId")) _ h1 in
      let (time, timed, h3) = >>=-eq-ok (normalize_now host given clock) _ h2 in
      let same : id ≡ subject = ground arith in rw valid (ap (λ s. ok s) same)

  read_input-named :
      (id : Value host.Number) (clock subject : String) (now : Timestamp)
      → read_input host id clock ≡ ok (subject, now)
      → valid_subject_id host id ≡ ok subject
  unfolding read_input
  read_input-named id clock subject now h =
      let (subject', valid, h1) = >>=-eq-ok (valid_subject_id host id) _ h in
      let (time, timed, h2) = >>=-eq-ok (normalize_now host none clock) _ h1 in
      let same : subject' ≡ subject = ground arith in rw valid (ap (λ s. ok s) same)

  delete_input-named :
      (intent : Value host.Number) (at : Option String) (clock subject : String) (now : Timestamp)
      → delete_input host intent at clock ≡ ok (subject, now)
      → valid_subject_id host (get intent "subjectId") ≡ ok subject
  unfolding delete_input
  delete_input-named intent at clock subject now h =
      let (id, checked, h1) = >>=-eq-ok (_ >> valid_subject_id host (get intent "subjectId")) _ h in
      let (u, k, valid) = >>=-eq-ok (ensure (is_deletion_intent host intent) _) _ checked in
      let (time, timed, h2) = >>=-eq-ok (normalize_now host at clock) _ h1 in
      let same : id ≡ subject = ground arith in rw valid (ap (λ s. ok s) same)

  -- The valid subject that a call names is not this one.
  apart :
      (id : Value host.Number) (subject other : String)
      → valid_subject_id host id ≡ ok subject
      → valid_subject_id host id ≢ ok other
      → (subject == other) ≡ false
  apart id subject other valid differs = elim (Bool-cases (subject == other)) [
    | inr e ↦ e
    | inl e ↦ absurd (differs (valid ∙ ap (λ s. ok s) ((eq_iff subject other).0 e)))
  ]

  lookup-insert_apart :
      (subject other : String) (s : State host.Number) (profiles : Dict (State host.Number))
      → (subject == other) ≡ false
      → lookup other (insert subject s profiles) ≡ lookup other profiles
  lookup-insert_apart subject other s profiles h =
      rw (lookup-insert subject other s profiles, h) refl

  -- On a well-formed store a call changes at most the profile of the valid subject that it names: the
  -- profile of every other subject is as before, also where the call throws.
  pub lookup-after_other :
      (c : Settings) (call : Call host) (other : String) (profiles : Dict (State host.Number))
      → IsStore host c profiles
      → valid_subject_id host (named call) ≢ ok other
      → lookup other (after host c call profiles) ≡ lookup other profiles
  unfolding after ingest_signals read_profile delete_profile
  lookup-after_other c (ingests input given clock) other profiles h differs =
      elim (Result-cases (ingest_input host input given clock)) [
        | inr (f, failed) ↦ rw (after, ingest_signals, failed) refl
        | inl ((subject, now, signals), checked) ↦
            elim (Result-cases (prepare_batch host c now signals)) [
              | inr (f, failed) ↦ rw (after, ingest_signals, checked, failed) refl
              | inl (b, prepared) ↦
                  let (done, count) =
                    ingest_signals-Ingests host c input given clock profiles subject now signals b h
                      checked prepared in
                  rw (after, done.ran)
                    (lookup-insert_apart subject other done.state profiles (
                      apart (get input "subjectId") subject other
                        (ingest_input-named input given clock subject now signals checked) differs))
            ]
      ]
  lookup-after_other c (reads id clock) other profiles h differs =
      elim (Result-cases (read_input host id clock)) [
        | inr (f, failed) ↦ rw (after, read_profile, failed) refl
        | inl ((subject, now), checked) ↦
            elim (read_profile-Reads host c id clock profiles subject now h checked) [
              | inl (absent, ran) ↦ rw (after, ran) refl
              | inr (s, s', p, found, read, ran) ↦
                  rw (after, ran)
                    (lookup-insert_apart subject other s' profiles (
                      apart id subject other (read_input-named id clock subject now checked)
                        differs))
            ]
      ]
  lookup-after_other c (deletes intent at clock) other profiles h differs =
      elim (Result-cases (delete_input host intent at clock)) [
        | inr (f, failed) ↦ rw (after, delete_profile, failed) refl
        | inl ((subject, now), checked) ↦
            rw
              (
                after,
                delete_profile,
                checked,
                lookup-delete subject other profiles h.dict,
                apart (get intent "subjectId") subject other
                    (delete_input-named intent at clock subject now checked) differs,
              )
              refl
      ]
