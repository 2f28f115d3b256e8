-- ===== src/Ledger/BatchLaws.antt =====
-- recommendation/signal-ledger.ts: a batch as a sequence of ingests, and its counts.
use open_interest_clusters.Prelude.{
  ◌≡◌, refl, ap, arith, List, [], ◌∷◌, ◌++◌, length, ok, throw, Result, Failure, ◌>>=◌, >>=-eq-ok,
  Result-cases, inl, inr, ◌⊎◌,
}
use open_interest_clusters.Js.{Value, Items, arr, items}
use open_interest_clusters.Js.Host.{Host}
use open_interest_clusters.Ledger.State.{IngestResult, Ledger, Settings, ingest}
use open_interest_clusters.Ledger.Batch.{BatchResult, ingest_all, batch_result, ingest_batch}
use open_interest_clusters.Ledger.Invariant.{IsLedger}
use open_interest_clusters.Ledger.Retraction.{Leads, stay, step, Leads-IsLedger}
use open_interest_clusters.Ledger.Tally.{Tally, count-Tally}

module _ (host : Host) (c : Settings) where
  Leads-trans :
      (l m n : Ledger host.Number) → Leads host c l m → Leads host c m n → Leads host c l n
  Leads-trans l m n first stay = first
  Leads-trans l m n first (step {m = k} input r rest run) =
      step input r (Leads-trans l m k first rest) run

  pub ingest_all-Leads :
      (events : List (Value host.Number)) (l : Ledger host.Number)
      → Leads host c l (ingest_all host c events l).1
  unfolding ingest_all
  ingest_all-Leads [] l = stay
  ingest_all-Leads (event ∷ events) l = elim (Result-cases (ingest host c event l)) [
    | inr (f, failed) ↦ rw (failed, ingest_all) stay
    | inl ((r, m), ran) ↦
        rw (ran, ingest_all)
          (Leads-trans l m (ingest_all host c events m).1 (step event r stay ran)
            (ingest_all-Leads events m))
  ]

  ingest_all-length :
      (events : List (Value host.Number)) (l : Ledger host.Number) (rs : List IngestResult)
      → (ingest_all host c events l).0 ≡ ok rs
      → length rs ≡ length events
  unfolding ingest_all
  ingest_all-length [] l rs h = ground arith
  ingest_all-length (event ∷ events) l rs h = elim (Result-cases (ingest host c event l)) [
    | inr (f, failed) ↦ ground arith
    | inl ((r, m), ran) ↦
        let opened : ((ingest_all host c events m).0 >>= λ xs. ok (r ∷ xs)) ≡ ok rs =
          rw (ran, ingest_all) at h in
        let (xs, rest, same) = >>=-eq-ok (ingest_all host c events m).0 _ opened in
        ground (arith, ingest_all-length events m xs rest)
  ]

  -- The events are ingested in their order, each into the ledger that the one before it left, with
  -- these results.
  pub data Ingests
      : List (Value host.Number)
        → Ledger host.Number
        → List IngestResult
        → Ledger host.Number
        → Type 0 where
    nothing : {l : Ledger host.Number} → Ingests [] l [] l
    ingested :
        {event : Value host.Number} {events : List (Value host.Number)} {r : IngestResult}
        {rs : List IngestResult} {l m end : Ledger host.Number}
        → ingest host c event l ≡ ok (r, m)
        → Ingests events m rs end
        → Ingests (event ∷ events) l (r ∷ rs) end

  -- The events before one that throws are ingested, and neither that one nor those after it.
  pub record IsStopped (events : List (Value host.Number)) (l end : Ledger host.Number)
      (f : Failure) : Type 0 where
    pub before : List (Value host.Number)
    pub event : Value host.Number
    pub after : List (Value host.Number)
    pub results : List IngestResult
    pub split : events ≡ before ++ event ∷ after
    pub ingests : Ingests before l results end
    pub throws : ingest host c event end ≡ throw f

  IsStopped-later :
      (e : Value host.Number) (events : List (Value host.Number)) (r : IngestResult)
      (l m end : Ledger host.Number) (f : Failure)
      → ingest host c e l ≡ ok (r, m)
      → IsStopped events m end f
      → IsStopped (e ∷ events) l end f
  IsStopped-later e events r l m end f ran h = record {
    before = e ∷ h.before;
    event = h.event;
    after = h.after;
    results = r ∷ h.results;
    split = ap (λ es. e ∷ es) h.split;
    ingests = ingested ran h.ingests;
    throws = h.throws;
  }

  -- What the loop comes to: the results of all events, or the error of the first that throws.
  abbrev Loops :
      List (Value host.Number)
      → Ledger host.Number
      → Result (List IngestResult) × Ledger host.Number
      → Type 0
  Loops events l outcome =
      ((rs : List IngestResult) × (outcome.0 ≡ ok rs) × Ingests events l rs outcome.1)
      ⊎ ((f : Failure) × (outcome.0 ≡ throw f) × IsStopped events l outcome.1 f)

  ingest_all-Loops :
      (events : List (Value host.Number)) (l : Ledger host.Number)
      → Loops events l (ingest_all host c events l)
  unfolding ingest_all
  ingest_all-Loops [] l = inl ([], refl, nothing)
  ingest_all-Loops (event ∷ events) l = elim (Result-cases (ingest host c event l)) [
    | inr (f, failed) ↦
        rw (failed, ingest_all)
          (inr (
            f,
            refl,
            record {
              before = [];
              event = event;
              after = events;
              results = [];
              split = refl;
              ingests = nothing;
              throws = failed;
            },
          ))
    | inl ((r, m), ran) ↦ elim (ingest_all-Loops events m) [
      | inl (rs, all, ingests) ↦
          rw (ran, ingest_all) (inl (r ∷ rs, rw all refl, ingested ran ingests))
      | inr (f, one, stopped) ↦
          rw (ran, ingest_all)
            (inr (f, rw one refl, IsStopped-later event events r l m _ f ran stopped))
    ]
  ]

  -- A batch into a well-formed ledger leaves a well-formed one. Either it ingests all its events, in
  -- their order, and returns their results, or it throws the error of the first event that throws,
  -- with the events before that one ingested and none after it.
  pub ingest_batch-Ingests :
      (vs : Items host.Number) (l : Ledger host.Number)
      → IsLedger c l
      → IsLedger c (ingest_batch host c (arr vs) l).1
        × (((b : BatchResult) × ((ingest_batch host c (arr vs) l).0 ≡ ok b)
              × Ingests (items vs) l b.results (ingest_batch host c (arr vs) l).1)
            ⊎ ((f : Failure) × ((ingest_batch host c (arr vs) l).0 ≡ throw f)
                × IsStopped (items vs) l (ingest_batch host c (arr vs) l).1 f))
  unfolding ingest_batch
  ingest_batch-Ingests vs l h = (
    Leads-IsLedger host c l (ingest_all host c (items vs) l).1 h (ingest_all-Leads (items vs) l),
    elim (ingest_all-Loops (items vs) l) [
      | inl (rs, all, ingests) ↦
          inl (batch_result host (ingest_all host c (items vs) l).1 rs, rw all refl, ingests)
      | inr (f, one, stopped) ↦ inr (f, rw one refl, stopped)
    ],
  )

  -- A batch that throws nothing has a result for each event, and each of its four counters is the
  -- number of the results of its decision: applied, retracted, duplicate and suppressed. Its sizes are those of the ledger that it leaves.
  pub ingest_batch-counts :
      (vs : Items host.Number) (l : Ledger host.Number) (b : BatchResult) (end : Ledger host.Number)
      → ingest_batch host c (arr vs) l ≡ (ok b, end)
      → (length b.results ≡ length (items vs))
        × Tally b.results b.applied_count b.retracted_count b.duplicate_count b.suppressed_count
        × (b.active_signal_count ≡ length end.active)
        × (b.tombstone_count ≡ length end.tombstones)
  unfolding ingest_batch
  ingest_batch-counts vs l b end h =
      let (rs, all, same) = >>=-eq-ok (ingest_all host c (items vs) l).0 _ (ap (λ o. o.0) h) in
      let is_b : batch_result host (ingest_all host c (items vs) l).1 rs ≡ b = cc in
      let is_end : (ingest_all host c (items vs) l).1 ≡ end = ap (λ o. o.1) h in
      rw (← is_b, ← is_end) (ingest_all-length (items vs) l rs all, count-Tally rs, refl, refl)
