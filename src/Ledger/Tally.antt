-- ===== src/Ledger/Tally.antt =====
-- recommendation/signal-ledger.ts: the counters of a batch.
use open_interest_clusters.Prelude.{ℕ, suc, ◌≡◌, refl, arith, List, [], ◌∷◌}
use open_interest_clusters.Ledger.State.{
  LedgerDecision, applied, retracted, duplicate, suppressed_by_retraction, IngestResult,
}
use open_interest_clusters.Ledger.Batch.{
  is_applied, is_retracted, is_duplicate, is_suppressed, count,
}

-- The numbers of results that were applied, retracted, duplicates and suppressed: each result is one
-- more of its own decision.
pub data Tally : List IngestResult → ℕ → ℕ → ℕ → ℕ → Type 0 where
  nothing : Tally [] 0 0 0 0
  an_applied :
      {r : IngestResult} {rs : List IngestResult} {a b d s : ℕ}
      → r.decision ≡ applied
      → Tally rs a b d s
      → Tally (r ∷ rs) (suc a) b d s
  a_retracted :
      {r : IngestResult} {rs : List IngestResult} {a b d s : ℕ}
      → r.decision ≡ retracted
      → Tally rs a b d s
      → Tally (r ∷ rs) a (suc b) d s
  a_duplicate :
      {r : IngestResult} {rs : List IngestResult} {a b d s : ℕ}
      → r.decision ≡ duplicate
      → Tally rs a b d s
      → Tally (r ∷ rs) a b (suc d) s
  a_suppressed :
      {r : IngestResult} {rs : List IngestResult} {a b d s : ℕ}
      → r.decision ≡ suppressed_by_retraction
      → Tally rs a b d s
      → Tally (r ∷ rs) a b d (suc s)

Tally-eq :
    {rs : List IngestResult} {a b d s a' b' d' s' : ℕ}
    → Tally rs a b d s
    → a ≡ a'
    → b ≡ b'
    → d ≡ d'
    → s ≡ s'
    → Tally rs a' b' d' s'
Tally-eq t p q u v = rw (← p, ← q, ← u, ← v) t

pub count-Tally :
    (rs : List IngestResult)
    → Tally rs
        (count is_applied rs)
        (count is_retracted rs)
        (count is_duplicate rs)
        (count is_suppressed rs)
unfolding count
count-Tally [] = Tally.nothing
count-Tally (r ∷ rs) = by_decision r.decision refl (count-Tally rs)
  where
    by_decision :
        (d : LedgerDecision)
        → r.decision ≡ d
        → Tally rs
            (count is_applied rs)
            (count is_retracted rs)
            (count is_duplicate rs)
            (count is_suppressed rs)
        → Tally
            (r ∷ rs)
            (count is_applied (r ∷ rs))
            (count is_retracted (r ∷ rs))
            (count is_duplicate (r ∷ rs))
            (count is_suppressed (r ∷ rs))
    by_decision applied h rest =
        Tally-eq (an_applied h rest) (ground (arith, h)) (ground (arith, h)) (ground (arith, h))
          (ground (arith, h))
    by_decision retracted h rest =
        Tally-eq (a_retracted h rest) (ground (arith, h)) (ground (arith, h)) (ground (arith, h))
          (ground (arith, h))
    by_decision duplicate h rest =
        Tally-eq (a_duplicate h rest) (ground (arith, h)) (ground (arith, h)) (ground (arith, h))
          (ground (arith, h))
    by_decision suppressed_by_retraction h rest =
        Tally-eq (a_suppressed h rest) (ground (arith, h)) (ground (arith, h)) (ground (arith, h))
          (ground (arith, h))
