-- ===== src/Tests/Runtime.antt =====
-- Runs of runtime/hash.ts.
use open_interest_clusters.Prelude.{ℕ, List, [], ◌∷◌, arith}
use open_interest_clusters.Runtime.Hash.{pad}
use open_interest_clusters.Runtime.Padding.{IsPadded, pad-IsPadded}

abbrev abc : List ℕ
abc = 97 ∷ 98 ∷ 99 ∷ []

pad-IsPadded_example : IsPadded abc (pad abc)
pad-IsPadded_example = pad-IsPadded abc (omega arith)
