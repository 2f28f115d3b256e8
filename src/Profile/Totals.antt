-- ===== src/Profile/Totals.antt =====
-- Sums over the entries of a profile, and what inserting and deleting an entry does to them.
use open_interest_clusters.Prelude.{ℕ, ◌+◌, String, ◌≡◌, refl, arith, [], ◌∷◌, none, some}
use open_interest_clusters.Prelude.Dict.{Dict, lookup, insert, delete}
use open_interest_clusters.Profile.Entry.{Entry}

-- The signals of all entries
abbrev pub total : {N : Type 0} → Dict (Entry N) → ℕ
total [] = 0
total ((key, e) ∷ rest) = e.signal_count + total rest

module _ {N : Type 0} where
  pub total-insert_new :
      (key : String) (e : Entry N) (d : Dict (Entry N))
      → lookup key d ≡ none
      → total (insert key e d) ≡ e.signal_count + total d
  unfolding lookup insert
  total-insert_new key e [] h = refl
  total-insert_new key e ((at, x) ∷ rest) h = ground (arith, total-insert_new key e rest)

  pub total-insert_again :
      (key : String) (e old : Entry N) (d : Dict (Entry N))
      → lookup key d ≡ some old
      → total (insert key e d) + old.signal_count ≡ total d + e.signal_count
  unfolding lookup insert
  total-insert_again key e old [] h = ground arith
  total-insert_again key e old ((at, x) ∷ rest) h =
      ground (arith, total-insert_again key e old rest)

  pub total-delete :
      (key : String) (old : Entry N) (d : Dict (Entry N))
      → lookup key d ≡ some old
      → total (delete key d) + old.signal_count ≡ total d
  unfolding lookup delete
  total-delete key old [] h = ground arith
  total-delete key old ((at, x) ∷ rest) h = ground (arith, total-delete key old rest)
