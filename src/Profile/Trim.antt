-- ===== src/Profile/Trim.antt =====
-- recommendation/profile-store.ts: the signals of the entries of a profile, sorted and cut in two.
use open_interest_clusters.Prelude.{
  ℕ, zero, suc, ◌+◌, String, Bool, ◌≡◌, refl, arith, [], ◌∷◌, take, drop,
}
use open_interest_clusters.Prelude.Sort.{place, sort}
use open_interest_clusters.Prelude.Dict.{Dict}
use open_interest_clusters.Profile.Entry.{Entry}
use open_interest_clusters.Profile.Totals.{total}

module _ {N : Type 0} where
  total-place :
      (first : String × Entry N → String × Entry N → Bool) (a : String × Entry N)
      (d : Dict (Entry N))
      → total (place first a d) ≡ a.1.signal_count + total d
  unfolding place
  total-place first (at, x) [] = refl
  total-place first (at, x) ((to, y) ∷ rest) = ground (arith, total-place first (at, x) rest)

  pub total-sort :
      (first : String × Entry N → String × Entry N → Bool) (d : Dict (Entry N))
      → total (sort first d) ≡ total d
  unfolding sort
  total-sort first [] = refl
  total-sort first ((at, x) ∷ rest) =
      ground (arith, total-place first (at, x) (sort first rest), total-sort first rest)

  pub total-take-drop : (n : ℕ) (d : Dict (Entry N)) → total (take n d) + total (drop n d) ≡ total d
  total-take-drop zero d = omega arith
  total-take-drop (suc n) [] = omega arith
  total-take-drop (suc n) ((at, x) ∷ rest) = omega (arith, total-take-drop n rest)
