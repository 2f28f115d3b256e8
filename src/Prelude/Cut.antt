-- ===== src/Prelude/Cut.antt =====
-- Sorting a dictionary and cutting it in two.
use mathlib.Core.Path.{◌≡◌, refl}
use mathlib.Core.Logic.{inl, inr}
use mathlib.Core.Bool.{Bool}
use mathlib.Core.Option.{none, some}
use mathlib.Core.List.{List, [], ◌∷◌}
use Prim.Native.Nat.{ℕ, zero, suc, ◌-◌}
use Prim.Native.String.{String}
use native.Mathlib.Omega.{arith}
use text.Mathlib.Text.{◌==◌}
use text.Mathlib.TextEquality.{eq_iff}
use open_interest_clusters.Prelude.Tests.{if◌then◌else◌, Bool-cases}
use open_interest_clusters.Prelude.Lists.{length, take, drop, All}
use open_interest_clusters.Prelude.Sort.{place, sort}
use open_interest_clusters.Prelude.Dict.{Dict, IsDict, lookup, delete, has, lookup-delete}

module _ {V : Type 0} (first : String × V → String × V → Bool) where
  lookup-place :
      (key : String) (a : String × V) (d : Dict V)
      → lookup a.0 d ≡ none
      → lookup key (place first a d) ≡ (if a.0 == key then some a.1 else lookup key d)
  unfolding place lookup
  lookup-place key (at, x) [] h = refl
  lookup-place key (at, x) ((to, y) ∷ rest) h =
      ground (arith, lookup-place key (at, x) rest, eq_iff at key, eq_iff to key, eq_iff to at)

  place-IsDict :
      (a : String × V) (d : Dict V) → lookup a.0 d ≡ none → IsDict d → IsDict (place first a d)
  unfolding place lookup
  place-IsDict (at, x) [] h k = (refl, tt)
  place-IsDict (at, x) ((to, y) ∷ rest) h k = elim (Bool-cases (first (at, x) (to, y))) [
    | inl here ↦ rw here (h, k)
    | inr later ↦ rw later (
      ground (arith, lookup-place to (at, x) rest, eq_iff at to, eq_iff to at),
      place-IsDict (at, x) rest (ground arith) k.1,
    )
  ]

  pub lookup-sort :
      (key : String) (d : Dict V) → IsDict d → lookup key (sort first d) ≡ lookup key d
  unfolding sort lookup
  lookup-sort key [] h = refl
  lookup-sort key ((at, x) ∷ rest) h = ground (
    arith,
    lookup-place key (at, x) (sort first rest),
    lookup-sort at rest h.1,
    lookup-sort key rest h.1,
  )

  pub sort-IsDict : (d : Dict V) → IsDict d → IsDict (sort first d)
  unfolding sort
  sort-IsDict [] h = tt
  sort-IsDict ((at, x) ∷ rest) h =
      place-IsDict (at, x) (sort first rest) (rw (lookup-sort at rest h.1) h.0)
        (sort-IsDict rest h.1)

module _ {V : Type 0} where
  pub drop-IsDict : (n : ℕ) (d : Dict V) → IsDict d → IsDict (drop n d)
  drop-IsDict zero d h = h
  drop-IsDict (suc n) [] h = tt
  drop-IsDict (suc n) (x ∷ rest) h = drop-IsDict n rest h.1

  lookup-drop-none :
      (key : String) (n : ℕ) (d : Dict V) → lookup key d ≡ none → lookup key (drop n d) ≡ none
  unfolding lookup
  lookup-drop-none key zero d h = h
  lookup-drop-none key (suc n) [] h = refl
  lookup-drop-none key (suc n) (x ∷ rest) h = lookup-drop-none key n rest (ground arith)

  -- What is not dropped is taken.
  pub lookup-take :
      (key : String) (n : ℕ) (d : Dict V)
      → IsDict d
      → lookup key (take n d) ≡ (if has key (drop n d) then none else lookup key d)
  unfolding lookup has
  lookup-take key zero d h = ground arith
  lookup-take key (suc n) [] h = refl
  lookup-take key (suc n) ((at, x) ∷ rest) h =
      ground (arith, lookup-take key n rest h.1, eq_iff at key, lookup-drop-none at n rest h.0)

  pub length-drop : (n : ℕ) (d : Dict V) → length (drop n d) ≡ length d - n
  length-drop zero d = omega arith
  length-drop (suc n) [] = omega arith
  length-drop (suc n) (x ∷ rest) = omega (arith, length-drop n rest)

  pub lookup-drop-some :
      (key : String) (e : V) (n : ℕ) (d : Dict V)
      → IsDict d
      → lookup key (drop n d) ≡ some e
      → lookup key d ≡ some e
  unfolding lookup
  lookup-drop-some key e zero d h found = found
  lookup-drop-some key e (suc n) [] h found = found
  lookup-drop-some key e (suc n) ((at, x) ∷ rest) h found = ground (
    arith,
    lookup-drop-some key e n rest h.1 found,
    eq_iff at key,
    lookup-drop-none at n rest h.0,
  )

  -- The records are entries of the dictionary.
  abbrev pub IsIn : Dict V → List (String × V) → Type 0
  IsIn d = All (λ r. lookup r.0 d ≡ some r.1)

  pub IsIn-self :
      (whole part : Dict V)
      → IsDict part
      → ((key : String) (e : V) → lookup key part ≡ some e → lookup key whole ≡ some e)
      → IsIn whole part
  unfolding lookup
  IsIn-self whole [] h sub = tt
  IsIn-self whole ((at, x) ∷ rest) h sub = (
    sub at x (ground (arith, eq_iff at at)),
    IsIn-self whole rest h.1 (λ key e found. sub key e (ground (arith, eq_iff at key))),
  )

  pub IsIn-delete :
      (at : String) (d records : Dict V)
      → IsDict d
      → lookup at records ≡ none
      → IsIn d records
      → IsIn (delete at d) records
  unfolding lookup
  IsIn-delete at d [] h k i = tt
  IsIn-delete at d ((key, e) ∷ rest) h k i = (
    ground (arith, lookup-delete at key d h, eq_iff at key, eq_iff key at),
    IsIn-delete at d rest h (ground arith) i.1,
  )

  lookup-take-none :
      (key : String) (n : ℕ) (d : Dict V) → lookup key d ≡ none → lookup key (take n d) ≡ none
  unfolding lookup
  lookup-take-none key zero d h = refl
  lookup-take-none key (suc n) [] h = refl
  lookup-take-none key (suc n) (x ∷ rest) h = ground (arith, lookup-take-none key n rest)

  pub take-IsDict : (n : ℕ) (d : Dict V) → IsDict d → IsDict (take n d)
  take-IsDict zero d h = tt
  take-IsDict (suc n) [] h = tt
  take-IsDict (suc n) ((at, x) ∷ rest) h = (lookup-take-none at n rest h.0, take-IsDict n rest h.1)
