-- ===== src/Prelude/Each.antt =====
-- What holds of each entry of a dictionary.
use mathlib.Core.Path.{◌≡◌}
use mathlib.Core.Logic.{inl, inr}
use mathlib.Core.Option.{some}
use mathlib.Core.List.{[], ◌∷◌}
use Prim.Native.String.{String}
use native.Mathlib.Omega.{arith}
use text.Mathlib.Text.{◌==◌}
use text.Mathlib.TextEquality.{eq_iff}
use open_interest_clusters.Prelude.Tests.{Bool-cases}
use open_interest_clusters.Prelude.Lists.{All}
use open_interest_clusters.Prelude.Dict.{Dict, IsDict, lookup, insert, delete}

-- What holds of every key with its value
abbrev pub IsEach : {V : Type 0} → (String → V → Type 0) → Dict V → Type 0
IsEach P = All (λ r. P r.0 r.1)

module _ {V : Type 0} (P : String → V → Type 0) where
  pub insert-IsEach :
      (key : String) (e : V) (d : Dict V) → IsEach P d → P key e → IsEach P (insert key e d)
  unfolding insert
  insert-IsEach key e [] h p = (p, tt)
  insert-IsEach key e ((at, x) ∷ rest) h p = elim (Bool-cases (at == key)) [
    | inl same ↦ rw same (rw (← (eq_iff at key).0 same) at p, h.1)
    | inr other ↦ rw other (h.0, insert-IsEach key e rest h.1 p)
  ]

  pub delete-IsEach : (key : String) (d : Dict V) → IsEach P d → IsEach P (delete key d)
  unfolding delete
  delete-IsEach key [] h = tt
  delete-IsEach key ((at, x) ∷ rest) h = elim (Bool-cases (at == key)) [
    | inl same ↦ rw same h.1
    | inr other ↦ rw other (h.0, delete-IsEach key rest h.1)
  ]

  pub IsEach-lookup :
      (key : String) (e : V) (d : Dict V) → IsEach P d → lookup key d ≡ some e → P key e
  unfolding lookup
  IsEach-lookup key e [] h found = cc
  IsEach-lookup key e ((at, x) ∷ rest) h found = elim (Bool-cases (at == key)) [
    | inl same ↦ let is_e : x ≡ e = ground arith in rw (← is_e, ← (eq_iff at key).0 same) h.0
    | inr other ↦ IsEach-lookup key e rest h.1 (rw other at found)
  ]

  pub IsEach-of_lookups :
      (d : Dict V)
      → IsDict d
      → ((key : String) (e : V) → lookup key d ≡ some e → P key e)
      → IsEach P d
  unfolding lookup
  IsEach-of_lookups [] k h = tt
  IsEach-of_lookups ((at, x) ∷ rest) k h = (
    h at x (ground (arith, eq_iff at at)),
    IsEach-of_lookups rest k.1 (λ key e found. h key e (ground (arith, eq_iff at key, k.0))),
  )
