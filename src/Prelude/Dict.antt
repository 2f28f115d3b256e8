-- ===== src/Prelude/Dict.antt =====
-- `Map` with string keys: its entries in insertion order, each key once. A key that is set again
-- keeps its place.
use open_interest_clusters.Prelude.Tests.{if◌then◌else◌, Bool-cases}
use open_interest_clusters.Prelude.Lists.{length}
use Prim.Native.Nat.{suc, ◌+◌, ◌≤◌}
use Prim.Native.String.{String}
use mathlib.Core.Path.{◌≡◌, refl, ap}
use mathlib.Core.Logic.{inl, inr}
use mathlib.Core.Bool.{Bool, true, false}
use mathlib.Core.Option.{Option, none, some}
use mathlib.Core.List.{List, [], ◌∷◌}
use native.Mathlib.Omega.{arith}
use text.Mathlib.Text.{◌==◌}
use text.Mathlib.TextEquality.{eq_iff}

abbrev pub Dict : Type 0 → Type 0
Dict V = List (String × V)

module _ {V : Type 0} where
  -- `map.get(key)`
  unfoldable pub lookup : String → Dict V → Option V
  lookup key [] = none
  lookup key ((at, value) ∷ rest) = if at == key then some value else lookup key rest

  -- Each key stands once.
  abbrev pub IsDict : Dict V → Type 0
  IsDict [] = Unit
  IsDict ((at, value) ∷ rest) = (lookup at rest ≡ none) × IsDict rest

  -- `map.values()`
  abbrev pub values : Dict V → List V
  values [] = []
  values ((at, value) ∷ rest) = value ∷ values rest

  abbrev pub is_some : Option V → Bool
  is_some (some value) = true
  is_some none = false

  -- `map.has(key)`
  unfoldable pub has : String → Dict V → Bool
  unfolding lookup
  has key dict = is_some (lookup key dict)

  -- `map.delete(key)`; a key stands once at most
  unfoldable pub delete : String → Dict V → Dict V
  delete key [] = []
  delete key ((at, value) ∷ rest) = if at == key then rest else (at, value) ∷ delete key rest

  -- `map.set(key, next)`
  unfoldable pub insert : String → V → Dict V → Dict V
  insert key next [] = (key, next) ∷ []
  insert key next ((at, value) ∷ rest) =
      if at == key then (at, next) ∷ rest else (at, value) ∷ insert key next rest

  pub lookup-delete :
      (key other : String) (dict : Dict V)
      → IsDict dict
      → lookup other (delete key dict) ≡ (if key == other then none else lookup other dict)
  unfolding lookup delete
  lookup-delete key other [] d = ground arith
  lookup-delete key other ((at, value) ∷ rest) d =
      ground
        (arith, lookup-delete key other rest d.1, eq_iff at key, eq_iff at other, eq_iff key other)

  pub lookup-insert :
      (key other : String) (next : V) (dict : Dict V)
      → lookup other (insert key next dict)
        ≡ (if key == other then some next else lookup other dict)
  unfolding lookup insert
  lookup-insert key other next [] = refl
  lookup-insert key other next ((at, value) ∷ rest) =
      ground
        (arith, lookup-insert key other next rest, eq_iff at key, eq_iff at other, eq_iff key other)

  pub delete-IsDict : (key : String) (dict : Dict V) → IsDict dict → IsDict (delete key dict)
  unfolding delete
  delete-IsDict key [] d = tt
  delete-IsDict key ((at, value) ∷ rest) d = elim (Bool-cases (at == key)) [
    | inl e ↦ rw e d.1
    | inr e ↦ rw e (ground (arith, lookup-delete key at rest d.1), delete-IsDict key rest d.1)
  ]

  pub insert-IsDict :
      (key : String) (next : V) (dict : Dict V) → IsDict dict → IsDict (insert key next dict)
  unfolding lookup insert
  insert-IsDict key next [] d = (refl, tt)
  insert-IsDict key next ((at, value) ∷ rest) d = elim (Bool-cases (at == key)) [
    | inl e ↦ rw e d
    | inr e ↦ rw e (
      ground (arith, lookup-insert key at next rest, eq_iff at key, eq_iff key at),
      insert-IsDict key next rest d.1,
    )
  ]

  pub length-insert_new :
      (key : String) (next : V) (dict : Dict V)
      → lookup key dict ≡ none
      → length (insert key next dict) ≡ suc (length dict)
  unfolding lookup insert
  length-insert_new key next [] h = refl
  length-insert_new key next ((at, value) ∷ rest) h =
      ground (arith, length-insert_new key next rest)

  pub length-insert_most :
      (key : String) (next : V) (dict : Dict V) → length (insert key next dict) ≤ length dict + 1
  unfolding insert
  length-insert_most key next [] = omega arith
  length-insert_most key next ((at, value) ∷ rest) =
      ground (arith, length-insert_most key next rest)

  -- To set what is there already changes nothing.
  pub insert_again :
      (key : String) (value : V) (dict : Dict V)
      → lookup key dict ≡ some value
      → insert key value dict ≡ dict
  unfolding lookup insert
  insert_again key value [] h = cc
  insert_again key value ((at, x) ∷ rest) h = elim (Bool-cases (at == key)) [
    | inl same ↦ ground (arith, eq_iff at key)
    | inr other ↦ rw other (ap (λ r. (at, x) ∷ r) (insert_again key value rest (rw other at h)))
  ]

  pub length-delete :
      (key : String) (value : V) (dict : Dict V)
      → lookup key dict ≡ some value
      → suc (length (delete key dict)) ≡ length dict
  unfolding lookup delete
  length-delete key value [] h = ground arith
  length-delete key value ((at, x) ∷ rest) h = ground (arith, length-delete key value rest)

  pub length-delete_most : (key : String) (dict : Dict V) → length (delete key dict) ≤ length dict
  unfolding delete
  length-delete_most key [] = omega arith
  length-delete_most key ((at, x) ∷ rest) = ground (arith, length-delete_most key rest)

  -- To delete what is not there changes nothing.
  pub delete_absent :
      (key : String) (dict : Dict V) → lookup key dict ≡ none → delete key dict ≡ dict
  unfolding lookup delete
  delete_absent key [] h = refl
  delete_absent key ((at, x) ∷ rest) h = elim (Bool-cases (at == key)) [
    | inl same ↦ ground arith
    | inr other ↦ rw other (ap (λ r. (at, x) ∷ r) (delete_absent key rest (rw other at h)))
  ]
