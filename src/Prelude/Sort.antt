-- ===== src/Prelude/Sort.antt =====
-- `[...values].sort(compare)`, which is stable.
use mathlib.Core.Path.{◌≡◌, refl}
use mathlib.Core.Logic.{◌⊎◌, inl, inr, ◌↔◌}
use mathlib.Core.Bool.{Bool, true, false}
use mathlib.Core.List.{List, [], ◌∷◌}
use Prim.Native.Nat.{suc}
use native.Mathlib.Omega.{arith}
use open_interest_clusters.Prelude.Tests.{if◌then◌else◌, Bool-cases}
use open_interest_clusters.Prelude.Lists.{length}
use open_interest_clusters.Prelude.Vocabulary.{Elem}

-- A stable sort is determined by its comparator, so insertion gives what the engine's sort does;
-- `first a b` is true where the comparator of `a` and `b` is at most 0.
unfoldable pub place : {A : Type 0} → (A → A → Bool) → A → List A → List A
place first a [] = a ∷ []
place first a (x ∷ xs) = let rest = place first a xs in if first a x then a ∷ x ∷ xs else x ∷ rest

unfoldable pub sort : {A : Type 0} → (A → A → Bool) → List A → List A
sort first [] = []
sort first (a ∷ rest) = place first a (sort first rest)

-- Each item comes before the next one, or ties with it.
abbrev pub IsSorted : {A : Type 0} → (A → A → Bool) → List A → Type 0
IsSorted first [] = Unit
IsSorted first (x ∷ []) = Unit
IsSorted first (x ∷ y ∷ ys) = (first x y ≡ true) × IsSorted first (y ∷ ys)

-- Each item is related to the next one.
abbrev pub IsChain : {A : Type 0} → (A → A → Type 0) → List A → Type 0
IsChain R [] = Unit
IsChain R (x ∷ []) = Unit
IsChain R (x ∷ y ∷ ys) = R x y × IsChain R (y ∷ ys)

pub IsSorted-IsChain :
    {A : Type 0} (first : A → A → Bool) (R : A → A → Type 0)
    → ((a b : A) → first a b ≡ true → R a b)
    → (xs : List A) → IsSorted first xs
    → IsChain R xs
IsSorted-IsChain first R means [] h = tt
IsSorted-IsChain first R means (x ∷ []) h = tt
IsSorted-IsChain first R means (x ∷ y ∷ ys) h =
    (means x y h.0, IsSorted-IsChain first R means (y ∷ ys) h.1)

module _ {A : Type 0} (first : A → A → Bool) where
  pub length-place : (a : A) (xs : List A) → length (place first a xs) ≡ suc (length xs)
  unfolding place
  length-place a [] = refl
  length-place a (x ∷ xs) = ground (arith, length-place a xs)

  pub length-sort : (xs : List A) → length (sort first xs) ≡ length xs
  unfolding sort
  length-sort [] = refl
  length-sort (x ∷ xs) = ground (arith, length-place x (sort first xs), length-sort xs)

  pub Elem-place : (a b : A) (xs : List A) → Elem a (place first b xs) ↔ ((b ≡ a) ⊎ Elem a xs)
  unfolding place
  Elem-place a b [] = (λ h. h, λ h. h)
  Elem-place a b (x ∷ xs) = elim (Bool-cases (first b x)) [
    | inl here ↦ rw here (λ h. h, λ h. h)
    | inr later ↦ rw later (
      λ h. elim h [
        | inl same ↦ inr (inl same)
        | inr t ↦ elim ((Elem-place a b xs).0 t) [
          | inl same ↦ inl same
          | inr there ↦ inr (inr there)
        ]
      ],
      λ h. elim h [
        | inl same ↦ inr ((Elem-place a b xs).1 (inl same))
        | inr (inl same) ↦ inl same
        | inr (inr there) ↦ inr ((Elem-place a b xs).1 (inr there))
      ],
    )
  ]

  pub Elem-sort : (a : A) (xs : List A) → Elem a (sort first xs) ↔ Elem a xs
  unfolding sort
  Elem-sort a [] = (λ h. h, λ h. h)
  Elem-sort a (x ∷ xs) = (
    λ h. elim ((Elem-place a x (sort first xs)).0 h) [
      | inl same ↦ inl same
      | inr t ↦ inr ((Elem-sort a xs).0 t)
    ],
    λ h.
        (Elem-place a x (sort first xs)).1
          (elim h [ inl same ↦ inl same | inr t ↦ inr ((Elem-sort a xs).1 t) ]),
  )

  -- Of two items one comes before the other, or they tie.
  abbrev pub IsTotal : Type 0
  IsTotal = (a b : A) → first a b ≡ false → first b a ≡ true

  place-IsSorted :
      (a : A) (xs : List A) → IsTotal → IsSorted first xs → IsSorted first (place first a xs)
  unfolding place
  place-IsSorted a [] total h = tt
  place-IsSorted a (x ∷ []) total h = elim (Bool-cases (first a x)) [
    | inl here ↦ rw here (here, tt)
    | inr later ↦ rw later (total a x later, tt)
  ]
  place-IsSorted a (x ∷ y ∷ ys) total h = elim (Bool-cases (first a x)) [
    | inl here ↦ rw here (here, h)
    | inr later ↦
        let rest : IsSorted first (place first a (y ∷ ys)) = place-IsSorted a (y ∷ ys) total h.1 in
        elim (Bool-cases (first a y)) [
          | inl next ↦ rw (later, next) (total a x later, (next, h.1))
          | inr after ↦ rw (later, after) (h.0, rw after at rest)
        ]
  ]

  pub sort-IsSorted : (xs : List A) → IsTotal → IsSorted first (sort first xs)
  unfolding sort
  sort-IsSorted [] total = tt
  sort-IsSorted (x ∷ xs) total = place-IsSorted x (sort first xs) total (sort-IsSorted xs total)
