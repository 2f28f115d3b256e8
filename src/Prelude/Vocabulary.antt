-- ===== src/Prelude/Vocabulary.antt =====
-- A closed set of strings, which the source declares as a constant array with its union type and
-- tests with `===`, `Set.has` and `Array.includes`.
use Prim.Native.String.{String}
use mathlib.Core.Path.{◌≡◌, refl, ap, sym, ◌∙◌}
use mathlib.Core.Logic.{◌↔◌, ◌⊎◌, inl, inr}
use native.Mathlib.Omega.{arith}
use mathlib.Core.Bool.{Bool, true, false, not, ◌&&◌, ◌||◌}
use mathlib.Core.Option.{Option, none, some}
use mathlib.Core.List.{List, [], ◌∷◌}
use text.Mathlib.Text.{◌==◌ as str_eq}
use text.Mathlib.TextEquality.{eq_iff}
use open_interest_clusters.Prelude.Tests.{if◌then◌else◌, Bool-cases}
use open_interest_clusters.Prelude.Lists.{every}

abbrev pub find : {E : Type 0} → (E → String) → List E → String → Option E
find name [] s = none
find name (e ∷ es) s = if str_eq (name e) s then some e else find name es s

find_sound :
    {E : Type 0} (name : E → String) (es : List E) (s : String) (e : E)
    → find name es s ≡ some e
    → name e ≡ s
find_sound name [] s e h = cc
find_sound name (x ∷ xs) s e h = elim (Bool-cases (str_eq (name x) s)) [
  | inl here ↦ ground (arith, eq_iff (name x) s)
  | inr there ↦ find_sound name xs s e (rw there at h)
]

pub record Vocabulary (E : Type 0) : Type 0 where
  pub name : E → String
  pub members : List E
  pub found : (e : E) → find name members (name e) ≡ some e

module _ {E : Type 0} ⦃v : Vocabulary E⦄ where
  -- The member with this spelling.
  abbrev pub member : String → Option E
  member s = find v.name v.members s

  pub member-name : (e : E) → member (v.name e) ≡ some e
  member-name e = v.found e

  -- A member has the spelling that it is found by.
  pub name-member : (s : String) (e : E) → member s ≡ some e → v.name e ≡ s
  name-member s e h = find_sound v.name v.members s e h

  -- `a === b`
  infix 50 ◌===◌
  unfoldable pub ◌===◌ : E → E → Bool
  a === b = str_eq (v.name a) (v.name b)

  pub ===_iff : (a b : E) → ((a === b) ≡ true) ↔ (a ≡ b)
  unfolding ◌===◌
  ===_iff a b = (
    λ h. cc (sym (v.found a) ∙ ap member ((eq_iff (v.name a) (v.name b)).0 h) ∙ v.found b),
    λ e. (eq_iff (v.name a) (v.name b)).1 (ap v.name e),
  )

  -- `items.includes(a)`, `set.has(a)`
  unfoldable pub includes : List E → E → Bool
  includes [] a = false
  includes (x ∷ xs) a = x === a || includes xs a

-- `a` stands in the list.
abbrev pub Elem : {E : Type 0} → E → List E → Type 0
Elem a [] = ⊥
Elem a (x ∷ xs) = (x ≡ a) ⊎ Elem a xs

module _ {E : Type 0} ⦃v : Vocabulary E⦄ where
  pub includes_sound : (xs : List E) (a : E) → includes xs a ≡ true → Elem a xs
  unfolding includes
  includes_sound [] a h = cc
  includes_sound (x ∷ xs) a h = elim (Bool-cases (x === a)) [
    | inl here ↦ inl ((===_iff x a).0 here)
    | inr there ↦ inr (includes_sound xs a (rw there at h))
  ]

  pub includes_complete : (xs : List E) (a : E) → Elem a xs → includes xs a ≡ true
  unfolding includes
  includes_complete [] a h = absurd h
  includes_complete (x ∷ xs) a (inl e) = rw ((===_iff x a).1 e)
  includes_complete (x ∷ xs) a (inr h) = ground (arith, includes_complete xs a h)

  pub includes_iff : (xs : List E) (a : E) → (includes xs a ≡ true) ↔ Elem a xs
  includes_iff xs a = (includes_sound xs a, includes_complete xs a)

  -- `[...new Set(items)]`: the first of equal items stays.
  pub unique_after : List E → List E → List E
  unique_after seen [] = []
  unique_after seen (x ∷ xs) =
      let kept = x ∷ unique_after (x ∷ seen) xs in
      let dropped = unique_after seen xs in if includes seen x then dropped else kept

  unfoldable pub unique : List E → List E
  unfolding unique_after
  unique xs = unique_after [] xs

  -- No item stands twice.
  abbrev pub IsUnique : List E → Type 0
  IsUnique [] = Unit
  IsUnique (x ∷ xs) = (includes xs x ≡ false) × IsUnique xs

  includes-unique_after :
      (seen xs : List E) (a : E)
      → includes (unique_after seen xs) a ≡ (includes xs a && not (includes seen a))
  unfolding includes unique_after
  includes-unique_after seen [] a = refl
  includes-unique_after seen (x ∷ xs) a =
      ground
        (arith, ===_iff x a, includes-unique_after seen xs a, includes-unique_after (x ∷ seen) xs a)

  pub includes-unique : (xs : List E) (a : E) → includes (unique xs) a ≡ includes xs a
  unfolding unique includes
  includes-unique xs a = ground (arith, includes-unique_after [] xs a)

  includes-unique_seen :
      (seen xs : List E) (x : E) → includes (unique_after (x ∷ seen) xs) x ≡ false
  unfolding includes
  includes-unique_seen seen xs x =
      ground (arith, ===_iff x x, includes-unique_after (x ∷ seen) xs x)

  unique_after-IsUnique : (seen xs : List E) → IsUnique (unique_after seen xs)
  unfolding unique_after
  unique_after-IsUnique seen [] = tt
  unique_after-IsUnique seen (x ∷ xs) = elim (Bool-cases (includes seen x)) [
    | inl old ↦ rw old (unique_after-IsUnique seen xs)
    | inr new ↦ rw new (includes-unique_seen seen xs x, unique_after-IsUnique (x ∷ seen) xs)
  ]

  pub unique-IsUnique : (xs : List E) → IsUnique (unique xs)
  unfolding unique
  unique-IsUnique xs = unique_after-IsUnique [] xs

  every-includes_sub :
      (whole xs : List E)
      → ((e : E) → includes xs e ≡ true → includes whole e ≡ true)
      → every (includes whole) xs ≡ true
  unfolding includes
  every-includes_sub whole [] h = refl
  every-includes_sub whole (x ∷ xs) h =
      rw (h x (rw (===_iff x x).1 refl)) (every-includes_sub whole xs (λ e k. h e (ground arith)))

  pub every-includes : (xs : List E) → every (includes xs) xs ≡ true
  every-includes xs = every-includes_sub xs xs (λ e h. h)
