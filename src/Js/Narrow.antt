-- ===== src/Js/Narrow.antt =====
-- The type guards that the program's modules repeat, as functions to the narrowed value: `none`
-- where the guard is false.
use open_interest_clusters.Prelude.{
  String, ◌≡◌, refl, Bool, true, false, List, [], ◌∷◌, Option, none, some, if◌then◌else◌,
}
use open_interest_clusters.Prelude.Vocabulary.{Vocabulary, member, member-name}
use open_interest_clusters.Js.{Value, Items, undefined, str, bool, arr, nil, cons}
use open_interest_clusters.Js.Text.{is_not_blank}

infixl 5 ◌>>=◌ ◌>>◌
abbrev pub ◌>>=◌ {ℓ κ} : {A : Type ℓ} {B : Type κ} → Option A → (A → Option B) → Option B
none >>= f = none
some a >>= f = f a

abbrev pub ◌>>◌ {ℓ} : {B : Type ℓ} → Option (Unit {0}) → Option B → Option B
m >> k = m >>= λ _. k

abbrev pub guard : Bool → Option (Unit {0})
guard true = some tt
guard false = none

module _ {N : Type 0} where
  -- isNonEmptyString
  abbrev pub non_empty_string : Value N → Option String
  non_empty_string (str s) = if is_not_blank s then some s else none
  non_empty_string _ = none

  -- isOptionalString
  abbrev pub optional_string : Value N → Option (Option String)
  optional_string undefined = some none
  optional_string (str s) = some (some s)
  optional_string _ = none

  -- isOptionalBoolean
  abbrev pub optional_boolean : Value N → Option (Option Bool)
  optional_boolean undefined = some none
  optional_boolean (bool b) = some (some b)
  optional_boolean _ = none

module _ {N E : Type 0} ⦃v : Vocabulary E⦄ where
  -- `typeof value === "string" && SET.has(value)`
  unfoldable pub known : Value N → Option E
  known (str s) = member s
  known _ = none

  -- `values.every(isKnown)`
  unfoldable pub all_known : Items N → Option (List E)
  all_known nil = some []
  all_known (cons x xs) = known x >>= λ e. all_known xs >>= λ es. some (e ∷ es)

  -- `Array.isArray(value) && value.every(isKnown)`
  abbrev pub known_list : Value N → Option (List E)
  known_list (arr xs) = all_known xs
  known_list _ = none

  -- `value === undefined || (Array.isArray(value) && value.every(isKnown))`
  abbrev pub optional_known_list : Value N → Option (Option (List E))
  optional_known_list undefined = some none
  optional_known_list value = known_list value >>= λ es. some (some es)

-- The name of a member is known as that member.
pub known-name :
    (N : Type 0) {E : Type 0} ⦃v : Vocabulary E⦄ (e : E) → known {N = N} (str (v.name e)) ≡ some e
unfolding known
known-name N e = member-name e

pub >>=-eq-some {ℓ κ} :
    {A : Type ℓ} {B : Type κ} (m : Option A) (f : A → Option B) {b : B}
    → (m >>= f) ≡ some b
    → (a : A) × (m ≡ some a) × (f a ≡ some b)
>>=-eq-some none f h = cc
>>=-eq-some (some a) f h = (a, refl, h)
