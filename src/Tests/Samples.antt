-- ===== src/Tests/Samples.antt =====
-- Values that the tests share: an engine whose numbers are natural numbers, and the objects of a
-- consent policy and a consent request.
use Prim.Native.Nat.{Ordering}
use Prim.Native.Char.{code}
use open_interest_clusters.Prelude.{
  ℕ, suc, ◌+◌, String, true, List, [], ◌∷◌, Option, none, some, leb, ◌==◌, if◌then◌else◌, ltb, ◌≡◌,
  refl, arith,
}
use open_interest_clusters.Prelude.Int.{ℤ, pos, negsuc}
use open_interest_clusters.Js.{Value, Items, Fields, str, arr, obj, nil, cons, end, field}
use open_interest_clusters.Js.Host.{Host, IsLocaleOrder}

-- A calendar of three days.
abbrev date_of : String → Option ℤ
date_of text =
    if text == "2026-01-01"
    then some (pos 1)
    else if text == "2026-01-02"
    then some (pos 2)
    else if text == "2026-01-03"
    then some (pos 3)
    else none

abbrev absolute : ℤ → ℕ
absolute (pos n) = n
absolute (negsuc n) = suc n

-- The order of the code points.
unfoldable pub compare_text : String → String → Ordering
compare_text String.[] String.[] = Ordering.eq
compare_text String.[] (String.◌∷◌ d t) = Ordering.lt
compare_text (String.◌∷◌ c s) String.[] = Ordering.gt
compare_text (String.◌∷◌ c s) (String.◌∷◌ d t) =
    let rest = compare_text s t in
    if ltb (code c) (code d)
    then Ordering.lt
    else if ltb (code d) (code c)
    then Ordering.gt
    else rest

compare_text-swapped :
    (a b : String) → compare_text a b ≡ Ordering.gt → compare_text b a ≡ Ordering.lt
unfolding compare_text
compare_text-swapped String.[] String.[] h = ground arith
compare_text-swapped String.[] (String.◌∷◌ d t) h = ground arith
compare_text-swapped (String.◌∷◌ c s) String.[] h = refl
compare_text-swapped (String.◌∷◌ c s) (String.◌∷◌ d t) h = ground (arith, compare_text-swapped s t)

abbrev pub whole_numbers : Host
whole_numbers = record {
  Number = ℕ;
  zero_number = 0;
  one_number = 1;
  is_finite = λ n. true;
  is_integer = λ n. true;
  at_most = leb;
  plus = ◌+◌;
  times = λ n m. n;
  negate = λ n. n;
  larger = λ n m. n;
  smaller = λ n m. n;
  magnitude = λ n. n;
  safe_integer = λ n. some (pos n);
  number_of = absolute;
  number_text = λ n. "0";
  date_parse = date_of;
  locale_compare = compare_text;
}

abbrev pub texts : List String → Items ℕ
texts [] = nil
texts (s ∷ ss) = cons (str s) (texts ss)

abbrev pub fields : List (String × Value ℕ) → Fields ℕ
fields [] = end
fields ((k, v) ∷ kvs) = field k v (fields kvs)

abbrev pub object : List (String × Value ℕ) → Value ℕ
object kvs = obj (fields kvs)

abbrev pub policy_of : String → List String → Value ℕ
policy_of subject uses =
    object (("subjectId", str subject) ∷ ("allowedDataUses", arr (texts uses)) ∷ [])

abbrev pub request_of : String → String → Value ℕ
request_of subject visibility = object (
    ("subjectId", str subject)
    ∷ ("dataUse", str "ranking")
    ∷ ("protocol", str "activitypub")
    ∷ ("sourceVisibility", str visibility)
    ∷ ("accessBasis", str "public_web")
    ∷ [])

pub whole_numbers-IsLocaleOrder : IsLocaleOrder whole_numbers
whole_numbers-IsLocaleOrder = record { swapped = compare_text-swapped }
