-- ===== src/Js.antt =====
-- The values of the source's language that the program inspects at run time (`unknown`), and the
-- parts of its standard library that the program calls.
pub mod Text
pub mod Host
pub mod Narrow
pub mod Json
use open_interest_clusters.Prelude.{
  String, Bool, true, false, List, [], ◌∷◌, ◌==◌, if◌then◌else◌, ◌≡◌, refl, eq_iff, arith,
}

-- `N` is the type of numbers. `opaque` stands for a function, symbol or bigint: a value that is no
-- string, number, boolean, object, null or undefined.
mutual
  pub data Value (N : Type 0) : Type 0 where
    undefined : Value N
    null : Value N
    bool : Bool → Value N
    num : N → Value N
    str : String → Value N
    arr : Items N → Value N
    obj : Fields N → Value N
    opaque : Value N

  pub data Items (N : Type 0) : Type 0 where
    nil : Items N
    cons : Value N → Items N → Items N

  -- The own enumerable properties of an object, each key once, in insertion order.
  pub data Fields (N : Type 0) : Type 0 where
    end : Fields N
    field : String → Value N → Fields N → Fields N

module _ {N : Type 0} where
  abbrev pub items : Items N → List (Value N)
  items nil = []
  items (cons v vs) = v ∷ items vs

  abbrev pub read : Fields N → String → Value N
  read end key = undefined
  read (field k v fs) key = if k == key then v else read fs key

  -- `value.key` of an object; an array has none of the keys that the program reads.
  abbrev pub get : Value N → String → Value N
  get (obj fs) key = read fs key
  get v key = undefined

  -- `value !== null && typeof value === "object"`
  unfoldable pub is_object : Value N → Bool
  is_object (arr _) = true
  is_object (obj _) = true
  is_object _ = false

  -- `is_object(value) && !Array.isArray(value)`
  unfoldable pub is_plain_record : Value N → Bool
  is_plain_record (obj _) = true
  is_plain_record _ = false

-- `{ ...fields, [key]: value }`: a new key comes last, an old one keeps its place.
pub put : {N : Type 0} → String → Value N → Fields N → Fields N
put key v end = field key v end
put key v (field k w fs) = if k == key then field k v fs else field k w (put key v fs)

pub read-put :
    {N : Type 0} (key j : String) (v : Value N) (fs : Fields N)
    → read (put key v fs) j ≡ (if key == j then v else read fs j)
unfolding put
read-put key j v end = refl
read-put key j v (field k w fs) =
    ground (arith, eq_iff key j, eq_iff k key, eq_iff k j, read-put key j v fs)
