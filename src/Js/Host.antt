-- ===== src/Js/Host.antt =====
-- What the program takes from the engine that runs it: double-precision numbers, `Date.parse` and
-- `localeCompare`. Their results are implementation-defined or floating-point, so they are
-- operations of a parameter. Each law that a theorem needs is a hypothesis of its own, below.
use Prim.Native.Nat.{Ordering}
use open_interest_clusters.Prelude.{String, ◌≡◌, Bool, Option}
use open_interest_clusters.Prelude.Int.{ℤ}

pub record Host : Type 1 where
  pub Number : Type 0
  pub zero_number : Number
  pub one_number : Number
  -- `Number.isFinite(a)`
  pub is_finite : Number → Bool
  -- `Number.isInteger(a)`
  pub is_integer : Number → Bool
  -- `a <= b`; false where one is NaN
  pub at_most : Number → Number → Bool
  pub plus : Number → Number → Number
  pub times : Number → Number → Number
  pub negate : Number → Number
  -- `Math.max(a, b)`, `Math.min(a, b)`, `Math.abs(a)`
  pub larger : Number → Number → Number
  pub smaller : Number → Number → Number
  pub magnitude : Number → Number
  -- the integer that `Number.isSafeInteger(a)` finds
  pub safe_integer : Number → Option ℤ
  -- the number that an integer of `Date.parse` is
  pub number_of : ℤ → Number
  -- `JSON.stringify(a)` of a finite number
  pub number_text : Number → String
  -- `Date.parse(text)`; `none` for NaN
  pub date_parse : String → Option ℤ
  -- the sign of `a.localeCompare(b)`
  pub locale_compare : String → String → Ordering

-- The sign of `localeCompare` changes when the texts are swapped.
pub record IsLocaleOrder (host : Host) : Type 0 where
  pub swapped :
      (a b : String) → host.locale_compare a b ≡ Ordering.gt → host.locale_compare b a ≡ Ordering.lt
