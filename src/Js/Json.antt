-- ===== src/Js/Json.antt =====
-- `JSON.stringify` of a text, and the order of texts by their UTF-16 units, which `sort()` uses.
use Prim.Native.Char.{Char, code}
use Prim.Native.Nat.{compare, Ordering}
use Prim.Native.String
use open_interest_clusters.Prelude.{
  ℕ, ◌+◌, ◌-◌, ◌/◌, ◌%◌, ◌≡◌, refl, String, Bool, true, false, List, [], ◌∷◌, leb, nat_eq,
  if◌then◌else◌,
}

-- A digit of a `\u` escape.
abbrev hex_digit : ℕ → String
hex_digit n = String.slice "0123456789abcdef" n (n + 1)

quoted_character : Char → String
quoted_character c =
    if nat_eq (code c) b'"'
    then "\\\""
    else if nat_eq (code c) b'\\'
    then "\\\\"
    else if nat_eq (code c) 8
    then "\\b"
    else if nat_eq (code c) 9
    then "\\t"
    else if nat_eq (code c) 10
    then "\\n"
    else if nat_eq (code c) 12
    then "\\f"
    else if nat_eq (code c) 13
    then "\\r"
    else if leb 0x20 (code c)
    then String.◌∷◌ c ""
    else String.◌++◌ "\\u00" (String.◌++◌ (hex_digit (code c / 16)) (hex_digit (code c % 16)))

quoted_characters : String → String
quoted_characters String.[] = ""
quoted_characters (String.◌∷◌ c s) = String.◌++◌ (quoted_character c) (quoted_characters s)

-- `JSON.stringify(text)`
unfoldable pub json_text : String → String
unfolding quoted_character quoted_characters
json_text s = String.◌++◌ "\"" (String.◌++◌ (quoted_characters s) "\"")

abbrev units : String → List ℕ
units String.[] = []
units (String.◌∷◌ c s) =
    if leb 0x10000 (code c)
    then (0xd800 + (code c - 0x10000) / 1024) ∷ (0xdc00 + (code c - 0x10000) % 1024) ∷ units s
    else code c ∷ units s

abbrev units_at_most : List ℕ → List ℕ → Bool
units_at_most [] bs = true
units_at_most (a ∷ as') [] = false
units_at_most (a ∷ as') (b ∷ bs) = elim (compare a b) [
  | Ordering.lt ↦ true
  | Ordering.eq ↦ units_at_most as' bs
  | Ordering.gt ↦ false
]

-- Whether `sort()` leaves the texts in this order.
unfoldable pub text_at_most : String → String → Bool
text_at_most s t = units_at_most (units s) (units t)

escapes : json_text "a\"b\n" ≡ "\"a\\\"b\\n\""
unfolding json_text
escapes = refl
