-- ===== src/Js/Text.antt =====
-- Texts: `trim`, `length` in UTF-16 units, and recommendation/control-characters.ts. A text is a
-- list of code points; lone surrogates are not represented.
use Prim.Native.Char.{Char, code}
use Prim.Native.String.{String}
use open_interest_clusters.Prelude.{
  ℕ, ◌+◌, ◌≡◌, refl, Bool, false, not, ◌&&◌, ◌||◌, ◌==◌, leb, nat_eq, if◌then◌else◌,
}

-- The white space and line terminators of the language.
unfoldable pub is_white_space : ℕ → Bool
is_white_space c =
    (leb 9 c && leb c 13)
    || nat_eq c 32
    || nat_eq c 0xa0
    || nat_eq c 0x1680
    || (leb 0x2000 c && leb c 0x200a)
    || nat_eq c 0x2028
    || nat_eq c 0x2029
    || nat_eq c 0x202f
    || nat_eq c 0x205f
    || nat_eq c 0x3000
    || nat_eq c 0xfeff

unfoldable pub trim_start : String → String
trim_start String.[] = ""
trim_start (String.◌∷◌ c s) =
    let rest = trim_start s in if is_white_space (code c) then rest else String.◌∷◌ c s

abbrev keep_unless_blank : Char → String → String
keep_unless_blank c String.[] = if is_white_space (code c) then "" else String.◌∷◌ c ""
keep_unless_blank c (String.◌∷◌ d s) = String.◌∷◌ c (String.◌∷◌ d s)

unfoldable pub trim_end : String → String
trim_end String.[] = ""
trim_end (String.◌∷◌ c s) = keep_unless_blank c (trim_end s)

-- `value.trim()`
unfoldable pub trim : String → String
unfolding is_white_space trim_start trim_end
trim s = trim_end (trim_start s)

-- `value.length`
unfoldable pub utf16_length : String → ℕ
utf16_length String.[] = 0
utf16_length (String.◌∷◌ c s) = (if leb 0x10000 (code c) then 2 else 1) + utf16_length s

-- `value.trim().length > 0`
unfoldable pub is_not_blank : String → Bool
unfolding trim
is_not_blank s = not (trim s == "")

-- The characters that hasUnsafeControlCharacter refuses.
unfoldable pub is_unsafe_control : ℕ → Bool
is_unsafe_control c = leb c 0x1f || nat_eq c 0x7f || (leb 0x80 c && leb c 0x9f)

unfoldable pub has_unsafe_control_character : String → Bool
unfolding is_unsafe_control
has_unsafe_control_character String.[] = false
has_unsafe_control_character (String.◌∷◌ c s) =
    is_unsafe_control (code c) || has_unsafe_control_character s

-- `/[\x00-\x1F\x7F]/u.test(value)`
unfoldable pub has_ascii_control_character : String → Bool
has_ascii_control_character String.[] = false
has_ascii_control_character (String.◌∷◌ c s) =
    leb (code c) 0x1f || nat_eq (code c) 0x7f || has_ascii_control_character s

trim_ends : trim " a b\n" ≡ "a b"
unfolding trim
trim_ends = refl
