-- ===== src/Signals/TargetKey.antt =====
-- recommendation/interest-signal.ts: which texts may be the key of an interest target.
use Prim.Native.Char.{code}
use open_interest_clusters.Prelude.{
  ℕ, String, Bool, true, false, not, ◌&&◌, ◌||◌, ◌==◌, List, [], ◌∷◌, leb, nat_eq, length, every,
  if◌then◌else◌, ◌≡◌, refl,
}
use open_interest_clusters.Js.Text.{is_not_blank, trim, utf16_length, has_ascii_control_character}

unfoldable pub is_prefix : String → String → Bool
is_prefix String.[] s = true
is_prefix (String.◌∷◌ c p) String.[] = false
is_prefix (String.◌∷◌ c p) (String.◌∷◌ d s) = nat_eq (code c) (code d) && is_prefix p s

-- `s.includes(p)`
unfoldable pub includes_text : String → String → Bool
unfolding is_prefix
includes_text String.[] p = is_prefix p String.[]
includes_text (String.◌∷◌ c s) p = is_prefix p (String.◌∷◌ c s) || includes_text s p

-- MAX_TARGET_KEY_LENGTH
abbrev pub max_target_key_length : ℕ
max_target_key_length = 160

-- isPrivacySafeTargetKey, of a text
unfoldable pub is_safe_key : String → Bool
unfolding includes_text
is_safe_key s =
    is_not_blank s
    && trim s == s
    && leb (utf16_length s) max_target_key_length
    && not (includes_text s "://")
    && not (includes_text s "@")
    && not (has_ascii_control_character s)

-- `[a-z0-9]` under the flags `iu`, which also match the long s and the Kelvin sign.
abbrev is_alphanumeric : ℕ → Bool
is_alphanumeric c =
    (leb b'a' c && leb c b'z')
    || (leb b'A' c && leb c b'Z')
    || (leb b'0' c && leb c b'9')
    || nat_eq c 0x17f
    || nat_eq c 0x212a

abbrev is_label_character : ℕ → Bool
is_label_character c = is_alphanumeric c || nat_eq c b'-'

abbrev ends_alphanumeric : List ℕ → Bool
ends_alphanumeric [] = false
ends_alphanumeric (c ∷ []) = is_alphanumeric c
ends_alphanumeric (c ∷ d ∷ cs) = ends_alphanumeric (d ∷ cs)

abbrev starts_alphanumeric : List ℕ → Bool
starts_alphanumeric [] = false
starts_alphanumeric (c ∷ cs) = is_alphanumeric c

-- `[a-z0-9](?:[a-z0-9-]{0,61}[a-z0-9])?`
unfoldable pub is_label : List ℕ → Bool
is_label cs =
    leb (length cs) 63
    && every is_label_character cs
    && starts_alphanumeric cs
    && ends_alphanumeric cs

abbrev extend : ℕ → List (List ℕ) → List (List ℕ)
extend c [] = (c ∷ []) ∷ []
extend c (l ∷ ls) = (c ∷ l) ∷ ls

-- The runs between dots; no label holds a dot, so the pattern can only split there.
unfoldable pub split_dots : String → List (List ℕ)
split_dots String.[] = [] ∷ []
split_dots (String.◌∷◌ c s) =
    let rest = split_dots s in if nat_eq (code c) b'.' then [] ∷ rest else extend (code c) rest

-- DOMAIN_TARGET_KEY_PATTERN: two labels or more
unfoldable pub matches_domain : String → Bool
unfolding split_dots is_label
matches_domain s = leb 2 (length (split_dots s)) && every is_label (split_dots s)

-- isPrivacySafeDomainTargetKey, of a text
unfoldable pub is_safe_domain_key : String → Bool
unfolding matches_domain
is_safe_domain_key s = is_safe_key s && matches_domain s

domain_tests :
    (matches_domain "a-b.example" ≡ true)
    × (matches_domain "example" ≡ false)
    × (matches_domain "-a.b" ≡ false)
    × (matches_domain "a..b" ≡ false)
unfolding matches_domain
domain_tests = (refl, refl, refl, refl)

key_tests : (is_safe_key "rust" ≡ true) × (is_safe_key "a@b" ≡ false) × (is_safe_key " a" ≡ false)
unfolding is_safe_key is_not_blank trim utf16_length has_ascii_control_character
key_tests = (refl, refl, refl)
