-- ===== src/Sources/Timestamp.antt =====
-- recommendation/source-adapter.ts: parseStrictRfc3339Timestamp, with its pattern as a function on
-- the characters.
use Prim.Native.Char.{Char, code}
use open_interest_clusters.Prelude.{
  ℕ, ◌+◌, ◌-◌, ◌*◌, ◌%◌, String, Bool, true, false, not, ◌&&◌, ◌||◌, Option, none, some, leb,
  nat_eq, if◌then◌else◌,
}
use open_interest_clusters.Js.Narrow.{◌>>=◌, ◌>>◌, guard}

-- ParsedRfc3339Timestamp; its zone as the pattern reads it: nothing for Z, or the hours and minutes
-- of the offset. The sign is not read.
pub record Moment : Type 0 where
  pub year : ℕ
  pub month : ℕ
  pub day : ℕ
  pub hour : ℕ
  pub minute : ℕ
  pub second : ℕ
  pub offset : Option (ℕ × ℕ)

-- `\d`
unfoldable pub digit : Char → Option ℕ
digit c = if leb 48 (code c) && leb (code c) 57 then some (code c - 48) else none

-- What is left of the text after its first character, which is this one
unfoldable pub expect : ℕ → String → Option String
expect c String.[] = none
expect c (String.◌∷◌ d s) = if nat_eq (code d) c then some s else none

-- `\d{2}`, `\d{4}`: the number, and the text after it
unfoldable pub two_digits : String → Option (ℕ × String)
two_digits (String.◌∷◌ a (String.◌∷◌ b s)) = do x ← digit a; y ← digit b; some (10 * x + y, s)
two_digits _ = none

unfoldable pub four_digits : String → Option (ℕ × String)
four_digits s = do high ← two_digits s; low ← two_digits high.1; some (100 * high.0 + low.0, low.1)

-- `\d*`: the text after the digits
unfoldable pub skip_digits : String → String
skip_digits String.[] = ""
skip_digits (String.◌∷◌ c s) =
    let rest = skip_digits s in elim (digit c) [ none ↦ String.◌∷◌ c s | some _ ↦ rest ]

abbrev after_digit : String → Option String
after_digit String.[] = none
after_digit (String.◌∷◌ c s) = digit c >>= λ _. some (skip_digits s)

-- `(?:\.\d+)?`; what follows it in the pattern is no digit and no dot, so it takes all it can.
unfoldable pub skip_fraction : String → Option String
skip_fraction s = elim (expect 46 s) [ none ↦ some s | some rest ↦ after_digit rest ]

abbrev pub is_end : String → Bool
is_end String.[] = true
is_end (String.◌∷◌ c s) = false

-- `[+-]\d{2}:\d{2}$`, past the sign
unfoldable pub offset : String → Option (ℕ × ℕ)
offset s = do
  hours ← two_digits s
  rest ← expect 58 hours.1
  minutes ← two_digits rest
  guard (is_end minutes.1)
  some (hours.0, minutes.0)

-- `(Z|[+-]\d{2}:\d{2})$`
unfoldable pub zone : String → Option (Option (ℕ × ℕ))
zone String.[] = none
zone (String.◌∷◌ c s) =
    if nat_eq (code c) 90
    then (guard (is_end s) >> some none)
    else if nat_eq (code c) 43 || nat_eq (code c) 45
    then (offset s >>= λ o. some (some o))
    else none

-- STRICT_RFC3339_TIMESTAMP_PATTERN with the numbers of its groups
unfoldable pub match_timestamp : String → Option Moment
match_timestamp s = do
  year ← four_digits s
  s1 ← expect 45 year.1
  month ← two_digits s1
  s2 ← expect 45 month.1
  day ← two_digits s2
  s3 ← expect 84 day.1
  hour ← two_digits s3
  s4 ← expect 58 hour.1
  minute ← two_digits s4
  s5 ← expect 58 minute.1
  second ← two_digits s5
  s6 ← skip_fraction second.1
  z ← zone s6
  some (record {
    year = year.0;
    month = month.0;
    day = day.0;
    hour = hour.0;
    minute = minute.0;
    second = second.0;
    offset = z;
  })

-- daysInMonth
unfoldable pub days_in_month : ℕ → ℕ → ℕ
days_in_month year month =
    if nat_eq month 2
    then (if nat_eq (year % 4) 0 && (not (nat_eq (year % 100) 0) || nat_eq (year % 400) 0)
        then 29
        else 28)
    else if nat_eq month 4 || nat_eq month 6 || nat_eq month 9 || nat_eq month 11
    then 30
    else 31

abbrev pub offset_in_range : Option (ℕ × ℕ) → Bool
offset_in_range none = true
offset_in_range (some (hours, minutes)) = leb hours 23 && leb minutes 59

-- The conditions of parseStrictRfc3339Timestamp on what the pattern matched
unfoldable pub in_range : Moment → Bool
in_range t =
    leb 1 t.month
    && leb t.month 12
    && leb 1 t.day
    && leb t.day (days_in_month t.year t.month)
    && leb t.hour 23
    && leb t.minute 59
    && leb t.second 60
    && (not (nat_eq t.second 60) || nat_eq t.minute 59)
    && offset_in_range t.offset

-- parseStrictRfc3339Timestamp of a bounded text
unfoldable pub parse_timestamp : String → Option Moment
parse_timestamp s = match_timestamp s >>= λ t. guard (in_range t) >> some t
