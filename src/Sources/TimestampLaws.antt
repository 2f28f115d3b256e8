-- ===== src/Sources/TimestampLaws.antt =====
-- recommendation/source-adapter.ts, parseStrictRfc3339Timestamp: its ranges, and the texts that it
-- accepts.
use Prim.Native.Char.{Char}
use open_interest_clusters.Prelude.{
  ℕ, ◌/◌, ◌%◌, ◌<◌, ◌≡◌, refl, ap, arith, String, Bool, true, false, Option, none, some, zero, suc,
}
use open_interest_clusters.Js.Narrow.{◌>>◌, guard, >>=-eq-some}
use open_interest_clusters.Sources.Timestamp.{
  Moment, digit, expect, two_digits, four_digits, skip_fraction, offset, zone, match_timestamp,
  offset_in_range, in_range, parse_timestamp,
}
use open_interest_clusters.Sources.Moment.{
  IsMoment, offset_iff, in_range-IsMoment, IsMoment-in_range,
}

-- The digit of a number that is at most 9
abbrev pub digit_char : ℕ → Char
digit_char zero = "0"
digit_char (suc zero) = "1"
digit_char (suc (suc zero)) = "2"
digit_char (suc (suc (suc zero))) = "3"
digit_char (suc (suc (suc (suc zero)))) = "4"
digit_char (suc (suc (suc (suc (suc zero))))) = "5"
digit_char (suc (suc (suc (suc (suc (suc zero)))))) = "6"
digit_char (suc (suc (suc (suc (suc (suc (suc zero))))))) = "7"
digit_char (suc (suc (suc (suc (suc (suc (suc (suc zero)))))))) = "8"
digit_char _ = "9"

digit-digit_char : (n : ℕ) → n < 10 → digit (digit_char n) ≡ some n
unfolding digit
digit-digit_char zero h = refl
digit-digit_char (suc zero) h = refl
digit-digit_char (suc (suc zero)) h = refl
digit-digit_char (suc (suc (suc zero))) h = refl
digit-digit_char (suc (suc (suc (suc zero)))) h = refl
digit-digit_char (suc (suc (suc (suc (suc zero))))) h = refl
digit-digit_char (suc (suc (suc (suc (suc (suc zero)))))) h = refl
digit-digit_char (suc (suc (suc (suc (suc (suc (suc zero))))))) h = refl
digit-digit_char (suc (suc (suc (suc (suc (suc (suc (suc zero)))))))) h = refl
digit-digit_char (suc (suc (suc (suc (suc (suc (suc (suc (suc zero))))))))) h = refl
digit-digit_char (suc (suc (suc (suc (suc (suc (suc (suc (suc (suc n)))))))))) h = ground arith

-- A number below 100 in two digits, before a text
abbrev pub two : ℕ → String → String
two n rest = String.◌∷◌ (digit_char (n / 10)) (String.◌∷◌ (digit_char (n % 10)) rest)

two_digits-two : (n : ℕ) (rest : String) → n < 100 → two_digits (two n rest) ≡ some (n, rest)
unfolding two_digits
two_digits-two n rest h =
    rw (digit-digit_char (n / 10) (omega arith), digit-digit_char (n % 10) (omega arith))
      (ap (λ m. some (m, rest)) (omega arith))

-- A number below 10000 in four digits
abbrev pub four : ℕ → String → String
four n rest = two (n / 100) (two (n % 100) rest)

four_digits-four : (n : ℕ) (rest : String) → n < 10000 → four_digits (four n rest) ≡ some (n, rest)
unfolding four_digits
four_digits-four n rest h =
    rw
      (
        two_digits-two (n / 100) (two (n % 100) rest) (omega arith),
        two_digits-two (n % 100) rest (omega arith),
      )
      (ap (λ m. some (m, rest)) (omega arith))

abbrev pub zone_text : Option (ℕ × ℕ) → String
zone_text none = "Z"
zone_text (some (hours, minutes)) = String.◌∷◌ "+" (two hours (String.◌∷◌ ":" (two minutes "")))

-- A moment in the form of RFC 3339, without a fraction of a second
abbrev pub written : Moment → String
written t = four t.year (
    String.◌∷◌ "-" (
      two t.month (
        String.◌∷◌ "-" (
          two t.day (
            String.◌∷◌ "T" (
              two t.hour (
                String.◌∷◌ ":"
                  (two t.minute (String.◌∷◌ ":" (two t.second (zone_text t.offset)))))))))))

zone-zone_text : (o : Option (ℕ × ℕ)) → offset_in_range o ≡ true → zone (zone_text o) ≡ some o
unfolding zone offset expect
zone-zone_text none h = refl
zone-zone_text (some (hours, minutes)) h =
    rw
      (
        zone,
        offset,
        two_digits-two hours (String.◌∷◌ ":" (two minutes "")) (ground arith),
        two_digits-two minutes "" (ground arith),
      )
      refl

skip_fraction-zone_text : (o : Option (ℕ × ℕ)) → skip_fraction (zone_text o) ≡ some (zone_text o)
unfolding skip_fraction expect
skip_fraction-zone_text none = refl
skip_fraction-zone_text (some (hours, minutes)) = refl

match_timestamp-written : (t : Moment) → IsMoment t → match_timestamp (written t) ≡ some t
unfolding match_timestamp expect
match_timestamp-written t h =
    let most = h.day.most in
    rw
      (
        match_timestamp,
        four_digits-four t.year _ h.year,
        two_digits-two t.month _ (omega arith),
        two_digits-two t.day _ (omega arith),
        two_digits-two t.hour _ (omega arith),
        two_digits-two t.minute _ (omega arith),
        two_digits-two t.second _ (omega arith),
        skip_fraction-zone_text t.offset,
        zone-zone_text t.offset ((offset_iff t.offset).1 h.offset),
      )
      refl

digit_small : (c : Char) (n : ℕ) → digit c ≡ some n → n < 10
unfolding digit
digit_small c n h = ground arith

two_digits_small : (s : String) (n : ℕ) (rest : String) → two_digits s ≡ some (n, rest) → n < 100
unfolding two_digits
two_digits_small String.[] n rest h = ground arith
two_digits_small (String.◌∷◌ a String.[]) n rest h = ground arith
two_digits_small (String.◌∷◌ a (String.◌∷◌ b s)) n rest h =
    let (x, is_x, h1) = >>=-eq-some (digit a) _ h in
    let (y, is_y, h2) = >>=-eq-some (digit b) _ h1 in
    ground (arith, digit_small a x is_x, digit_small b y is_y)

four_digits_small : (s : String) (p : ℕ × String) → four_digits s ≡ some p → p.0 < 10000
unfolding four_digits
four_digits_small s (n, rest) h =
    let (high, is_high, h1) = >>=-eq-some (two_digits s) _ h in
    let (low, is_low, h2) = >>=-eq-some (two_digits high.1) _ h1 in
    ground
      (arith, two_digits_small s high.0 high.1 is_high, two_digits_small high.1 low.0 low.1 is_low)

match_timestamp_year : (s : String) (t : Moment) → match_timestamp s ≡ some t → t.year < 10000
unfolding match_timestamp
match_timestamp_year s t h =
    let (year, is_year, h1) = >>=-eq-some (four_digits s) _ h in
    let same : year.0 ≡ t.year = ground arith in rw same at (four_digits_small s year is_year)

guard-true : (b : Bool) (t m : Moment) → (guard b >> some t) ≡ some m → (b ≡ true) × (t ≡ m)
guard-true true t m h = (refl, ground arith)
guard-true false t m h = ground arith

-- A text that is parsed is a moment: its month, its day in that month and year, its time of the day
-- and its offset are in range, and a leap second only ends an hour.
pub parse_timestamp-IsMoment : (s : String) (t : Moment) → parse_timestamp s ≡ some t → IsMoment t
unfolding parse_timestamp
parse_timestamp-IsMoment s t h =
    let (m, matched, guarded) = >>=-eq-some (match_timestamp s) _ h in
    let (ranged, same) = guard-true (in_range m) m t guarded in
    rw same at (in_range-IsMoment m (match_timestamp_year s m matched) ranged)

-- Every moment is the parse of its text, written with no fraction of a second and with the sign +
-- before an offset.
pub parse_timestamp-written : (t : Moment) → IsMoment t → parse_timestamp (written t) ≡ some t
unfolding parse_timestamp
parse_timestamp-written t h =
    rw (parse_timestamp, match_timestamp-written t h, IsMoment-in_range t h) refl
