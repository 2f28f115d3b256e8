-- ===== src/Sources/Moment.antt =====
-- recommendation/source-adapter.ts, parseStrictRfc3339Timestamp: the ranges of the calendar.
use open_interest_clusters.Prelude.{
  ℕ, ◌%◌, ◌≤◌, ◌<◌, ◌≡◌, refl, arith, true, Option, none, some, ◌≢◌, ◌⊎◌, ◌↔◌,
}
use open_interest_clusters.Sources.Timestamp.{Moment, days_in_month, offset_in_range, in_range}

-- A year divisible by 4, but by 100 only where it is divisible by 400.
abbrev pub IsLeapYear : ℕ → Type 0
IsLeapYear year = (year % 4 ≡ 0) × (year % 100 ≢ 0 ⊎ (year % 400 ≡ 0))

-- The months of 30 days are April, June, September and November.
abbrev pub IsShortMonth : ℕ → Type 0
IsShortMonth month = (month ≡ 4) ⊎ ((month ≡ 6) ⊎ ((month ≡ 9) ⊎ (month ≡ 11)))

-- The day is in the month: none has more than 31, a short month 30, and February 29, of which the
-- last is in leap years only.
pub record IsDay (year month day : ℕ) : Type 0 where
  pub first : 1 ≤ day
  pub most : day ≤ 31
  pub short : IsShortMonth month → day ≤ 30
  pub february : month ≡ 2 → day ≤ 29
  pub leap : month ≡ 2 → day ≡ 29 → IsLeapYear year

-- An offset from UTC is of less than a day.
abbrev pub IsOffset : Option (ℕ × ℕ) → Type 0
IsOffset none = Unit
IsOffset (some (hours, minutes)) = (hours ≤ 23) × (minutes ≤ 59)

-- A moment that is accepted has a month of the year, a day of that month, a time of the day up to a
-- leap second, in the last minute of an hour only, and an offset below a day.
pub record IsMoment (t : Moment) : Type 0 where
  pub year : t.year < 10000
  pub month : (1 ≤ t.month) × (t.month ≤ 12)
  pub day : IsDay t.year t.month t.day
  pub hour : t.hour ≤ 23
  pub minute : t.minute ≤ 59
  pub second : t.second ≤ 60
  pub leap : t.second ≡ 60 → t.minute ≡ 59
  pub offset : IsOffset t.offset

days_in_month-IsDay :
    (year month day : ℕ) → 1 ≤ day → day ≤ days_in_month year month → IsDay year month day
unfolding days_in_month
days_in_month-IsDay year month day some_day h = record {
  first = some_day;
  most = ground arith;
  short = λ k. ground (arith, k);
  february = λ k. ground (arith, k);
  leap = λ k last. ground (arith, k, last);
}

IsDay-days_in_month : (year month day : ℕ) → IsDay year month day → day ≤ days_in_month year month
unfolding days_in_month
IsDay-days_in_month year month day h = ground (arith, h.most, h.short, h.february, h.leap)

pub offset_iff : (o : Option (ℕ × ℕ)) → (offset_in_range o ≡ true) ↔ IsOffset o
offset_iff none = (λ h. tt, λ h. refl)
offset_iff (some (hours, minutes)) = (λ h. ground arith, λ h. ground arith)

pub in_range-IsMoment : (t : Moment) → t.year < 10000 → in_range t ≡ true → IsMoment t
unfolding in_range
in_range-IsMoment t small h = record {
  year = small;
  month = ground arith;
  day = days_in_month-IsDay t.year t.month t.day (ground arith) (ground arith);
  hour = ground arith;
  minute = ground arith;
  second = ground arith;
  leap = ground arith;
  offset = (offset_iff t.offset).0 (ground arith);
}

pub IsMoment-in_range : (t : Moment) → IsMoment t → in_range t ≡ true
unfolding in_range
IsMoment-in_range t h = ground (
  arith,
  h.month,
  h.day.first,
  IsDay-days_in_month t.year t.month t.day h.day,
  h.hour,
  h.minute,
  h.second,
  h.leap,
  (offset_iff t.offset).1 h.offset,
)
