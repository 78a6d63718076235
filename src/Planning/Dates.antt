-- ===== src/Planning/Dates.antt =====
-- Dates of the proleptic Gregorian calendar with a time of day, as the recurrences of
-- backend/app/domain/planning/policies.py use them.
use plan_it.Common.{
  if◌then◌else◌, ◌+◌, false, not, ℕ, ◌/◌, ltb, ◌*◌, Bool, ◌==◌, ◌||◌, ◌%◌, ◌-◌, ◌&&◌,
}

-- `datetime` in a zone: `clock` counts the microseconds of the day, `fold` tells a repeated hour.
pub record LocalTime : Type 0 where
  pub year : ℕ
  pub month : ℕ
  pub day : ℕ
  pub clock : ℕ
  pub fold : Bool

unfoldable pub is_leap : ℕ → Bool
is_leap year = year % 4 == 0 && (not (year % 100 == 0) || year % 400 == 0)

abbrev pub is_short : ℕ → Bool
is_short month = month == 4 || (month == 6 || (month == 9 || month == 11))

-- `calendar.monthrange(year, month)[1]`.
unfoldable pub days_in_month : ℕ → ℕ → ℕ
unfolding is_leap
days_in_month year month =
    if month == 2 then (if is_leap year then 29 else 28) else if is_short month then 30 else 31

-- The months from the first of the calendar on.
abbrev pub month_index : LocalTime → ℕ
month_index t = t.year * 12 + t.month - 1

abbrev pub min_day : ℕ → ℕ → ℕ
min_day a b = if ltb b a then b else a

-- The same time of day in a later month, on the intended day or the last one.
unfoldable pub advance_months : ℕ → ℕ → LocalTime → LocalTime
unfolding days_in_month
advance_months months intended t =
    let index = month_index t + months in
    let year = index / 12 in
    let month = index % 12 + 1 in
    record t { year = year; month = month; day = min_day intended (days_in_month year month) }

-- The date after the last of a month.
abbrev pub next_month : LocalTime → ℕ → LocalTime
next_month t day =
    if t.month == 12
    then record t { year = t.year + 1; month = 1; day = day; fold = false }
    else record t { month = t.month + 1; day = day; fold = false }

-- `local + timedelta(days=7)`.
unfoldable pub advance_week : LocalTime → LocalTime
unfolding days_in_month
advance_week t =
    let last = days_in_month t.year t.month in
    if ltb last (t.day + 7)
    then next_month t (t.day + 7 - last)
    else record t { day = t.day + 7; fold = false }
