-- ===== src/Planning/Recurrence.antt =====
-- The dates of a recurrence.
use plan_it.Common.{
  ◌≡◌, arith, refl, ◌+◌, true, false, inl, inr, ℕ, ◌≤◌, ◌/◌, ◌%◌, ltb, Bool-cases, ◌-◌, ◌==◌, ok,
  ok-injective, subst, ◌||◌,
}
use plan_it.Planning.Dates.{
  min_day, advance_week, LocalTime, advance_months, days_in_month, month_index, next_month,
}
use plan_it.Planning.{advance_local, RecurringFrequency, is_weekly, months_of}

-- A date of the calendar.
abbrev pub IsDate : LocalTime → Type 0
IsDate t = (1 ≤ t.month) × (t.month ≤ 12) × (1 ≤ t.day) × (t.day ≤ days_in_month t.year t.month)

pub days_in_month-range : (y m : ℕ) → (28 ≤ days_in_month y m) × (days_in_month y m ≤ 31)
unfolding days_in_month
days_in_month-range y m = ground arith

min_day-range : (a b : ℕ) → (min_day a b ≤ a) × (min_day a b ≤ b)
min_day-range a b = ground arith

min_day-positive : (a b : ℕ) → 1 ≤ a → 1 ≤ b → 1 ≤ min_day a b
min_day-positive a b h j = ground arith

-- Months later there is a date of the calendar, whatever the intended day and the date before.
pub advance_months-IsDate :
    (months intended : ℕ) (t : LocalTime) → 1 ≤ intended → IsDate (advance_months months intended t)
unfolding advance_months
advance_months-IsDate months intended t h =
    let index = month_index t + months in
    let (low, _) = days_in_month-range (index / 12) (index % 12 + 1) in
    (
      omega arith,
      omega arith,
      min_day-positive intended (days_in_month (index / 12) (index % 12 + 1)) h (omega arith),
      (min_day-range intended (days_in_month (index / 12) (index % 12 + 1))).1,
    )

next_month-IsDate :
    (t : LocalTime) (day : ℕ) → IsDate t → 1 ≤ day → day ≤ 28 → IsDate (next_month t day)
next_month-IsDate t day (a, b, c, d) low high = elim (Bool-cases (t.month == 12)) [
  | inl e ↦
      let (first, _) = days_in_month-range (t.year + 1) 1 in
      rw e (omega arith, omega arith, low, omega arith)
  | inr e ↦
      let (next, _) = days_in_month-range t.year (t.month + 1) in
      let below : t.month + 1 ≤ 12 = ground arith in rw e (omega arith, below, low, omega arith)
]

-- A week later there is a date of the calendar.
pub advance_week-IsDate : (t : LocalTime) → IsDate t → IsDate (advance_week t)
unfolding advance_week
advance_week-IsDate t (a, b, c, d) =
    let last = days_in_month t.year t.month in
    let (low, _) = days_in_month-range t.year t.month in
    elim (Bool-cases (ltb last (t.day + 7))) [
      | inl e ↦
          let past : last + 1 ≤ t.day + 7 = ltb_past last (t.day + 7) e in
          rw e (next_month-IsDate t (t.day + 7 - last) (a, b, c, d) (omega arith) (omega arith))
      | inr e ↦
          let within : t.day + 7 ≤ last = ltb_within last (t.day + 7) e in
          rw e (a, b, omega arith, within)
    ]
  where
    ltb_past : (a b : ℕ) → ltb a b ≡ true → a + 1 ≤ b
    ltb_past a b h = ground arith

    ltb_within : (a b : ℕ) → ltb a b ≡ false → b ≤ a
    ltb_within a b h = ground arith

pub month_index-advance_months :
    (months intended : ℕ) (t : LocalTime)
    → month_index (advance_months months intended t) ≡ month_index t + months
unfolding advance_months
month_index-advance_months months intended t = omega arith

pub advance_months-day :
    (months intended : ℕ) (t : LocalTime)
    → (advance_months months intended t).day
      ≡ min_day intended (
          days_in_month
            (advance_months months intended t).year
            (advance_months months intended t).month)
unfolding advance_months
advance_months-day months intended t = refl

advance_week-clock : (t : LocalTime) → (advance_week t).clock ≡ t.clock
unfolding advance_week
advance_week-clock t = ground arith

advance_local-months :
    (frequency : RecurringFrequency) (day : ℕ) (t : LocalTime) {u : LocalTime}
    → is_weekly frequency ≡ false
    → advance_local frequency day t ≡ ok u
    → (1 ≤ day) × (advance_months (months_of frequency) day t ≡ u)
unfolding advance_local
advance_local-months frequency day t e h = elim (Bool-cases (day == 0 || ltb 31 day)) [
  | inl f ↦ let j = rw (e, f) at h in cc
  | inr f ↦ let low : 1 ≤ day = ground arith in (low, ok-injective (rw (e, f) at h))
]

advance_months-clock :
    (months day : ℕ) (t : LocalTime) → (advance_months months day t).clock ≡ t.clock
unfolding advance_months
advance_months-clock months day t = refl

advance_local-week :
    (frequency : RecurringFrequency) (day : ℕ) (t : LocalTime) {u : LocalTime}
    → is_weekly frequency ≡ true
    → advance_local frequency day t ≡ ok u
    → advance_week t ≡ u
unfolding advance_local
advance_local-week frequency day t e h = ok-injective (rw e at h)

-- Each frequency, where its day is accepted, takes a date of the calendar to one, at the same time
-- of day.
pub advance_local-IsDate :
    (frequency : RecurringFrequency) (day : ℕ) (t : LocalTime) {u : LocalTime}
    → IsDate t
    → advance_local frequency day t ≡ ok u
    → IsDate u × (u.clock ≡ t.clock)
advance_local-IsDate frequency day t {u} valid h = elim (Bool-cases (is_weekly frequency)) [
  | inl e ↦
      let j : advance_week t ≡ u = advance_local-week frequency day t e h in
      subst (λ v. IsDate v × (v.clock ≡ t.clock)) j
        (advance_week-IsDate t valid, advance_week-clock t)
  | inr e ↦
      let (low, j) = advance_local-months frequency day t e h in
      subst (λ v. IsDate v × (v.clock ≡ t.clock)) j
        (
          advance_months-IsDate (months_of frequency) day t low,
          advance_months-clock (months_of frequency) day t,
        )
]
