-- ===== src/Planning/Iterated.antt =====
-- `advance_due` applied to its own results, as the batch of due rules does one run after the other.
use plan_it.Common.{◌>>◌, ◌>>=◌, ◌≡◌, some, ok, false, zero, suc, Result, ℕ, Option, ◌≤◌}
use plan_it.Common.Text.{Text, strip}
use plan_it.Common.Time.{Instant, Datetime}
use plan_it.Common.Int.{pos}
use plan_it.Planning.{Zone, RecurringFrequency, advance_due, is_weekly, months_of}
use plan_it.Planning.Dates.{LocalTime, advance_months}
use plan_it.Planning.Recurrence.{IsDate}

-- A zone in which a local date, converted to UTC and back, is the same date. The time of day may
-- differ, as it does where a change of the offset skips it.
abbrev pub KeepsDates : Zone → Type 0
KeepsDates zone =
    (l : LocalTime)
    → IsDate l
    → ((zone.from_utc (zone.local_to_utc l)).year ≡ l.year)
      × ((zone.from_utc (zone.local_to_utc l)).month ≡ l.month)
      × ((zone.from_utc (zone.local_to_utc l)).day ≡ l.day)

-- A date with the year, month and day of `l`.
abbrev Dated : LocalTime → LocalTime → Type 0
Dated l t = (t.year ≡ l.year) × (t.month ≡ l.month) × (t.day ≡ l.day)

module _ (zone_info : Text → Option Zone) (frequency : RecurringFrequency) (timezone : Text)
    (anchor : ℕ) where
  -- The stored due time after a number of runs.
  unfoldable pub nth_due : ℕ → Instant → Result Instant
  unfolding advance_due
  nth_due zero due = ok due
  nth_due (suc n) due = do
    last ← nth_due n due
    advance_due zone_info (Datetime.aware last (pos 0)) frequency timezone (some anchor)

  module _ {zone : Zone} (known : zone_info (strip timezone) ≡ some zone)
      (monthly : is_weekly frequency ≡ false) (low : 1 ≤ anchor) (high : anchor ≤ 31) where
    -- One run of the rule.
    later : Instant → Instant
    later due = zone.local_to_utc (advance_months (months_of frequency) anchor (zone.from_utc due))
