-- ===== src/Planning/Tests.antt =====
-- The last day of January, month by month.
use plan_it.Common.{◌≡◌, arith, refl, ◌+◌, ok, false, ◌*◌, some, Option, ◌/◌, ◌-◌, ◌%◌}
use plan_it.Common.Time.{Instant}
use plan_it.Common.Text.{Text, text}
use plan_it.Common.Int.{pos, negsuc, ◌-ℤ◌}
use plan_it.Planning.Dates.{days_in_month, LocalTime, advance_months}
use plan_it.Planning.{advance_local, RecurringFrequency, Zone, advance_due}
use plan_it.Planning.Recurrence.{IsDate, advance_local-IsDate}
use plan_it.Planning.Iterated.{nth_due}

abbrev january : LocalTime
january = record { year = 2027; month = 1; day = 31; clock = 9; fold = false }

-- A zone whose moments count the days of months of 31 days, at nine o'clock.
abbrev from_days : Instant → LocalTime
from_days (pos n) = record {
  year = n / 31 / 12;
  month = n / 31 % 12 + 1;
  day = n % 31 + 1;
  clock = 9;
  fold = false;
}
from_days (negsuc n) = january

abbrev to_days : LocalTime → Instant
to_days t = pos ((t.year * 12 + (t.month - 1)) * 31 + (t.day - 1))

abbrev flat : Zone
flat = record { from_utc = from_days; local_to_utc = to_days }

abbrev only_flat : Text → Option Zone
only_flat name = some flat

-- The end of February, then the end of March.
nth_due_run :
    (nth_due only_flat RecurringFrequency.monthly (text "UTC") 31 1 (to_days january)
      ≡ ok (to_days (record january { month = 2; day = 28 })))
    × (nth_due only_flat RecurringFrequency.monthly (text "UTC") 31 2 (to_days january)
        ≡ ok (to_days (record january { month = 3 })))
unfolding nth_due advance_due advance_months ◌-ℤ◌
nth_due_run = (refl, refl)

january-IsDate : IsDate january
unfolding days_in_month
january-IsDate = (omega arith, omega arith, omega arith, omega arith)

local_run : advance_local RecurringFrequency.yearly 31 january ≡ ok (record january { year = 2028 })
unfolding advance_local
local_run = refl

advance_local-IsDate_example :
    IsDate (record january { year = 2028 }) × (january.clock ≡ january.clock)
advance_local-IsDate_example =
    advance_local-IsDate RecurringFrequency.yearly 31 january january-IsDate local_run
