-- ===== src/Planning.antt =====
-- The rules on recurring transactions and goals (backend/app/domain/planning).
pub mod Dates
pub mod Recurrence
pub mod Iterated
mod Tests
use plan_it.Common.{
  if◌then◌else◌, ◌>>◌, ◌>>=◌, ◌∷◌, ◌≡◌, arith, refl, ◌+◌, some, none, [], ok, err, true, false,
  zero, suc, inl, inr, Error, Result, not, ℕ, Option, Bool, or_raise, raise_if, length, ◌==◌, ◌||◌,
  ltb,
}
use plan_it.Common.Text.{Text, join, strip, split}
use plan_it.Common.Time.{Instant, to_utc, Datetime}
use plan_it.Planning.Dates.{LocalTime, advance_week, advance_months}

pub data RecurringFrequency : Type 0 where
  weekly monthly quarterly yearly : RecurringFrequency

pub data RecurringMode : Type 0 where
  reminder auto_draft : RecurringMode

pub data RecurringStatus : Type 0 where
  active_rule paused archived_rule : RecurringStatus

pub data GoalStatus : Type 0 where
  active_goal completed archived_goal : GoalStatus

unfoldable pub normalize_planning_name : Text → Result Text
unfolding join split strip
normalize_planning_name value = do
  let clean = join (split (strip value))
  raise_if (length clean == 0 || ltb 160 (length clean)) Error.invalid_planning_name
  ok clean

-- A time zone of the tz database: what `astimezone` computes in both directions.
pub record Zone : Type 0 where
  pub from_utc : Instant → LocalTime
  pub local_to_utc : LocalTime → Instant

-- The months of a frequency that is not weekly.
unfoldable pub months_of : RecurringFrequency → ℕ
months_of RecurringFrequency.weekly = 0
months_of RecurringFrequency.monthly = 1
months_of RecurringFrequency.quarterly = 3
months_of RecurringFrequency.yearly = 12

abbrev pub is_weekly : RecurringFrequency → Bool
is_weekly RecurringFrequency.weekly = true
is_weekly _ = false

abbrev pub intended_day : Option ℕ → LocalTime → ℕ
intended_day none local = local.day
intended_day (some anchor) local = anchor

-- The wall clock of the next due time.
unfoldable pub advance_local : RecurringFrequency → ℕ → LocalTime → Result LocalTime
unfolding advance_week advance_months months_of
advance_local frequency day local =
    if is_weekly frequency
    then ok (advance_week local)
    else if day == 0 || ltb 31 day
    then err Error.invalid_recurrence_anchor
    else ok (advance_months (months_of frequency) day local)

-- `ZoneInfo`, which knows some keys only, is a parameter.
module _ (zone_info : Text → Option Zone) where
  unfoldable pub normalize_timezone : Text → Result Text
  unfolding strip
  normalize_timezone value = do
    let clean = strip value
    or_raise (zone_info clean) Error.invalid_timezone
    ok clean

  unfoldable pub zone_of : Text → Result Zone
  unfolding normalize_timezone
  zone_of timezone = do
    clean ← normalize_timezone timezone
    or_raise (zone_info clean) Error.invalid_timezone

  unfoldable pub recurrence_anchor_day : Datetime → Text → Result ℕ
  unfolding to_utc zone_of
  recurrence_anchor_day value timezone = do
    moment ← to_utc value
    zone ← zone_of timezone
    ok (zone.from_utc moment).day

  unfoldable pub advance_due : Datetime → RecurringFrequency → Text → Option ℕ → Result Instant
  unfolding to_utc zone_of advance_local
  advance_due value frequency timezone anchor_day = do
    moment ← to_utc value
    zone ← zone_of timezone
    let local = zone.from_utc moment
    let day = intended_day anchor_day local
    advanced ← advance_local frequency day local
    ok (zone.local_to_utc advanced)
