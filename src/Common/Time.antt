-- ===== src/Common/Time.antt =====
-- `datetime` values: wall-clock microseconds, with the offset from UTC of an aware one. Conversion
-- to UTC subtracts the offset; the years that Python's `datetime` cannot hold are left out.
use plan_it.Common.{if◌then◌else◌, Error, Result, ok, err}
use plan_it.Common.Int.{ℤ, ◌-ℤ◌, ltb_ℤ}

pub data Datetime : Type 0 where
  naive : ℤ → Datetime
  aware : ℤ → ℤ → Datetime

-- A moment: microseconds in UTC. What the program stores and compares.
abbrev pub Instant : Type 0
Instant = ℤ

-- `value.tzinfo is None or value.utcoffset() is None` raises, then `value.astimezone(UTC)`.
unfoldable pub to_utc : Datetime → Result Instant
to_utc (naive local) = err Error.invalid_timestamp
to_utc (aware local offset) = ok (local -ℤ offset)

abbrev pub max_instant : Instant → Instant → Instant
max_instant a b = if ltb_ℤ a b then b else a
