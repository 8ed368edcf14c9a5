-- ===== src/Domain/Days.antt =====
-- Dates, and the days of a clock at UTC+8 that the billing, audit, export and report services share:
-- their filters by an inclusive interval of dates, and `_local_day_start_utc`. A date is Python's
-- ordinal: 1 is 0001-01-01.
pub mod Calendar
pub mod Intervals
use timber_ops.Prelude.{
  ℕ, ◌+◌, ◌*◌, ◌-◌, ◌/◌, Bool, true, false, ◌||◌, ltb, leb, Option, none, some, if◌then◌else◌,
}

-- A day, and eight hours, in microseconds.
abbrev pub day : ℕ
day = 86400000000

abbrev pub utc_plus_8 : ℕ
utc_plus_8 = 28800000000

-- The ordinals of 1970-01-01, where time begins, and of 9999-12-31, the last date.
abbrev pub epoch : ℕ
epoch = 719163

abbrev pub last_date : ℕ
last_date = 3652059

-- `_local_day_start_utc`; no row is older than time 0, where the subtraction stops.
abbrev pub local_day_start_utc : ℕ → ℕ
local_day_start_utc date = date * day - (epoch * day + utc_plus_8)

-- The date that a clock at UTC+8 shows.
abbrev pub local_date : ℕ → ℕ
local_date at = (at + utc_plus_8) / day + epoch

abbrev pub is_after_end : Option ℕ → Option ℕ → Bool
is_after_end (some start) (some end_) = ltb end_ start
is_after_end _ _ = false

-- Python has no time before 0001-01-01 and no date after the last one: the first date has no start
-- in UTC, and the last one no day after it.
abbrev pub overflows_by : Option ℕ → Option ℕ → Bool
overflows_by start end_ =
    elim start [ none ↦ false | some d ↦ leb d 1 ]
    || elim end_ [ none ↦ false | some d ↦ leb last_date d ]

abbrev pub starts_by : Option ℕ → ℕ → Bool
starts_by none at = true
starts_by (some date) at = leb (local_day_start_utc date) at

abbrev pub ends_after : Option ℕ → ℕ → Bool
ends_after none at = true
ends_after (some date) at = ltb at (local_day_start_utc (date + 1))
