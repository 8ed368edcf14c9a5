-- ===== src/Domain/Days/Calendar.antt =====
-- The months of Python's `date` and `calendar.monthrange`.
use timber_ops.Prelude.{
  ℕ, zero, suc, ◌+◌, ◌-◌, ◌*◌, ◌/◌, ◌%◌, Bool, not, ◌&&◌, ◌||◌, ◌==◌, nat_eq, ltb, if◌then◌else◌,
}

unfoldable pub is_leap : ℕ → Bool
is_leap year = year % 4 == 0 && (not (year % 100 == 0) || year % 400 == 0)

-- `monthrange(year, month)[1]`
unfoldable pub days_in_month : ℕ → ℕ → ℕ
unfolding is_leap
days_in_month year month =
    if month == 2
    then (if is_leap year then 29 else 28)
    else if (month == 4) || (month == 6) || (month == 9) || (month == 11)
    then 30
    else 31

-- the days of a year before its month `suc m`
unfoldable pub days_before_month : ℕ → ℕ → ℕ
unfolding days_in_month
days_before_month year zero = 0
days_before_month year (suc m) = days_before_month year m + days_in_month year (suc m)

unfoldable pub days_before_year : ℕ → ℕ
days_before_year year = let y = year - 1 in y * 365 + y / 4 - y / 100 + y / 400

-- `date(year, month, 1)`
unfoldable pub first_of_month : ℕ → ℕ → ℕ
unfolding days_before_year days_before_month
first_of_month year month = days_before_year year + days_before_month year (month - 1) + 1

-- The year of an ordinal: whole cycles of 400, 100, 4 and 1 years, of which the last may be one day
-- short of a year's end.
unfoldable pub year_of : ℕ → ℕ
year_of date =
    let n = date - 1 in
    let n400 = n / 146097 in
    let r400 = n % 146097 in
    let n100 = r400 / 36524 in
    let r100 = r400 % 36524 in
    let n4 = r100 / 1461 in
    let n1 = (r100 % 1461) / 365 in
    let year = n400 * 400 + n100 * 100 + n4 * 4 + n1 in
    if (n1 == 4) || (n100 == 4) then year else year + 1

-- the last month, of the first `m`, that begins before a day of the year
month_from : ℕ → ℕ → ℕ → ℕ
unfolding days_before_month
month_from year zero of_year = 1
month_from year (suc m) of_year =
    let earlier = month_from year m of_year in
    if ltb (days_before_month year m) of_year then suc m else earlier

unfoldable pub month_of : ℕ → ℕ
unfolding year_of days_before_year month_from
month_of date = month_from (year_of date) 12 (date - days_before_year (year_of date))
