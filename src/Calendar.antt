-- ===== src/Calendar.antt =====
-- The UTC calendar of ECMAScript's Date, as far as src/quota/quota.service.ts and
-- src/payments/payments.service.ts use it. A date is its time value in milliseconds, from 1970 on.
pub mod Bounds
use propmatch_backend.Prelude.{
  ℕ, zero, suc, ◌+◌, ◌-◌, ◌*◌, ◌/◌, ◌%◌, Bool, true, false, not, ◌&&◌, ◌||◌, leb, ltb, ◌==◌,
  if◌then◌else◌,
}

-- `DAY_MS`
abbrev pub day_ms : ℕ
day_ms = 24 * 60 * 60 * 1000

-- The day on which year 1970 + k begins, counted from 1 January 1970 (DayFromYear).
unfoldable pub day_from_year : ℕ → ℕ
day_from_year k = 365 * k + (k + 1) / 4 + (k + 369) / 400 - (k + 69) / 100

-- Whether year 1970 + k has 366 days (DaysInYear).
unfoldable pub is_leap : ℕ → Bool
is_leap k = (k + 1970) % 4 == 0 && not ((k + 1970) % 100 == 0) || (k + 1970) % 400 == 0

-- The largest j ≤ k whose year begins on or before day d (YearFromTime).
unfoldable pub year_down : ℕ → ℕ → ℕ
year_down zero d = 0
year_down (suc k) d =
    let rest = year_down k d in if leb (day_from_year (suc k)) d then suc k else rest

unfoldable pub year_of : ℕ → ℕ
unfolding year_down day_from_year
year_of d = year_down (d / 365) d

-- The day of the year on which month m (from 0) begins in a year that is not a leap year.
unfoldable pub common_start : ℕ → ℕ
common_start m =
    if m == 0
    then 0
    else if m == 1
    then 31
    else if m == 2
    then 59
    else if m == 3
    then 90
    else if m == 4
    then 120
    else if m == 5
    then 151
    else if m == 6
    then 181
    else if m == 7
    then 212
    else if m == 8
    then 243
    else if m == 9
    then 273
    else if m == 10
    then 304
    else 334

unfoldable pub month_start : Bool → ℕ → ℕ
unfolding common_start
month_start leap m = if leap && ltb 1 m then common_start m + 1 else common_start m

-- The largest month ≤ m that begins on or before day d of the year (MonthFromTime).
unfoldable pub month_down : Bool → ℕ → ℕ → ℕ
month_down leap zero d = 0
month_down leap (suc m) d =
    let rest = month_down leap m d in if leb (month_start leap (suc m)) d then suc m else rest

-- The day number of a year, a month from 0 and a day offset from 0 (MakeDay), the month below 24.
unfoldable pub make_day : ℕ → ℕ → ℕ → ℕ
unfolding day_from_year is_leap month_start
make_day k m offset =
    day_from_year (k + m / 12) + month_start (is_leap (k + m / 12)) (m % 12) + offset

-- The date with its year and its month advanced, the day of the month and the time of day kept.
-- A day that the new month does not have runs over into the month after, as in ECMAScript.
unfoldable pub advance : ℕ → ℕ → ℕ → ℕ
unfolding year_of month_down make_day
advance years months t =
    let d = t / day_ms in
    let k = year_of d in
    let day_of_year = d - day_from_year k in
    let m = month_down (is_leap k) 11 day_of_year in
    let offset = day_of_year - month_start (is_leap k) m in
    make_day (k + years) (m + months) offset * day_ms + t % day_ms

-- `addDays`
unfoldable pub add_days : ℕ → ℕ → ℕ
add_days t days = t + days * day_ms

-- `addMonth`: `setUTCMonth(getUTCMonth() + 1)`
unfoldable pub add_month : ℕ → ℕ
unfolding advance
add_month = advance 0 1

-- `setUTCFullYear(getUTCFullYear() + 1)`
unfoldable pub add_year : ℕ → ℕ
unfolding advance
add_year = advance 1 0
