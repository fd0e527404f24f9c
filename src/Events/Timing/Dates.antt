-- ===== src/Events/Timing/Dates.antt =====
-- The calendar functions of src/modules/admin-events/timing-planner.ts, on counts of days from
-- 1 January 1970, a Thursday.
use bookingqube_nest_backend.Prelude.{
  ℕ, zero, suc, ◌+◌, ◌-◌, ◌/◌, ◌%◌, List, [], ◌∷◌, Bool, true, false, not, ◌&&◌, ◌||◌, leb, ltb,
  ◌==◌, if◌then◌else◌,
}

pub data WeekBucket : Type 0 where
  first_week second_week third_week last_week : WeekBucket

abbrev pub same_bucket : WeekBucket → WeekBucket → Bool
same_bucket first_week first_week = true
same_bucket second_week second_week = true
same_bucket third_week third_week = true
same_bucket last_week last_week = true
same_bucket _ _ = false

-- Monday is 1 and Sunday is 7.
unfoldable pub iso_weekday : ℕ → ℕ
iso_weekday date = suc ((date + 3) % 7)

-- The loop of `eachDate`; the fuel is the number of days from the first to the last.
unfoldable pub dates_from : ℕ → ℕ → ℕ → List ℕ
dates_from zero cursor last = []
dates_from (suc fuel) cursor last =
    let rest = dates_from fuel (suc cursor) last in if leb cursor last then cursor ∷ rest else []

unfoldable pub each_date : ℕ → ℕ → List ℕ
each_date start end = dates_from (suc end - start) start end

abbrev pub is_leap : ℕ → Bool
is_leap year = year % 4 == 0 && (not (year % 100 == 0) || year % 400 == 0)

abbrev pub month_lengths : Bool → List ℕ
month_lengths leap =
    31 ∷ (if leap then 29 else 28) ∷ 31 ∷ 30 ∷ 31 ∷ 30 ∷ 31 ∷ 31 ∷ 30 ∷ 31 ∷ 30 ∷ 31 ∷ []

-- The day of the month, and the last day of that month, of a day of the year.
unfoldable pub month_day : List ℕ → ℕ → ℕ × ℕ
month_day [] d = (suc d, 31)
month_day (days ∷ months) d =
    let rest = month_day months (d - days) in if ltb d days then (suc d, days) else rest

-- The same of a count of days from the start of a year; the fuel is over the number of years.
unfoldable pub calendar_day : ℕ → ℕ → ℕ → ℕ × ℕ
calendar_day zero year d = (suc d, 31)
calendar_day (suc fuel) year d =
    let days = (if is_leap year then 366 else 365) in
    let rest = calendar_day fuel (suc year) (d - days) in
    if ltb d days then month_day (month_lengths (is_leap year)) d else rest

-- The bucket of a day of a month with the given last day.
unfoldable pub bucket_of : ℕ → ℕ → WeekBucket
bucket_of day last_day =
    if ltb last_day (day + 7)
    then last_week
    else if leb day 7
    then first_week
    else if leb day 14
    then second_week
    else if leb day 21
    then third_week
    else last_week

unfoldable pub week_bucket : ℕ → WeekBucket
week_bucket date =
    let (day, last_day) = calendar_day (suc (date / 365)) 1970 date in bucket_of day last_day
