-- ===== src/Events/Tests.antt =====
-- Runs of the timing planner, and its theorems at concrete inputs.
use bookingqube_nest_backend.Prelude.{arith, ◌≡◌, refl, none, some, [], ◌∷◌, true, filter}
use bookingqube_nest_backend.Events.Timing.Dates.{
  each_date, dates_from, week_bucket, calendar_day, month_day, bucket_of, last_week, iso_weekday,
}
use bookingqube_nest_backend.Events.Timing.{
  TimingSlot, MonthlyTiming, Timing, monthly, format_display_time_qatar,
}
use bookingqube_nest_backend.Events.Timing.Planner.{plan_sessions_from_timing, monthly_date}
use bookingqube_nest_backend.Events.Timing.Within.{IsWithin}
use bookingqube_nest_backend.Events.Timing.Window.{plan-IsWithin}
use bookingqube_nest_backend.Events.Timing.EachSession.{Each}

abbrev evening : TimingSlot
evening = record { start_time = 1085; end_time = 1200; capacity = none }

-- Thursdays and Fridays of the last week of a month.
abbrev last_days : MonthlyTiming
last_days = record { visible_in_weeks = some last_week; days = 4 ∷ 5 ∷ []; slots = evening ∷ [] }

-- From 28 to 31 January 1970.
abbrev january : Timing
january = record {
  mode = monthly;
  start_date = 27;
  end_date = 30;
  daily_timing = none;
  monthly_timing = some last_days;
  custom_timing = none;
}

leap_day : calendar_day 60 1970 19782 ≡ (29, 29)
unfolding calendar_day month_day
leap_day = refl

leap_day_week : week_bucket 19782 ≡ last_week
unfolding week_bucket calendar_day month_day bucket_of
leap_day_week = refl

evening_shown : format_display_time_qatar 65100000 ≡ record { hour = 6; minute = 5; is_pm = true }
unfolding format_display_time_qatar
evening_shown = refl

plan-IsWithin_example : Each (IsWithin january) (plan_sessions_from_timing january (some 40))
plan-IsWithin_example = plan-IsWithin january (some 40) (omega arith, tt)

january_dates : filter (monthly_date january (some 40) last_days) (each_date 27 30) ≡ 28 ∷ 29 ∷ []
unfolding each_date dates_from iso_weekday week_bucket calendar_day month_day bucket_of
january_dates = refl
