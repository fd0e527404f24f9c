-- ===== src/Events/Timing/Planner.antt =====
-- `planSessionsFromTiming` of src/modules/admin-events/timing-planner.ts, mode by mode.
use bookingqube_nest_backend.Prelude.{
  ℕ, Option, none, some, List, [], ◌∷◌, Bool, false, not, ◌&&◌, ◌||◌, leb, any, if◌then◌else◌,
}
use bookingqube_nest_backend.Events.Timing.Dates.{each_date, iso_weekday}
use bookingqube_nest_backend.Events.Timing.{
  TimingSlot, DayGroup, Style, basic, advance, individual, DailyTiming, MonthlyTiming, CustomTiming,
  TimingMode, preferred, daily, monthly, custom, Timing, PlannedSession, TimingError,
  slot_must_end_after_start, daily_details_required, no_day_group, no_daily_slot,
  monthly_details_required, no_day_of_week, no_monthly_slot, custom_dates_required, no_custom_date,
  no_custom_slot, outside_event_window, Plan, planned, refused, qatar_date_time,
  format_display_time_qatar, has, is_empty, append_plan, refuse_if, for_dates, is_outside,
  check_groups, by_dow, first_nonempty, hidden_by, in_week,
}

abbrev pub or_else : Option ℕ → Option ℕ → Option ℕ
or_else none default_capacity = default_capacity
or_else (some n) default_capacity = some n

abbrev pub session_of : Option ℕ → ℕ → TimingSlot → PlannedSession
session_of default_capacity date slot = record {
  starts_at = qatar_date_time date slot.start_time;
  ends_at = qatar_date_time date slot.end_time;
  display_time = format_display_time_qatar (qatar_date_time date slot.start_time);
  capacity = or_else slot.capacity default_capacity;
}

-- `if (!details) throw …`
abbrev pub or_refuse : {A : Type 0} → Option A → TimingError → (A → Plan) → Plan
or_refuse none e plan = refused e
or_refuse (some details) e plan = plan details

abbrev pub some_capacity : List TimingSlot → Bool
some_capacity slots =
    any (λ (s : TimingSlot). elim s.capacity [ none ↦ false | some n ↦ leb 1 n ]) slots

abbrev daily_capacity : Option DailyTiming → Bool
daily_capacity none = false
daily_capacity (some d) =
    some_capacity d.slots
    || some_capacity d.weekday_slots
    || some_capacity d.weekend_slots
    || any (λ (g : DayGroup). some_capacity g.slots) d.day_groups

abbrev monthly_capacity : Option MonthlyTiming → Bool
monthly_capacity none = false
monthly_capacity (some m) = some_capacity m.slots

abbrev custom_capacity : Option CustomTiming → Bool
custom_capacity none = false
custom_capacity (some c) = some_capacity c.slots

unfoldable pub timing_slots_provide_capacity : Timing → Bool
timing_slots_provide_capacity input =
    daily_capacity input.daily_timing
    || monthly_capacity input.monthly_timing
    || custom_capacity input.custom_timing

module _ (input : Timing) (default_capacity : Option ℕ) where
  unfoldable pub push_slots : ℕ → List TimingSlot → Plan
  push_slots date [] = planned []
  push_slots date (slot ∷ slots) =
      refuse_if (leb slot.end_time slot.start_time) (slot_must_end_after_start slot)
        (append_plan (planned (session_of default_capacity date slot ∷ [])) (push_slots date slots))

  -- A date that the request adds, if it lies in the window.
  abbrev pub extra_date : (ℕ → List TimingSlot) → ℕ → Plan
  extra_date slots_on date =
      if is_outside input date then planned [] else push_slots date (slots_on date)

  unfoldable pub plan_individual : DailyTiming → Plan
  unfolding push_slots
  plan_individual d = refuse_if (is_empty d.day_groups) no_day_group (
      check_groups d.day_groups (
        append_plan
          (for_dates (λ date. push_slots date (by_dow d.day_groups (iso_weekday date)))
            (each_date input.start_date input.end_date))
          (for_dates (extra_date (λ date. by_dow d.day_groups (iso_weekday date))) d.custom_dates)))

  unfoldable pub basic_date : DailyTiming → ℕ → Plan
  basic_date d date =
      let is_weekday = has d.weekdays (iso_weekday date) in
      let is_weekend = has d.weekends (iso_weekday date) in
      if not is_weekday && not is_weekend
      then planned []
      else if is_empty d.slots
      then refused no_daily_slot
      else if hidden_by d.basic_visible_on is_weekday is_weekend
      then planned []
      else push_slots date d.slots

  unfoldable pub advance_date : DailyTiming → ℕ → Plan
  advance_date d date =
      append_plan
        (if has d.weekdays (iso_weekday date) then push_slots date d.weekday_slots else planned [])
        (if has d.weekends (iso_weekday date) then push_slots date d.weekend_slots else planned [])

  abbrev pub advance_extra : DailyTiming → ℕ → List TimingSlot
  advance_extra d date =
      if has d.weekdays (iso_weekday date)
      then d.weekday_slots
      else if has d.weekends (iso_weekday date)
      then d.weekend_slots
      else first_nonempty d.weekday_slots d.weekend_slots

  unfoldable pub plan_repeated : DailyTiming → (ℕ → Plan) → (ℕ → List TimingSlot) → Plan
  plan_repeated d plan_date extra_slots =
      append_plan (for_dates plan_date (each_date input.start_date input.end_date))
        (for_dates (extra_date extra_slots) d.custom_dates)

  unfoldable pub plan_daily : Style → DailyTiming → Plan
  plan_daily individual d = plan_individual d
  plan_daily basic d = plan_repeated d (basic_date d) (λ _. d.slots)
  plan_daily advance d = plan_repeated d (advance_date d) (advance_extra d)

  abbrev pub monthly_date : MonthlyTiming → ℕ → Bool
  monthly_date m date = has m.days (iso_weekday date) && in_week m.visible_in_weeks date

  unfoldable pub plan_monthly : MonthlyTiming → Plan
  plan_monthly m = refuse_if (is_empty m.days) no_day_of_week (
      refuse_if (is_empty m.slots) no_monthly_slot (
        for_dates (λ date. if monthly_date m date then push_slots date m.slots else planned [])
          (each_date input.start_date input.end_date)))

  unfoldable pub plan_custom : CustomTiming → Plan
  plan_custom c = refuse_if (is_empty c.dates) no_custom_date (
      refuse_if (is_empty c.slots) no_custom_slot (
        for_dates
          (λ date.
            refuse_if (is_outside input date) (outside_event_window date) (push_slots date c.slots))
          c.dates))

  unfoldable pub plan_mode : TimingMode → Plan
  plan_mode preferred = planned []
  plan_mode daily =
      or_refuse input.daily_timing daily_details_required
        (λ (d : DailyTiming). plan_daily d.style d)
  plan_mode monthly = or_refuse input.monthly_timing monthly_details_required plan_monthly
  plan_mode custom = or_refuse input.custom_timing custom_dates_required plan_custom

  unfoldable pub plan_sessions_from_timing : Plan
  unfolding plan_mode
  plan_sessions_from_timing = plan_mode input.mode
