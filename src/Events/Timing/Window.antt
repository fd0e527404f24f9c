-- ===== src/Events/Timing/Window.antt =====
-- Where a plan puts its sessions, and which dates a repeating one takes.
use bookingqube_nest_backend.Prelude.{
  ℕ, ◌≤◌, ◌<◌, Option, none, some, List, All, All-every, if_both,
}
use bookingqube_nest_backend.Events.Timing.Slots.{
  daily_slots, monthly_slots, custom_slots, slots_of, IsSlotOf, slots_of-IsSlotOf, All-left,
  All-right, All-by_dow, All-first_nonempty,
}
use bookingqube_nest_backend.Events.Timing.Dates.{iso_weekday}
use bookingqube_nest_backend.Events.Timing.{
  TimingSlot, Style, basic, advance, individual, DailyTiming, MonthlyTiming, CustomTiming,
  preferred, daily, monthly, custom, Timing, Plan, is_empty, refuse_if, is_outside, by_dow, has,
  TimingMode, no_day_of_week, no_monthly_slot, no_custom_date, no_custom_slot,
  daily_details_required, monthly_details_required, custom_dates_required, no_day_group,
  outside_event_window,
}
use bookingqube_nest_backend.Events.Timing.Planner.{
  push_slots, plan_individual, basic_date, advance_date, advance_extra, or_refuse, plan_mode,
  plan_repeated, plan_daily, monthly_date, plan_monthly, plan_custom, plan_sessions_from_timing,
}
use bookingqube_nest_backend.Events.Timing.EachSession.{
  Each, refused-Each, nothing-Each, append_plan-Each, refuse_if-Each, check_groups-Each,
  for_dates-Each,
}
use bookingqube_nest_backend.Events.Timing.Within.{
  slots_part, weekday_part, weekend_part, groups_part, push_slots-IsWithin, window-Each, extra-Each,
  IsWithin, not_outside,
}

module _ (input : Timing) (default_capacity : Option ℕ) where
  basic_date-Each :
      (d : DailyTiming) (date : ℕ)
      → All (IsSlotOf input) (daily_slots (some d))
      → input.start_date ≤ date
      → date ≤ input.end_date
      → Each (IsWithin input) (basic_date input default_capacity d date)
  unfolding basic_date
  basic_date-Each d date t h k =
      let pushed =
        push_slots-IsWithin input default_capacity date d.slots
          (slots_part input default_capacity d t) h k in
      if_both (Each (IsWithin input)) _ (nothing-Each (IsWithin input)) (
        if_both (Each (IsWithin input)) _ (refused-Each (IsWithin input) _)
          (if_both (Each (IsWithin input)) _ (nothing-Each (IsWithin input)) pushed))

  advance_date-Each :
      (d : DailyTiming) (date : ℕ)
      → All (IsSlotOf input) (daily_slots (some d))
      → input.start_date ≤ date
      → date ≤ input.end_date
      → Each (IsWithin input) (advance_date input default_capacity d date)
  unfolding advance_date
  advance_date-Each d date t h k =
      append_plan-Each (IsWithin input) _ _
        (if_both (Each (IsWithin input)) _
          (push_slots-IsWithin input default_capacity date d.weekday_slots
            (weekday_part input default_capacity d t) h k)
          (nothing-Each (IsWithin input)))
        (if_both (Each (IsWithin input)) _
          (push_slots-IsWithin input default_capacity date d.weekend_slots
            (weekend_part input default_capacity d t) h k)
          (nothing-Each (IsWithin input)))

  plan_repeated-Each :
      (d : DailyTiming) (plan_date : ℕ → Plan) (slots_on : ℕ → List TimingSlot)
      → ((date : ℕ)
          → input.start_date ≤ date
          → date ≤ input.end_date
          → Each (IsWithin input) (plan_date date))
      → ((date : ℕ) → All (IsSlotOf input) (slots_on date))
      → Each (IsWithin input) (plan_repeated input default_capacity d plan_date slots_on)
  unfolding plan_repeated
  plan_repeated-Each d plan_date slots_on h t =
      append_plan-Each (IsWithin input) _ _ (window-Each input default_capacity plan_date h)
        (extra-Each input default_capacity slots_on d.custom_dates t)

  plan_daily-Each :
      (style : Style) (d : DailyTiming)
      → All (IsSlotOf input) (daily_slots (some d))
      → Each (IsWithin input) (plan_daily input default_capacity style d)
  unfolding plan_daily plan_individual
  plan_daily-Each individual d t =
      let on = λ (date : ℕ). by_dow d.day_groups (iso_weekday date) in
      let ours = λ (date : ℕ).
        All-by_dow (IsSlotOf input) d.day_groups (iso_weekday date)
          (groups_part input default_capacity d t) in
      if_both (Each (IsWithin input)) (is_empty d.day_groups)
        (refused-Each (IsWithin input) no_day_group)
        (check_groups-Each (IsWithin input) d.day_groups _ (
          append_plan-Each (IsWithin input) _ _
            (window-Each input default_capacity
              (λ date. push_slots input default_capacity date (on date))
              λ date h k. push_slots-IsWithin input default_capacity date (on date) (ours date) h k)
            (extra-Each input default_capacity on d.custom_dates ours)))
  plan_daily-Each basic d t =
      plan_repeated-Each d (basic_date input default_capacity d) (λ _. d.slots)
        (λ date h k. basic_date-Each d date t h k) (λ _. slots_part input default_capacity d t)
  plan_daily-Each advance d t =
      plan_repeated-Each d (advance_date input default_capacity d)
        (advance_extra input default_capacity d) (λ date h k. advance_date-Each d date t h k)
        λ date.
          if_both (All (IsSlotOf input)) (has d.weekdays (iso_weekday date))
            (weekday_part input default_capacity d t)
            (if_both (All (IsSlotOf input)) (has d.weekends (iso_weekday date))
              (weekend_part input default_capacity d t)
              (All-first_nonempty (IsSlotOf input) d.weekday_slots d.weekend_slots
                (weekday_part input default_capacity d t)
                (weekend_part input default_capacity d t)))

  plan_monthly-Each :
      (m : MonthlyTiming)
      → All (IsSlotOf input) m.slots
      → Each (IsWithin input) (plan_monthly input default_capacity m)
  unfolding plan_monthly
  plan_monthly-Each m t =
      if_both (Each (IsWithin input)) (is_empty m.days)
        (refused-Each (IsWithin input) no_day_of_week)
        (if_both (Each (IsWithin input)) (is_empty m.slots)
          (refused-Each (IsWithin input) no_monthly_slot)
          (window-Each input default_capacity _ λ date h k.
            if_both (Each (IsWithin input)) (monthly_date input default_capacity m date)
              (push_slots-IsWithin input default_capacity date m.slots t h k)
              (nothing-Each (IsWithin input))))

  custom_date-Each :
      (c : CustomTiming) (date : ℕ)
      → All (IsSlotOf input) c.slots
      → Each (IsWithin input) (
          refuse_if
            (is_outside input date)
            (outside_event_window date)
            (push_slots input default_capacity date c.slots))
  custom_date-Each c date t =
      refuse_if-Each (IsWithin input) (is_outside input date) (outside_event_window date)
        (push_slots input default_capacity date c.slots)
        λ e.
          push_slots-IsWithin input default_capacity date c.slots t (not_outside input date e).0
            (not_outside input date e).1

  plan_custom-Each :
      (c : CustomTiming)
      → All (IsSlotOf input) c.slots
      → Each (IsWithin input) (plan_custom input default_capacity c)
  unfolding plan_custom
  plan_custom-Each c t =
      if_both (Each (IsWithin input)) (is_empty c.dates)
        (refused-Each (IsWithin input) no_custom_date)
        (if_both (Each (IsWithin input)) (is_empty c.slots)
          (refused-Each (IsWithin input) no_custom_slot)
          (for_dates-Each (IsWithin input) _ c.dates (
            All-every
              (λ date. Each (IsWithin input) (
                refuse_if (is_outside input date) (outside_event_window date)
                  (push_slots input default_capacity date c.slots)))
              (λ date. custom_date-Each c date t) c.dates)))

  daily-Each :
      (o : Option DailyTiming)
      → All (IsSlotOf input) (daily_slots o)
      → Each (IsWithin input) (
          or_refuse o daily_details_required
            (λ (d : DailyTiming). plan_daily input default_capacity d.style d))
  daily-Each none t = refused-Each (IsWithin input) _
  daily-Each (some d) t = plan_daily-Each d.style d t

  monthly-Each :
      (o : Option MonthlyTiming)
      → All (IsSlotOf input) (monthly_slots o)
      → Each
          (IsWithin input)
          (or_refuse o monthly_details_required (plan_monthly input default_capacity))
  monthly-Each none t = refused-Each (IsWithin input) _
  monthly-Each (some m) t = plan_monthly-Each m t

  custom-Each :
      (o : Option CustomTiming)
      → All (IsSlotOf input) (custom_slots o)
      → Each
          (IsWithin input)
          (or_refuse o custom_dates_required (plan_custom input default_capacity))
  custom-Each none t = refused-Each (IsWithin input) _
  custom-Each (some c) t = plan_custom-Each c t

  plan_mode-Each :
      (mode : TimingMode)
      → All (IsSlotOf input) (slots_of input)
      → Each (IsWithin input) (plan_mode input default_capacity mode)
  unfolding plan_mode
  plan_mode-Each preferred t = nothing-Each (IsWithin input)
  plan_mode-Each daily t =
      daily-Each input.daily_timing (All-left (IsSlotOf input) (daily_slots input.daily_timing) _ t)
  plan_mode-Each monthly t = monthly-Each input.monthly_timing (
      All-left (IsSlotOf input) (monthly_slots input.monthly_timing)
        (custom_slots input.custom_timing)
        (All-right (IsSlotOf input) (daily_slots input.daily_timing) _ t))
  plan_mode-Each custom t = custom-Each input.custom_timing (
      All-right (IsSlotOf input) (monthly_slots input.monthly_timing)
        (custom_slots input.custom_timing)
        (All-right (IsSlotOf input) (daily_slots input.daily_timing) _ t))

  -- Whatever the pattern, if its slots end within their day, then every session that is planned is
  -- that of one of its slots on a date of the event's window: it starts before it ends, not before the
  -- window's first day begins, and ends before its last day is over.
  pub plan-IsWithin :
      All (λ (s : TimingSlot). s.end_time < 1440) (slots_of input)
      → Each (IsWithin input) (plan_sessions_from_timing input default_capacity)
  unfolding plan_sessions_from_timing
  plan-IsWithin h = plan_mode-Each input.mode (slots_of-IsSlotOf input h)
