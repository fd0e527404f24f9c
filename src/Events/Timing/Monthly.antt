-- ===== src/Events/Timing/Monthly.antt =====
-- Which sessions the monthly pattern plans.
use bookingqube_nest_backend.Prelude.{
  ℕ, ◌<◌, ◌≡◌, refl, Option, some, List, [], ◌∷◌, ◌++◌, map, Bool, false, filter, All, arith, leb,
  if◌then◌else◌, Bool-cases, inl, inr,
}
use bookingqube_nest_backend.Events.Timing.Dates.{each_date}
use bookingqube_nest_backend.Events.Timing.{
  TimingSlot, MonthlyTiming, Timing, monthly, PlannedSession, planned, for_dates, is_empty,
}
use bookingqube_nest_backend.Events.Timing.Planner.{
  session_of, push_slots, monthly_date, plan_monthly, plan_mode, plan_sessions_from_timing,
}

-- The sessions of all the slots on each of the dates, in their order.
unfoldable pub sessions_on : Option ℕ → List TimingSlot → List ℕ → List PlannedSession
sessions_on capacity slots [] = []
sessions_on capacity slots (date ∷ dates) =
    map (session_of capacity date) slots ++ sessions_on capacity slots dates

module _ (input : Timing) (default_capacity : Option ℕ) where
  pub push_slots_lem :
      (date : ℕ) (slots : List TimingSlot)
      → All (λ (s : TimingSlot). s.start_time < s.end_time) slots
      → push_slots input default_capacity date slots
        ≡ planned (map (session_of default_capacity date) slots)
  unfolding push_slots
  push_slots_lem date [] h = refl
  push_slots_lem date (slot ∷ slots) h =
      let late : leb slot.end_time slot.start_time ≡ false = ground (arith, h.0) in
      rw (late, push_slots_lem date slots h.1)

  for_dates_lem :
      (slots : List TimingSlot) (chosen : ℕ → Bool) (dates : List ℕ)
      → All (λ (s : TimingSlot). s.start_time < s.end_time) slots
      → for_dates
          (λ date. if chosen date then push_slots input default_capacity date slots else planned [])
          dates
        ≡ planned (sessions_on default_capacity slots (filter chosen dates))
  unfolding for_dates sessions_on
  for_dates_lem slots chosen [] h = refl
  for_dates_lem slots chosen (date ∷ dates) h = elim (Bool-cases (chosen date)) [
    | inl e ↦ rw (e, push_slots_lem date slots h, for_dates_lem slots chosen dates h)
    | inr e ↦ rw (e, for_dates_lem slots chosen dates h)
  ]

  -- A monthly pattern that names days and slots, each of which ends after it starts, plans exactly
  -- the sessions of its slots on those dates of the window whose weekday and week it names.
  pub plan_monthly_lem :
      (m : MonthlyTiming)
      → input.mode ≡ monthly
      → input.monthly_timing ≡ some m
      → is_empty m.days ≡ false
      → is_empty m.slots ≡ false
      → All (λ (s : TimingSlot). s.start_time < s.end_time) m.slots
      → plan_sessions_from_timing input default_capacity
        ≡ planned (
            sessions_on default_capacity m.slots (
              filter
                (monthly_date input default_capacity m)
                (each_date input.start_date input.end_date)))
  unfolding plan_sessions_from_timing plan_mode plan_monthly push_slots
  plan_monthly_lem m mode details days slots h =
      rw (mode, details, days, slots)
        (for_dates_lem m.slots (monthly_date input default_capacity m)
          (each_date input.start_date input.end_date) h)
