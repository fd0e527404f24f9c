-- ===== src/Events/Timing/Within.antt =====
-- A session within the window of its event, and the loops that plan such sessions.
use bookingqube_nest_backend.Prelude.{
  ℕ, zero, suc, ◌+◌, ◌-◌, ◌≤◌, ◌<◌, ◌≡◌, refl, Option, some, List, [], ◌∷◌, false, ◌&&◌, leb, ◌==◌,
  any, arith, All, All-every, All-map, Bool-cases, inl, inr,
}
use mathlib.Core.List.{Memᴰ}
use bookingqube_nest_backend.Events.Timing.Slots.{
  group_slots, daily_slots, slots_of, IsSlotOf, All-left, All-right,
}
use bookingqube_nest_backend.Events.Timing.Dates.{each_date, dates_from}
use bookingqube_nest_backend.Events.Timing.{
  TimingSlot, DailyTiming, Timing, PlannedSession, Plan, planned, qatar_date_time, append_plan,
  for_dates, is_outside, slot_must_end_after_start,
}
use bookingqube_nest_backend.Events.Timing.Planner.{session_of, push_slots, extra_date}
use bookingqube_nest_backend.Events.Timing.EachSession.{
  Each, nothing-Each, append_plan-Each, refuse_if-Each, one-Each, for_dates-Each,
}

dates_from-any :
    (fuel cursor end date : ℕ)
    → fuel + cursor ≡ suc end
    → any (λ d. d == date) (dates_from fuel cursor end) ≡ (leb cursor date && leb date end)
unfolding dates_from
dates_from-any zero cursor end date h = ground arith
dates_from-any (suc fuel) cursor end date h =
    ground (arith, dates_from-any fuel (suc cursor) end date (omega arith))

-- The loop of `eachDate` takes exactly the days from the first to the last.
pub each_date_lem :
    (start end date : ℕ)
    → any (λ d. d == date) (each_date start end) ≡ (leb start date && leb date end)
unfolding each_date dates_from
each_date_lem start end date = elim (Bool-cases (leb start (suc end))) [
  | inl e ↦ dates_from-any (suc end - start) start end date (ground arith)
  | inr e ↦ let none_left : suc end - start ≡ 0 = ground arith in rw none_left (ground arith)
]

dates_from-All :
    (start fuel cursor end : ℕ)
    → start ≤ cursor
    → All (λ d. (start ≤ d) × (d ≤ end)) (dates_from fuel cursor end)
unfolding dates_from
dates_from-All start zero cursor end h = tt
dates_from-All start (suc fuel) cursor end h = elim (Bool-cases (leb cursor end)) [
  | inl e ↦ rw e ((h, ground arith), dates_from-All start fuel (suc cursor) end (omega arith))
  | inr e ↦ rw e tt
]

-- A session of one of the request's slots, on a date of the event's window, which starts before it ends
-- and lies between the first instant of the window's first day and the last of its last.
pub record IsWithin (input : Timing) (p : PlannedSession) : Type 0 where
  date : ℕ
  slot : TimingSlot
  slot_lem : Memᴰ slot (slots_of input)
  date_lem : (input.start_date ≤ date) × (date ≤ input.end_date)
  starts_lem : p.starts_at ≡ qatar_date_time date slot.start_time
  ends_lem : p.ends_at ≡ qatar_date_time date slot.end_time
  first_lem : qatar_date_time input.start_date 0 ≤ p.starts_at
  order_lem : p.starts_at < p.ends_at
  last_lem : p.ends_at < qatar_date_time (suc input.end_date) 0

session_of-IsWithin :
    (input : Timing) (default_capacity : Option ℕ) (date : ℕ) (slot : TimingSlot)
    → IsSlotOf input slot
    → input.start_date ≤ date
    → date ≤ input.end_date
    → slot.start_time < slot.end_time
    → IsWithin input (session_of default_capacity date slot)
session_of-IsWithin input default_capacity date slot (m, in_day) h k order = record {
  date = date;
  slot = slot;
  slot_lem = m;
  date_lem = (h, k);
  starts_lem = refl;
  ends_lem = refl;
  first_lem = omega arith;
  order_lem = omega arith;
  last_lem = omega arith;
}

pub not_outside :
    (input : Timing) (date : ℕ)
    → is_outside input date ≡ false
    → (input.start_date ≤ date) × (date ≤ input.end_date)
not_outside input date h = (ground arith, ground arith)

module _ (input : Timing) (default_capacity : Option ℕ) where
  -- The slots of the parts of a daily pattern.
  pub slots_part :
      (d : DailyTiming) → All (IsSlotOf input) (daily_slots (some d)) → All (IsSlotOf input) d.slots
  slots_part d t = All-left (IsSlotOf input) d.slots _ t

  pub weekday_part :
      (d : DailyTiming)
      → All (IsSlotOf input) (daily_slots (some d))
      → All (IsSlotOf input) d.weekday_slots
  weekday_part d t =
      All-left (IsSlotOf input) d.weekday_slots _ (All-right (IsSlotOf input) d.slots _ t)

  pub weekend_part :
      (d : DailyTiming)
      → All (IsSlotOf input) (daily_slots (some d))
      → All (IsSlotOf input) d.weekend_slots
  weekend_part d t =
      All-left (IsSlotOf input) d.weekend_slots _
        (All-right (IsSlotOf input) d.weekday_slots _ (All-right (IsSlotOf input) d.slots _ t))

  pub groups_part :
      (d : DailyTiming)
      → All (IsSlotOf input) (daily_slots (some d))
      → All (IsSlotOf input) (group_slots d.day_groups)
  groups_part d t =
      All-right (IsSlotOf input) d.weekend_slots _
        (All-right (IsSlotOf input) d.weekday_slots _ (All-right (IsSlotOf input) d.slots _ t))

  pub push_slots-IsWithin :
      (date : ℕ) (slots : List TimingSlot)
      → All (IsSlotOf input) slots
      → input.start_date ≤ date
      → date ≤ input.end_date
      → Each (IsWithin input) (push_slots input default_capacity date slots)
  unfolding push_slots
  push_slots-IsWithin date [] t h k = nothing-Each (IsWithin input)
  push_slots-IsWithin date (slot ∷ slots) t h k =
      let rest = push_slots input default_capacity date slots in
      let first = planned (session_of default_capacity date slot ∷ []) in
      refuse_if-Each (IsWithin input) (leb slot.end_time slot.start_time)
        (slot_must_end_after_start slot) (append_plan first rest)
        λ e.
          append_plan-Each (IsWithin input) first rest
            (one-Each (IsWithin input) (session_of default_capacity date slot)
              (session_of-IsWithin input default_capacity date slot t.0 h k (ground arith)))
            (push_slots-IsWithin date slots t.1 h k)

  -- A loop over the dates of the window, with what a single date of it gets.
  pub window-Each :
      (plan_date : ℕ → Plan)
      → ((date : ℕ)
          → input.start_date ≤ date
          → date ≤ input.end_date
          → Each (IsWithin input) (plan_date date))
      → Each (IsWithin input) (for_dates plan_date (each_date input.start_date input.end_date))
  unfolding each_date
  window-Each plan_date h = for_dates-Each (IsWithin input) plan_date _ (
      All-map (λ d k. h d k.0 k.1)
        (dates_from (suc input.end_date - input.start_date) input.start_date input.end_date)
        (dates_from-All input.start_date (suc input.end_date - input.start_date) input.start_date
          input.end_date (omega arith)))

  pub extra-Each :
      (slots_on : ℕ → List TimingSlot) (dates : List ℕ)
      → ((date : ℕ) → All (IsSlotOf input) (slots_on date))
      → Each (IsWithin input) (for_dates (extra_date input default_capacity slots_on) dates)
  extra-Each slots_on dates t =
      for_dates-Each (IsWithin input) (extra_date input default_capacity slots_on) dates (
        All-every (λ d. Each (IsWithin input) (extra_date input default_capacity slots_on d))
          (λ d. elim (Bool-cases (is_outside input d)) [
            | inl e ↦ rw e (nothing-Each (IsWithin input))
            | inr e ↦ rw e (
                push_slots-IsWithin d (slots_on d) (t d) (not_outside input d e).0
                  (not_outside input d e).1)
          ])
          dates)
