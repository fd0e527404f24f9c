-- ===== src/Events/Timing/Slots.antt =====
-- The slots of a timing pattern of src/modules/admin-events/timing-planner.ts.
use bookingqube_nest_backend.Prelude.{
  ℕ, ◌<◌, ◌==◌, Option, none, some, List, [], ◌∷◌, ◌++◌, All, All-append, All-map, if_both,
}
use bookingqube_nest_backend.Events.Timing.{
  TimingSlot, DayGroup, DailyTiming, MonthlyTiming, CustomTiming, Timing, repeated, by_dow,
  first_nonempty,
}
use mathlib.Core.List.{Memᴰ}
use bookingqube_nest_backend.Prelude.{refl}

abbrev pub group_slots : List DayGroup → List TimingSlot
group_slots [] = []
group_slots (g ∷ groups) = g.slots ++ group_slots groups

abbrev pub daily_slots : Option DailyTiming → List TimingSlot
daily_slots none = []
daily_slots (some d) = d.slots ++ (d.weekday_slots ++ (d.weekend_slots ++ group_slots d.day_groups))

abbrev pub monthly_slots : Option MonthlyTiming → List TimingSlot
monthly_slots none = []
monthly_slots (some m) = m.slots

abbrev pub custom_slots : Option CustomTiming → List TimingSlot
custom_slots none = []
custom_slots (some c) = c.slots

-- All slots of a request.
abbrev pub slots_of : Timing → List TimingSlot
slots_of input =
    daily_slots input.daily_timing
    ++ (monthly_slots input.monthly_timing ++ custom_slots input.custom_timing)

-- A slot of the request that ends on the day on which it starts.
abbrev pub IsSlotOf : Timing → TimingSlot → Type 0
IsSlotOf input slot = Memᴰ slot (slots_of input) × (slot.end_time < 1440)

All-own : (xs : List TimingSlot) → All (λ x. Memᴰ x xs) xs
All-own [] = tt
All-own (x ∷ xs) = (Memᴰ.head refl, All-map (λ y m. Memᴰ.tail m) xs (All-own xs))

pub slots_of-IsSlotOf :
    (input : Timing)
    → All (λ (s : TimingSlot). s.end_time < 1440) (slots_of input)
    → All (IsSlotOf input) (slots_of input)
slots_of-IsSlotOf input h = both (slots_of input) (All-own (slots_of input)) h
  where
    both :
        (xs : List TimingSlot)
        → All (λ x. Memᴰ x (slots_of input)) xs
        → All (λ (s : TimingSlot). s.end_time < 1440) xs
        → All (IsSlotOf input) xs
    both [] m k = tt
    both (x ∷ xs) m k = ((m.0, k.0), both xs m.1 k.1)

module _ (T : TimingSlot → Type 0) where
  pub All-left : (xs ys : List TimingSlot) → All T (xs ++ ys) → All T xs
  All-left [] ys h = tt
  All-left (x ∷ xs) ys h = (h.0, All-left xs ys h.1)

  pub All-right : (xs ys : List TimingSlot) → All T (xs ++ ys) → All T ys
  All-right [] ys h = h
  All-right (x ∷ xs) ys h = All-right xs ys h.1

  All-repeated :
      (days : List ℕ) (slots : List TimingSlot) (dow : ℕ)
      → All T slots
      → All T (repeated days slots dow)
  All-repeated [] slots dow h = tt
  All-repeated (d ∷ days) slots dow h =
      let rest = All-repeated days slots dow h in
      if_both (All T) (d == dow) (All-append T slots (repeated days slots dow) h rest) rest

  pub All-by_dow :
      (groups : List DayGroup) (dow : ℕ) → All T (group_slots groups) → All T (by_dow groups dow)
  unfolding by_dow
  All-by_dow [] dow h = tt
  All-by_dow (g ∷ groups) dow h =
      All-append T (repeated g.days g.slots dow) (by_dow groups dow)
        (All-repeated g.days g.slots dow (All-left g.slots (group_slots groups) h))
        (All-by_dow groups dow (All-right g.slots (group_slots groups) h))

  pub All-first_nonempty :
      (slots other : List TimingSlot)
      → All T slots
      → All T other
      → All T (first_nonempty slots other)
  All-first_nonempty [] other h k = k
  All-first_nonempty (s ∷ slots) other h k = h
