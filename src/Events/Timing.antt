-- ===== src/Events/Timing.antt =====
-- src/modules/admin-events/timing-planner.ts: the sessions of an event from its timing pattern. A
-- date is a count of days from 1 January 1970, a time of day a count of minutes, and an instant a
-- count of milliseconds from the start of 1970 in Qatar; their order is that of the texts.
pub mod EachSession
pub mod Dates
pub mod Planner
pub mod Slots
pub mod Within
pub mod Window
pub mod Monthly
use bookingqube_nest_backend.Prelude.{
  ℕ, suc, ◌+◌, ◌*◌, ◌/◌, ◌%◌, Option, none, some, List, [], ◌∷◌, ◌++◌, Bool, true, false, not, ◌&&◌,
  ◌||◌, leb, ltb, ◌==◌, if◌then◌else◌, any,
}
use bookingqube_nest_backend.Events.Timing.Dates.{
  each_date, iso_weekday, week_bucket, WeekBucket, same_bucket,
}

pub record TimingSlot : Type 0 where
  pub start_time : ℕ
  pub end_time : ℕ
  pub capacity : Option ℕ

pub record DayGroup : Type 0 where
  pub days : List ℕ
  pub slots : List TimingSlot

pub data Style : Type 0 where
  basic advance individual : Style

pub data VisibleOn : Type 0 where
  on_weekdays on_weekends on_all : VisibleOn

-- A list that the request may leave out is empty where it does.
pub record DailyTiming : Type 0 where
  pub style : Style
  pub weekdays : List ℕ
  pub weekends : List ℕ
  pub basic_visible_on : VisibleOn
  pub slots : List TimingSlot
  pub weekday_slots : List TimingSlot
  pub weekend_slots : List TimingSlot
  pub day_groups : List DayGroup
  pub custom_dates : List ℕ

pub record MonthlyTiming : Type 0 where
  pub visible_in_weeks : Option WeekBucket
  pub days : List ℕ
  pub slots : List TimingSlot

pub record CustomTiming : Type 0 where
  pub dates : List ℕ
  pub slots : List TimingSlot

pub data TimingMode : Type 0 where
  preferred daily monthly custom : TimingMode

pub record Timing : Type 0 where
  pub mode : TimingMode
  pub start_date : ℕ
  pub end_date : ℕ
  pub daily_timing : Option DailyTiming
  pub monthly_timing : Option MonthlyTiming
  pub custom_timing : Option CustomTiming

-- A time as `h:mm AM` or `h:mm PM`.
pub record DisplayTime : Type 0 where
  pub hour : ℕ
  pub minute : ℕ
  pub is_pm : Bool

pub record PlannedSession : Type 0 where
  pub starts_at : ℕ
  pub ends_at : ℕ
  pub display_time : DisplayTime
  pub capacity : Option ℕ

-- The messages of the `BadRequestException`s.
pub data TimingError : Type 0 where
  slot_must_end_after_start : TimingSlot → TimingError
  daily_details_required no_day_group group_without_day group_without_time no_daily_slot :
      TimingError
  monthly_details_required no_day_of_week no_monthly_slot : TimingError
  custom_dates_required no_custom_date no_custom_slot : TimingError
  outside_event_window : ℕ → TimingError

pub data Plan : Type 0 where
  planned : List PlannedSession → Plan
  refused : TimingError → Plan

abbrev pub minute_ms : ℕ
minute_ms = 60000

abbrev pub qatar_date_time : ℕ → ℕ → ℕ
qatar_date_time date time = (date * 1440 + time) * minute_ms

unfoldable pub format_display_time_qatar : ℕ → DisplayTime
format_display_time_qatar value =
    let time = value / minute_ms % 1440 in
    let hour12 = time / 60 % 12 in
    record {
      hour = if hour12 == 0 then 12 else hour12;
      minute = time % 60;
      is_pm = leb 12 (time / 60);
    }

abbrev pub has : List ℕ → ℕ → Bool
has days dow = any (λ d. d == dow) days

abbrev pub is_empty {ℓ} : {A : Type ℓ} → List A → Bool
is_empty [] = true
is_empty (_ ∷ _) = false

-- What a later part of the planner adds; the first refusal is the one thrown.
abbrev pub append_plan : Plan → Plan → Plan
append_plan (planned out) (planned more) = planned (out ++ more)
append_plan (planned out) (refused e) = refused e
append_plan (refused e) _ = refused e

abbrev pub refuse_if : Bool → TimingError → Plan → Plan
refuse_if bad e rest = if bad then refused e else rest

-- A loop over dates that plans something for each.
unfoldable pub for_dates : (ℕ → Plan) → List ℕ → Plan
for_dates plan_date [] = planned []
for_dates plan_date (date ∷ dates) = append_plan (plan_date date) (for_dates plan_date dates)

abbrev pub is_outside : Timing → ℕ → Bool
is_outside input date = ltb date input.start_date || ltb input.end_date date

abbrev pub check_groups : List DayGroup → Plan → Plan
check_groups [] rest = rest
check_groups (g ∷ groups) rest =
    refuse_if (is_empty g.days) group_without_day
      (refuse_if (is_empty g.slots) group_without_time (check_groups groups rest))

-- `byDow.get(dow)`: the slots of each group once for each time the group names the day.
abbrev pub repeated : List ℕ → List TimingSlot → ℕ → List TimingSlot
repeated [] slots dow = []
repeated (d ∷ days) slots dow =
    if d == dow then slots ++ repeated days slots dow else repeated days slots dow

unfoldable pub by_dow : List DayGroup → ℕ → List TimingSlot
by_dow [] dow = []
by_dow (g ∷ groups) dow = repeated g.days g.slots dow ++ by_dow groups dow

abbrev pub first_nonempty : List TimingSlot → List TimingSlot → List TimingSlot
first_nonempty [] other = other
first_nonempty (s ∷ slots) other = s ∷ slots

abbrev pub hidden_by : VisibleOn → Bool → Bool → Bool
hidden_by on_weekdays is_weekday is_weekend = not is_weekday
hidden_by on_weekends is_weekday is_weekend = not is_weekend
hidden_by on_all is_weekday is_weekend = false

abbrev pub in_week : Option WeekBucket → ℕ → Bool
in_week none date = true
in_week (some bucket) date = same_bucket (week_bucket date) bucket
