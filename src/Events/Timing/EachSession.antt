-- ===== src/Events/Timing/EachSession.antt =====
-- What holds of every session of a plan, part by part of the planner.
use bookingqube_nest_backend.Prelude.{
  ℕ, ◌≡◌, refl, List, [], ◌∷◌, Bool, true, false, All, All-append,
}
use bookingqube_nest_backend.Events.Timing.{
  DayGroup, PlannedSession, TimingError, Plan, planned, refused, is_empty, append_plan, refuse_if,
  for_dates, check_groups, group_without_day, group_without_time,
}

-- What holds of every session of a plan that was not refused.
unfoldable pub Each : (PlannedSession → Type 0) → Plan → Type 0
Each P (planned out) = All P out
Each P (refused e) = Unit {0}

pub refused-Each : (P : PlannedSession → Type 0) (e : TimingError) → Each P (refused e)
unfolding Each
refused-Each P e = tt

pub nothing-Each : (P : PlannedSession → Type 0) → Each P (planned [])
unfolding Each
nothing-Each P = tt

pub append_plan-Each :
    (P : PlannedSession → Type 0) (p q : Plan) → Each P p → Each P q → Each P (append_plan p q)
unfolding Each
append_plan-Each P (planned out) (planned more) x y = All-append P out more x y
append_plan-Each P (planned out) (refused e) x y = tt
append_plan-Each P (refused e) q x y = tt

pub refuse_if-Each :
    (P : PlannedSession → Type 0) (bad : Bool) (e : TimingError) (p : Plan)
    → (bad ≡ false → Each P p)
    → Each P (refuse_if bad e p)
refuse_if-Each P true e p h = refused-Each P e
refuse_if-Each P false e p h = h refl

pub one-Each : (P : PlannedSession → Type 0) (p : PlannedSession) → P p → Each P (planned (p ∷ []))
unfolding Each
one-Each P p h = (h, tt)

pub check_groups-Each :
    (P : PlannedSession → Type 0) (groups : List DayGroup) (p : Plan)
    → Each P p
    → Each P (check_groups groups p)
check_groups-Each P [] p h = h
check_groups-Each P (g ∷ groups) p h =
    refuse_if-Each P (is_empty g.days) group_without_day
      (refuse_if (is_empty g.slots) group_without_time (check_groups groups p))
      λ _.
        refuse_if-Each P (is_empty g.slots) group_without_time (check_groups groups p)
          λ _. check_groups-Each P groups p h

pub for_dates-Each :
    (P : PlannedSession → Type 0) (plan_date : ℕ → Plan) (dates : List ℕ)
    → All (λ d. Each P (plan_date d)) dates
    → Each P (for_dates plan_date dates)
unfolding for_dates
for_dates-Each P plan_date [] h = nothing-Each P
for_dates-Each P plan_date (d ∷ dates) h =
    append_plan-Each P (plan_date d) (for_dates plan_date dates) h.0
      (for_dates-Each P plan_date dates h.1)
