-- ===== src/Reporting/Tests.antt =====
-- Runs of the reports, and their theorems at concrete inputs.
use bookingqube_nest_backend.Prelude.{ℕ, ◌+◌, ◌/◌, ◌≡◌, refl, List, [], ◌∷◌, map, ◌==◌, sum_by}
use bookingqube_nest_backend.Prelude.Text.{codes, codes_dec, trim}
use bookingqube_nest_backend.Reporting.CampAgeGroups.{
  Money, merge_rows, merge_row, add, target_of, AgeGroupMetricRow, label_of, camp_age_groups,
  merge_age_groups_into_camp_buckets,
}
use bookingqube_nest_backend.Reporting.CampAgeGroups.Totals.{merge_conserves}

abbrev whole_money : Money
whole_money = record {
  Amount = ℕ;
  zero_amount = 0;
  add_amount = λ a b. a + b;
  is_zero_amount = λ a. a == 0;
  third = λ a. a / 3;
  round3 = λ a. a;
}

-- Eleven children of unknown age, and two adults.
abbrev metric_rows : List (AgeGroupMetricRow whole_money)
metric_rows =
    record { label = codes " 0-10"; admits = 11; orders = 4; revenue = 90 }
    ∷ record { label = codes "19-25"; admits = 2; orders = 1; revenue = 20 }
    ∷ []

shares :
    map
      (λ (r : AgeGroupMetricRow whole_money). r.admits)
      (merge_age_groups_into_camp_buckets whole_money metric_rows)
    ≡ 4 ∷ 4 ∷ 3 ∷ 2 ∷ []
unfolding merge_age_groups_into_camp_buckets merge_rows merge_row codes_dec trim add target_of
shares = refl

merge_conserves_example :
    let merged = merge_age_groups_into_camp_buckets whole_money metric_rows in
    (sum_by (λ (r : AgeGroupMetricRow whole_money). r.admits) merged
      ≡ sum_by (λ (r : AgeGroupMetricRow whole_money). r.admits) metric_rows)
    × (sum_by (λ (r : AgeGroupMetricRow whole_money). r.orders) merged
        ≡ sum_by (λ (r : AgeGroupMetricRow whole_money). r.orders) metric_rows)
    × (map (λ (r : AgeGroupMetricRow whole_money). r.label) merged
        ≡ map (λ g. codes (label_of g)) camp_age_groups)
merge_conserves_example = merge_conserves whole_money metric_rows
