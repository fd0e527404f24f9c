-- ===== src/Reporting/CampAgeGroups/Totals.antt =====
-- Merging rows into camp groups loses no admission and no order, and does not depend on whether
-- the labels were normalised before.
use bookingqube_nest_backend.Prelude.{
  ℕ, ◌+◌, ◌/◌, ◌≡◌, refl, List, [], ◌∷◌, map, true, ◌&&◌, ◌==◌, arith, sum_by, Bool-cases, if_both,
  inl, inr,
}
use bookingqube_nest_backend.Prelude.Text.{codes, same_codes, trim}
use bookingqube_nest_backend.Reporting.CampAgeGroups.{
  CampAgeGroup, group_1, group_2, group_3, group_4, label_of, camp_age_groups, target_of,
  ambiguous_child_age_group, Money, AgeGroupMetricRow, Totals, add, share, merge_row, merge_rows,
  no_totals, merge_age_groups_into_camp_buckets,
}

module _ (m : Money) where
  total_admits : Totals m → ℕ
  total_admits t = (t group_1).admits + (t group_2).admits + (t group_3).admits + (t group_4).admits

  total_orders : Totals m → ℕ
  total_orders t = (t group_1).orders + (t group_2).orders + (t group_3).orders + (t group_4).orders

  add_total :
      (t : Totals m) (g : CampAgeGroup) (a o : ℕ) (r : m.Amount)
      → (total_admits (add m t g a o r) ≡ total_admits t + a)
        × (total_orders (add m t g a o r) ≡ total_orders t + o)
  unfolding total_admits total_orders add
  add_total t group_1 a o r = ground arith
  add_total t group_2 a o r = ground arith
  add_total t group_3 a o r = ground arith
  add_total t group_4 a o r = ground arith

  thirds : (n : ℕ) → share n 0 + share n 1 + n / 3 ≡ n
  thirds n = ground arith

  Counts : Totals m → AgeGroupMetricRow m → Totals m → Type 0
  Counts t row u =
      (total_admits u ≡ total_admits t + row.admits)
      × (total_orders u ≡ total_orders t + row.orders)

  split_Counts :
      (t : Totals m) (row : AgeGroupMetricRow m)
      → Counts t row (
          add m
            (add m
              (add m t group_1 (share row.admits 0) (share row.orders 0) (m.third row.revenue))
              group_2
              (share row.admits 1)
              (share row.orders 1)
              (m.third row.revenue))
            group_3
            (row.admits / 3)
            (row.orders / 3)
            (m.third row.revenue))
  unfolding Counts
  split_Counts t row =
      let a = add m t group_1 (share row.admits 0) (share row.orders 0) (m.third row.revenue) in
      let b = add m a group_2 (share row.admits 1) (share row.orders 1) (m.third row.revenue) in
      let first =
        add_total t group_1 (share row.admits 0) (share row.orders 0) (m.third row.revenue) in
      let second =
        add_total a group_2 (share row.admits 1) (share row.orders 1) (m.third row.revenue) in
      let third = add_total b group_3 (row.admits / 3) (row.orders / 3) (m.third row.revenue) in
      (
        omega (arith, first.0, second.0, third.0, thirds row.admits),
        omega (arith, first.1, second.1, third.1, thirds row.orders),
      )

  skip_Counts :
      (t : Totals m) (row : AgeGroupMetricRow m)
      → ((row.admits == 0) && (row.orders == 0) && m.is_zero_amount row.revenue) ≡ true
      → Counts t row t
  unfolding Counts
  skip_Counts t row e = ground arith

  add-Counts :
      (t : Totals m) (row : AgeGroupMetricRow m) (g : CampAgeGroup)
      → Counts t row (add m t g row.admits row.orders row.revenue)
  unfolding Counts
  add-Counts t row g = add_total t g row.admits row.orders row.revenue

  merge_row_total : (t : Totals m) (row : AgeGroupMetricRow m) → Counts t row (merge_row m t row)
  unfolding merge_row
  merge_row_total t row =
      elim (Bool-cases ((row.admits == 0) && (row.orders == 0) && m.is_zero_amount row.revenue)) [
        | inl e ↦ rw e (skip_Counts t row e)
        | inr e ↦ rw e (
            if_both (Counts t row) (same_codes (trim row.label) (codes ambiguous_child_age_group))
              (split_Counts t row) (add-Counts t row (target_of (trim row.label))))
      ]

  merge_rows_total :
      (t : Totals m) (rows : List (AgeGroupMetricRow m))
      → (total_admits (merge_rows m t rows)
          ≡ total_admits t + sum_by (λ (r : AgeGroupMetricRow m). r.admits) rows)
        × (total_orders (merge_rows m t rows)
            ≡ total_orders t + sum_by (λ (r : AgeGroupMetricRow m). r.orders) rows)
  unfolding merge_rows Counts
  merge_rows_total t [] = omega arith
  merge_rows_total t (row ∷ rows) =
      let first = merge_row_total t row in
      let rest = merge_rows_total (merge_row m t row) rows in
      (omega (arith, first.0, rest.0), omega (arith, first.1, rest.1))

  -- The four buckets hold all the admissions and all the orders of the rows, the shares of the
  -- ambiguous group included, under the labels of the camp's groups in their order.
  pub merge_conserves :
      (rows : List (AgeGroupMetricRow m))
      → let merged = merge_age_groups_into_camp_buckets m rows in
        (sum_by (λ (r : AgeGroupMetricRow m). r.admits) merged
          ≡ sum_by (λ (r : AgeGroupMetricRow m). r.admits) rows)
        × (sum_by (λ (r : AgeGroupMetricRow m). r.orders) merged
            ≡ sum_by (λ (r : AgeGroupMetricRow m). r.orders) rows)
        × (map (λ (r : AgeGroupMetricRow m). r.label) merged
            ≡ map (λ g. codes (label_of g)) camp_age_groups)
  unfolding merge_age_groups_into_camp_buckets total_admits total_orders
  merge_conserves rows =
      let t = merge_rows_total (no_totals m) rows in (omega (arith, t.0), omega (arith, t.1), refl)
