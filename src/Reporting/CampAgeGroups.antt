-- ===== src/Reporting/CampAgeGroups.antt =====
-- The age groups of src/modules/reporting/camp-age-groups.ts. Admissions and orders are counts;
-- the revenue is a floating-point number, whose operations are a parameter.
pub mod Totals
pub mod Labels
use bookingqube_nest_backend.Prelude.{
  ℕ, ◌+◌, ◌/◌, ◌%◌, String, Option, none, some, List, [], ◌∷◌, map, Bool, true, false, ◌&&◌, leb,
  ltb, ◌==◌, if◌then◌else◌,
}
use bookingqube_nest_backend.Prelude.Text.{Text, codes, same_codes, trim}

pub data CampAgeGroup : Type 0 where
  group_1 group_2 group_3 group_4 : CampAgeGroup

abbrev pub label_of : CampAgeGroup → String
label_of group_1 = "Group 1: 4-5 years"
label_of group_2 = "Group 2: 6-7 years"
label_of group_3 = "Group 3: 8-10 years"
label_of group_4 = "Group 4: 11+ years"

abbrev pub camp_age_groups : List CampAgeGroup
camp_age_groups = group_1 ∷ group_2 ∷ group_3 ∷ group_4 ∷ []

abbrev pub ambiguous_child_age_group : String
ambiguous_child_age_group = "0-10"

abbrev pub direct_map : List (String × CampAgeGroup)
direct_map =
    (label_of group_1, group_1)
    ∷ (label_of group_2, group_2)
    ∷ (label_of group_3, group_3)
    ∷ (label_of group_4, group_4)
    ∷ ("4-5 years", group_1)
    ∷ ("6-7 years", group_2)
    ∷ ("8-10 years", group_3)
    ∷ ("11+ years", group_4)
    ∷ ("0-5", group_1)
    ∷ ("6-10", group_3)
    ∷ ("11-15", group_4)
    ∷ ("11-18", group_4)
    ∷ ("16-20", group_4)
    ∷ ("19-25", group_4)
    ∷ ("21-30", group_4)
    ∷ ("25-40", group_4)
    ∷ ("31-50", group_4)
    ∷ ("40-50+", group_4)
    ∷ ("40-50", group_4)
    ∷ ("51-75", group_4)
    ∷ []

unfoldable pub lookup_group : Text → List (String × CampAgeGroup) → Option CampAgeGroup
lookup_group label [] = none
lookup_group label ((k, g) ∷ rest) =
    if same_codes label (codes k) then some g else lookup_group label rest

-- `DIRECT_MAP[label] ?? CAMP_AGE_GROUP_4`
unfoldable pub target_of : Text → CampAgeGroup
unfolding lookup_group
target_of label = elim (lookup_group label direct_map) [ none ↦ group_4 | some g ↦ g ]

abbrev pub or_default : Text → Text
or_default [] = codes "25-40"
or_default (c ∷ s) = c ∷ s

-- The argument is the empty text where the source has null.
unfoldable pub normalize_customer_age_group : Text → Text
normalize_customer_age_group raw =
    let label = or_default (trim raw) in
    if same_codes label (codes ambiguous_child_age_group)
    then codes ambiguous_child_age_group
    else codes (label_of (target_of label))

abbrev pub same_group : CampAgeGroup → CampAgeGroup → Bool
same_group group_1 group_1 = true
same_group group_2 group_2 = true
same_group group_3 group_3 = true
same_group group_4 group_4 = true
same_group _ _ = false

-- The share of a whole number for a group, with one more if the remainder reaches it.
abbrev pub share : ℕ → ℕ → ℕ
share n above = n / 3 + (if ltb above (n % 3) then 1 else 0)

-- The arithmetic of the revenue.
pub record Money : Type 1 where
  pub Amount : Type 0
  pub zero_amount : Amount
  pub add_amount : Amount → Amount → Amount
  pub is_zero_amount : Amount → Bool
  pub third : Amount → Amount
  pub round3 : Amount → Amount

module _ (m : Money) where
  open m use {Amount, zero_amount, add_amount, is_zero_amount, third, round3}

  pub record AgeGroupMetricRow : Type 0 where
    pub label : Text
    pub admits : ℕ
    pub orders : ℕ
    pub revenue : Amount

  pub record Bucket : Type 0 where
    pub admits : ℕ
    pub orders : ℕ
    pub revenue : Amount

  -- The object `totals`.
  abbrev pub Totals : Type 0
  Totals = CampAgeGroup → Bucket

  unfoldable pub add : Totals → CampAgeGroup → ℕ → ℕ → Amount → Totals
  add totals target admits orders revenue g =
      if same_group target g
      then record {
        admits = (totals g).admits + admits;
        orders = (totals g).orders + orders;
        revenue = add_amount (totals g).revenue revenue;
      }
      else totals g

  -- One round of the loop.
  unfoldable pub merge_row : Totals → AgeGroupMetricRow → Totals
  merge_row totals row =
      if (row.admits == 0) && (row.orders == 0) && is_zero_amount row.revenue
      then totals
      else if same_codes (trim row.label) (codes ambiguous_child_age_group)
      then add
          (add (add totals group_1 (share row.admits 0) (share row.orders 0) (third row.revenue))
            group_2 (share row.admits 1) (share row.orders 1) (third row.revenue))
          group_3 (row.admits / 3) (row.orders / 3) (third row.revenue)
      else add totals (target_of (trim row.label)) row.admits row.orders row.revenue

  unfoldable pub merge_rows : Totals → List AgeGroupMetricRow → Totals
  merge_rows totals [] = totals
  merge_rows totals (row ∷ rows) = merge_rows (merge_row totals row) rows

  abbrev pub no_totals : Totals
  no_totals _ = record { admits = 0; orders = 0; revenue = zero_amount }

  unfoldable pub merge_age_groups_into_camp_buckets :
      List AgeGroupMetricRow → List AgeGroupMetricRow
  merge_age_groups_into_camp_buckets rows =
      let totals = merge_rows no_totals rows in
      map
        (λ g. record {
          label = codes (label_of g);
          admits = (totals g).admits;
          orders = (totals g).orders;
          revenue = round3 (totals g).revenue;
        })
        camp_age_groups
