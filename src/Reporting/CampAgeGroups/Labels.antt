-- ===== src/Reporting/CampAgeGroups/Labels.antt =====
-- Normalising the labels when an order is stored does not change what the report says.
use native.Mathlib.Decide.{ℕ_discrete}
use bookingqube_nest_backend.Prelude.{
  ◌≡◌, refl, sym, ◌∙◌, ap, List, [], ◌∷◌, map, Bool, true, false, Bool-cases, inl, inr,
}
use bookingqube_nest_backend.Prelude.Text.{Text, codes, codes_dec, same_codes, trim}
use bookingqube_nest_backend.Reporting.CampAgeGroups.{
  CampAgeGroup, group_1, group_2, group_3, group_4, label_of, target_of,
  normalize_customer_age_group, ambiguous_child_age_group, Money, AgeGroupMetricRow, Totals,
  merge_row, merge_rows, merge_age_groups_into_camp_buckets, or_default,
}

abbrev is_ambiguous : Text → Bool
is_ambiguous label = same_codes label (codes ambiguous_child_age_group)

trim-label : (g : CampAgeGroup) → trim (codes (label_of g)) ≡ codes (label_of g)
unfolding trim
trim-label group_1 = refl
trim-label group_2 = refl
trim-label group_3 = refl
trim-label group_4 = refl

label_not_ambiguous : (g : CampAgeGroup) → is_ambiguous (codes (label_of g)) ≡ false
unfolding codes_dec ℕ_discrete
label_not_ambiguous group_1 = refl
label_not_ambiguous group_2 = refl
label_not_ambiguous group_3 = refl
label_not_ambiguous group_4 = refl

target_of-label : (g : CampAgeGroup) → target_of (codes (label_of g)) ≡ g
unfolding target_of codes_dec ℕ_discrete
target_of-label group_1 = refl
target_of-label group_2 = refl
target_of-label group_3 = refl
target_of-label group_4 = refl

trim_ambiguous : trim (codes ambiguous_child_age_group) ≡ codes ambiguous_child_age_group
unfolding trim
trim_ambiguous = refl

ambiguous_lem : is_ambiguous (codes ambiguous_child_age_group) ≡ true
unfolding codes_dec ℕ_discrete
ambiguous_lem = refl

or_default-ambiguous : (s : Text) → is_ambiguous (or_default s) ≡ is_ambiguous s
unfolding codes_dec ℕ_discrete
or_default-ambiguous [] = refl
or_default-ambiguous (c ∷ s) = refl

target_of-or_default : (s : Text) → target_of (or_default s) ≡ target_of s
unfolding target_of codes_dec ℕ_discrete
target_of-or_default [] = refl
target_of-or_default (c ∷ s) = refl

normalize_ambiguous :
    (raw : Text)
    → is_ambiguous (trim raw) ≡ true
    → normalize_customer_age_group raw ≡ codes ambiguous_child_age_group
unfolding normalize_customer_age_group
normalize_ambiguous raw e = rw (or_default-ambiguous (trim raw) ∙ e)

normalize_plain :
    (raw : Text)
    → is_ambiguous (trim raw) ≡ false
    → normalize_customer_age_group raw ≡ codes (label_of (target_of (trim raw)))
unfolding normalize_customer_age_group
normalize_plain raw e =
    rw (or_default-ambiguous (trim raw) ∙ e)
      (ap (λ g. codes (label_of g)) (target_of-or_default (trim raw)))

-- Normalising a label twice is normalising it once.
pub normalize_idempotent :
    (raw : Text)
    → normalize_customer_age_group (normalize_customer_age_group raw)
      ≡ normalize_customer_age_group raw
normalize_idempotent raw = elim (Bool-cases (is_ambiguous (trim raw))) [
  | inl e ↦ rw (normalize_ambiguous raw e) (
      normalize_ambiguous (codes ambiguous_child_age_group)
        (ap is_ambiguous trim_ambiguous ∙ ambiguous_lem))
  | inr e ↦
      let g = target_of (trim raw) in
      rw (normalize_plain raw e) (
        normalize_plain (codes (label_of g))
          (ap is_ambiguous (trim-label g) ∙ label_not_ambiguous g)
        ∙ ap (λ s. codes (label_of (target_of s))) (trim-label g)
        ∙ ap (λ h. codes (label_of h)) (target_of-label g))
]

normalize-is_ambiguous :
    (raw : Text) → is_ambiguous (trim (normalize_customer_age_group raw)) ≡ is_ambiguous (trim raw)
normalize-is_ambiguous raw = elim (Bool-cases (is_ambiguous (trim raw))) [
  | inl e ↦ rw (normalize_ambiguous raw e) (ap is_ambiguous trim_ambiguous ∙ ambiguous_lem ∙ sym e)
  | inr e ↦
      let g = target_of (trim raw) in
      rw (normalize_plain raw e) (ap is_ambiguous (trim-label g) ∙ label_not_ambiguous g ∙ sym e)
]

normalize-target_of :
    (raw : Text)
    → is_ambiguous (trim raw) ≡ false
    → target_of (trim (normalize_customer_age_group raw)) ≡ target_of (trim raw)
normalize-target_of raw e =
    let g = target_of (trim raw) in
    ap (λ s. target_of (trim s)) (normalize_plain raw e)
    ∙ ap target_of (trim-label g)
    ∙ target_of-label g

module _ (m : Money) where
  pub normalized : AgeGroupMetricRow m → AgeGroupMetricRow m
  normalized row = record row { label = normalize_customer_age_group row.label }

  merge_row-normalized :
      (t : Totals m) (row : AgeGroupMetricRow m)
      → merge_row m t (normalized row) ≡ merge_row m t row
  unfolding merge_row normalized
  merge_row-normalized t row = elim (Bool-cases (is_ambiguous (trim row.label))) [
    | inl e ↦ rw (normalize-is_ambiguous row.label ∙ e, e)
    | inr e ↦ rw (normalize-is_ambiguous row.label ∙ e, e, normalize-target_of row.label e)
  ]

  merge_rows-normalized :
      (t : Totals m) (rows : List (AgeGroupMetricRow m))
      → merge_rows m t (map normalized rows) ≡ merge_rows m t rows
  unfolding merge_rows
  merge_rows-normalized t [] = refl
  merge_rows-normalized t (row ∷ rows) =
      ap (λ u. merge_rows m u (map normalized rows)) (merge_row-normalized t row)
      ∙ merge_rows-normalized (merge_row m t row) rows

  -- Merging rows whose labels were normalised gives the buckets of the rows as they came.
  pub merge_normalized :
      (rows : List (AgeGroupMetricRow m))
      → merge_age_groups_into_camp_buckets m (map normalized rows)
        ≡ merge_age_groups_into_camp_buckets m rows
  unfolding merge_age_groups_into_camp_buckets
  merge_normalized rows = rw (merge_rows-normalized _ rows)
