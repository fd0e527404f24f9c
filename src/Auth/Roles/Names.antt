-- ===== src/Auth/Roles/Names.antt =====
-- How the name of a role is written.
use bookingqube_nest_backend.Prelude.{
  ℕ, ◌≤◌, ◌==◌, ◌≡◌, refl, [], ◌∷◌, filter, length, length-take-le, Bool, true, if_both, Bool-cases,
  inl, inr, All, All-take,
}
use bookingqube_nest_backend.Prelude.Text.{Text, trim, lower, is_space}
use bookingqube_nest_backend.Auth.Roles.{
  starts, squeeze, is_separator, is_slug_code, drop_start, drop_ends, slugify_role_name,
}
use mathlib.Core.List.{reverse, reverse_aux}

-- Small letters, digits, underscores and dashes, at most eighty of them.
pub record IsSlug (name : Text) : Type 0 where
  pub code_lem : All (λ c. is_slug_code c ≡ true) name
  pub length_lem : length name ≤ 80

All-filter-true : (p : ℕ → Bool) (s : Text) → All (λ c. p c ≡ true) (filter p s)
All-filter-true p [] = tt
All-filter-true p (c ∷ s) = elim (Bool-cases (p c)) [
  | inl t ↦ rw t (t, All-filter-true p s)
  | inr t ↦ rw t (All-filter-true p s)
]

module _ (P : ℕ → Type 0) where
  All-squeeze : (p : ℕ → Bool) (d : ℕ) (s : Text) → P d → All P s → All P (squeeze p d s)
  unfolding squeeze
  All-squeeze p d [] h k = tt
  All-squeeze p d (c ∷ s) h k =
      let rest = All-squeeze p d s h k.1 in
      if_both (All P) (p c) (if_both (All P) (starts p s) rest (h, rest)) (k.0, rest)

  All-drop_start : (p : ℕ → Bool) (s : Text) → All P s → All P (drop_start p s)
  unfolding drop_start
  All-drop_start p [] k = tt
  All-drop_start p (c ∷ s) k = if_both (All P) (p c) (All-drop_start p s k.1) k

  All-reverse_aux : (s done : Text) → All P s → All P done → All P (reverse_aux s done)
  All-reverse_aux [] done k h = h
  All-reverse_aux (c ∷ s) done k h = All-reverse_aux s (c ∷ done) k.1 (k.0, h)

  All-drop_ends : (p : ℕ → Bool) (s : Text) → All P s → All P (drop_ends p s)
  All-drop_ends p s k =
      let front = All-drop_start p s k in
      All-reverse_aux (drop_start p (reverse (drop_start p s))) []
        (All-drop_start p (reverse (drop_start p s)) (All-reverse_aux (drop_start p s) [] front tt))
        tt

-- Whatever is typed, the name of a role holds at most eighty small letters, digits, underscores and
-- dashes.
pub slugify-IsSlug : (value : Text) → IsSlug (slugify_role_name value)
unfolding slugify_role_name
slugify-IsSlug value =
    let words = squeeze is_space 95 (lower (trim value)) in
    let kept = filter is_slug_code words in
    let low = squeeze (λ c. c == 95) 95 kept in
    let dashes = squeeze (λ c. c == 45) 45 low in
    let Slug : ℕ → Type 0 = λ c. is_slug_code c ≡ true in
    let in_low =
      All-squeeze Slug (λ c. c == 95) 95 kept refl (All-filter-true is_slug_code words) in
    let in_dashes = All-squeeze Slug (λ c. c == 45) 45 low refl in_low in
    let in_ends = All-drop_ends Slug is_separator dashes in_dashes in
    record {
      code_lem = All-take Slug 80 (drop_ends is_separator dashes) in_ends;
      length_lem = length-take-le 80 (drop_ends is_separator dashes);
    }
