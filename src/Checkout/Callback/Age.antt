-- ===== src/Checkout/Callback/Age.antt =====
-- How old a callback may be, and how far its amount may be off.
use bookingqube_nest_backend.Prelude.{
  ◌↔◌, ◌⊎◌, inl, inr, ℕ, ◌+◌, ◌-◌, ◌*◌, ◌/◌, ◌≤◌, ◌≡◌, refl, Option, none, some, some_inj, true,
  false, ltb, arith, Bool-cases, ◌||◌, not,
}
use bookingqube_nest_backend.Prelude.Text.{Text}
use bookingqube_nest_backend.Checkout.Upsert.{coalesce}
use bookingqube_nest_backend.Checkout.Callback.{
  parsed, is_old, is_callback_stale, callback_amount_matches, max_age_ms, future_skew_ms,
}

-- A stamp that is neither a day old nor more than five minutes ahead.
pub record IsRecent (now : ℕ) (stamp : Option ℕ) : Type 0 where
  pub stamped : ℕ
  pub stamp_lem : stamp ≡ some stamped
  pub ahead_lem : stamped ≤ now + future_skew_ms
  pub age_lem : now ≤ stamped + max_age_ms

is_old_iff : (now : ℕ) (stamp : Option ℕ) → (is_old now stamp ≡ false) ↔ IsRecent now stamp
is_old_iff now none = ((λ h. cc), λ r. (let never = r.stamp_lem in cc))
is_old_iff now (some t) = (
  (λ h. record { stamped = t; stamp_lem = refl; ahead_lem = ground arith; age_lem = ground arith }),
  λ r.
      let same_stamp : t ≡ r.stamped = some_inj r.stamp_lem in
      let ahead = r.ahead_lem in let age = r.age_lem in ground (arith, same_stamp, ahead, age),
)

-- A callback is let through as fresh exactly if it has a stamp, that of its request's date, if that
-- parses, or else of its session, which is at most five minutes ahead and at most a day old.
pub fresh_iff :
    (parse_request_date : Text → Option ℕ) (now : ℕ) (request_date : Option Text)
    (created_at : Option ℕ)
    → (is_callback_stale parse_request_date now request_date created_at ≡ false)
      ↔ IsRecent now (coalesce (parsed parse_request_date request_date) created_at)
unfolding is_callback_stale
fresh_iff parse_request_date now request_date created_at =
    is_old_iff now (coalesce (parsed parse_request_date request_date) created_at)

-- An amount that is let through is within a hundredth of the session's, or within one of the
-- session's amount in hundredths, rounded half up.
pub matched_amount :
    (major response : ℕ)
    → callback_amount_matches major (some response) ≡ true
    → ((response ≤ major + 10) × (major ≤ response + 10))
      ⊎ ((response ≤ (major + 5) / 10 * 1000 + 1000) × ((major + 5) / 10 * 1000 ≤ response + 1000))
unfolding callback_amount_matches
matched_amount major response h =
    elim (Bool-cases (not (ltb 10 (response - major) || ltb 10 (major - response)))) [
      | inl near ↦ inl (ground arith)
      | inr far ↦ inr (ground (arith, far))
    ]
