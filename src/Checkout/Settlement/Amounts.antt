-- ===== src/Checkout/Settlement/Amounts.antt =====
-- What the check of an amount and a currency lets through.
use bookingqube_nest_backend.Prelude.{
  ℕ, ◌+◌, ◌≤◌, ◌≡◌, refl, Option, none, some, true, not, arith, not-false,
}
use bookingqube_nest_backend.Prelude.Text.{Text}
use bookingqube_nest_backend.Prelude.Http.{ok, if_ok}
use bookingqube_nest_backend.Checkout.Settlement.{
  amounts_match, currencies_match, assert_amount_and_currency_match,
}

-- An amount within a hundredth of the expected one.
pub record IsNear (expected : ℕ) (actual : Option ℕ) : Type 0 where
  pub amount : ℕ
  pub amount_lem : actual ≡ some amount
  pub above_lem : amount ≤ expected + 10
  pub below_lem : expected ≤ amount + 10

pub amounts_match-IsNear :
    (expected : ℕ) (actual : Option ℕ)
    → amounts_match expected actual ≡ true
    → IsNear expected actual
amounts_match-IsNear expected none h = cc
amounts_match-IsNear expected (some a) h = record {
  amount = a;
  amount_lem = refl;
  above_lem = ground arith;
  below_lem = ground arith;
}

-- A check that passes saw an amount within a hundredth of the expected one, and a currency that is
-- the expected one or missing.
pub assert_amount_parts :
    (expected : ℕ) (currency : Text) (actual : Option ℕ) (actual_currency : Option Text)
    → assert_amount_and_currency_match expected currency actual actual_currency ≡ ok tt
    → IsNear expected actual × (currencies_match currency actual_currency ≡ true)
unfolding assert_amount_and_currency_match
assert_amount_parts expected currency actual actual_currency e =
    let (a, e1) = if_ok (not (amounts_match expected actual)) _ _ e in
    let (c, _) = if_ok (not (currencies_match currency actual_currency)) _ (ok tt) e1 in
    (amounts_match-IsNear expected actual (not-false _ a), not-false _ c)
