-- ===== src/Promo/Charge/Limits.antt =====
-- A booking's discount is at most what its lines cost.
use native.Mathlib.Nat.{mul-le-mul_left}
use bookingqube_nest_backend.Prelude.{
  ℕ, ◌*◌, ◌≤◌, ◌≡◌, refl, String, Option, none, some, List, [], ◌∷◌, filter, sum_by, Bool, not,
  arith,
}
use bookingqube_nest_backend.Prelude.Text.{same}
use bookingqube_nest_backend.Prelude.Http.{ok, ok_inj, if_err}
use bookingqube_nest_backend.Promo.{
  PromoCode, DiscountType, DiscountApplication, per_ticket, order_total, percent, fixed, scale,
  is_targeted, is_event, is_customer, is_nil,
}
use bookingqube_nest_backend.Promo.Charge.{
  ResolvedLineItem, line_subtotal, line_share, discount_of, discount_for, is_eligible,
  is_unavailable, calculate_promo_discount, round_money,
}

subtotal_of : List ResolvedLineItem → ℕ
subtotal_of items = sum_by line_subtotal items

round_money-le : (x m : ℕ) → x ≤ m * scale → round_money x ≤ m
unfolding round_money
round_money-le x m k = omega arith

line_share-le :
    (t : DiscountType) (promo : PromoCode) (item : ResolvedLineItem)
    → ((t ≡ percent) → promo.discount_value ≤ scale)
    → line_share promo t item ≤ line_subtotal item * scale
line_share-le percent promo item h = mul-le-mul_left (line_subtotal item) (h refl)
line_share-le fixed promo item h = ground arith

shares-le :
    (t : DiscountType) (promo : PromoCode) (items : List ResolvedLineItem)
    → ((t ≡ percent) → promo.discount_value ≤ scale)
    → sum_by (line_share promo t) items ≤ subtotal_of items * scale
unfolding subtotal_of
shares-le t promo [] h = omega arith
shares-le t promo (item ∷ items) h =
    omega (arith, line_share-le t promo item h, shares-le t promo items h)

discount_of-le :
    (a : DiscountApplication) (promo : PromoCode) (items : List ResolvedLineItem)
    → ((promo.discount_type ≡ percent) → promo.discount_value ≤ scale)
    → discount_of promo a items ≤ subtotal_of items
unfolding subtotal_of
discount_of-le order_total promo items h = round_money-le _ (subtotal_of items) (ground arith)
discount_of-le per_ticket promo items h =
    round_money-le _ (subtotal_of items) (shares-le promo.discount_type promo items h)

subtotal-filter :
    (p : ResolvedLineItem → Bool) (items : List ResolvedLineItem)
    → subtotal_of (filter p items) ≤ subtotal_of items
unfolding subtotal_of
subtotal-filter p [] = omega arith
subtotal-filter p (item ∷ items) = ground (arith, subtotal-filter p items)

discount_for_ok :
    (promo : PromoCode) (now : ℕ) (event_id organization_id customer_id : String)
    (items : List ResolvedLineItem) (d : ℕ)
    → discount_for promo now event_id organization_id customer_id items ≡ ok d
    → discount_of promo promo.discount_application (filter (is_eligible promo) items) ≡ d
unfolding discount_for
discount_for_ok promo now event_id organization_id customer_id items d h =
    let e1 = if_err (is_unavailable promo now customer_id) _ _ h in
    let e2 = if_err (not (same promo.organization_id organization_id)) _ _ e1 in
    let e3 = if_err (not (is_targeted is_event promo event_id)) _ _ e2 in
    let e4 = if_err (not (is_targeted is_customer promo customer_id)) _ _ e3 in
    ok_inj (if_err (is_nil (filter (is_eligible promo) items)) _ _ e4)

-- The discount of a booking is at most what its lines cost, options included, where a code for a
-- percentage takes off at most all of it. Without a code it is nothing.
pub calculate_promo_discount-le :
    (promo : Option PromoCode) (now : ℕ) (event_id organization_id customer_id : String)
    (items : List ResolvedLineItem) (d : ℕ)
    → ((p : PromoCode) → promo ≡ some p → p.discount_type ≡ percent → p.discount_value ≤ scale)
    → calculate_promo_discount promo now event_id organization_id customer_id items ≡ ok d
    → d ≤ sum_by line_subtotal items
unfolding subtotal_of
calculate_promo_discount-le none now event_id organization_id customer_id items d h e =
    omega (arith, ok_inj e)
calculate_promo_discount-le (some promo) now event_id organization_id customer_id items d h e =
    omega (
      arith,
      discount_for_ok promo now event_id organization_id customer_id items d e,
      discount_of-le promo.discount_application promo (filter (is_eligible promo) items)
          (h promo refl),
      subtotal-filter (is_eligible promo) items,
    )
