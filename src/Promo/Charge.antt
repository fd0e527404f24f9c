-- ===== src/Promo/Charge.antt =====
-- `calculatePromoDiscount` of src/modules/checkout/checkout.service.ts: the discount that a booking
-- takes off, from the prices of the resolved lines.
pub mod Limits
use bookingqube_nest_backend.Prelude.{
  ℕ, ◌+◌, ◌*◌, ◌/◌, String, Option, none, some, List, [], ◌∷◌, filter, any, sum_by, Bool, true,
  false, not, ◌||◌, leb, if◌then◌else◌, length,
}
use bookingqube_nest_backend.Prelude.Text.{same}
use bookingqube_nest_backend.Prelude.Http.{Result, ok, err, bad_request}
use bookingqube_nest_backend.Promo.{
  PromoCode, PromoCodeTarget, PromoCodeRedemption, DiscountApplication, per_ticket, order_total,
  DiscountType, percent, fixed, is_active, is_event, is_customer, is_ticket_type, is_ticket_variant,
  not_started, has_ended, is_used_up, is_nil, targets_of, is_target, is_targeted, scale, least,
  share_of,
}

pub data OrderItemType : Type 0 where
  ticket_type ticket_variant other_item : OrderItemType

pub record ResolvedCustomization : Type 0 where
  pub quantity : ℕ
  pub unit_price : ℕ

pub record ResolvedLineItem : Type 0 where
  pub item_type : OrderItemType
  pub item_id : String
  pub quantity : ℕ
  pub unit_price : ℕ
  pub customizations : List ResolvedCustomization

abbrev pub is_ticket : OrderItemType → Bool
is_ticket ticket_type = true
is_ticket ticket_variant = true
is_ticket other_item = false

abbrev pub item_target : PromoCodeTarget → Bool
item_target t = is_ticket_type t.target_type || is_ticket_variant t.target_type

abbrev pub is_eligible : PromoCode → ResolvedLineItem → Bool
is_eligible promo item =
    if is_nil (filter item_target promo.targets)
    then is_ticket item.item_type
    else is_target (filter item_target promo.targets) item.item_id

abbrev pub line_subtotal : ResolvedLineItem → ℕ
line_subtotal item =
    item.unit_price * item.quantity
    + sum_by (λ (o : ResolvedCustomization). o.unit_price * o.quantity) item.customizations

-- `roundMoney` of the checkout: half up to three decimals.
unfoldable pub round_money : ℕ → ℕ
round_money scaled = (scaled + 50_000) / scale

-- The part of a line that a code for each ticket takes off, before it is rounded.
abbrev pub line_share : PromoCode → DiscountType → ResolvedLineItem → ℕ
line_share promo percent item = line_subtotal item * promo.discount_value
line_share promo fixed item =
    least (line_subtotal item) (promo.discount_value * item.quantity) * scale

abbrev pub discount_of : PromoCode → DiscountApplication → List ResolvedLineItem → ℕ
discount_of promo order_total items =
    round_money
      (least (sum_by line_subtotal items * scale) (share_of promo (sum_by line_subtotal items)))
discount_of promo per_ticket items =
    round_money (sum_by (line_share promo promo.discount_type) items)

abbrev pub used_by : PromoCode → String → ℕ
used_by promo customer_id =
    length (filter (λ (r : PromoCodeRedemption). same r.customer_id customer_id) promo.redemptions)

abbrev pub is_unavailable : PromoCode → ℕ → String → Bool
is_unavailable promo now customer_id =
    not (is_active promo.status)
    || not_started now promo.starts_at
    || has_ended now promo.ends_at
    || is_used_up (used_by promo customer_id) promo.max_redemptions_per_customer

unfoldable pub discount_for :
    PromoCode → ℕ → String → String → String → List ResolvedLineItem → Result ℕ
unfolding is_targeted round_money
discount_for promo now event_id organization_id customer_id items =
    let eligible = filter (is_eligible promo) items in
    if is_unavailable promo now customer_id
    then err (bad_request "Promo code is invalid or no longer available.")
    else if not (same promo.organization_id organization_id)
    then err (bad_request "Promo code is not valid for this event.")
    else if not (is_targeted is_event promo event_id)
    then err (bad_request "Promo code is not valid for this event.")
    else if not (is_targeted is_customer promo customer_id)
    then err (bad_request "Promo code is not valid for this customer.")
    else if is_nil eligible
    then err (bad_request "Promo code is not valid for the selected tickets.")
    else ok (discount_of promo promo.discount_application eligible)

abbrev pub calculate_promo_discount :
    Option PromoCode → ℕ → String → String → String → List ResolvedLineItem → Result ℕ
calculate_promo_discount none now event_id organization_id customer_id items = ok 0
calculate_promo_discount (some promo) now event_id organization_id customer_id items =
    discount_for promo now event_id organization_id customer_id items
