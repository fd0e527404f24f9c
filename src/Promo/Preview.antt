-- ===== src/Promo/Preview.antt =====
-- `PromocodesService` of src/modules/promocodes/promocodes.service.ts: the discount that a basket is
-- shown. The labels and the translations of the messages are not modelled.
pub mod Conditions
pub mod Bounds
pub mod Guards
use bookingqube_nest_backend.Prelude.{
  ℕ, ◌+◌, ◌*◌, ◌/◌, String, Option, none, some, List, [], ◌∷◌, ◌++◌, map, filter, any, sum_by, Bool,
  true, false, not, ◌&&◌, ◌||◌, leb, ltb, ◌==◌, if◌then◌else◌, length,
}
use bookingqube_nest_backend.Prelude.Text.{codes, Text, same, trim, upper}
use bookingqube_nest_backend.Promo.{
  PromoCode, PromoCodeTarget, DiscountApplication, per_ticket, order_total, percent, fixed,
  is_active, is_event, is_ticket_type, is_ticket_variant, not_started, has_ended, is_used_up,
  is_nil, targets_of, is_target, is_targeted, scale, least, share_of,
}
use bookingqube_nest_backend.Promo.Basket.{
  SelectedTicket, PromoApplyRequest, PromoEvent, Catalogue, normalize_selected_tickets,
  get_eligible_tickets, subtotal_of,
}

pub record BreakdownItem : Type 0 where
  pub target_type : String
  pub target_id : String
  pub discount_applied_per_unit : ℕ
  pub total_item_discount : ℕ

pub record PromoDiscount : Type 0 where
  pub code : Text
  pub discount_type : String
  pub total_discount_amount : ℕ
  pub currency : Text
  pub applied_breakdown : List BreakdownItem

pub data PromoReply : Type 0 where
  applied : PromoDiscount → PromoReply
  failure : Text → String → PromoReply

abbrev pub has_ticket_specific_target : PromoCode → Bool
has_ticket_specific_target promo =
    any (λ (t : PromoCodeTarget). is_ticket_type t.target_type || is_ticket_variant t.target_type)
      promo.targets

-- `roundMoney`: half up to two decimals, so to ten thousandths.
unfoldable pub round_money : ℕ → ℕ
round_money scaled = (scaled + 500_000) / 1_000_000 * 10

unfoldable pub calculate_discount_per_unit : PromoCode → ℕ → ℕ
unfolding round_money
calculate_discount_per_unit promo unit_price =
    round_money (least (unit_price * scale) (share_of promo unit_price))

-- What a code takes off a subtotal, before it is rounded.
abbrev pub order_share : PromoCode → ℕ → ℕ
order_share promo subtotal = elim promo.discount_type [
  | percent ↦ subtotal * promo.discount_value / 1000
  | fixed ↦ promo.discount_value * scale
]

-- A millionth is a hundred of the parts that are rounded.
unfoldable pub calculate_order_discount : PromoCode → ℕ → ℕ
unfolding round_money
calculate_order_discount promo subtotal =
    round_money (least (subtotal * 100) (order_share promo subtotal))

abbrev pub or_ticket_id : Option String → String → String
or_ticket_id none ticket_id = ticket_id
or_ticket_id (some variant_id) _ = variant_id

unfoldable pub order_item : PromoCode → PromoEvent → List SelectedTicket → BreakdownItem
unfolding calculate_order_discount
order_item promo e tickets = record {
  target_type = "total_order";
  target_id = e.id;
  discount_applied_per_unit = 0;
  total_item_discount = calculate_order_discount promo (subtotal_of tickets);
}

unfoldable pub ticket_item : PromoCode → SelectedTicket → BreakdownItem
unfolding calculate_discount_per_unit round_money
ticket_item promo ticket = record {
  target_type = if has_ticket_specific_target promo then "ticket_specific" else "ticket";
  target_id = or_ticket_id ticket.variant_id ticket.ticket_id;
  discount_applied_per_unit = calculate_discount_per_unit promo ticket.unit_price;
  total_item_discount =
      round_money (calculate_discount_per_unit promo ticket.unit_price * ticket.quantity * 100);
}

abbrev pub breakdown_of :
    DiscountApplication → PromoCode → PromoEvent → List SelectedTicket → List BreakdownItem
breakdown_of order_total promo e tickets = order_item promo e tickets ∷ []
breakdown_of per_ticket promo e tickets = map (ticket_item promo) tickets

unfoldable pub total_discount : PromoCode → PromoEvent → List SelectedTicket → ℕ
unfolding order_item ticket_item round_money
total_discount promo e tickets = round_money (
    sum_by (λ (i : BreakdownItem). i.total_item_discount)
      (breakdown_of promo.discount_application promo e tickets)
    * scale)

abbrev pub or_qar : Option Text → Text
or_qar none = codes "QAR"
or_qar (some currency) = currency

-- The reply for the eligible tickets.
unfoldable pub discount_reply : Text → PromoCode → PromoEvent → List SelectedTicket → PromoReply
unfolding total_discount
discount_reply code promo e tickets =
    if is_nil tickets
    then failure code "This promo code is not valid for the selected tickets."
    else if total_discount promo e tickets == 0
    then failure code "This promo code does not apply a discount."
    else applied (record {
      code = upper promo.code;
      discount_type = if has_ticket_specific_target promo then "ticket_specific" else "total_order";
      total_discount_amount = total_discount promo e tickets;
      currency = or_qar promo.currency;
      applied_breakdown = breakdown_of promo.discount_application promo e tickets;
    })

abbrev pub wrong_event : String
wrong_event = "This promo code is not valid for the selected event."

-- The tests on a code and an event that are found.
unfoldable pub check_event : ℕ → Text → List SelectedTicket → PromoCode → PromoEvent → PromoReply
unfolding is_targeted get_eligible_tickets discount_reply
check_event now code selected promo e =
    if not e.is_published
    then failure code wrong_event
    else if not (same promo.organization_id e.organization_id)
    then failure code wrong_event
    else if not_started now promo.starts_at
    then failure code "This promo code is not active yet."
    else if has_ended now promo.ends_at
    then failure code "This promo code has expired."
    else if is_used_up (length promo.redemptions) promo.max_redemptions
    then failure code "This promo code has reached its redemption limit."
    else if not (is_targeted is_event promo e.id)
    then failure code wrong_event
    else discount_reply code promo e (get_eligible_tickets promo selected e)

abbrev pub check_found_event :
    ℕ → Text → List SelectedTicket → PromoCode → Option PromoEvent → PromoReply
check_found_event now code selected promo none = failure code wrong_event
check_found_event now code selected promo (some e) = check_event now code selected promo e

abbrev pub check_promo :
    ℕ → Text → List SelectedTicket → Option PromoCode → Option PromoEvent → PromoReply
check_promo now code selected none found = failure code "This promo code is invalid or inactive."
check_promo now code selected (some promo) found =
    if not (is_active promo.status)
    then failure code "This promo code is invalid or inactive."
    else check_found_event now code selected promo found

abbrev pub code_of : Option Text → Text
code_of none = []
code_of (some code) = upper (trim code)

unfoldable pub apply_promocode : Catalogue → ℕ → PromoApplyRequest → PromoReply
unfolding normalize_selected_tickets check_event
apply_promocode catalogue now input =
    if is_nil (code_of input.code)
    then failure [] "Promo code is required."
    else if is_nil input.event_slug
    then failure (code_of input.code) "Event is required."
    else if is_nil (normalize_selected_tickets input.selected_tickets)
    then failure (code_of input.code) "Select at least one ticket before applying a promo code."
    else check_promo now (code_of input.code) (normalize_selected_tickets input.selected_tickets)
        (catalogue.find_promo (code_of input.code)) (catalogue.find_event input.event_slug)
