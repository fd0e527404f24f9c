-- ===== src/Promo/Agreement.antt =====
-- The preview and the booking agree on a code that takes a fixed amount off each ticket.
pub mod Sums
use native.Mathlib.Nat.{mul-le-mul_right, mul_assoc, mul_right_comm}
use bookingqube_nest_backend.Prelude.{
  filter, ◌/◌, ◌+◌, ◌*◌, ◌≤◌, ◌≡◌, [], sum_by, leb, if◌then◌else◌, dec_le,
}
use bookingqube_nest_backend.Promo.{PromoCode, DiscountType, percent, scale, least}
use bookingqube_nest_backend.Promo.Preview.{
  round_money, calculate_discount_per_unit, ticket_item, breakdown_of, BreakdownItem,
}
use bookingqube_nest_backend.Promo.Charge.{
  OrderItemType, ticket_variant, item_target, ticket_type, line_share, round_money as charge_round,
}

-- A code for no ticket types and no variants.
abbrev pub IsForAllTickets : PromoCode → Type 0
IsForAllTickets promo = filter item_target promo.targets ≡ []
