-- ===== src/Promo/Tests.antt =====
-- A code at concrete inputs, and the theorems on codes there.
mod Administration
use bookingqube_nest_backend.Prelude.{
  ◌*◌, ◌≤◌, ◌<◌, ◌≡◌, refl, String, none, some, List, [], ◌∷◌, sum_by, true, false, arith, subst,
  some_inj, ◌↔◌,
}
use bookingqube_nest_backend.Prelude.Text.{upper, trim, codes, text_dec}
use bookingqube_nest_backend.Prelude.Integers.{pos}
use bookingqube_nest_backend.Prelude.Http.{ok, err}
use bookingqube_nest_backend.Prelude.Dict.{update}
use bookingqube_nest_backend.Promo.{
  PromoCode, active, percent, fixed, per_ticket, is_targeted, scale,
}
use bookingqube_nest_backend.Promo.Basket.{
  TicketInput, PromoApplyRequest, PromoEvent, Catalogue, normalize_selected_tickets,
  get_eligible_tickets, subtotal_of,
}
use bookingqube_nest_backend.Promo.Preview.{
  apply_promocode, applied, PromoDiscount, check_event, discount_reply, total_discount, ticket_item,
  calculate_discount_per_unit, round_money,
}
use bookingqube_nest_backend.Promo.Preview.Bounds.{apply_promocode_bounds, IsWhole}
use bookingqube_nest_backend.Promo.Preview.Guards.{apply_promocode_iff}
use bookingqube_nest_backend.Promo.Preview.Conditions.{IsApplied}
use bookingqube_nest_backend.Promo.Charge.{
  ResolvedLineItem, ticket_type, other_item, line_subtotal, calculate_promo_discount, discount_for,
  round_money as charge_round, discount_of,
}
use bookingqube_nest_backend.Promo.Redemption.{
  PromoStore, PromoBooking, no_longer_available, redeem, book_promo, seeded, claim_promo_slot,
  transaction_part, assert_promo_redemption_capacity,
}
use bookingqube_nest_backend.Promo.Redemption.Capacity.{
  claim_step, redeem_step, Reachable, here, next, WithinLimits, Reachable-WithinLimits,
}
use bookingqube_nest_backend.Promo.Redemption.Slots.{book_promo_undone}

-- A tenth off each ticket, once.
abbrev ten_percent : PromoCode
ten_percent = record {
  id = "p1";
  organization_id = "org";
  code = codes "TEN";
  name = none;
  description = none;
  show_in_pos = false;
  status = active;
  discount_type = percent;
  discount_application = per_ticket;
  discount_value = 10_000;
  currency = none;
  starts_at = some 100;
  ends_at = some 200;
  max_redemptions = some 1;
  max_redemptions_per_customer = none;
  targets = [];
  redemptions = [];
}

abbrev a_ticket : TicketInput
a_ticket = record {
  ticket_id = some "t1";
  variant_id = none;
  quantity = some (pos 3_000);
  unit_price = some (pos 25_550);
}

abbrev no_ticket : TicketInput
no_ticket = record a_ticket { quantity = some (pos 0) }

abbrev concert : PromoEvent
concert = record { id = "e1"; organization_id = "org"; is_published = true; ticket_types = [] }

abbrev catalogue : Catalogue
catalogue = record { find_promo = λ _. some ten_percent; find_event = λ _. some concert }

abbrev request : PromoApplyRequest
request = record {
  code = some (codes " ten ");
  event_slug = codes "concert";
  selected_tickets = no_ticket ∷ a_ticket ∷ [];
}

-- A tenth of 25.55, rounded to 2.56, three times.
abbrev reply : PromoDiscount
reply = record {
  code = codes "TEN";
  discount_type = "total_order";
  total_discount_amount = 7_680;
  currency = codes "QAR";
  applied_breakdown =
      record {
        target_type = "ticket";
        target_id = "t1";
        discount_applied_per_unit = 2_560;
        total_item_discount = 7_680;
      }
      ∷ [];
}

reply_test : apply_promocode catalogue 150 request ≡ applied reply
unfolding apply_promocode check_event is_targeted discount_reply normalize_selected_tickets
    get_eligible_tickets total_discount ticket_item calculate_discount_per_unit round_money upper
    trim text_dec
reply_test = refl

apply_promocode_bounds_example :
    (0 < reply.total_discount_amount)
    × (reply.total_discount_amount * 1000
        ≤ subtotal_of (normalize_selected_tickets request.selected_tickets))
unfolding IsWhole normalize_selected_tickets
apply_promocode_bounds_example =
    apply_promocode_bounds catalogue 150 request reply (((2_555, refl), (3, refl)), tt) reply_test

apply_promocode_iff_example :
    (apply_promocode catalogue 150 request ≡ applied reply) ↔ IsApplied catalogue 150 request reply
apply_promocode_iff_example = apply_promocode_iff catalogue 150 request reply

abbrev line : ResolvedLineItem
line = record {
  item_type = ticket_type;
  item_id = "t1";
  quantity = 3;
  unit_price = 25_550;
  customizations = record { quantity = 1; unit_price = 5_000 } ∷ [];
}

-- A tenth of 81.65 is 8.165.
charge_test : calculate_promo_discount (some ten_percent) 150 "e1" "org" "c1" (line ∷ []) ≡ ok 8_165
unfolding discount_for is_targeted charge_round text_dec
charge_test = refl

abbrev five_off : PromoCode
five_off = record ten_percent { discount_type = fixed; discount_value = 5_000 }

abbrev variant_ticket : TicketInput
variant_ticket = record {
  ticket_id = some "t2";
  variant_id = some "v1";
  quantity = some (pos 1_000);
  unit_price = some (pos 3_000);
}

abbrev five_catalogue : Catalogue
five_catalogue = record catalogue { find_promo = λ _. some five_off }

abbrev five_request : PromoApplyRequest
five_request = record request { selected_tickets = a_ticket ∷ variant_ticket ∷ [] }

-- Five off each of three tickets, and all of the price of a cheaper one.
abbrev five_reply : PromoDiscount
five_reply = record reply {
  total_discount_amount = 18_000;
  applied_breakdown =
      record {
        target_type = "ticket";
        target_id = "t1";
        discount_applied_per_unit = 5_000;
        total_item_discount = 15_000;
      }
      ∷ record {
        target_type = "ticket";
        target_id = "v1";
        discount_applied_per_unit = 3_000;
        total_item_discount = 3_000;
      }
      ∷ [];
}

abbrev parking : ResolvedLineItem
parking = record line { item_type = other_item; item_id = "a1" }

-- Half a ticket is refused by no one: at a rial's hundredth, and all of it off, the discount that is
-- shown is more than the half costs.
half_test :
    total_discount
      (record ten_percent { discount_value = 100_000 })
      concert
      (record { ticket_id = "t1"; variant_id = none; quantity = 500; unit_price = 10 } ∷ [])
    ≡ 10
unfolding total_discount ticket_item calculate_discount_per_unit round_money
half_test = refl

abbrev no_redemptions : PromoStore
no_redemptions = record { redis_ready = true; redeemed = λ _. none; redemptions = [] }

abbrev codes_of : String → PromoCode
codes_of id = record ten_percent { id = id }

none-WithinLimits : WithinLimits codes_of []
unfolding WithinLimits
none-WithinLimits id = (omega arith, λ _. tt)

abbrev claimed : PromoStore
claimed = record no_redemptions { redeemed = update (λ _. none) "p1" 1 }

claim_test : (claim_promo_slot no_redemptions "p1" 1).0 ≡ claimed
unfolding claim_promo_slot text_dec
claim_test = refl

abbrev redeemed_once : PromoStore
redeemed_once = record claimed {
  redemptions =
      record { promo_code_id = "p1"; order_id = "o1"; customer_id = "c1"; discount_amount = 8_165 }
      ∷ [];
}

redeem_test : redeem claimed (codes_of "p1") "o1" "c1" 8_165 ≡ ok redeemed_once
unfolding redeem assert_promo_redemption_capacity text_dec
redeem_test = refl

-- A second booking is refused.
second_redeem_test : redeem redeemed_once (codes_of "p1") "o2" "c2" 8_165 ≡ err no_longer_available
unfolding redeem assert_promo_redemption_capacity text_dec
second_redeem_test = refl

once-Reachable : Reachable codes_of no_redemptions redeemed_once
once-Reachable =
    next
      (subst (Reachable codes_of no_redemptions) claim_test
        (next here (claim_step {s = no_redemptions} "p1" 1)))
      (redeem_step "p1" "o1" "c1" 8_165 redeem_test)

Reachable-WithinLimits_example : WithinLimits codes_of redeemed_once.redemptions
Reachable-WithinLimits_example =
    Reachable-WithinLimits codes_of no_redemptions redeemed_once (λ _. refl) none-WithinLimits
      once-Reachable

abbrev booking : PromoBooking
booking = record {
  promo = ten_percent;
  order_id = "o2";
  customer_id = "c2";
  discount_amount = 8_165;
  is_advance = false;
}

failed_test : (book_promo no_redemptions booking true).1 ≡ false
unfolding book_promo claim_promo_slot transaction_part redeem assert_promo_redemption_capacity
    text_dec
failed_test = refl

book_promo_undone_example :
    ((book_promo no_redemptions booking true).0.redemptions ≡ [])
    × (seeded (book_promo no_redemptions booking true).0 "p1" ≡ 0)
book_promo_undone_example = book_promo_undone no_redemptions booking true failed_test

-- An advance payment redeems nothing, and takes no slot.
advance_test :
    book_promo no_redemptions (record booking { is_advance = true }) false ≡ (no_redemptions, true)
unfolding book_promo
advance_test = refl
