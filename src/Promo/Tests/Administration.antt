-- ===== src/Promo/Tests/Administration.antt =====
-- A code that an administrator stores, and the theorems on stored codes there.
use bookingqube_nest_backend.Prelude.{◌≤◌, ◌≡◌, refl, none, some, [], ◌∷◌, sum_by, true, false}
use bookingqube_nest_backend.Prelude.Text.{trim, codes, text_dec}
use bookingqube_nest_backend.Prelude.Http.{ok, err, bad_request}
use bookingqube_nest_backend.Inventory.Service.{unique}
use bookingqube_nest_backend.Promo.{PromoCode, active, percent, per_ticket, event, is_targeted}
use bookingqube_nest_backend.Promo.Charge.{
  ResolvedLineItem, ticket_type, line_subtotal, calculate_promo_discount, discount_for, round_money,
}
use bookingqube_nest_backend.Promo.AdminInput.{Owners, UpsertPromocode, validate, to_data}
use bookingqube_nest_backend.Promo.Admin.{create_promocode, find_promo, new_promo}
use bookingqube_nest_backend.Promo.Admin.Sound.{nothing_stored, created, offered_discount_le}

abbrev owners : Owners
owners = record { is_active_organization = λ _. true; organization_of = λ _ _. some "org" }

-- A tenth off the tickets of one event.
abbrev tenth : UpsertPromocode
tenth = record {
  organization_id = "org";
  code = codes " ten ";
  name = none;
  description = none;
  show_in_pos = false;
  status = active;
  discount_type = percent;
  application_mode = per_ticket;
  discount_value = 10_000;
  currency = none;
  target_type = some event;
  target_ids = "e1" ∷ [];
  starts_at = some 100;
  ends_at = some 200;
  max_redemptions = none;
  max_redemptions_per_customer = none;
}

abbrev stored : PromoCode
stored = to_data tenth (new_promo "p1")

create_test : create_promocode owners [] "p1" tenth ≡ ok (stored ∷ [])
unfolding create_promocode validate unique trim text_dec
create_test = refl

-- More than all is refused, and so is an event that is given twice.
too_much_test :
    create_promocode owners [] "p1" (record tenth { discount_value = 100_001 })
    ≡ err (bad_request "Percentage discounts cannot exceed 100%.")
unfolding create_promocode validate
too_much_test = refl

given_twice_test :
    create_promocode owners [] "p1" (record tenth { target_ids = "e1" ∷ "e1" ∷ [] })
    ≡ err (bad_request "One or more events do not belong to this organizer.")
unfolding create_promocode validate unique trim text_dec
given_twice_test = refl

abbrev line : ResolvedLineItem
line = record {
  item_type = ticket_type;
  item_id = "t1";
  quantity = 2;
  unit_price = 25_550;
  customizations = [];
}

charge_test : calculate_promo_discount (some stored) 150 "e1" "org" "c1" (line ∷ []) ≡ ok 5_110
unfolding to_data discount_for is_targeted round_money text_dec
charge_test = refl

found_test : find_promo "p1" (stored ∷ []) ≡ some stored
unfolding find_promo to_data text_dec
found_test = refl

offered_discount_le_example : 5_110 ≤ sum_by line_subtotal (line ∷ [])
offered_discount_le_example =
    offered_discount_le owners (stored ∷ []) stored "p1" 150 "e1" "org" "c1" (line ∷ []) 5_110
      (created "p1" tenth nothing_stored create_test) found_test charge_test
