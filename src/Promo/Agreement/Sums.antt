-- ===== src/Promo/Agreement/Sums.antt =====
-- The sums that the preview and the booking take off, for a fixed amount off each ticket.
use native.Mathlib.Nat.{mul-le-mul_right, mul_assoc, mul_right_comm}
use bookingqube_nest_backend.Prelude.{
  String, Option, none, some, ◌/◌, ℕ, ◌+◌, ◌*◌, ◌≤◌, ◌≡◌, refl, ap, ◌∙◌, sym, List, [], ◌∷◌, map,
  sum_by, Bool, true, false, leb, if◌then◌else◌, arith, dec_le, All,
}
use bookingqube_nest_backend.Promo.{
  PromoCode, DiscountType, percent, fixed, per_ticket, scale, least,
}
use bookingqube_nest_backend.Promo.Basket.{SelectedTicket, PromoEvent}
use bookingqube_nest_backend.Promo.Preview.{
  round_money, calculate_discount_per_unit, ticket_item, total_discount, breakdown_of,
  BreakdownItem,
}
use bookingqube_nest_backend.Promo.Preview.Bounds.{Whole, IsWhole}
use bookingqube_nest_backend.Promo.Charge.{
  OrderItemType, ticket_variant, ticket_type, ResolvedLineItem, line_share, discount_of,
  round_money as charge_round,
}

abbrev pub item_type_of : Option String → OrderItemType
item_type_of none = ticket_type
item_type_of (some _) = ticket_variant

-- The line that a booking resolves for a ticket with no options, at the price that was shown: a ticket
-- with a variant is a line of that variant. The ids are those of the event's tables.
abbrev pub line_of : (SelectedTicket → String) → SelectedTicket → ResolvedLineItem
line_of id_of t = record {
  item_type = item_type_of t.variant_id;
  item_id = id_of t;
  quantity = t.quantity / 1000;
  unit_price = t.unit_price;
  customizations = [];
}

mul-Whole : (a b : ℕ) → Whole a → Whole (a * b)
mul-Whole a b (c, e) = (c * b, ap (λ x. x * b) e ∙ mul_right_comm c 10 b)

round-Whole : (m : ℕ) → Whole m → round_money (m * scale) ≡ m
unfolding round_money
round-Whole m (c, e) = omega arith

least-Whole : (a b : ℕ) → Whole a → Whole b → Whole (least a b)
least-Whole a b (c, e) (d, f) = if-Whole (leb a b)
  where
    if-Whole : (t : Bool) → Whole (if t then a else b)
    if-Whole true = (c, e)
    if-Whole false = (d, f)

least-scale : (a b : ℕ) → least (a * scale) (b * scale) ≡ least a b * scale
least-scale a b = ground arith

per_unit_lem :
    (promo : PromoCode) (price : ℕ)
    → promo.discount_type ≡ fixed
    → Whole promo.discount_value
    → Whole price
    → calculate_discount_per_unit promo price ≡ least price promo.discount_value
unfolding calculate_discount_per_unit
per_unit_lem promo price f w p =
    ap (λ x. round_money (least (price * scale) x)) (share_fixed promo.discount_type f)
    ∙ ap round_money (least-scale price promo.discount_value)
    ∙ round-Whole _ (least-Whole price promo.discount_value p w)
  where
    share_fixed :
        (t : DiscountType)
        → t ≡ fixed
        → (elim t as (λ _. ℕ) [
          | percent ↦ price * promo.discount_value
          | fixed ↦ promo.discount_value * scale
        ])
          ≡ promo.discount_value * scale
    share_fixed percent e = cc
    share_fixed fixed e = refl

taken_off : PromoCode → SelectedTicket → ℕ
taken_off promo t = least t.unit_price promo.discount_value * (t.quantity / 1000)

ticket_lem :
    (promo : PromoCode) (t : SelectedTicket)
    → promo.discount_type ≡ fixed
    → Whole promo.discount_value
    → IsWhole t
    → (ticket_item promo t).total_item_discount ≡ taken_off promo t
unfolding ticket_item IsWhole taken_off
ticket_lem promo t f w (price, (n, e)) =
    let each = least t.unit_price promo.discount_value in
    let count : t.quantity / 1000 ≡ n = omega (arith, e) in
    ap (λ x. round_money (x * t.quantity * 100)) (per_unit_lem promo t.unit_price f w price)
    ∙ ap (λ q. round_money (each * q * 100)) e
    ∙ ap round_money (thousands each n)
    ∙ round-Whole _ (mul-Whole each n (least-Whole t.unit_price promo.discount_value price w))
    ∙ ap (λ q. each * q) (sym count)
  where
    hundreds : (x : ℕ) → x * 1000 * 100 ≡ x * scale
    hundreds x = omega arith

    thousands : (a b : ℕ) → a * (b * 1000) * 100 ≡ a * b * scale
    thousands a b = ap (λ x. x * 100) (sym (mul_assoc a b 1000)) ∙ hundreds (a * b)

abbrev item_total : BreakdownItem → ℕ
item_total i = i.total_item_discount

preview_sum :
    (promo : PromoCode) (tickets : List SelectedTicket)
    → promo.discount_type ≡ fixed
    → Whole promo.discount_value
    → All IsWhole tickets
    → sum_by item_total (map (ticket_item promo) tickets) ≡ sum_by (taken_off promo) tickets
unfolding taken_off
preview_sum promo [] f w h = refl
preview_sum promo (t ∷ tickets) f w h =
    omega (arith, ticket_lem promo t f w h.0, preview_sum promo tickets f w h.1)

sum-Whole :
    (promo : PromoCode) (tickets : List SelectedTicket)
    → Whole promo.discount_value
    → All IsWhole tickets
    → Whole (sum_by (taken_off promo) tickets)
unfolding taken_off IsWhole
sum-Whole promo [] w h = (0, refl)
sum-Whole promo (t ∷ tickets) w h =
    let (c, e) =
      mul-Whole _ (t.quantity / 1000) (least-Whole t.unit_price promo.discount_value h.0.0 w) in
    let (d, k) = sum-Whole promo tickets w h.1 in (c + d, omega arith)

add_zero : (a : ℕ) → a + 0 ≡ a
add_zero a = omega arith

least_left : {a b : ℕ} → a ≤ b → least a b ≡ a
least_left h = ground arith

least_right : {a b : ℕ} → b ≤ a → least a b ≡ b
least_right h = ground arith

least_mul : (a b q : ℕ) → least (a * q + 0) (b * q) ≡ least a b * q
least_mul a b q = elim (dec_le a b) [
  | yes h ↦
      least_left (omega (arith, mul-le-mul_right q h))
      ∙ add_zero (a * q)
      ∙ ap (λ x. x * q) (sym (least_left h))
  | no h ↦
      let k : b ≤ a = omega arith in
      least_right {a = a * q + 0} (omega (arith, mul-le-mul_right q k))
      ∙ ap (λ x. x * q) (sym (least_right k))
]

charge_sum :
    (id_of : SelectedTicket → String) (promo : PromoCode) (tickets : List SelectedTicket)
    → sum_by (line_share promo fixed) (map (line_of id_of) tickets)
      ≡ sum_by (taken_off promo) tickets * scale
unfolding taken_off
charge_sum id_of promo [] = refl
charge_sum id_of promo (t ∷ tickets) = omega (
  arith,
  least_mul t.unit_price promo.discount_value (t.quantity / 1000),
  charge_sum id_of promo tickets,
)

charge_lem :
    (id_of : SelectedTicket → String) (promo : PromoCode) (type : DiscountType)
    (tickets : List SelectedTicket)
    → type ≡ fixed
    → charge_round (sum_by (line_share promo type) (map (line_of id_of) tickets))
      ≡ sum_by (taken_off promo) tickets
unfolding charge_round
charge_lem id_of promo percent tickets e = cc
charge_lem id_of promo fixed tickets e = omega (arith, charge_sum id_of promo tickets)

-- The sums of both sides agree.
pub total_is_charged :
    (id_of : SelectedTicket → String) (promo : PromoCode) (e : PromoEvent)
    (tickets : List SelectedTicket)
    → promo.discount_type ≡ fixed
    → promo.discount_application ≡ per_ticket
    → Whole promo.discount_value
    → All IsWhole tickets
    → total_discount promo e tickets
      ≡ discount_of promo promo.discount_application (map (line_of id_of) tickets)
unfolding total_discount
total_is_charged id_of promo e tickets f p w h =
    ap (λ a. round_money (sum_by item_total (breakdown_of a promo e tickets) * scale)) p
    ∙ ap (λ x. round_money (x * scale)) (preview_sum promo tickets f w h)
    ∙ round-Whole _ (sum-Whole promo tickets w h)
    ∙ sym (charge_lem id_of promo promo.discount_type tickets f)
    ∙ ap (λ a. discount_of promo a (map (line_of id_of) tickets)) (sym p)
