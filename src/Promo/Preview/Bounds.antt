-- ===== src/Promo/Preview/Bounds.antt =====
-- A previewed discount is positive and at most what the basket costs.
use native.Mathlib.Nat.{mul_right_comm, mul_assoc, mul-le-mul_right}
use bookingqube_nest_backend.Prelude.{
  ℕ, ◌+◌, ◌*◌, ◌≤◌, ◌<◌, ◌≡◌, refl, sym, ap, ◌∙◌, List, [], ◌∷◌, map, filter, sum_by, Bool, arith,
  All, All-filter, if_both,
}
use bookingqube_nest_backend.Promo.{
  PromoCode, DiscountApplication, per_ticket, order_total, scale, least,
}
use bookingqube_nest_backend.Promo.Basket.{
  SelectedTicket, PromoEvent, price_of, subtotal_of, get_eligible_tickets, Catalogue,
  PromoApplyRequest, normalize_selected_tickets, is_eligible,
}
use bookingqube_nest_backend.Promo.Preview.{
  round_money, calculate_discount_per_unit, calculate_order_discount, ticket_item, order_item,
  breakdown_of, total_discount, BreakdownItem, apply_promocode, applied, PromoDiscount,
}
use bookingqube_nest_backend.Promo.Preview.Guards.{apply_promocode_parts}

-- An amount with two decimals at most.
abbrev pub Whole : ℕ → Type 0
Whole amount = (c : ℕ) × (amount ≡ c * 10)

-- A price with two decimals at most, and a whole quantity.
unfoldable pub IsWhole : SelectedTicket → Type 0
IsWhole ticket = Whole ticket.unit_price × ((n : ℕ) × (ticket.quantity ≡ n * 1000))

-- What is at most an amount with two decimals is so when it is rounded.
round_money-le : (x m : ℕ) → Whole m → x ≤ m * scale → round_money x ≤ m
unfolding round_money
round_money-le x m (c, e) k = omega arith

least-le : (a b : ℕ) → least a b ≤ a
least-le a b = ground arith

discount_per_unit-le :
    (promo : PromoCode) (price : ℕ) → Whole price → calculate_discount_per_unit promo price ≤ price
unfolding calculate_discount_per_unit
discount_per_unit-le promo price h = round_money-le _ price h (least-le _ _)

-- What is at most a cost of two decimals at most, in millionths, is so when it is rounded.
round_cost-le :
    (x cost : ℕ) → (c : ℕ) × (cost ≡ c * 10_000) → x ≤ cost * 100 → round_money x * 1000 ≤ cost
round_cost-le x cost (c, e) k =
    let below = round_money-le x (c * 10) (c, refl) (omega (arith, e, k)) in omega (arith, below, e)

order_discount-le :
    (promo : PromoCode) (subtotal : ℕ)
    → (c : ℕ) × (subtotal ≡ c * 10_000)
    → calculate_order_discount promo subtotal * 1000 ≤ subtotal
unfolding calculate_order_discount
order_discount-le promo subtotal h = round_cost-le _ subtotal h (least-le _ _)

price-whole : (t : SelectedTicket) → IsWhole t → (c : ℕ) × (price_of t ≡ c * 10_000)
unfolding IsWhole
price-whole t ((c, e), (n, f)) =
    (c * n, ap (λ x. x * t.quantity) e ∙ ap (λ x. c * 10 * x) f ∙ whole_product c n)
  where
    tens : (x : ℕ) → x * 10 * 1000 ≡ x * 10_000
    tens x = omega arith

    whole_product : (a b : ℕ) → a * 10 * (b * 1000) ≡ a * b * 10_000
    whole_product a b =
        sym (mul_assoc (a * 10) b 1000) ∙ ap (λ x. x * 1000) (mul_right_comm a 10 b) ∙ tens (a * b)

subtotal-whole :
    (tickets : List SelectedTicket)
    → All IsWhole tickets
    → (c : ℕ) × (subtotal_of tickets ≡ c * 10_000)
subtotal-whole [] h = (0, refl)
subtotal-whole (t ∷ tickets) h =
    let (c, e) = price-whole t h.0 in
    let (d, k) = subtotal-whole tickets h.1 in (c + d, omega (arith, e, k))

ticket_item-le :
    (promo : PromoCode) (t : SelectedTicket)
    → IsWhole t
    → (ticket_item promo t).total_item_discount * 1000 ≤ price_of t
unfolding ticket_item IsWhole
ticket_item-le promo t h = round_cost-le _ (price_of t) (price-whole t h) (
    mul-le-mul_right 100
      (mul-le-mul_right t.quantity (discount_per_unit-le promo t.unit_price h.0)))

items-le :
    (promo : PromoCode) (tickets : List SelectedTicket)
    → All IsWhole tickets
    → sum_by (λ (i : BreakdownItem). i.total_item_discount) (map (ticket_item promo) tickets) * 1000
      ≤ subtotal_of tickets
items-le promo [] h = omega arith
items-le promo (t ∷ tickets) h =
    omega (arith, ticket_item-le promo t h.0, items-le promo tickets h.1)

breakdown-le :
    (a : DiscountApplication) (promo : PromoCode) (e : PromoEvent) (tickets : List SelectedTicket)
    → All IsWhole tickets
    → sum_by (λ (i : BreakdownItem). i.total_item_discount) (breakdown_of a promo e tickets) * 1000
      ≤ subtotal_of tickets
unfolding order_item
breakdown-le order_total promo e tickets h =
    omega (arith, order_discount-le promo (subtotal_of tickets) (subtotal-whole tickets h))
breakdown-le per_ticket promo e tickets h = items-le promo tickets h

total_discount-le :
    (promo : PromoCode) (e : PromoEvent) (tickets : List SelectedTicket)
    → All IsWhole tickets
    → total_discount promo e tickets * 1000 ≤ subtotal_of tickets
unfolding total_discount
total_discount-le promo e tickets h =
    round_cost-le _ (subtotal_of tickets) (subtotal-whole tickets h)
      (omega (arith, breakdown-le promo.discount_application promo e tickets h))

subtotal-filter :
    (p : SelectedTicket → Bool) (tickets : List SelectedTicket)
    → subtotal_of (filter p tickets) ≤ subtotal_of tickets
subtotal-filter p [] = omega arith
subtotal-filter p (t ∷ tickets) = ground (arith, subtotal-filter p tickets)

eligible-le :
    (promo : PromoCode) (selected : List SelectedTicket) (e : PromoEvent)
    → All IsWhole selected
    → All IsWhole (get_eligible_tickets promo selected e)
      × (subtotal_of (get_eligible_tickets promo selected e) ≤ subtotal_of selected)
unfolding get_eligible_tickets
eligible-le promo selected e h =
    if_both (λ ts. All IsWhole ts × (subtotal_of ts ≤ subtotal_of selected)) _ (h, omega arith)
      (
        All-filter IsWhole (is_eligible promo e) selected h,
        subtotal-filter (is_eligible promo e) selected,
      )

-- A discount that is shown is above zero, and at most what the selected tickets cost together, if
-- their quantities are whole and their prices have two decimals at most.
pub apply_promocode_bounds :
    (catalogue : Catalogue) (now : ℕ) (input : PromoApplyRequest) (d : PromoDiscount)
    → All IsWhole (normalize_selected_tickets input.selected_tickets)
    → apply_promocode catalogue now input ≡ applied d
    → (0 < d.total_discount_amount)
      × (d.total_discount_amount * 1000
          ≤ subtotal_of (normalize_selected_tickets input.selected_tickets))
apply_promocode_bounds catalogue now input d whole r =
    let a = apply_promocode_parts catalogue now input d r in
    let (w, below) =
      eligible-le a.promo (normalize_selected_tickets input.selected_tickets) a.promo_event whole in
    let total = ap (λ (x : PromoDiscount). x.total_discount_amount) a.discount_lem in
    (a.positive_lem, omega (arith, total, below, total_discount-le a.promo a.promo_event _ w))
