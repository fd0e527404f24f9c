-- ===== src/Checkout/Confirmation/Once.antt =====
-- An order is paid once, and its hold gives no stock back afterwards.
use bookingqube_nest_backend.Prelude.{
  inl, inr, ◌≡◌, refl, sym, ap, ◌∙◌, ℕ, String, Option, none, some, some_inj, List, [], ◌∷◌, map,
  Bool, true, false, if◌then◌else◌, arith, Bool-cases,
}
use bookingqube_nest_backend.Prelude.Text.{same}
use bookingqube_nest_backend.Prelude.Http.{Result, ok, err, ok_inj, if_ok}
use bookingqube_nest_backend.Inventory.Model.{InventoryDelta, Store, sold}
use bookingqube_nest_backend.Inventory.Service.{reserve, convert}
use bookingqube_nest_backend.Checkout.Records.{
  HoldStatus, active, expired, released, converted, OrderStatus, paid, pending_payment, cancelled,
  order_expired, refunded, partially_refunded, TicketHold, Order, Bookings,
}
use bookingqube_nest_backend.Checkout.HoldExpiration.{
  is_active_hold, find_hold, process_hold_expire,
}
use bookingqube_nest_backend.Checkout.HoldExpiration.Once.{process_hold_expire-inactive}
use bookingqube_nest_backend.Checkout.PaidRows.{
  converts, ConfirmPayment, Prepared, mark_paid, convert_hold, cancel_job, paid_payment,
  breaks_index,
}
use bookingqube_nest_backend.Checkout.Confirmation.{
  ConfirmReply, confirmed, already_confirmed, find_order, status_of, cannot_confirm, no_stock,
  settle_locked, settle, sell_again, written, write_tables, after_confirmation, confirm_transaction,
}

-- The tables of orders and holds after a confirmation.
record IsWritten (s after : Bookings) (now : ℕ) (p : Prepared) : Type 0 where
  orders_lem : after.orders ≡ map (mark_paid p.order.id now) s.orders
  holds_lem : after.holds ≡ map (convert_hold p.order.hold_id) s.holds

abbrev Answer : Type 0
Answer = Bookings × Result ConfirmReply

tables_lem :
    (s t : Bookings) (now : ℕ) (input : ConfirmPayment) (p : Prepared)
    → write_tables s now input p ≡ ok t
    → IsWritten s t now p
unfolding write_tables
tables_lem s t now input p e =
    let (_, made) = if_ok (breaks_index s.payments (paid_payment p input now)) _ _ e in
    record {
      orders_lem = ap (λ (x : Bookings). x.orders) (sym (ok_inj made));
      holds_lem = ap (λ (x : Bookings). x.holds) (sym (ok_inj made));
    }

written-IsWritten :
    (s after : Bookings) (now : ℕ) (p : Prepared) (m : Result Bookings)
    → ((t : Bookings) → m ≡ ok t → IsWritten s t now p)
    → written s now p m ≡ (after, ok confirmed)
    → IsWritten s after now p
unfolding after_confirmation
written-IsWritten s after now p (err thrown) h e =
    (let never : err thrown ≡ ok confirmed = ap (λ (r : Answer). r.1) e in cc)
written-IsWritten s after now p (ok t) h e =
    let made = ap (λ (r : Answer). r.0) e in
    record {
      orders_lem = ap (λ (x : Bookings). x.orders) (sym made) ∙ (h t refl).orders_lem;
      holds_lem = ap (λ (x : Bookings). x.holds) (sym made) ∙ (h t refl).holds_lem;
    }

settle-IsWritten :
    (s after : Bookings) (now : ℕ) (input : ConfirmPayment) (p : Prepared)
    → settle s now input p ≡ (after, ok confirmed)
    → IsWritten s after now p
unfolding settle
settle-IsWritten s after now input p e =
    let freed : Bookings = record s { jobs = cancel_job p.order.hold_id s.jobs } in
    let w =
      written-IsWritten freed after now p (write_tables freed now input p)
        (λ t k. tables_lem freed t now input p k) e in
    record { orders_lem = w.orders_lem; holds_lem = w.holds_lem }

locked-IsWritten :
    (status : Option OrderStatus) (s after : Bookings) (now : ℕ) (new_id : String)
    (input : ConfirmPayment) (p : Prepared)
    → settle_locked status s now new_id input p ≡ (after, ok confirmed)
    → IsWritten s after now p
locked-IsWritten none s after now new_id input p e =
    (let never : err cannot_confirm ≡ ok confirmed = ap (λ (r : Answer). r.1) e in cc)
locked-IsWritten (some paid) s after now new_id input p e =
    (let never : ok already_confirmed ≡ ok confirmed = ap (λ (r : Answer). r.1) e in
      let names = ok_inj never in cc)
locked-IsWritten (some cancelled) s after now new_id input p e =
    (let never : err cannot_confirm ≡ ok confirmed = ap (λ (r : Answer). r.1) e in cc)
locked-IsWritten (some refunded) s after now new_id input p e =
    (let never : err cannot_confirm ≡ ok confirmed = ap (λ (r : Answer). r.1) e in cc)
locked-IsWritten (some partially_refunded) s after now new_id input p e =
    (let never : err cannot_confirm ≡ ok confirmed = ap (λ (r : Answer). r.1) e in cc)
locked-IsWritten (some pending_payment) s after now new_id input p e =
    let w = settle-IsWritten (record s { store = convert s.store p.deltas }) after now input p e in
    record { orders_lem = w.orders_lem; holds_lem = w.holds_lem }
locked-IsWritten (some order_expired) s after now new_id input p e =
    sold_again (reserve s.store p.deltas sold) e
  where
    sold_again :
        (r : Store × Result (Unit {0}))
        → sell_again s now new_id input p r ≡ (after, ok confirmed)
        → IsWritten s after now p
    sold_again (store, ok _) k =
        let w = settle-IsWritten (record s { store = store }) after now input p k in
        record { orders_lem = w.orders_lem; holds_lem = w.holds_lem }
    sold_again (store, err thrown) k =
        (let never : err no_stock ≡ ok confirmed = ap (λ (r : Answer). r.1) k in cc)

-- Some order has the id, or nothing is confirmed.
found_order :
    (s after : Bookings) (now : ℕ) (new_id : String) (input : ConfirmPayment) (p : Prepared)
    (found : Option Order)
    → settle_locked (status_of found) s now new_id input p ≡ (after, ok confirmed)
    → (o : Order) × (found ≡ some o)
found_order s after now new_id input p none e =
    (let never : err cannot_confirm ≡ ok confirmed = ap (λ (r : Answer). r.1) e in cc)
found_order s after now new_id input p (some o) e = (o, refl)

confirm_transaction-IsWritten :
    (s after : Bookings) (now : ℕ) (new_id : String) (input : ConfirmPayment) (p : Prepared)
    → confirm_transaction s now new_id input p ≡ (after, ok confirmed)
    → ((o : Order) × (find_order (λ (x : Order). same x.id p.order.id) s.orders ≡ some o))
      × IsWritten s after now p
unfolding confirm_transaction
confirm_transaction-IsWritten s after now new_id input p e =
    let found = find_order (λ (x : Order). same x.id p.order.id) s.orders in
    (
      found_order s after now new_id input p found e,
      locked-IsWritten (status_of found) s after now new_id input p e,
    )

find_order-mark_paid :
    (id : String) (now : ℕ) (orders : List Order) (o : Order)
    → find_order (λ (x : Order). same x.id id) orders ≡ some o
    → status_of (find_order (λ (x : Order). same x.id id) (map (mark_paid id now) orders))
      ≡ some paid
unfolding find_order
find_order-mark_paid id now [] o e = cc
find_order-mark_paid id now (x ∷ orders) o e = elim (Bool-cases (same x.id id)) [
  | inl k ↦ rw k (rw k refl)
  | inr k ↦ rw k (rw k (find_order-mark_paid id now orders o (rw k at e)))
]

-- Of two confirmations of an order, whatever each of them read before, the second answers that the
-- payment is confirmed already and changes nothing: the order is paid and its tickets are sold once.
pub confirm_once :
    (s after : Bookings) (now later : ℕ) (new_id other_id : String) (input other : ConfirmPayment)
    (p q : Prepared)
    → q.order.id ≡ p.order.id
    → confirm_transaction s now new_id input p ≡ (after, ok confirmed)
    → confirm_transaction after later other_id other q ≡ (after, ok already_confirmed)
unfolding confirm_transaction
confirm_once s after now later new_id other_id input other p q same_order e =
    let ((o, found), w) = confirm_transaction-IsWritten s after now new_id input p e in
    let status : status_of (find_order (λ (x : Order). same x.id q.order.id) after.orders)
        ≡ some paid =
      ap (λ id. status_of (find_order (λ (x : Order). same x.id id) after.orders)) same_order
      ∙ ap (λ orders. status_of (find_order (λ (x : Order). same x.id p.order.id) orders))
          w.orders_lem
      ∙ find_order-mark_paid p.order.id now s.orders o found in
    ap (λ st. settle_locked st after later other_id other q) status

convert_hold-id : (hold_id : Option String) (h : TicketHold) → (convert_hold hold_id h).id ≡ h.id
convert_hold-id hold_id h = ground arith

not_active :
    (b : Bool) (h : TicketHold)
    → converts h.status ≡ b
    → is_active_hold (if b then record h { status = converted } else h).status ≡ false
not_active true h e = refl
not_active false h e = left_alone h.status e
  where
    left_alone : (st : HoldStatus) → converts st ≡ false → is_active_hold st ≡ false
    left_alone active k = cc
    left_alone expired k = refl
    left_alone released k = refl
    left_alone converted k = refl

find_hold-convert :
    (id : String) (holds : List TicketHold) (h : TicketHold)
    → find_hold id (map (convert_hold (some id)) holds) ≡ some h
    → is_active_hold h.status ≡ false
unfolding find_hold
find_hold-convert id [] h e = cc
find_hold-convert id (x ∷ holds) h e = elim (Bool-cases (same x.id id)) [
  | inl k ↦
      ap (λ (y : TicketHold). is_active_hold y.status)
        (sym (some_inj (rw (convert_hold-id (some id) x, k) at e)))
      ∙ not_active (converts x.status) x refl
  | inr k ↦ find_hold-convert id holds h (rw (convert_hold-id (some id) x, k) at e)
]

-- After a confirmation the job of the order's hold changes nothing: the tickets that were sold are
-- not given back.
pub confirm_then_job :
    (s after : Bookings) (now : ℕ) (new_id id : String) (input : ConfirmPayment) (p : Prepared)
    (deltas : List InventoryDelta)
    → p.order.hold_id ≡ some id
    → confirm_transaction s now new_id input p ≡ (after, ok confirmed)
    → process_hold_expire after id deltas ≡ after
confirm_then_job s after now new_id id input p deltas own e =
    let (_, w) = confirm_transaction-IsWritten s after now new_id input p e in
    process_hold_expire-inactive after id deltas λ h found. find_hold-convert id s.holds h (
      ap (λ o. find_hold id (map (convert_hold o) s.holds)) (sym own)
      ∙ ap (find_hold id) (sym w.holds_lem)
      ∙ found)
