-- ===== src/Checkout/Confirmation/OnRecord.antt =====
-- A payment whose tickets are gone is not lost: it is put on record.
use mathlib.Core.List.{Memᴰ}
use bookingqube_nest_backend.Prelude.{
  subst, sym, ◌≡◌, refl, ℕ, String, some, true, false, if◌then◌else◌,
}
use bookingqube_nest_backend.Prelude.Text.{same}
use bookingqube_nest_backend.Prelude.Http.{Result, ok, err, HttpError}
use bookingqube_nest_backend.Inventory.Model.{Store, sold}
use bookingqube_nest_backend.Inventory.Service.{reserve}
use bookingqube_nest_backend.Checkout.Records.{
  inventory_unavailable, Recovery, order_expired, Order, Bookings,
}
use bookingqube_nest_backend.Checkout.HoldExpiration.{is_open}
use bookingqube_nest_backend.Checkout.Upsert.{upsert_open}
use bookingqube_nest_backend.Checkout.Upsert.Kept.{upsert_open-IsRecorded}
use bookingqube_nest_backend.Checkout.PaidRows.{ConfirmPayment, Prepared, lost_stock}
use bookingqube_nest_backend.Checkout.Confirmation.{
  find_order, status_of, sell_again, no_stock, confirm_transaction,
}

-- What a refusal for want of tickets leaves: a row of the order's payment among the recoveries.
pub record IsOnRecord (s after : Bookings) (p : Prepared) : Type 0 where
  orders_lem : after.orders ≡ s.orders
  holds_lem : after.holds ≡ s.holds
  payments_lem : after.payments ≡ s.payments
  row : Recovery
  row_lem : Memᴰ row after.recoveries
  open_lem : is_open row.status ≡ true
  number_lem : row.common_order ≡ some p.order.common_order
  order_lem : row.order_id ≡ some p.order.id
  amount_lem : row.amount ≡ p.order.total_amount
  reason_lem : row.reason ≡ inventory_unavailable
  payment_lem : (k : String) → p.refs.payment_id ≡ some k → row.provider_payment_id ≡ some k

refused_lem :
    (s : Bookings) (now : ℕ) (new_id : String) (input : ConfirmPayment) (p : Prepared)
    (r : Store × Result (Unit {0})) (thrown : HttpError)
    → p.order.is_pos ≡ false
    → r.1 ≡ err thrown
    → IsOnRecord s (sell_again s now new_id input p r).0 p
      × ((sell_again s now new_id input p r).1 ≡ err no_stock)
unfolding lost_stock
refused_lem s now new_id input p (store, ok _) thrown online e = cc
refused_lem s now new_id input p (store, err _) thrown online e =
    let (row, m, recorded) = upsert_open-IsRecorded s.recoveries new_id now (lost_stock p) in
    (
      record {
        orders_lem = refl;
        holds_lem = refl;
        payments_lem = refl;
        row = row;
        row_lem =
            subst
              (λ b.
                Memᴰ row
                  (if b then s.recoveries else upsert_open s.recoveries new_id now (lost_stock p)))
              (sym online) m;
        open_lem = recorded.status_lem;
        number_lem = recorded.number_lem p.order.common_order refl;
        order_lem = recorded.order_lem p.order.id refl;
        amount_lem = recorded.amount_lem;
        reason_lem = recorded.reason_lem;
        payment_lem = recorded.payment_lem;
      },
      refl,
    )

-- The confirmation of an online order whose hold ran out and whose tickets are gone is refused; the
-- orders, holds and payments stay as they were, and among the recoveries there is an open one with the
-- order's number, id and amount, the lack of tickets as its reason, and the gateway's payment id, if
-- there is one.
pub lost_stock-IsOnRecord :
    (s : Bookings) (now : ℕ) (new_id : String) (input : ConfirmPayment) (p : Prepared)
    (thrown : HttpError)
    → status_of (find_order (λ (o : Order). same o.id p.order.id) s.orders) ≡ some order_expired
    → p.order.is_pos ≡ false
    → (reserve s.store p.deltas sold).1 ≡ err thrown
    → IsOnRecord s (confirm_transaction s now new_id input p).0 p
      × ((confirm_transaction s now new_id input p).1 ≡ err no_stock)
unfolding confirm_transaction
lost_stock-IsOnRecord s now new_id input p thrown ran_out online gone =
    rw ran_out (refused_lem s now new_id input p (reserve s.store p.deltas sold) thrown online gone)
