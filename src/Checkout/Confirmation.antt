-- ===== src/Checkout/Confirmation.antt =====
-- `confirmPayment` of src/modules/checkout/checkout.service.ts: what is read and tested before the
-- transaction, the transaction, and what follows it. A change of the stock is not undone with the
-- transaction. Mail and messages are not modelled.
pub mod Verified
pub mod Once
pub mod OnRecord
use bookingqube_nest_backend.Prelude.{
  ℕ, suc, String, Option, none, some, List, [], ◌∷◌, ◌++◌, map, filter, any, Bool, true, false, not,
  ◌&&◌, ◌||◌, ltb, ◌==◌, if◌then◌else◌,
}
use bookingqube_nest_backend.Prelude.Text.{Text, codes, same, trim_string}
use bookingqube_nest_backend.Prelude.Http.{
  Result, ok, err, HttpError, bad_request, not_found, ◌>>=◌,
}
use bookingqube_nest_backend.Inventory.Model.{InventoryDelta, Store, sold}
use bookingqube_nest_backend.Inventory.Service.{reserve, convert}
use bookingqube_nest_backend.Checkout.Records.{
  HoldStatus, active, expired, released, converted, OrderStatus, paid, pending_payment,
  order_expired, TicketHold, OrderLine, Order, PaymentGateway, myfatoorah, mastercard, qpay,
  PaymentStatus, payment_pending, payment_paid, OrderPayment, ProviderRefs, HostedParams,
  HostedSession, Bookings, inventory_unavailable,
}
use bookingqube_nest_backend.Checkout.HoldExpiration.{
  find_hold, is_pending_status, is_pending_payment, is_order_expired,
}
use bookingqube_nest_backend.Checkout.Recovery.{
  given_or, is_empty, resolve, gateway_from_payment_method, RecoveryKeys, same_gateway,
}
use bookingqube_nest_backend.Checkout.Upsert.{coalesce, upsert_open, UpsertRecovery}
use bookingqube_nest_backend.Checkout.Settlement.{payment_not_verified}
use bookingqube_nest_backend.Checkout.Hosted.{
  given, merge_provider_refs, refs_from_hosted_params, find_hosted_checkout_for_order,
  payment_provider_from_gateway, method_id_for_gateway,
}
use bookingqube_nest_backend.Checkout.Verification.{
  Gateways, verify_gateway_settlement, hosted_sid, gateway_of,
}
use bookingqube_nest_backend.Checkout.PaidRows.{
  ConfirmPayment, Prepared, session_gateway, is_paid_with, paid_payment, write_payment,
  breaks_index, mark_paid, convert_hold, settle_session, cancel_job, keys_of, lost_stock,
}

pub data ConfirmReply : Type 0 where
  confirmed already_confirmed : ConfirmReply

unfoldable pub find_order : (Order → Bool) → List Order → Option Order
find_order f [] = none
find_order f (o ∷ orders) = if f o then some o else find_order f orders

abbrev pub order_of_keys : List Order → Option String → Option String → Option Order
order_of_keys orders (some common_order) _ =
    find_order (λ (o : Order). same o.common_order common_order) orders
order_of_keys orders none (some key) = find_order (λ (o : Order). same o.idempotency_key key) orders
order_of_keys orders none none = none

abbrev pub is_paid : OrderStatus → Bool
is_paid paid = true
is_paid _ = false

abbrev pub is_payable : OrderStatus → Bool
is_payable status = is_pending_payment status || is_order_expired status

abbrev pub cannot_confirm : HttpError
cannot_confirm = bad_request "Order cannot be confirmed."

-- `value?.trim() || null`
abbrev pub trimmed_id : Option String → Option String
trimmed_id none = none
trimmed_id (some s) = given (some (trim_string s))

abbrev pub both_differ : Option String → Option String → Bool
both_differ (some a) (some b) = not (same a b)
both_differ _ _ = false

-- The references of the session and of the request, and the gateway that is taken if they have none.
unfoldable pub merged_refs : Order → Option HostedSession → ConfirmPayment → ProviderRefs
unfolding refs_from_hosted_params merge_provider_refs trim_string gateway_from_payment_method
merged_refs order hosted input =
    let hosted_refs = refs_from_hosted_params hosted in
    let merged = merge_provider_refs hosted_refs (record {
      session_id = coalesce (hosted_sid hosted) hosted_refs.session_id;
      payment_id = coalesce (trimmed_id hosted_refs.payment_id) (trimmed_id input.payment_id);
      invoice_id = hosted_refs.invoice_id;
      result_indicator =
          coalesce (given hosted_refs.result_indicator) (given input.result_indicator);
      gateway = session_gateway hosted;
    }) in
    record merged {
      gateway = coalesce merged.gateway (gateway_from_payment_method order.label_method_id);
    }

abbrev pub is_reused : List OrderPayment → PaymentGateway → Option String → String → Bool
is_reused payments provider none order_id = false
is_reused payments provider (some id) order_id =
    any (λ (p : OrderPayment). is_paid_with provider id p && not (same p.order_id order_id))
      payments

abbrev pub assert_provider_payment_not_reused :
    List OrderPayment → PaymentGateway → Option String → String → Result (Unit {0})
assert_provider_payment_not_reused payments provider payment_id order_id =
    if is_reused payments provider (trimmed_id payment_id) order_id
    then err (payment_not_verified "This payment has already been applied to another order.")
    else ok tt

abbrev pub line_deltas : List OrderLine → List InventoryDelta
line_deltas [] = []
line_deltas (line ∷ lines) = elim line.inventory_item_id [
  | none ↦ line_deltas lines
  | some id ↦ record { inventory_item_id = id; quantity = line.quantity } ∷ line_deltas lines
]

abbrev pub hold_of : Bookings → Option String → Option TicketHold
hold_of s none = none
hold_of s (some id) = find_hold id s.holds

unfoldable pub deltas_of : Bookings → Order → List InventoryDelta
unfolding find_hold
deltas_of s order = elim (hold_of s order.hold_id) [
  | none ↦ line_deltas order.items
  | some h ↦ h.items
]

module _ (digest : Text → Text) (gateways : Gateways) where
  abbrev pub verify_unless :
      Bool → Order → Option HostedSession → ProviderRefs → Result ProviderRefs
  verify_unless true order hosted refs = ok refs
  verify_unless false order hosted refs =
      verify_gateway_settlement digest gateways order hosted refs

  abbrev pub provider_for_reuse : Option HostedSession → ProviderRefs → PaymentGateway
  provider_for_reuse hosted refs =
      payment_provider_from_gateway (coalesce refs.gateway (session_gateway hosted))

  -- What is known of a payable order before the transaction.
  unfoldable pub prepare_found :
      Bookings → ConfirmPayment → Bool → Order → Option HostedSession → Result Prepared
  unfolding merged_refs verify_gateway_settlement deltas_of payment_provider_from_gateway
      refs_from_hosted_params
  prepare_found s input skip order hosted =
      if both_differ (trimmed_id (refs_from_hosted_params hosted).payment_id)
        (trimmed_id input.payment_id)
      then err (payment_not_verified "Payment does not match the checkout session for this order.")
      else verify_unless skip order hosted (merged_refs order hosted input) >>= λ refs.
          assert_provider_payment_not_reused s.payments (provider_for_reuse hosted refs)
            refs.payment_id order.id
          >>= λ _.
              ok
                (record { order = order; hosted = hosted; refs = refs; deltas = deltas_of s order })

  unfoldable pub prepare : Bookings → ConfirmPayment → Bool → Order → Result Prepared
  unfolding find_hosted_checkout_for_order prepare_found
  prepare s input skip order =
      find_hosted_checkout_for_order digest s.sessions order input.session_id >>= λ hosted.
      prepare_found s input skip order hosted

-- The tables of an order that is paid; a row that breaks the index undoes them.
unfoldable pub write_tables : Bookings → ℕ → ConfirmPayment → Prepared → Result Bookings
unfolding paid_payment write_payment
write_tables s now input p =
    if breaks_index s.payments (paid_payment p input now)
    then err (payment_not_verified "This payment has already been applied to another order.")
    else ok (record s {
      orders = map (mark_paid p.order.id now) s.orders;
      holds = map (convert_hold p.order.hold_id) s.holds;
      payments = write_payment (paid_payment p input now) s.payments;
      sessions = map (settle_session p now) s.sessions;
    })

-- The report, and the recovery that the payment closes.
unfoldable pub after_confirmation : ℕ → Prepared → Bookings → Bookings
unfolding resolve
after_confirmation now p s = record s {
  report_syncs = s.report_syncs ++ (p.order.id ∷ []);
  recoveries = if p.order.is_pos then s.recoveries else resolve s.recoveries now (keys_of p);
}

abbrev pub written : Bookings → ℕ → Prepared → Result Bookings → Bookings × Result ConfirmReply
written s now p (err thrown) = (s, err thrown)
written s now p (ok after) = (after_confirmation now p after, ok confirmed)

-- Once the stock is taken.
unfoldable pub settle : Bookings → ℕ → ConfirmPayment → Prepared → Bookings × Result ConfirmReply
unfolding write_tables after_confirmation
settle s now input p =
    let freed : Bookings = record s { jobs = cancel_job p.order.hold_id s.jobs } in
    written freed now p (write_tables freed now input p)

abbrev pub no_stock : HttpError
no_stock = bad_request "Payment succeeded but inventory is no longer available."

-- The tickets of an order whose hold ran out are sold again, if there are any left.
abbrev pub sell_again :
    Bookings
    → ℕ
    → String
    → ConfirmPayment
    → Prepared
    → Store × Result (Unit {0})
    → Bookings × Result ConfirmReply
sell_again s now new_id input p (store, ok _) = settle (record s { store = store }) now input p
sell_again s now new_id input p (store, err _) = (
  record s {
    store = store;
    recoveries =
        if p.order.is_pos then s.recoveries else upsert_open s.recoveries new_id now (lost_stock p);
  },
  err no_stock,
)

abbrev pub status_of : Option Order → Option OrderStatus
status_of none = none
status_of (some o) = some o.status

abbrev pub settle_locked :
    Option OrderStatus
    → Bookings
    → ℕ
    → String
    → ConfirmPayment
    → Prepared
    → Bookings × Result ConfirmReply
settle_locked (some paid) s now new_id input p = (s, ok already_confirmed)
settle_locked (some pending_payment) s now new_id input p =
    settle (record s { store = convert s.store p.deltas }) now input p
settle_locked (some order_expired) s now new_id input p =
    sell_again s now new_id input p (reserve s.store p.deltas sold)
settle_locked _ s now new_id input p = (s, err cannot_confirm)

-- The transaction and what follows it; the status of the order is read again under a lock.
unfoldable pub confirm_transaction :
    Bookings → ℕ → String → ConfirmPayment → Prepared → Bookings × Result ConfirmReply
unfolding find_order settle convert reserve upsert_open lost_stock
confirm_transaction s now new_id input p =
    settle_locked (status_of (find_order (λ (o : Order). same o.id p.order.id) s.orders)) s now
      new_id input p

module _ (digest : Text → Text) (gateways : Gateways) where
  abbrev pub confirm_prepared :
      Bookings → ℕ → String → ConfirmPayment → Result Prepared → Bookings × Result ConfirmReply
  confirm_prepared s now new_id input (err thrown) = (s, err thrown)
  confirm_prepared s now new_id input (ok p) = confirm_transaction s now new_id input p

  abbrev pub confirm_found :
      Bookings → ℕ → String → ConfirmPayment → Bool → Option Order → Bookings × Result ConfirmReply
  confirm_found s now new_id input skip none = (s, err (not_found "Order not found."))
  confirm_found s now new_id input skip (some order) =
      if is_paid order.status
      then (s, ok already_confirmed)
      else if not (is_payable order.status)
      then (s, err cannot_confirm)
      else confirm_prepared s now new_id input (prepare digest gateways s input skip order)

  unfoldable pub confirm_payment :
      Bookings → ℕ → String → ConfirmPayment → Bool → Bookings × Result ConfirmReply
  unfolding find_order prepare confirm_transaction
  confirm_payment s now new_id input skip =
      confirm_found s now new_id input skip
        (order_of_keys s.orders (given input.common_order) (given input.idempotency_key))
