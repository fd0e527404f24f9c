-- ===== src/Checkout/PaidRows.antt =====
-- The rows that `confirmPayment` of src/modules/checkout/checkout.service.ts writes. The rows of
-- `payments` stand newest first.
use bookingqube_nest_backend.Prelude.{
  ℕ, suc, String, Option, none, some, List, [], ◌∷◌, filter, any, Bool, true, false, not, ◌&&◌, ltb,
  ◌==◌, if◌then◌else◌,
}
use bookingqube_nest_backend.Prelude.Text.{same}
use bookingqube_nest_backend.Inventory.Model.{InventoryDelta}
use bookingqube_nest_backend.Checkout.Records.{
  HoldStatus, active, expired, converted, paid, TicketHold, Order, PaymentGateway, myfatoorah,
  mastercard, qpay, PaymentStatus, payment_paid, OrderPayment, ProviderRefs, HostedSession,
  inventory_unavailable, Snapshot, value, response,
}
use bookingqube_nest_backend.Checkout.HoldExpiration.{is_pending_status}
use bookingqube_nest_backend.Checkout.Recovery.{
  gateway_from_payment_method, RecoveryKeys, same_gateway,
}
use bookingqube_nest_backend.Checkout.Upsert.{coalesce, UpsertRecovery}
use bookingqube_nest_backend.Checkout.Hosted.{payment_provider_from_gateway, method_id_for_gateway}

pub record ConfirmPayment : Type 0 where
  pub common_order : Option String
  pub idempotency_key : Option String
  pub provider : Option ℕ
  pub session_id : Option String
  pub payment_id : Option String
  pub result_indicator : Option String

-- What is known before the transaction.
pub record Prepared : Type 0 where
  pub order : Order
  pub hosted : Option HostedSession
  pub refs : ProviderRefs
  pub deltas : List InventoryDelta

abbrev pub session_gateway : Option HostedSession → Option PaymentGateway
session_gateway none = none
session_gateway (some hosted) = some hosted.gateway

abbrev pub is_paid_status : PaymentStatus → Bool
is_paid_status payment_paid = true
is_paid_status _ = false

abbrev pub is_this_payment : String → Option String → Bool
is_this_payment id none = false
is_this_payment id (some stored) = same stored id

-- A paid payment of the provider with the id.
abbrev pub is_paid_with : PaymentGateway → String → OrderPayment → Bool
is_paid_with provider id p =
    same_gateway p.provider provider
    && is_this_payment id p.provider_payment_id
    && is_paid_status p.status

abbrev pub hint_of_method : Option ℕ → PaymentGateway
hint_of_method none = myfatoorah
hint_of_method (some id) = if id == 7 then qpay else if id == 8 then mastercard else myfatoorah

abbrev pub positive : Option ℕ → Option ℕ
positive none = none
positive (some n) = if ltb 0 n then some n else none

-- The provider of the row of the payment.
unfoldable pub provider_of : Prepared → ConfirmPayment → PaymentGateway
unfolding payment_provider_from_gateway
provider_of p input =
    let hint = coalesce p.refs.gateway (session_gateway p.hosted) in
    let method_id =
      coalesce (positive input.provider)
        (coalesce (method_id_for_gateway hint) p.order.label_method_id) in
    payment_provider_from_gateway (some (or_hint hint method_id))
  where
    or_hint : Option PaymentGateway → Option ℕ → PaymentGateway
    or_hint none method_id = hint_of_method method_id
    or_hint (some gateway) _ = gateway

-- The row that the transaction writes for a payment, pending or new.
unfoldable pub paid_payment : Prepared → ConfirmPayment → ℕ → OrderPayment
unfolding provider_of
paid_payment p input now = record {
  order_id = p.order.id;
  provider = provider_of p input;
  status = payment_paid;
  amount = p.order.total_amount;
  currency = p.order.currency;
  provider_payment_id = p.refs.payment_id;
  provider_session_id = p.refs.session_id;
  provider_invoice_id = some (invoice_or_order p.refs.invoice_id);
  paid_at = some now;
  failed_at = none;
  failure_message = none;
}
  where
    invoice_or_order : Option String → String
    invoice_or_order none = p.order.common_order
    invoice_or_order (some invoice) = invoice

-- The newest pending payment of the order becomes the paid one; without one a row is created.
unfoldable pub pay_pending : OrderPayment → List OrderPayment → Option (List OrderPayment)
pay_pending row [] = none
pay_pending row (p ∷ payments) =
    let rest = pay_pending row payments in
    if same p.order_id row.order_id && is_pending_status p.status
    then some (row ∷ payments)
    else elim rest [ none ↦ none | some after ↦ some (p ∷ after) ]

unfoldable pub write_payment : OrderPayment → List OrderPayment → List OrderPayment
unfolding pay_pending
write_payment row payments = elim (pay_pending row payments) [
  | none ↦ row ∷ payments
  | some after ↦ after
]

-- The unique index on the payment ids of paid payments.
abbrev pub breaks_index : List OrderPayment → OrderPayment → Bool
breaks_index payments row = elim row.provider_payment_id [
  | none ↦ false
  | some id ↦ any (is_paid_with row.provider id) payments
]

abbrev pub mark_paid : String → ℕ → Order → Order
mark_paid id now o =
    if same o.id id
    then record o { status = paid; paid_at = some now; report_version = suc o.report_version }
    else o

abbrev pub converts : HoldStatus → Bool
converts active = true
converts expired = true
converts _ = false

abbrev pub is_hold : Option String → String → Bool
is_hold none id = false
is_hold (some hold_id) id = same id hold_id

abbrev pub convert_hold : Option String → TicketHold → TicketHold
convert_hold hold_id h =
    if is_hold hold_id h.id && converts h.status then record h { status = converted } else h

abbrev pub is_session : Option HostedSession → HostedSession → Bool
is_session none x = false
is_session (some hosted) x = same x.id hosted.id

abbrev pub settle_session : Prepared → ℕ → HostedSession → HostedSession
settle_session p now x =
    if is_session p.hosted x
    then record x {
      is_paid = true;
      order_id = coalesce x.order_id (some p.order.id);
      common_order = coalesce x.common_order (some p.order.common_order);
      params = record x.params { provider_response = p.refs; confirmed_at = some now };
    }
    else x

abbrev pub cancel_job : Option String → List String → List String
cancel_job hold_id jobs = filter (λ id. not (is_hold hold_id id)) jobs

abbrev pub keys_of : Prepared → RecoveryKeys
keys_of p = record {
  common_order = some p.order.common_order;
  order_id = some p.order.id;
  idempotency_key = some p.order.idempotency_key;
  provider_session_id = p.refs.session_id;
}

abbrev pub gateway_or : Option PaymentGateway → Option PaymentGateway → PaymentGateway
gateway_or (some gateway) _ = gateway
gateway_or none (some qpay) = qpay
gateway_or none _ = mastercard

abbrev pub lost_snapshot : Prepared → Snapshot
lost_snapshot p key =
    if same key "common_order"
    then some (value p.order.common_order)
    else if same key "idempotency_key"
    then some (value p.order.idempotency_key)
    else if same key "provider_response"
    then some (response p.refs)
    else none

-- What is put on record for a payment whose stock is gone.
unfoldable pub lost_stock : Prepared → UpsertRecovery
unfolding gateway_from_payment_method
lost_stock p = record {
  keys = keys_of p;
  customer_id = p.order.customer_id;
  customer_email = p.order.customer_email;
  event_id = p.order.event_id;
  event_slug = p.order.event_slug;
  gateway = gateway_or (gateway_from_payment_method p.order.label_method_id) p.refs.gateway;
  reason = some inventory_unavailable;
  amount = p.order.total_amount;
  currency = p.order.currency;
  provider_invoice_id = p.refs.invoice_id;
  provider_payment_id = p.refs.payment_id;
  checkout_snapshot = lost_snapshot p;
  failure_message = some "Payment succeeded but inventory is no longer available.";
}
