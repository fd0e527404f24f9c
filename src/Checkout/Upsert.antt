-- ===== src/Checkout/Upsert.antt =====
-- `upsertOpen` of src/modules/checkout/payment-recovery.service.ts: the row of a payment that is put
-- on record, new or brought up to date.
pub mod Kept
use bookingqube_nest_backend.Prelude.{
  ℕ, ◌+◌, ◌-◌, String, Option, none, some, List, [], ◌∷◌, map, Bool, true, false, not, ◌&&◌, ◌||◌,
  leb, ltb, ◌==◌, if◌then◌else◌,
}
use bookingqube_nest_backend.Prelude.Text.{Text, codes, same, same_codes, trim, lower, upper}
use bookingqube_nest_backend.Prelude.Http.{Result, ok, err, bad_request}
use bookingqube_nest_backend.Checkout.Records.{
  PaymentGateway, myfatoorah, mastercard, qpay, RecoveryReason, awaiting_confirm, open_recovery,
  resolved, Snapshot, SnapshotValue, null_value, value, response, Recovery,
}
use bookingqube_nest_backend.Checkout.HoldExpiration.{is_open}
use bookingqube_nest_backend.Checkout.Recovery.{
  RecoveryKeys, find_open_match, is_empty, update_recovery,
}

pub record UpsertRecovery : Type 0 where
  pub keys : RecoveryKeys
  pub customer_id : Option String
  pub customer_email : Option String
  pub event_id : Option String
  pub event_slug : Option String
  pub gateway : PaymentGateway
  pub reason : Option RecoveryReason
  pub amount : ℕ
  pub currency : String
  pub provider_invoice_id : Option String
  pub provider_payment_id : Option String
  pub checkout_snapshot : Snapshot
  pub failure_message : Option String

-- `a ?? b`, and `a || b` for a currency.
abbrev pub coalesce {ℓ} : {A : Type ℓ} → Option A → Option A → Option A
coalesce none b = b
coalesce (some a) b = some a

abbrev pub or_currency : String → String → String
or_currency currency fallback = if is_empty (codes currency) then fallback else currency

abbrev pub reason_of : Option RecoveryReason → RecoveryReason
reason_of none = awaiting_confirm
reason_of (some reason) = reason

-- The fields of a cart are kept if the update leaves them out; a null counts as left out.
abbrev pub is_cart_key : String → Bool
is_cart_key key =
    same key "schedule" || same key "tickets" || same key "addons" || same key "customer"

abbrev pub not_null : Option SnapshotValue → Option SnapshotValue
not_null none = none
not_null (some null_value) = none
not_null (some (value v)) = some (value v)
not_null (some (response refs)) = some (response refs)

unfoldable pub merge_snapshot : Snapshot → Snapshot → Snapshot
merge_snapshot previous incoming key =
    if is_cart_key key
    then coalesce (not_null (incoming key)) (not_null (previous key))
    else coalesce (incoming key) (previous key)

abbrev pub merge_row : UpsertRecovery → Recovery → Recovery
merge_row input r = record r {
  common_order = coalesce input.keys.common_order r.common_order;
  order_id = coalesce input.keys.order_id r.order_id;
  customer_id = coalesce input.customer_id r.customer_id;
  customer_email = coalesce input.customer_email r.customer_email;
  event_id = coalesce input.event_id r.event_id;
  event_slug = coalesce input.event_slug r.event_slug;
  gateway = input.gateway;
  status = open_recovery;
  reason = reason_of input.reason;
  amount = input.amount;
  currency = or_currency input.currency r.currency;
  idempotency_key = coalesce input.keys.idempotency_key r.idempotency_key;
  provider_session_id = coalesce input.keys.provider_session_id r.provider_session_id;
  provider_invoice_id = coalesce input.provider_invoice_id r.provider_invoice_id;
  provider_payment_id = coalesce input.provider_payment_id r.provider_payment_id;
  checkout_snapshot = merge_snapshot r.checkout_snapshot input.checkout_snapshot;
  failure_message = coalesce input.failure_message r.failure_message;
  resolved_at = none;
}

abbrev pub new_row : String → ℕ → UpsertRecovery → Recovery
new_row id now input = record {
  id = id;
  common_order = input.keys.common_order;
  order_id = input.keys.order_id;
  customer_id = input.customer_id;
  customer_email = input.customer_email;
  event_id = input.event_id;
  event_slug = input.event_slug;
  gateway = input.gateway;
  status = open_recovery;
  reason = reason_of input.reason;
  amount = input.amount;
  currency = or_currency input.currency "QAR";
  idempotency_key = input.keys.idempotency_key;
  provider_session_id = input.keys.provider_session_id;
  provider_invoice_id = input.provider_invoice_id;
  provider_payment_id = input.provider_payment_id;
  checkout_snapshot = input.checkout_snapshot;
  failure_message = input.failure_message;
  resolved_at = none;
  created_at = now;
}

unfoldable pub upsert_open : List Recovery → String → ℕ → UpsertRecovery → List Recovery
unfolding find_open_match merge_snapshot
upsert_open rows id now input = elim (find_open_match rows input.keys) [
  | none ↦ new_row id now input ∷ rows
  | some r ↦ map (update_recovery r.id (merge_row input)) rows
]
