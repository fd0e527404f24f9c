-- ===== src/Checkout/Recovery.antt =====
-- `PaymentRecoveryService` of src/modules/checkout/payment-recovery.service.ts: payments that a
-- gateway took and whose booking is not confirmed yet. A database that fails is not modelled.
pub mod Spent
use bookingqube_nest_backend.Prelude.{
  ℕ, ◌+◌, ◌-◌, String, Option, none, some, List, [], ◌∷◌, map, Bool, true, false, not, ◌&&◌, ◌||◌,
  leb, ltb, ◌==◌, if◌then◌else◌,
}
use bookingqube_nest_backend.Prelude.Text.{Text, codes, same, same_codes, trim, lower, upper}
use bookingqube_nest_backend.Prelude.Http.{Result, ok, err, bad_request}
use bookingqube_nest_backend.Checkout.Records.{
  PaymentGateway, myfatoorah, mastercard, qpay, RecoveryReason, awaiting_confirm, open_recovery,
  resolved, Snapshot, SnapshotValue, null_value, value, response, Recovery,
}
use bookingqube_nest_backend.Checkout.HoldExpiration.{is_open}

abbrev pub is_empty : Text → Bool
is_empty [] = true
is_empty (_ ∷ _) = false

-- `(value || fallback)` for a text, and what is left of a value that may be missing once trimmed.
abbrev pub or_text : Text → Text → Text
or_text [] fallback = fallback
or_text (c ∷ s) fallback = c ∷ s

abbrev pub trimmed : Option String → Text
trimmed none = []
trimmed (some s) = trim (codes s)

unfoldable pub is_customer_online_source : Text → Bool → Bool
unfolding lower trim
is_customer_online_source source has_offline_payment =
    if has_offline_payment
    then false
    else (let normalized = lower (trim (or_text source (codes "web"))) in
        same_codes normalized (codes "web")
        || same_codes normalized (codes "mobile")
        || same_codes normalized (codes "customer")
        || is_empty normalized)

unfoldable pub gateway_from_payment_method : Option ℕ → Option PaymentGateway
gateway_from_payment_method none = none
gateway_from_payment_method (some id) =
    if id == 7
    then some qpay
    else if id == 8
    then some mastercard
    else if id == 10 || id == 11 || id == 12 || id == 2 || id == 1
    then some myfatoorah
    else none

abbrev pub same_gateway : PaymentGateway → PaymentGateway → Bool
same_gateway myfatoorah myfatoorah = true
same_gateway mastercard mastercard = true
same_gateway qpay qpay = true
same_gateway _ _ = false

-- Whether a column is the key; a key that is blank is no condition.
abbrev pub is_key : Text → Option String → Bool
is_key key none = false
is_key key (some stored) = not (is_empty key) && same_codes (codes stored) key

-- `findFirst` in the order of `createdAt`, the newest first.
abbrev pub newer : Recovery → Option Recovery → Recovery
newer r none = r
newer r (some q) = if ltb r.created_at q.created_at then q else r

unfoldable pub find_newest : (Recovery → Bool) → List Recovery → Option Recovery
find_newest f [] = none
find_newest f (r ∷ rows) =
    let rest = find_newest f rows in if f r then some (newer r rest) else rest

pub record VerifiedPayment : Type 0 where
  pub gateway : PaymentGateway
  pub customer_id : Option String
  pub provider_session_id : Option String
  pub provider_payment_id : Option String
  pub amount : ℕ
  pub currency : String

-- No condition for a customer that is missing or empty.
abbrev pub is_customer_of : Option String → Option String → Bool
is_customer_of none stored = true
is_customer_of (some id) none = is_empty (codes id)
is_customer_of (some id) (some stored) = is_empty (codes id) || same stored id

unfoldable pub verifies : VerifiedPayment → Recovery → Bool
verifies input r =
    same_gateway r.gateway input.gateway
    && is_open r.status
    && is_customer_of input.customer_id r.customer_id
    && (is_key (trimmed input.provider_session_id) r.provider_session_id
        || is_key (trimmed input.provider_payment_id) r.provider_payment_id)

-- `Math.abs(a - b) > 0.01`, exactly, where the code compares floating-point numbers.
abbrev pub differs : ℕ → ℕ → Bool
differs a b = ltb 10 (a - b) || ltb 10 (b - a)

unfoldable pub is_mismatch : VerifiedPayment → Recovery → Bool
unfolding upper
is_mismatch input r =
    r.amount == 0
    || differs r.amount input.amount
    || not (same_codes (upper (codes r.currency)) (upper (codes input.currency)))

abbrev pub check_verified : VerifiedPayment → Option Recovery → Result Recovery
check_verified input none =
    err (bad_request "Payment has not been verified by the payment provider or was already used.")
check_verified input (some r) =
    if is_mismatch input r
    then err (bad_request "Verified payment amount or currency does not match this booking.")
    else ok r

unfoldable pub assert_verified_customer_payment : List Recovery → VerifiedPayment → Result Recovery
unfolding find_newest verifies is_mismatch
assert_verified_customer_payment rows input =
    if is_empty (trimmed input.provider_session_id) && is_empty (trimmed input.provider_payment_id)
    then err (bad_request "Verified payment reference is required.")
    else check_verified input (find_newest (verifies input) rows)

pub record RecoveryKeys : Type 0 where
  pub common_order : Option String
  pub order_id : Option String
  pub idempotency_key : Option String
  pub provider_session_id : Option String

unfoldable pub is_open_match : RecoveryKeys → Recovery → Bool
is_open_match keys r =
    is_open r.status
    && (is_key (trimmed keys.common_order) r.common_order
        || is_key (trimmed keys.order_id) r.order_id
        || is_key (trimmed keys.idempotency_key) r.idempotency_key
        || is_key (trimmed keys.provider_session_id) r.provider_session_id)

unfoldable pub find_open_match : List Recovery → RecoveryKeys → Option Recovery
unfolding find_newest is_open_match
find_open_match rows keys =
    if is_empty (trimmed keys.common_order)
      && is_empty (trimmed keys.order_id)
      && is_empty (trimmed keys.idempotency_key)
      && is_empty (trimmed keys.provider_session_id)
    then none
    else find_newest (is_open_match keys) rows

-- `update({ where: { id } })`
abbrev pub update_recovery : String → (Recovery → Recovery) → Recovery → Recovery
update_recovery id f r = if same r.id id then f r else r

-- `(given ? { field: given } : {})`
abbrev pub given_or : Option String → Option String → Option String
given_or none stored = stored
given_or (some s) stored = if is_empty (codes s) then stored else some s

abbrev pub resolve_row : ℕ → RecoveryKeys → Recovery → Recovery
resolve_row now keys r = record r {
  status = resolved;
  resolved_at = some now;
  failure_message = none;
  common_order = given_or keys.common_order r.common_order;
  order_id = given_or keys.order_id r.order_id;
}

unfoldable pub resolve : List Recovery → ℕ → RecoveryKeys → List Recovery
unfolding find_open_match
resolve rows now keys = elim (find_open_match rows keys) [
  | none ↦ rows
  | some r ↦ map (update_recovery r.id (resolve_row now keys)) rows
]
