-- ===== src/Checkout/Hosted.antt =====
-- The sessions of hosted checkouts: src/modules/checkout/hosted-payment-records.ts, and the search
-- for the session of an order in src/modules/checkout/checkout.service.ts.
use bookingqube_nest_backend.Prelude.{
  ℕ, String, Option, none, some, List, [], ◌∷◌, ◌++◌, filter, take, Bool, false, not, ◌&&◌, ◌||◌,
  leb, if◌then◌else◌,
}
use bookingqube_nest_backend.Prelude.Text.{Text, codes, same, same_codes, trim}
use bookingqube_nest_backend.Prelude.Http.{Result, ok, err}
use bookingqube_nest_backend.Checkout.Records.{
  PaymentGateway, myfatoorah, mastercard, qpay, ProviderRefs, GatewayCallback, HostedParams,
  HostedSession, Order, OrderPayment, payment_pending,
}
use bookingqube_nest_backend.Checkout.Recovery.{is_empty, given_or, trimmed}
use bookingqube_nest_backend.Checkout.Upsert.{coalesce, or_currency}
use bookingqube_nest_backend.Checkout.Settlement.{
  has_text, checkout_refs_for_key, expected_bind_tokens, settlement_matches_order,
  payment_not_verified,
}
use bookingqube_nest_backend.Checkout.Settlement.Tokens.{starts_with}

unfoldable pub payment_provider_from_gateway : Option PaymentGateway → PaymentGateway
payment_provider_from_gateway none = myfatoorah
payment_provider_from_gateway (some gateway) = gateway

abbrev pub method_id_for_gateway : Option PaymentGateway → Option ℕ
method_id_for_gateway (some qpay) = some 7
method_id_for_gateway (some mastercard) = some 8
method_id_for_gateway _ = none

abbrev pub no_refs : ProviderRefs
no_refs = record {
  session_id = none;
  payment_id = none;
  invoice_id = none;
  result_indicator = none;
  gateway = none;
}

-- One round of the loop of `mergeProviderRefs`: what a source gives replaces what was there.
abbrev pub merge_source : ProviderRefs → ProviderRefs → ProviderRefs
merge_source merged source = record {
  session_id = given_or source.session_id merged.session_id;
  payment_id = given_or source.payment_id merged.payment_id;
  invoice_id = given_or source.invoice_id merged.invoice_id;
  result_indicator = given_or source.result_indicator merged.result_indicator;
  gateway = coalesce source.gateway merged.gateway;
}

unfoldable pub merge_provider_refs : ProviderRefs → ProviderRefs → ProviderRefs
merge_provider_refs first second = merge_source (merge_source no_refs first) second

abbrev pub no_callback : GatewayCallback
no_callback = record {
  response_confirmation_id = none;
  confirmation_id = none;
  response_pun = none;
  pun = none;
}

abbrev pub callback_of : HostedParams → GatewayCallback
callback_of params = elim (coalesce params.gateway_callback params.qpay_callback) [
  | none ↦ no_callback
  | some callback ↦ callback
]

-- `value ? String(value) : null`
abbrev pub given : Option String → Option String
given value = given_or value none

-- The references of a session; an order without one has none.
unfoldable pub refs_from_hosted_params : Option HostedSession → ProviderRefs
refs_from_hosted_params none = no_refs
refs_from_hosted_params (some hosted) =
    let stored = hosted.params.provider_response in
    let callback = callback_of hosted.params in
    record {
      session_id = coalesce stored.session_id (some hosted.sid);
      payment_id = given (
          coalesce stored.payment_id
            (coalesce callback.response_confirmation_id callback.confirmation_id));
      invoice_id = given (coalesce stored.invoice_id (coalesce callback.response_pun callback.pun));
      result_indicator = coalesce stored.result_indicator hosted.params.result_indicator;
      gateway = none;
    }

unfoldable pub create_pending_hosted_payment :
    String → PaymentGateway → String → ℕ → String → OrderPayment
unfolding payment_provider_from_gateway
create_pending_hosted_payment order_id gateway session_id amount currency = record {
  order_id = order_id;
  provider = payment_provider_from_gateway (some gateway);
  status = payment_pending;
  amount = amount;
  currency = or_currency currency "QAR";
  provider_payment_id = none;
  provider_session_id = some session_id;
  provider_invoice_id = none;
  paid_at = none;
  failed_at = none;
  failure_message = none;
}

abbrev pub is_some_id : Option String → String → Bool
is_some_id none id = false
is_some_id (some stored) id = same stored id

abbrev pub text_of : Option String → Text
text_of none = []
text_of (some s) = codes s

-- `ORDER BY created_at DESC`
unfoldable pub insert_session : HostedSession → List HostedSession → List HostedSession
insert_session x [] = x ∷ []
insert_session x (y ∷ sessions) =
    let rest = insert_session x sessions in
    if leb y.created_at x.created_at then x ∷ y ∷ sessions else y ∷ rest

unfoldable pub by_creation : List HostedSession → List HostedSession
by_creation [] = []
by_creation (x ∷ sessions) = insert_session x (by_creation sessions)

unfoldable pub find_session : (HostedSession → Bool) → List HostedSession → Option HostedSession
find_session f [] = none
find_session f (x ∷ sessions) = if f x then some x else find_session f sessions

module _ (digest : Text → Text) where
  unfoldable pub hosted_session_belongs_to_order : HostedSession → Order → Bool
  unfolding expected_bind_tokens settlement_matches_order
  hosted_session_belongs_to_order hosted order =
      is_some_id hosted.order_id order.id
      || is_some_id hosted.common_order order.common_order
      || settlement_matches_order (text_of hosted.checkout_ref ∷ text_of hosted.common_order ∷ []) (
          expected_bind_tokens digest (record {
            common_order = codes order.common_order;
            idempotency_key = codes order.idempotency_key;
            hosted_sid = [];
            hosted_checkout_ref = [];
            hosted_invoice_id = [];
          }))

  -- Whether the query reads a session.
  unfoldable pub may_be_hosted : Order → Text → HostedSession → Bool
  unfolding starts_with checkout_refs_for_key
  may_be_hosted order client_sid hosted =
      is_some_id hosted.order_id order.id
      || is_some_id hosted.common_order order.common_order
      || not (is_empty (codes order.idempotency_key))
        && (same_codes (text_of hosted.checkout_ref) (codes order.idempotency_key)
            || starts_with (codes order.idempotency_key ++ codes "_") (text_of hosted.checkout_ref))
      || has_text (checkout_refs_for_key digest (codes order.idempotency_key))
          (text_of hosted.checkout_ref)
      || not (is_empty client_sid) && same_codes (codes hosted.sid) client_sid

  abbrev pub is_claimed_elsewhere : Order → Text → List HostedSession → Bool
  is_claimed_elsewhere order client_sid sessions =
      elim (find_session (λ (x : HostedSession). same_codes (codes x.sid) client_sid) sessions) [
        | none ↦ false
        | some claimed ↦ not (hosted_session_belongs_to_order claimed order)
      ]

  unfoldable pub find_hosted_checkout_for_order :
      List HostedSession → Order → Option String → Result (Option HostedSession)
  unfolding hosted_session_belongs_to_order may_be_hosted by_creation find_session trim
  find_hosted_checkout_for_order sessions order client_session_id =
      let client_sid = trimmed client_session_id in
      let found = take 40 (by_creation (filter (may_be_hosted order client_sid) sessions)) in
      if not (is_empty client_sid) && is_claimed_elsewhere order client_sid found
      then err (payment_not_verified "Payment session does not belong to this order.")
      else ok (find_session (λ x. hosted_session_belongs_to_order x order) found)
