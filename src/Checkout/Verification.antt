-- ===== src/Checkout/Verification.antt =====
-- `verifyGatewaySettlement` of src/modules/checkout/checkout.service.ts. What the gateways answer
-- is a parameter.
pub mod Settled
use bookingqube_nest_backend.Prelude.{
  ℕ, String, Option, none, some, List, [], ◌∷◌, ◌++◌, map, Bool, true, false, not, ◌&&◌, ◌||◌,
  if◌then◌else◌, is_some,
}
use bookingqube_nest_backend.Prelude.Text.{Text, codes, same, trim_string}
use bookingqube_nest_backend.Prelude.Http.{Result, ok, err, ◌>>=◌}
use bookingqube_nest_backend.Checkout.Records.{
  PaymentGateway, myfatoorah, mastercard, qpay, ProviderRefs, HostedSession, Order,
}
use bookingqube_nest_backend.Checkout.Recovery.{is_empty, or_text, given_or}
use bookingqube_nest_backend.Checkout.Upsert.{coalesce}
use bookingqube_nest_backend.Checkout.Settlement.{
  payment_not_verified, assert_amount_and_currency_match, expected_bind_tokens,
  settlement_matches_order, BindInput,
}
use bookingqube_nest_backend.Checkout.Settlement.Tokens.{Json, extract_bind_tokens}
use bookingqube_nest_backend.Checkout.Hosted.{
  no_refs, merge_provider_refs, refs_from_hosted_params, given, text_of,
}

pub record GatewayAnswer : Type 0 where
  pub paid : Bool
  pub message : String
  pub amount : Option ℕ
  pub currency : Option Text
  pub payment : Json
  pub session_id : Option String
  pub payment_id : Option String
  pub invoice_id : Option String

pub data GatewayReply : Type 0 where
  throws : String → GatewayReply
  answers : GatewayAnswer → GatewayReply

-- `MyFatoorahService.resolvePaymentStatus` by a payment, an invoice and a session, and
-- `MpgsCheckoutService.retrieveOrderStatus` by an order number.
pub record Gateways : Type 0 where
  pub resolve_payment_status : Option String → Option String → Option String → GatewayReply
  pub retrieve_order_status : String → GatewayReply

abbrev pub expected_currency : Order → Text
expected_currency order = or_text (codes order.currency) (codes "QAR")

abbrev pub check_hosted_amount : Order → Option HostedSession → Result (Unit {0})
check_hosted_amount order none = ok tt
check_hosted_amount order (some hosted) =
    assert_amount_and_currency_match order.total_amount (expected_currency order)
      (some hosted.amount) (some (codes hosted.currency))

abbrev pub check_unknown_amount : Option HostedSession → String → Result (Unit {0})
check_unknown_amount none message = err (payment_not_verified message)
check_unknown_amount (some _) message = ok tt

abbrev pub or_expected : Option Text → Text → Text
or_expected none expected = expected
or_expected (some currency) expected = currency

-- The amount of an answer; without one the session's amount, checked before, has to do.
unfoldable pub check_answer :
    Order → Option HostedSession → GatewayAnswer → String → Result (Unit {0})
unfolding assert_amount_and_currency_match
check_answer order hosted answer no_amount =
    if not answer.paid then err (payment_not_verified answer.message) else elim answer.amount [
      | none ↦ check_unknown_amount hosted no_amount
      | some amount ↦
          assert_amount_and_currency_match order.total_amount (expected_currency order)
            (some amount) (some (or_expected answer.currency (expected_currency order)))
    ]

-- An invoice that is not the number of the order.
abbrev pub own_invoice : Order → Option String → Option String
own_invoice order none = none
own_invoice order (some invoice) =
    if is_empty (codes invoice) || same invoice order.common_order then none else some invoice

abbrev pub refs_of : Option HostedSession → ProviderRefs
refs_of hosted = refs_from_hosted_params hosted

abbrev pub hosted_sid : Option HostedSession → Option String
hosted_sid none = none
hosted_sid (some hosted) = some hosted.sid

abbrev pub hosted_ref : Option HostedSession → Option String
hosted_ref none = none
hosted_ref (some hosted) = hosted.checkout_ref

abbrev pub same_payment : Option String → Option String → Bool
same_payment (some stored) (some resolved) =
    not (is_empty (codes (trim_string stored))) && same (trim_string stored) (trim_string resolved)
same_payment _ _ = false

abbrev pub is_bank_verified : Option HostedSession → Bool
is_bank_verified none = false
is_bank_verified (some hosted) = hosted.is_paid && hosted.params.qpay_verified

abbrev pub gateway_of : Option HostedSession → ProviderRefs → Option PaymentGateway
gateway_of none refs = refs.gateway
gateway_of (some hosted) refs = some hosted.gateway

module _ (digest : Text → Text) where
  -- Whether the payment of an answer is that of the order.
  unfoldable pub belongs_to_order : Order → Option HostedSession → GatewayAnswer → Bool
  unfolding refs_from_hosted_params expected_bind_tokens settlement_matches_order
      extract_bind_tokens trim_string
  belongs_to_order order hosted answer =
      same_payment (refs_of hosted).payment_id answer.payment_id
      || settlement_matches_order
          (extract_bind_tokens answer.payment
            ++ text_of answer.session_id ∷ text_of answer.invoice_id ∷ [])
          (expected_bind_tokens digest (record {
            common_order = codes order.common_order;
            idempotency_key = codes order.idempotency_key;
            hosted_sid = text_of (hosted_sid hosted);
            hosted_checkout_ref = text_of (hosted_ref hosted);
            hosted_invoice_id = text_of (own_invoice order (refs_of hosted).invoice_id);
          }))

  abbrev pub check_binding :
      Order → Option HostedSession → ProviderRefs → GatewayAnswer → Result ProviderRefs
  check_binding order hosted refs answer =
      if not (belongs_to_order order hosted answer)
      then err (payment_not_verified "MyFatoorah payment does not belong to this order.")
      else ok (
          merge_provider_refs refs (record {
            session_id = given_or answer.session_id (given_or (hosted_sid hosted) refs.session_id);
            payment_id = answer.payment_id;
            invoice_id = answer.invoice_id;
            result_indicator = none;
            gateway = some myfatoorah;
          }))

  abbrev pub check_myfatoorah :
      Order → Option HostedSession → ProviderRefs → GatewayReply → Result ProviderRefs
  check_myfatoorah order hosted refs (throws message) = err (payment_not_verified message)
  check_myfatoorah order hosted refs (answers answer) =
      check_answer order hosted answer "MyFatoorah did not return a payable amount for this order."
      >>= λ _. check_binding order hosted refs answer

  unfoldable pub verify_myfatoorah :
      Gateways → Order → Option HostedSession → ProviderRefs → Result ProviderRefs
  unfolding refs_from_hosted_params check_answer belongs_to_order merge_provider_refs
  verify_myfatoorah gateways order hosted refs =
      let invoice =
        coalesce (own_invoice order (refs_of hosted).invoice_id)
          (own_invoice order refs.invoice_id) in
      if not (is_some (given refs.payment_id))
        && not (is_some invoice)
        && not (is_some (given refs.session_id))
      then err (payment_not_verified "MyFatoorah payment has not been verified with the gateway.")
      else check_myfatoorah order hosted refs
          (gateways.resolve_payment_status refs.payment_id invoice refs.session_id)

  abbrev pub check_mastercard :
      Order → Option HostedSession → ProviderRefs → GatewayReply → Result ProviderRefs
  check_mastercard order hosted refs (throws message) = err (payment_not_verified message)
  check_mastercard order hosted refs (answers answer) =
      check_answer order hosted answer "Mastercard did not return a payable amount for this order."
      >>= λ _. ok (
          merge_provider_refs refs (record {
            session_id = none;
            payment_id = answer.payment_id;
            invoice_id = answer.invoice_id;
            result_indicator = none;
            gateway = some mastercard;
          }))

  abbrev pub check_qpay : Option HostedSession → ProviderRefs → Result ProviderRefs
  check_qpay hosted refs =
      if not (is_bank_verified hosted)
      then err
          (payment_not_verified "QPay payment has not been confirmed by a verified bank callback.")
      else ok (merge_provider_refs refs (record no_refs { gateway = some qpay }))

  abbrev pub verify_with :
      Option PaymentGateway
      → Gateways
      → Order
      → Option HostedSession
      → ProviderRefs
      → Result ProviderRefs
  verify_with none gateways order hosted refs =
      err (payment_not_verified "Unable to verify payment with a payment provider.")
  verify_with (some myfatoorah) gateways order hosted refs =
      verify_myfatoorah gateways order hosted refs
  verify_with (some mastercard) gateways order hosted refs =
      check_mastercard order hosted refs (gateways.retrieve_order_status order.common_order)
  verify_with (some qpay) gateways order hosted refs = check_qpay hosted refs

  unfoldable pub verify_gateway_settlement :
      Gateways → Order → Option HostedSession → ProviderRefs → Result ProviderRefs
  unfolding verify_myfatoorah check_answer merge_provider_refs
  verify_gateway_settlement gateways order hosted refs = check_hosted_amount order hosted >>= λ _.
      verify_with (gateway_of hosted refs) gateways order hosted refs
