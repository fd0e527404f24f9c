-- ===== src/Checkout/Verification/Settled.antt =====
-- What stands behind a payment that a gateway has verified.
use bookingqube_nest_backend.Prelude.{
  ◌⊎◌, inl, inr, ℕ, ◌≡◌, refl, String, Option, none, some, true, not, is_some, ◌&&◌, not-false,
}
use bookingqube_nest_backend.Prelude.Text.{Text, codes}
use bookingqube_nest_backend.Prelude.Http.{Result, ok, bind_parts, if_ok}
use bookingqube_nest_backend.Checkout.Records.{
  PaymentGateway, myfatoorah, mastercard, qpay, ProviderRefs, HostedSession, Order,
}
use bookingqube_nest_backend.Checkout.Upsert.{coalesce}
use bookingqube_nest_backend.Checkout.Hosted.{given}
use bookingqube_nest_backend.Checkout.Settlement.{
  assert_amount_and_currency_match, payment_not_verified,
}
use bookingqube_nest_backend.Checkout.Settlement.Amounts.{IsNear, assert_amount_parts}
use bookingqube_nest_backend.Checkout.Verification.{
  Gateways, GatewayReply, throws, answers, GatewayAnswer, verify_gateway_settlement, verify_with,
  verify_myfatoorah, check_answer, check_hosted_amount, check_myfatoorah, check_mastercard,
  check_qpay, check_unknown_amount, gateway_of, is_bank_verified, expected_currency,
  belongs_to_order, or_expected, own_invoice, refs_of,
}

-- The amount that is reported, or that of the session, is the order's within a hundredth.
unfoldable pub IsBacked : Order → Option HostedSession → Option ℕ → Type 0
IsBacked order hosted reported =
    IsNear order.total_amount reported
    ⊎ ((h : HostedSession) × (hosted ≡ some h) × IsNear order.total_amount (some h.amount))

-- What stands behind a payment: a session that a callback of the bank has paid, or an answer of a
-- gateway that the payment is taken, which for MyFatoorah names the order.
pub data IsSettled (digest : Text → Text) (gateways : Gateways) (order : Order)
    (hosted : Option HostedSession) : Type 0 where
  by_bank :
      (h : HostedSession)
      → hosted ≡ some h
      → is_bank_verified (some h) ≡ true
      → IsNear order.total_amount (some h.amount)
      → IsSettled digest gateways order hosted
  by_myfatoorah :
      (payment invoice session : Option String) (answer : GatewayAnswer)
      → gateways.resolve_payment_status payment invoice session ≡ answers answer
      → answer.paid ≡ true
      → belongs_to_order digest order hosted answer ≡ true
      → IsBacked order hosted answer.amount
      → IsSettled digest gateways order hosted
  by_mastercard :
      (answer : GatewayAnswer)
      → gateways.retrieve_order_status order.common_order ≡ answers answer
      → answer.paid ≡ true
      → IsBacked order hosted answer.amount
      → IsSettled digest gateways order hosted

session-IsNear :
    (order : Order) (h : HostedSession)
    → check_hosted_amount order (some h) ≡ ok tt
    → IsNear order.total_amount (some h.amount)
session-IsNear order h e =
    (assert_amount_parts order.total_amount (expected_currency order) (some h.amount)
      (some (codes h.currency)) e).0

checked_answer :
    (order : Order) (hosted : Option HostedSession) (answer : GatewayAnswer) (no_amount : String)
    → check_hosted_amount order hosted ≡ ok tt
    → check_answer order hosted answer no_amount ≡ ok tt
    → (answer.paid ≡ true) × IsBacked order hosted answer.amount
unfolding check_answer IsBacked
checked_answer order hosted answer no_amount c e =
    let (taken, e1) = if_ok (not answer.paid) (payment_not_verified answer.message) _ e in
    (not-false answer.paid taken, by_amount answer.amount hosted c e1)
  where
    by_amount :
        (amount : Option ℕ) (session : Option HostedSession)
        → check_hosted_amount order session ≡ ok tt
        → (elim amount as (λ _. Result (Unit {0})) [
          | none ↦ check_unknown_amount session no_amount
          | some a ↦
              assert_amount_and_currency_match order.total_amount
                (expected_currency order)
                (some a)
                (some (or_expected answer.currency (expected_currency order)))
        ])
          ≡ ok tt
        → IsBacked order session amount
    by_amount none none k e1 = cc
    by_amount none (some h) k e1 = inr (h, refl, session-IsNear order h k)
    by_amount (some a) session k e1 =
        inl
          (assert_amount_parts order.total_amount (expected_currency order) (some a)
            (some (or_expected answer.currency (expected_currency order))) e1).0

module _ (digest : Text → Text) (gateways : Gateways) where
  answered-IsSettled :
      (order : Order) (hosted : Option HostedSession) (refs after : ProviderRefs)
      (payment invoice session : Option String) (reply : GatewayReply)
      → check_hosted_amount order hosted ≡ ok tt
      → gateways.resolve_payment_status payment invoice session ≡ reply
      → check_myfatoorah digest order hosted refs reply ≡ ok after
      → IsSettled digest gateways order hosted
  answered-IsSettled order hosted refs after payment invoice session (throws message) c r e = cc
  answered-IsSettled order hosted refs after payment invoice session (answers answer) c r e =
      let no_amount : String = "MyFatoorah did not return a payable amount for this order." in
      let (u, checked, bound) = bind_parts (check_answer order hosted answer no_amount) _ e in
      let (taken, backed) = checked_answer order hosted answer no_amount c checked in
      let (owns, _) = if_ok (not (belongs_to_order digest order hosted answer)) _ _ bound in
      by_myfatoorah payment invoice session answer r taken (not-false _ owns) backed

  myfatoorah-IsSettled :
      (order : Order) (hosted : Option HostedSession) (refs after : ProviderRefs)
      → check_hosted_amount order hosted ≡ ok tt
      → verify_myfatoorah digest gateways order hosted refs ≡ ok after
      → IsSettled digest gateways order hosted
  unfolding verify_myfatoorah
  myfatoorah-IsSettled order hosted refs after c e =
      let invoice =
        coalesce (own_invoice order (refs_of hosted).invoice_id)
          (own_invoice order refs.invoice_id) in
      let (_, e1) =
        if_ok
          (not (is_some (given refs.payment_id))
            && not (is_some invoice)
            && not (is_some (given refs.session_id)))
          _ _ e in
      answered-IsSettled order hosted refs after refs.payment_id invoice refs.session_id _ c refl e1

  mastercard-IsSettled :
      (order : Order) (hosted : Option HostedSession) (refs after : ProviderRefs)
      (reply : GatewayReply)
      → check_hosted_amount order hosted ≡ ok tt
      → gateways.retrieve_order_status order.common_order ≡ reply
      → check_mastercard digest order hosted refs reply ≡ ok after
      → IsSettled digest gateways order hosted
  mastercard-IsSettled order hosted refs after (throws message) c r e = cc
  mastercard-IsSettled order hosted refs after (answers answer) c r e =
      let no_amount : String = "Mastercard did not return a payable amount for this order." in
      let (u, checked, _) = bind_parts (check_answer order hosted answer no_amount) _ e in
      let (taken, backed) = checked_answer order hosted answer no_amount c checked in
      by_mastercard answer r taken backed

  qpay-IsSettled :
      (order : Order) (hosted : Option HostedSession) (refs after : ProviderRefs)
      → check_hosted_amount order hosted ≡ ok tt
      → check_qpay digest hosted refs ≡ ok after
      → IsSettled digest gateways order hosted
  qpay-IsSettled order none refs after c e = cc
  qpay-IsSettled order (some h) refs after c e =
      let (v, _) = if_ok (not (is_bank_verified (some h))) _ _ e in
      by_bank h refl (not-false _ v) (session-IsNear order h c)

  verify_with-IsSettled :
      (gateway : Option PaymentGateway) (order : Order) (hosted : Option HostedSession)
      (refs after : ProviderRefs)
      → check_hosted_amount order hosted ≡ ok tt
      → verify_with digest gateway gateways order hosted refs ≡ ok after
      → IsSettled digest gateways order hosted
  verify_with-IsSettled none order hosted refs after c e = cc
  verify_with-IsSettled (some myfatoorah) order hosted refs after c e =
      myfatoorah-IsSettled order hosted refs after c e
  verify_with-IsSettled (some mastercard) order hosted refs after c e =
      mastercard-IsSettled order hosted refs after _ c refl e
  verify_with-IsSettled (some qpay) order hosted refs after c e =
      qpay-IsSettled order hosted refs after c e

  -- A payment is verified only if a session of the order's amount was paid by a callback of the bank,
  -- or a gateway answers that it was taken, for the order's amount within a hundredth (the session's
  -- amount, where the answer has none) and, at MyFatoorah, under a token of the order.
  pub verified-IsSettled :
      (order : Order) (hosted : Option HostedSession) (refs after : ProviderRefs)
      → verify_gateway_settlement digest gateways order hosted refs ≡ ok after
      → IsSettled digest gateways order hosted
  unfolding verify_gateway_settlement
  verified-IsSettled order hosted refs after e =
      let (_, c, e1) = bind_parts (check_hosted_amount order hosted) _ e in
      verify_with-IsSettled (gateway_of hosted refs) order hosted refs after c e1
