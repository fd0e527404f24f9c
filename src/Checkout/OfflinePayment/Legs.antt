-- ===== src/Checkout/OfflinePayment/Legs.antt =====
-- `createOfflinePaymentLegs` of src/modules/checkout/offline-payment.helpers.ts: the rows that an
-- order adds to the table `payments`, in the order in which they are created.
use bookingqube_nest_backend.Prelude.{
  ℕ, String, Option, none, some, List, [], ◌∷◌, ◌++◌, map, filter, if◌then◌else◌,
}
use bookingqube_nest_backend.Prelude.Integers.{ℤ, pos, is_positive}
use bookingqube_nest_backend.Prelude.Text.{same}
use bookingqube_nest_backend.Checkout.OfflinePayment.{
  OfflinePaymentMode, cash, card, split, advance, comp, NormalizedOfflinePayment,
}

pub data PaymentLegType : Type 0 where
  cash_leg card_leg online_gateway_leg comp_leg other_leg : PaymentLegType

pub data PaymentProvider : Type 0 where
  internal myfatoorah mastercard qpay : PaymentProvider

pub data PaymentTransactionStatus : Type 0 where
  pending paid failed cancelled refunded partially_refunded : PaymentTransactionStatus

-- `pos-<mode>`, `mock-payment`, `myfatoorah-<method>`, or the key of an extra leg.
pub data MethodKey : Type 0 where
  pos_key : OfflinePaymentMode → MethodKey
  mock_payment : MethodKey
  myfatoorah_key : Option ℕ → MethodKey
  other_key : String → MethodKey

pub record ProviderResponse : Type 0 where
  pub invoice_id : Option String
  pub payment_id : Option String
  pub session_id : Option String

pub record Payment : Type 0 where
  pub order_id : String
  pub provider : PaymentProvider
  pub provider_payment_method_id : Option ℕ
  pub method_key : MethodKey
  pub leg_type : PaymentLegType
  pub status : PaymentTransactionStatus
  pub amount : ℤ
  pub currency : String
  pub provider_response : Option ProviderResponse
  pub collected_by_user_id : Option String
  pub paid_at : ℕ

pub record OnlinePaid : Type 0 where
  pub provider : String
  pub amount : ℤ
  pub currency : String
  pub payment_method : Option ℕ
  pub provider_response : Option ProviderResponse

pub record ExtraLeg : Type 0 where
  pub leg_type : PaymentLegType
  pub amount : ℤ
  pub method_key : String

-- The arguments; no extra legs are an empty list.
pub record LegArguments : Type 0 where
  pub order_id : String
  pub offline : Option NormalizedOfflinePayment
  pub online_paid : Option OnlinePaid
  pub total_amount : ℤ
  pub currency : String
  pub default_leg_type : PaymentLegType
  pub collected_by_user_id : Option String
  pub now : ℕ
  pub extra_legs : List ExtraLeg

-- A row of the provider `internal`.
abbrev pub internal_leg : LegArguments → MethodKey → PaymentLegType → ℤ → Payment
internal_leg args method_key leg_type amount = record {
  order_id = args.order_id;
  provider = internal;
  provider_payment_method_id = none;
  method_key = method_key;
  leg_type = leg_type;
  status = paid;
  amount = amount;
  currency = args.currency;
  provider_response = none;
  collected_by_user_id = args.collected_by_user_id;
  paid_at = args.now;
}

abbrev pub split_legs : LegArguments → NormalizedOfflinePayment → List Payment
split_legs args offline =
    filter (λ (leg : Payment). is_positive leg.amount)
      (internal_leg args (pos_key cash) cash_leg offline.split_cash_amount
        ∷ internal_leg args (pos_key card) card_leg offline.split_card_amount
        ∷ [])

abbrev pub offline_legs :
    LegArguments → NormalizedOfflinePayment → OfflinePaymentMode → List Payment
offline_legs args offline split = split_legs args offline
offline_legs args offline cash =
    internal_leg args (pos_key cash) args.default_leg_type args.total_amount ∷ []
offline_legs args offline card =
    internal_leg args (pos_key card) args.default_leg_type args.total_amount ∷ []
offline_legs args offline comp = internal_leg args (pos_key comp) args.default_leg_type (pos 0) ∷ []
offline_legs args offline advance =
    internal_leg args (pos_key advance) args.default_leg_type args.total_amount ∷ []

abbrev pub online_leg : LegArguments → OnlinePaid → Payment
online_leg args online =
    let is_mock = same online.provider "mock" in
    record {
      order_id = args.order_id;
      provider = if is_mock then internal else myfatoorah;
      provider_payment_method_id = online.payment_method;
      method_key = if is_mock then mock_payment else myfatoorah_key online.payment_method;
      leg_type = online_gateway_leg;
      status = paid;
      amount = online.amount;
      currency = online.currency;
      provider_response = online.provider_response;
      collected_by_user_id = args.collected_by_user_id;
      paid_at = args.now;
    }

abbrev pub online_legs : LegArguments → Option OnlinePaid → List Payment
online_legs args none = []
online_legs args (some online) = online_leg args online ∷ []

abbrev pub paid_legs : LegArguments → Option NormalizedOfflinePayment → List Payment
paid_legs args none = online_legs args args.online_paid
paid_legs args (some offline) = offline_legs args offline offline.mode

abbrev pub legs_of : LegArguments → List ExtraLeg → List Payment
legs_of args [] = paid_legs args args.offline
legs_of args (leg ∷ legs) =
    map (λ (l : ExtraLeg). internal_leg args (other_key l.method_key) l.leg_type l.amount)
      (leg ∷ legs)

unfoldable pub create_offline_payment_legs : List Payment → LegArguments → List Payment
create_offline_payment_legs payments args = payments ++ legs_of args args.extra_legs
