-- ===== src/Checkout/OfflinePayment.antt =====
-- src/modules/checkout/offline-payment.helpers.ts: payments taken at the counter. Amounts of the
-- request are counts of millionths; behind `roundMoney` they are counts of thousandths, as the
-- columns hold them, so the rounding of their sums, which drops a floating-point error, is the sum.
pub mod Tender
pub mod Legs
pub mod LegTotals
use bookingqube_nest_backend.Prelude.{
  ℕ, zero, suc, ◌+◌, ◌-◌, ◌/◌, String, Option, none, some, List, [], ◌∷◌, map, filter, Bool, true,
  false, not, ◌&&◌, ◌||◌, leb, ltb, if◌then◌else◌, ◌⊎◌, inl, inr,
}
use bookingqube_nest_backend.Prelude.Text.{Text, codes, same_codes, trim}
use bookingqube_nest_backend.Prelude.Integers.{
  ℤ, pos, negsuc, ◌+ℤ◌, is_negative, is_positive, lt_int, eq_int,
}

pub data OfflinePaymentMode : Type 0 where
  cash card split advance comp : OfflinePaymentMode

pub data AdvanceType : Type 0 where
  in_cash by_card : AdvanceType

-- The request; an amount that is no number is left out.
pub record OfflinePaymentDto : Type 0 where
  pub mode : Text
  pub split_cash_amount : Option ℤ
  pub split_card_amount : Option ℤ
  pub advance_amount : Option ℤ
  pub advance_type : Option AdvanceType
  pub agent_id : Option Text
  pub booked_by_agent_id : Option Text
  pub sold_by_user_id : Option Text

pub record NormalizedOfflinePayment : Type 0 where
  pub mode : OfflinePaymentMode
  pub split_cash_amount : ℤ
  pub split_card_amount : ℤ
  pub advance_amount : ℤ
  pub advance_type : Option AdvanceType
  pub booked_by_agent_id : Option Text

pub data OfflinePaymentError : Type 0 where
  invalid_mode negative_split advance_type_missing advance_out_of_range : OfflinePaymentError
  split_differs : ℤ → ℤ → OfflinePaymentError

-- `Math.round`, which rounds a half up, of millionths to thousandths.
unfoldable pub round_money : ℤ → ℤ
round_money (pos n) = pos ((n + 500) / 1000)
round_money (negsuc n) = if ltb n 500 then pos 0 else negsuc ((n + 500) / 1000 - 1)

-- `roundMoney(Number(x) || 0)`
abbrev pub amount_or_zero : Option ℤ → ℤ
amount_or_zero none = pos 0
amount_or_zero (some n) = round_money n

abbrev pub parse_mode : Text → Option OfflinePaymentMode
parse_mode s =
    if same_codes s (codes "cash")
    then some cash
    else if same_codes s (codes "card")
    then some card
    else if same_codes s (codes "split")
    then some split
    else if same_codes s (codes "advance")
    then some advance
    else if same_codes s (codes "comp")
    then some comp
    else none

-- `a || b` on texts, where the empty one is false.
abbrev pub or_text : Text → Option Text → Option Text
or_text [] other = other
or_text (c ∷ s) other = some (c ∷ s)

abbrev pub trimmed : Option Text → Text
trimmed none = []
trimmed (some s) = trim s

abbrev pub or_null : Option Text → Option Text
or_null none = none
or_null (some s) = or_text s none

abbrev pub normalized_as :
    OfflinePaymentDto → Option Text → OfflinePaymentMode → NormalizedOfflinePayment
normalized_as input fallback_agent_id mode = record {
  mode = mode;
  split_cash_amount = amount_or_zero input.split_cash_amount;
  split_card_amount = amount_or_zero input.split_card_amount;
  advance_amount = amount_or_zero input.advance_amount;
  advance_type = input.advance_type;
  booked_by_agent_id = or_text (trimmed input.agent_id) (
      or_text (trimmed input.booked_by_agent_id)
        (or_text (trimmed input.sold_by_user_id) (or_null fallback_agent_id)));
}

unfoldable pub normalize_offline_payment :
    Option OfflinePaymentDto → Option Text → OfflinePaymentError ⊎ Option NormalizedOfflinePayment
normalize_offline_payment none fallback_agent_id = inr none
normalize_offline_payment (some input) fallback_agent_id =
    if same_codes input.mode [] then inr none else elim (parse_mode input.mode) [
      | none ↦ inl invalid_mode
      | some mode ↦ inr (some (normalized_as input fallback_agent_id mode))
    ]

abbrev pub assert_split : NormalizedOfflinePayment → ℤ → Option OfflinePaymentError
assert_split offline total_amount =
    let sum = offline.split_cash_amount +ℤ offline.split_card_amount in
    if is_negative offline.split_cash_amount || is_negative offline.split_card_amount
    then some negative_split
    else if not (eq_int sum total_amount)
    then some (split_differs sum total_amount)
    else none

abbrev pub assert_advance : NormalizedOfflinePayment → ℤ → Option OfflinePaymentError
assert_advance offline total_amount = elim offline.advance_type [
  | none ↦ some advance_type_missing
  | some _ ↦
      if not (is_positive offline.advance_amount)
        || not (lt_int offline.advance_amount total_amount)
      then some advance_out_of_range
      else none
]

-- The exception, if one is thrown.
unfoldable pub assert_offline_payment :
    Option NormalizedOfflinePayment → ℤ → Option OfflinePaymentError
assert_offline_payment none total_amount = none
assert_offline_payment (some offline) total_amount = elim offline.mode [
  | split ↦ assert_split offline total_amount
  | advance ↦ assert_advance offline total_amount
  | cash ↦ none
  | card ↦ none
  | comp ↦ none
]

pub record TenderAmounts : Type 0 where
  pub cash_amount : ℤ
  pub card_amount : ℤ
  pub online_amount : ℤ
  pub comp_amount : ℤ

abbrev pub tender : ℤ → ℤ → ℤ → ℤ → TenderAmounts
tender cash_amount card_amount online_amount comp_amount = record {
  cash_amount = cash_amount;
  card_amount = card_amount;
  online_amount = online_amount;
  comp_amount = comp_amount;
}

abbrev pub tender_of : NormalizedOfflinePayment → OfflinePaymentMode → ℤ → TenderAmounts
tender_of offline cash total_amount = tender total_amount (pos 0) (pos 0) (pos 0)
tender_of offline card total_amount = tender (pos 0) total_amount (pos 0) (pos 0)
tender_of offline split total_amount =
    tender offline.split_cash_amount offline.split_card_amount (pos 0) (pos 0)
tender_of offline comp total_amount = tender (pos 0) (pos 0) (pos 0) total_amount
tender_of offline advance total_amount = tender (pos 0) (pos 0) (pos 0) (pos 0)

unfoldable pub resolve_tender_amounts :
    Option NormalizedOfflinePayment → ℤ → Bool → Bool → TenderAmounts
resolve_tender_amounts none total_amount is_paid is_online_paid =
    if not is_paid
    then tender (pos 0) (pos 0) (pos 0) (pos 0)
    else tender (pos 0) (pos 0) (if is_online_paid then total_amount else pos 0) (pos 0)
resolve_tender_amounts (some offline) total_amount is_paid is_online_paid =
    if not is_paid
    then tender (pos 0) (pos 0) (pos 0) (pos 0)
    else tender_of offline offline.mode total_amount

abbrev pub if_cash : AdvanceType → ℤ → ℤ
if_cash in_cash amount = amount
if_cash by_card amount = pos 0

abbrev pub if_card : AdvanceType → ℤ → ℤ
if_card in_cash amount = pos 0
if_card by_card amount = amount

unfoldable pub tender_from_advance_legs : ℤ → AdvanceType → ℤ → AdvanceType → TenderAmounts
tender_from_advance_legs advance_amount advance_type remaining_amount remaining_type =
    tender (if_cash advance_type advance_amount +ℤ if_cash remaining_type remaining_amount)
      (if_card advance_type advance_amount +ℤ if_card remaining_type remaining_amount) (pos 0)
      (pos 0)
