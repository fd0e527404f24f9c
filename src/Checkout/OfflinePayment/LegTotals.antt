-- ===== src/Checkout/OfflinePayment/LegTotals.antt =====
-- The payment rows of an order and its tender amounts agree.
use bookingqube_nest_backend.Prelude.{
  ◌≡◌, refl, sym, ◌∙◌, ap, none, some, List, [], ◌∷◌, filter, false, Bool-cases, inl, inr,
}
use bookingqube_nest_backend.Prelude.Integers.{
  ℤ, pos, ◌+ℤ◌, is_negative, is_positive, add-zero, zero-add, nothing_left,
}
use bookingqube_nest_backend.Checkout.OfflinePayment.{
  OfflinePaymentMode, cash, card, split, advance, comp, NormalizedOfflinePayment,
  assert_offline_payment,
}
use bookingqube_nest_backend.Checkout.OfflinePayment.Tender.{assert_split_lem}
use bookingqube_nest_backend.Checkout.OfflinePayment.Legs.{
  Payment, cash_leg, card_leg, LegArguments, create_offline_payment_legs, legs_of, paid_legs,
  offline_legs, internal_leg, pos_key,
}

abbrev pub total_amount_of : List Payment → ℤ
total_amount_of [] = pos 0
total_amount_of (p ∷ payments) = p.amount +ℤ total_amount_of payments

-- A row of nothing is left out of a split, and adds nothing to its total.
kept_total :
    (p q : Payment)
    → is_negative p.amount ≡ false
    → is_negative q.amount ≡ false
    → total_amount_of (filter (λ (leg : Payment). is_positive leg.amount) (p ∷ q ∷ []))
      ≡ p.amount +ℤ q.amount
kept_total p q h k = elim (Bool-cases (is_positive p.amount)) [
  | inl e ↦ elim (Bool-cases (is_positive q.amount)) [
    | inl f ↦ rw (e, f, add-zero q.amount) refl
    | inr f ↦ rw (e, f, nothing_left q.amount k f) refl
  ]
  | inr e ↦ elim (Bool-cases (is_positive q.amount)) [
    | inl f ↦ rw (e, f, nothing_left p.amount h e) (add-zero q.amount ∙ sym (zero-add q.amount))
    | inr f ↦
        rw (e, f, nothing_left p.amount h e, nothing_left q.amount k f) (sym (add-zero (pos 0)))
  ]
]

-- What the rows of an order that is paid at the counter come to: a complimentary order has a row of
-- nothing.
abbrev pub charged : OfflinePaymentMode → ℤ → ℤ
charged cash total_amount = total_amount
charged card total_amount = total_amount
charged split total_amount = total_amount
charged comp total_amount = pos 0
charged advance total_amount = total_amount

offline_legs_total :
    (args : LegArguments) (offline : NormalizedOfflinePayment) (mode : OfflinePaymentMode)
    → offline.mode ≡ mode
    → assert_offline_payment (some offline) args.total_amount ≡ none
    → total_amount_of (offline_legs args offline mode) ≡ charged mode args.total_amount
unfolding assert_offline_payment
offline_legs_total args offline cash e h = add-zero args.total_amount
offline_legs_total args offline card e h = add-zero args.total_amount
offline_legs_total args offline comp e h = add-zero (pos 0)
offline_legs_total args offline advance e h = add-zero args.total_amount
offline_legs_total args offline split e h =
    let (a, b, sum) = assert_split_lem offline args.total_amount (simp e at h) in
    kept_total (internal_leg args (pos_key cash) cash_leg offline.split_cash_amount)
      (internal_leg args (pos_key card) card_leg offline.split_card_amount) a b
    ∙ sum

-- The rows that an accepted payment at the counter creates, with no extra legs, add up to the total
-- of the order, or to nothing for a complimentary one.
pub create_legs_total :
    (args : LegArguments) (offline : NormalizedOfflinePayment)
    → args.extra_legs ≡ []
    → args.offline ≡ some offline
    → assert_offline_payment (some offline) args.total_amount ≡ none
    → total_amount_of (create_offline_payment_legs [] args) ≡ charged offline.mode args.total_amount
unfolding create_offline_payment_legs
create_legs_total args offline none_extra e h =
    ap (λ legs. total_amount_of (legs_of args legs)) none_extra
    ∙ ap (λ o. total_amount_of (paid_legs args o)) e
    ∙ offline_legs_total args offline offline.mode refl h
