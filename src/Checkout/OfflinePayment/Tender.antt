-- ===== src/Checkout/OfflinePayment/Tender.antt =====
-- The amounts by tender add up to what was charged.
use bookingqube_nest_backend.Prelude.{
  ◌≡◌, refl, ◌∙◌, ap, none, some, Bool, true, false, not, ◌||◌, arith, if◌then◌else◌, Bool-cases,
  inl, inr,
}
use bookingqube_nest_backend.Prelude.Integers.{
  ℤ, pos, negsuc, ◌+ℤ◌, is_negative, eq_int, add-zero, zero-add, add_comm,
}
use bookingqube_nest_backend.Checkout.OfflinePayment.{
  OfflinePaymentMode, cash, card, split, advance, comp, AdvanceType, in_cash, by_card,
  NormalizedOfflinePayment, assert_offline_payment, assert_split, negative_split, split_differs,
  TenderAmounts, tender_of, resolve_tender_amounts, tender_from_advance_legs,
}

abbrev pub total_tender : TenderAmounts → ℤ
total_tender t = t.cash_amount +ℤ t.card_amount +ℤ t.online_amount +ℤ t.comp_amount

eq_int-eq : (a b : ℤ) → eq_int a b ≡ true → a ≡ b
eq_int-eq (pos a) (pos b) h = ap pos (ground (arith, h))
eq_int-eq (pos a) (negsuc b) h = cc
eq_int-eq (negsuc a) (pos b) h = cc
eq_int-eq (negsuc a) (negsuc b) h = ap negsuc (ground (arith, h))

split_refused :
    (sum total_amount : ℤ)
    → eq_int sum total_amount ≡ false
    → (if not (eq_int sum total_amount) then some (split_differs sum total_amount) else none)
      ≡ some (split_differs sum total_amount)
split_refused sum total_amount e = rw e refl

drop_zeros : (a b : ℤ) → a +ℤ b +ℤ pos 0 +ℤ pos 0 ≡ a +ℤ b
drop_zeros a b = add-zero (a +ℤ b +ℤ pos 0) ∙ add-zero (a +ℤ b)

accepted_split :
    (a b total_amount : ℤ)
    → (if is_negative a || is_negative b
        then some negative_split
        else if not (eq_int (a +ℤ b) total_amount)
        then some (split_differs (a +ℤ b) total_amount)
        else none)
      ≡ none
    → (is_negative a ≡ false) × (is_negative b ≡ false) × (a +ℤ b ≡ total_amount)
accepted_split (pos a) (pos b) total_amount h =
    elim (Bool-cases (eq_int (pos a +ℤ pos b) total_amount)) [
      | inl e ↦ (refl, refl, eq_int-eq (pos a +ℤ pos b) total_amount e)
      | inr e ↦ cc (split_refused (pos a +ℤ pos b) total_amount e)
    ]
accepted_split (pos a) (negsuc b) total_amount h = cc
accepted_split (negsuc a) (pos b) total_amount h = cc
accepted_split (negsuc a) (negsuc b) total_amount h = cc

-- A split payment is accepted only if its parts are not negative and make up the total.
pub assert_split_lem :
    (offline : NormalizedOfflinePayment) (total_amount : ℤ)
    → assert_split offline total_amount ≡ none
    → (is_negative offline.split_cash_amount ≡ false)
      × (is_negative offline.split_card_amount ≡ false)
      × (offline.split_cash_amount +ℤ offline.split_card_amount ≡ total_amount)
assert_split_lem offline total_amount h =
    accepted_split offline.split_cash_amount offline.split_card_amount total_amount h

-- What the tender amounts of a paid order should add up to: an advance is counted when the rest is
-- collected.
abbrev pub expected_total : OfflinePaymentMode → ℤ → ℤ
expected_total cash total_amount = total_amount
expected_total card total_amount = total_amount
expected_total split total_amount = total_amount
expected_total comp total_amount = total_amount
expected_total advance total_amount = pos 0

total_tender-tender_of :
    (offline : NormalizedOfflinePayment) (mode : OfflinePaymentMode) (total_amount : ℤ)
    → offline.mode ≡ mode
    → assert_offline_payment (some offline) total_amount ≡ none
    → total_tender (tender_of offline mode total_amount) ≡ expected_total mode total_amount
unfolding assert_offline_payment
total_tender-tender_of offline cash total_amount e h =
    drop_zeros total_amount (pos 0) ∙ add-zero total_amount
total_tender-tender_of offline card total_amount e h =
    drop_zeros (pos 0) total_amount ∙ zero-add total_amount
total_tender-tender_of offline split total_amount e h =
    drop_zeros offline.split_cash_amount offline.split_card_amount
    ∙ (assert_split_lem offline total_amount (simp e at h)).2
total_tender-tender_of offline comp total_amount e h =
    ap (λ a. a +ℤ total_amount) (add-zero (pos 0 +ℤ pos 0) ∙ add-zero (pos 0))
    ∙ zero-add total_amount
total_tender-tender_of offline advance total_amount e h =
    drop_zeros (pos 0) (pos 0) ∙ add-zero (pos 0)

-- Of an accepted payment that is paid, the amounts by tender add up to the total, except that an
-- advance counts for nothing until it is completed.
pub resolve_tender_total :
    (offline : NormalizedOfflinePayment) (total_amount : ℤ) (is_online_paid : Bool)
    → assert_offline_payment (some offline) total_amount ≡ none
    → total_tender (resolve_tender_amounts (some offline) total_amount true is_online_paid)
      ≡ expected_total offline.mode total_amount
unfolding resolve_tender_amounts
resolve_tender_total offline total_amount is_online_paid h =
    total_tender-tender_of offline offline.mode total_amount refl h

-- Whatever the ways in which the two parts of an advance were paid, the tender amounts add up to
-- the advance and the remainder.
pub tender_from_advance_total :
    (advance_amount remaining_amount : ℤ) (advance_type remaining_type : AdvanceType)
    → total_tender
        (tender_from_advance_legs advance_amount advance_type remaining_amount remaining_type)
      ≡ advance_amount +ℤ remaining_amount
unfolding tender_from_advance_legs
tender_from_advance_total a r in_cash in_cash =
    drop_zeros (a +ℤ r) (pos 0 +ℤ pos 0)
    ∙ ap (λ z. a +ℤ r +ℤ z) (add-zero (pos 0))
    ∙ add-zero (a +ℤ r)
tender_from_advance_total a r in_cash by_card =
    drop_zeros (a +ℤ pos 0) (pos 0 +ℤ r) ∙ rw (add-zero a, zero-add r) refl
tender_from_advance_total a r by_card in_cash =
    drop_zeros (pos 0 +ℤ r) (a +ℤ pos 0) ∙ rw (add-zero a, zero-add r) (add_comm r a)
tender_from_advance_total a r by_card by_card =
    drop_zeros (pos 0 +ℤ pos 0) (a +ℤ r)
    ∙ ap (λ z. z +ℤ (a +ℤ r)) (add-zero (pos 0))
    ∙ zero-add (a +ℤ r)
