-- ===== src/Promo/Redemption.antt =====
-- The limits of a code: `assertPromoRedemptionCapacity` of
-- src/modules/promocodes/assert-promo-capacity.ts, `claimPromoSlot` and `releasePromoSlot` of
-- src/modules/checkout/checkout.service.ts, and the steps of `bookTicket` that call them.
pub mod Capacity
pub mod Slots
use bookingqube_nest_backend.Prelude.{
  ℕ, suc, ◌-◌, ◌+◌, String, Option, none, some, List, [], ◌∷◌, filter, Bool, true, false, not, ◌&&◌,
  leb, ltb, if◌then◌else◌, is_some, length,
}
use bookingqube_nest_backend.Prelude.Text.{same}
use bookingqube_nest_backend.Prelude.Dict.{update}
use bookingqube_nest_backend.Prelude.Http.{Result, ok, err, HttpError, bad_request, ◌>>=◌}
use bookingqube_nest_backend.Promo.{PromoCode, PromoCodeRedemption, is_used_up}

-- The counters of Redis by the id of a code, and the table of redemptions.
pub record PromoStore : Type 0 where
  pub redis_ready : Bool
  pub redeemed : String → Option ℕ
  pub redemptions : List PromoCodeRedemption

abbrev pub no_longer_available : HttpError
no_longer_available = bad_request "Promo code is invalid or no longer available."

abbrev pub count_redemptions : List PromoCodeRedemption → String → ℕ
count_redemptions rows id =
    length (filter (λ (r : PromoCodeRedemption). same r.promo_code_id id) rows)

abbrev pub count_of_customer : List PromoCodeRedemption → String → String → ℕ
count_of_customer rows id customer_id = length (
    filter (λ (r : PromoCodeRedemption). same r.promo_code_id id && same r.customer_id customer_id)
      rows)

-- The transaction holds the row of the code while it counts and inserts.
unfoldable pub assert_promo_redemption_capacity :
    List PromoCodeRedemption → PromoCode → String → Result (Unit {0})
assert_promo_redemption_capacity rows promo customer_id =
    if is_used_up (count_redemptions rows promo.id) promo.max_redemptions
    then err no_longer_available
    else if is_used_up (count_of_customer rows promo.id customer_id)
        promo.max_redemptions_per_customer
    then err no_longer_available
    else ok tt

unfoldable pub redeem : PromoStore → PromoCode → String → String → ℕ → Result PromoStore
unfolding assert_promo_redemption_capacity
redeem s promo order_id customer_id amount =
    assert_promo_redemption_capacity s.redemptions promo customer_id >>= λ _. ok (record s {
      redemptions =
          record {
            promo_code_id = promo.id;
            order_id = order_id;
            customer_id = customer_id;
            discount_amount = amount;
          }
          ∷ s.redemptions;
    })

-- The counter after `SET … NX`: one that is missing starts at the count of the table.
abbrev pub seeded : PromoStore → String → ℕ
seeded s id = elim (s.redeemed id) [ none ↦ count_redemptions s.redemptions id | some n ↦ n ]

unfoldable pub claim_promo_slot : PromoStore → String → ℕ → PromoStore × Result (Unit {0})
claim_promo_slot s id most =
    if not s.redis_ready
    then (s, ok tt)
    else if ltb most (suc (seeded s id))
    then (record s { redeemed = update s.redeemed id (seeded s id) }, err no_longer_available)
    else (record s { redeemed = update s.redeemed id (suc (seeded s id)) }, ok tt)

abbrev pub decr_if_positive : PromoStore → String → Option ℕ → PromoStore
decr_if_positive s id none = s
decr_if_positive s id (some n) =
    if ltb 0 n then record s { redeemed = update s.redeemed id (n - 1) } else s

unfoldable pub release_promo_slot : PromoStore → String → PromoStore
release_promo_slot s id = if not s.redis_ready then s else decr_if_positive s id (s.redeemed id)

pub record PromoBooking : Type 0 where
  pub promo : PromoCode
  pub order_id : String
  pub customer_id : String
  pub discount_amount : ℕ
  pub is_advance : Bool

-- `if (promo && discountAmount > 0 && promo.maxRedemptions !== null && !isAdvance)`; the flag
-- is `promoSlotTaken`.
abbrev pub claim_for : PromoStore → PromoBooking → Option ℕ → PromoStore × Result Bool
claim_for s b none = (s, ok false)
claim_for s b (some most) =
    if ltb 0 b.discount_amount && not b.is_advance
    then (let (after, claimed) = claim_promo_slot s b.promo.id most in
        (after, claimed >>= λ _. ok true))
    else (s, ok false)

-- The row of the redemption; a failure of another part of the transaction undoes it.
unfoldable pub transaction_part : PromoStore → PromoBooking → Bool → Result PromoStore
unfolding redeem
transaction_part s b rest_fails =
    (if ltb 0 b.discount_amount
      then redeem s b.promo b.order_id b.customer_id b.discount_amount
      else ok s)
    >>= λ after. if rest_fails then err (bad_request "The booking failed.") else ok after

-- An advance payment is stored before the transaction, and redeems nothing.
abbrev pub persist_advance_payment : PromoStore → Bool → Result PromoStore
persist_advance_payment s fails = if fails then err (bad_request "The booking failed.") else ok s

abbrev pub rest_of_booking : PromoStore → PromoBooking → Bool → Result PromoStore
rest_of_booking s b rest_fails =
    if b.is_advance then persist_advance_payment s rest_fails else transaction_part s b rest_fails

abbrev pub after_transaction :
    PromoStore → PromoBooking → Bool → Result PromoStore → PromoStore × Bool
after_transaction s b taken (ok after) = (after, true)
after_transaction s b taken (err _) = (if taken then release_promo_slot s b.promo.id else s, false)

abbrev pub after_claim : PromoBooking → Bool → PromoStore × Result Bool → PromoStore × Bool
after_claim b rest_fails (s, err _) = (s, false)
after_claim b rest_fails (s, ok taken) =
    after_transaction s b taken (rest_of_booking s b rest_fails)

-- The part of `bookTicket` that is about the code; the answer says whether the booking, or the
-- advance payment, was made.
unfoldable pub book_promo : PromoStore → PromoBooking → Bool → PromoStore × Bool
unfolding claim_promo_slot release_promo_slot transaction_part
book_promo s b rest_fails = after_claim b rest_fails (claim_for s b b.promo.max_redemptions)
