-- ===== src/Promo/Redemption/Slots.antt =====
-- The counters of Redis: a booking that fails gives its slot back, and one that is made took one.
use bookingqube_nest_backend.Prelude.{
  ℕ, ◌≡◌, refl, String, Option, none, some, Bool, true, false, ◌&&◌, not, if◌then◌else◌, arith, ltb,
  if_both,
}
use bookingqube_nest_backend.Prelude.Http.{Result, ok, err, ◌>>=◌}
use bookingqube_nest_backend.Promo.Redemption.{
  PromoStore, PromoBooking, seeded, claim_promo_slot, release_promo_slot, rest_of_booking,
  claim_for, book_promo, after_claim, after_transaction,
}

-- The table and what the counter of a code is worth: the table is counted for one that is missing.
IsSame : String → PromoStore → PromoStore → Type 0
IsSame id s t = (t.redemptions ≡ s.redemptions) × (seeded t id ≡ seeded s id)

-- A claim that is given back, or that fails, leaves both as they were.
GivesBack : String → PromoStore → PromoStore × Result (Unit {0}) → Type 0
GivesBack id s (t, ok _) = IsSame id s (release_promo_slot t id)
GivesBack id s (t, err _) = IsSame id s t

claim-GivesBack :
    (s : PromoStore) (id : String) (most : ℕ) → GivesBack id s (claim_promo_slot s id most)
unfolding GivesBack IsSame claim_promo_slot release_promo_slot
claim-GivesBack s id most = ground arith

-- The same of the claim of a booking, which may take no slot.
ClaimGivesBack : PromoBooking → PromoStore → PromoStore × Result Bool → Type 0
ClaimGivesBack b s (t, ok taken) =
    IsSame b.promo.id s (if taken then release_promo_slot t b.promo.id else t)
ClaimGivesBack b s (t, err _) = IsSame b.promo.id s t

claim_for-ClaimGivesBack :
    (s : PromoStore) (b : PromoBooking) (o : Option ℕ) → ClaimGivesBack b s (claim_for s b o)
unfolding ClaimGivesBack IsSame GivesBack
claim_for-ClaimGivesBack s b none = (refl, refl)
claim_for-ClaimGivesBack s b (some most) =
    if_both (ClaimGivesBack b s) (ltb 0 b.discount_amount && not b.is_advance)
      (taken (claim_promo_slot s b.promo.id most) (claim-GivesBack s b.promo.id most)) (refl, refl)
  where
    taken :
        (r : PromoStore × Result (Unit {0}))
        → GivesBack b.promo.id s r
        → ClaimGivesBack b s (r.0, r.1 >>= λ _. ok true)
    taken (t, ok _) h = h
    taken (t, err _) h = h

after_claim_undone :
    (s : PromoStore) (b : PromoBooking) (rest_fails : Bool) (r : PromoStore × Result Bool)
    → ClaimGivesBack b s r
    → (after_claim b rest_fails r).1 ≡ false
    → IsSame b.promo.id s (after_claim b rest_fails r).0
unfolding ClaimGivesBack IsSame
after_claim_undone s b rest_fails (t, err _) c h = c
after_claim_undone s b rest_fails (t, ok taken) c h = undone (rest_of_booking t b rest_fails) h
  where
    undone :
        (m : Result PromoStore)
        → (after_transaction t b taken m).1 ≡ false
        → IsSame b.promo.id s (after_transaction t b taken m).0
    undone (ok after) k = cc
    undone (err _) k = c

-- A booking that fails, for want of a slot, in its transaction or in storing its advance payment, leaves the table as it was and the
-- counter of its code at what it was worth.
pub book_promo_undone :
    (s : PromoStore) (b : PromoBooking) (rest_fails : Bool)
    → (book_promo s b rest_fails).1 ≡ false
    → ((book_promo s b rest_fails).0.redemptions ≡ s.redemptions)
      × (seeded (book_promo s b rest_fails).0 b.promo.id ≡ seeded s b.promo.id)
unfolding book_promo IsSame
book_promo_undone s b rest_fails h =
    after_claim_undone s b rest_fails (claim_for s b b.promo.max_redemptions)
      (claim_for-ClaimGivesBack s b b.promo.max_redemptions) h
