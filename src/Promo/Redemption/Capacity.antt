-- ===== src/Promo/Redemption/Capacity.antt =====
-- However bookings interleave, and whatever Redis loses, a code is not redeemed beyond its limits.
use bookingqube_nest_backend.Prelude.{
  ℕ, suc, ◌≤◌, ◌≡◌, refl, ap, subst, ◌∙◌, sym, String, Option, none, some, List, ◌∷◌, Bool, true,
  false, ◌&&◌, not, arith, Bool-cases, if_both, inl, inr,
}
use bookingqube_nest_backend.Prelude.Text.{same, same-eq}
use bookingqube_nest_backend.Prelude.Http.{ok, ok_inj, if_ok, bind_parts}
use bookingqube_nest_backend.Promo.{PromoCode, PromoCodeRedemption, is_used_up}
use bookingqube_nest_backend.Promo.Redemption.{
  PromoStore, count_redemptions, count_of_customer, assert_promo_redemption_capacity, redeem,
  no_longer_available, claim_promo_slot, release_promo_slot, decr_if_positive,
}

-- The steps of the processes that book with codes, each of them alone: the codes are those of a
-- table. Redis may become ready or not, and forget a counter.
pub data Step (codes_of : String → PromoCode) : PromoStore → PromoStore → Type 0 where
  claim_step :
      {s : PromoStore} (id : String) (most : ℕ) → Step codes_of s (claim_promo_slot s id most).0
  release_step : {s : PromoStore} (id : String) → Step codes_of s (release_promo_slot s id)
  redeem_step :
      {s after : PromoStore} (id order_id customer_id : String) (amount : ℕ)
      → redeem s (codes_of id) order_id customer_id amount ≡ ok after
      → Step codes_of s after
  redis_step :
      {s : PromoStore} (ready : Bool) (counters : String → Option ℕ)
      → Step codes_of s (record s { redis_ready = ready; redeemed = counters })

pub data Reachable (codes_of : String → PromoCode) (start : PromoStore) : PromoStore → Type 0 where
  here : Reachable codes_of start start
  next :
      {s after : PromoStore}
      → Reachable codes_of start s
      → Step codes_of s after
      → Reachable codes_of start after

abbrev pub AtMost : ℕ → Option ℕ → Type 0
AtMost used none = Unit
AtMost used (some most) = used ≤ most

-- No code has more redemptions than it may have, in all and by one customer.
unfoldable pub WithinLimits : (String → PromoCode) → List PromoCodeRedemption → Type 0
WithinLimits codes_of rows =
    (id : String)
    → AtMost (count_redemptions rows id) (codes_of id).max_redemptions
      × ((customer_id : String)
          → AtMost (count_of_customer rows id customer_id)
              (codes_of id).max_redemptions_per_customer)

redemption_of : PromoCode → String → String → ℕ → PromoCodeRedemption
redemption_of promo order_id customer_id amount = record {
  promo_code_id = promo.id;
  order_id = order_id;
  customer_id = customer_id;
  discount_amount = amount;
}

assert_parts :
    (rows : List PromoCodeRedemption) (promo : PromoCode) (customer_id : String)
    → assert_promo_redemption_capacity rows promo customer_id ≡ ok tt
    → (is_used_up (count_redemptions rows promo.id) promo.max_redemptions ≡ false)
      × (is_used_up (count_of_customer rows promo.id customer_id) promo.max_redemptions_per_customer
          ≡ false)
unfolding assert_promo_redemption_capacity
assert_parts rows promo customer_id e =
    let (free, e1) =
      if_ok (is_used_up (count_redemptions rows promo.id) promo.max_redemptions) no_longer_available
        _ e in
    let (free', _) =
      if_ok
        (is_used_up (count_of_customer rows promo.id customer_id)
          promo.max_redemptions_per_customer)
        no_longer_available (ok tt) e1 in
    (free, free')

redeem_parts :
    (s after : PromoStore) (promo : PromoCode) (order_id customer_id : String) (amount : ℕ)
    → redeem s promo order_id customer_id amount ≡ ok after
    → (is_used_up (count_redemptions s.redemptions promo.id) promo.max_redemptions ≡ false)
      × (is_used_up
            (count_of_customer s.redemptions promo.id customer_id)
            promo.max_redemptions_per_customer
          ≡ false)
      × (after.redemptions ≡ redemption_of promo order_id customer_id amount ∷ s.redemptions)
unfolding redeem redemption_of
redeem_parts s after promo order_id customer_id amount e =
    let (_, checked, made) =
      bind_parts (assert_promo_redemption_capacity s.redemptions promo customer_id) _ e in
    let (free, free') = assert_parts s.redemptions promo customer_id checked in
    (free, free', ap (λ (t : PromoStore). t.redemptions) (sym (ok_inj made)))

room :
    (used used' : ℕ) (most : Option ℕ)
    → used' ≤ suc used
    → is_used_up used most ≡ false
    → AtMost used' most
room used used' none k h = tt
room used used' (some most) k h = ground arith

both : {a b : Bool} → (a && b) ≡ true → (a ≡ true) × (b ≡ true)
both {a = true} {b = true} h = (refl, refl)
both {a = true} {b = false} h = cc
both {a = false} h = cc

claim_rows :
    (s : PromoStore) (id : String) (most : ℕ)
    → (claim_promo_slot s id most).0.redemptions ≡ s.redemptions
unfolding claim_promo_slot
claim_rows s id most = ground arith

pub release_rows :
    (s : PromoStore) (id : String) → (release_promo_slot s id).redemptions ≡ s.redemptions
unfolding release_promo_slot
release_rows s id =
    if_both (λ (t : PromoStore). t.redemptions ≡ s.redemptions) (not s.redis_ready) refl
      (decr_rows (s.redeemed id))
  where
    decr_rows : (o : Option ℕ) → (decr_if_positive s id o).redemptions ≡ s.redemptions
    decr_rows none = refl
    decr_rows (some n) = ground arith

module _ (codes_of : String → PromoCode) (keyed : (id : String) → (codes_of id).id ≡ id) where
  count_after :
      (id order_id customer_id other : String) (amount : ℕ) (rows : List PromoCodeRedemption)
      → is_used_up (count_redemptions rows id) (codes_of id).max_redemptions ≡ false
      → AtMost (count_redemptions rows other) (codes_of other).max_redemptions
      → AtMost
          (count_redemptions (redemption_of (codes_of id) order_id customer_id amount ∷ rows) other)
          (codes_of other).max_redemptions
  unfolding redemption_of
  count_after id order_id customer_id other amount rows free h =
      elim (Bool-cases (same (codes_of id).id other)) [
        | inl t ↦
            subst
              (λ o.
                AtMost
                  (count_redemptions
                    (redemption_of (codes_of id) order_id customer_id amount ∷ rows) o)
                  (codes_of o).max_redemptions)
              (sym (keyed id) ∙ same-eq _ _ t)
              (room (count_redemptions rows id) _ (codes_of id).max_redemptions (ground arith) free)
        | inr t ↦ simp t h
      ]

  customer_count_after :
      (id order_id customer_id other other_customer : String) (amount : ℕ)
      (rows : List PromoCodeRedemption)
      → is_used_up
          (count_of_customer rows id customer_id)
          (codes_of id).max_redemptions_per_customer
        ≡ false
      → AtMost
          (count_of_customer rows other other_customer)
          (codes_of other).max_redemptions_per_customer
      → AtMost
          (count_of_customer
            (redemption_of (codes_of id) order_id customer_id amount ∷ rows)
            other
            other_customer)
          (codes_of other).max_redemptions_per_customer
  unfolding redemption_of
  customer_count_after id order_id customer_id other other_customer amount rows free h =
      elim (Bool-cases (same (codes_of id).id other && same customer_id other_customer)) [
        | inl t ↦
            let (a, b) = both t in
            subst
              (λ o.
                AtMost
                  (count_of_customer
                    (redemption_of (codes_of id) order_id customer_id amount ∷ rows) o
                    other_customer)
                  (codes_of o).max_redemptions_per_customer)
              (sym (keyed id) ∙ same-eq _ _ a)
              (subst
                (λ c.
                  AtMost
                    (count_of_customer
                      (redemption_of (codes_of id) order_id customer_id amount ∷ rows) id c)
                    (codes_of id).max_redemptions_per_customer)
                (same-eq _ _ b)
                (room (count_of_customer rows id customer_id) _
                  (codes_of id).max_redemptions_per_customer (ground arith) free))
        | inr t ↦ simp t h
      ]

  Step-WithinLimits :
      {s after : PromoStore}
      → Step codes_of s after
      → WithinLimits codes_of s.redemptions
      → WithinLimits codes_of after.redemptions
  unfolding WithinLimits
  Step-WithinLimits {s = s} (claim_step id most) h = rw (claim_rows s id most) h
  Step-WithinLimits {s = s} (release_step id) h = rw (release_rows s id) h
  Step-WithinLimits {s = s} (redis_step ready counters) h = h
  Step-WithinLimits {s = s} {after = after} (redeem_step id order_id customer_id amount e) h =
      let (free, free', made) = redeem_parts s after (codes_of id) order_id customer_id amount e in
      rw made λ other. (
        count_after id order_id customer_id other amount s.redemptions
            (subst
              (λ i.
                is_used_up (count_redemptions s.redemptions i) (codes_of id).max_redemptions
                ≡ false)
              (keyed id) free)
            (h other).0,
        λ other_customer.
            customer_count_after id order_id customer_id other other_customer amount s.redemptions
              (subst
                (λ i.
                  is_used_up (count_of_customer s.redemptions i customer_id)
                    (codes_of id).max_redemptions_per_customer
                  ≡ false)
                (keyed id) free')
              ((h other).1 other_customer),
      )

-- With the limits of the codes fixed and every code stored under its own id, no code is redeemed
-- more often than its limits allow, in all and by one customer, after any sequence of claims,
-- releases and redemptions by any number of processes, whatever happens to the counters of Redis.
pub Reachable-WithinLimits :
    (codes_of : String → PromoCode) (start s : PromoStore)
    → ((id : String) → (codes_of id).id ≡ id)
    → WithinLimits codes_of start.redemptions
    → Reachable codes_of start s
    → WithinLimits codes_of s.redemptions
Reachable-WithinLimits codes_of start s keyed h here = h
Reachable-WithinLimits codes_of start s keyed h (next {s = before} r step) =
    Step-WithinLimits codes_of keyed step (Reachable-WithinLimits codes_of start before keyed h r)
