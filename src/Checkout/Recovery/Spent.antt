-- ===== src/Checkout/Recovery/Spent.antt =====
-- A recovery verifies only the payment it stands for, and none once it is resolved.
use bookingqube_nest_backend.Prelude.{
  ℕ, ◌+◌, ◌≤◌, ◌<◌, ◌≡◌, refl, ap, subst, String, Option, none, some, List, [], ◌∷◌, map, Bool,
  true, false, ◌&&◌, ◌||◌, ltb, if◌then◌else◌, arith, All, All-map, All-every, some_inj, Bool-cases,
  inl, inr,
}
use bookingqube_nest_backend.Prelude.Text.{same, codes, same_codes, upper}
use bookingqube_nest_backend.Prelude.Http.{ok, ok_inj, if_err, if_ok}
use bookingqube_nest_backend.Checkout.Records.{Recovery}
use bookingqube_nest_backend.Checkout.HoldExpiration.{is_open}
use bookingqube_nest_backend.Checkout.Recovery.{
  VerifiedPayment, RecoveryKeys, find_newest, newer, verifies, is_mismatch, check_verified,
  assert_verified_customer_payment, is_empty, trimmed, is_key, resolve, resolve_row,
  update_recovery, find_open_match, is_customer_of, same_gateway,
}

module _ {ℓ} (P : Recovery → Type ℓ) where
  newer-All :
      (r : Recovery) (rest : Option Recovery)
      → P r
      → ((q : Recovery) → rest ≡ some q → P q)
      → P (newer r rest)
  newer-All r none h k = h
  newer-All r (some q) h k = either (ltb r.created_at q.created_at)
    where
      either : (b : Bool) → P (if b then q else r)
      either true = k q refl
      either false = h

  -- What every row has that meets the test, the newest has.
  pub find_newest-All :
      (f : Recovery → Bool) (rows : List Recovery) (r : Recovery)
      → All (λ q. f q ≡ true → P q) rows
      → find_newest f rows ≡ some r
      → P r
  unfolding find_newest
  find_newest-All f [] r h e = cc
  find_newest-All f (q ∷ rows) r h e = elim (Bool-cases (f q)) [
    | inl t ↦
        subst P (some_inj (rw t at e))
          (newer-All q (find_newest f rows) (h.0 t) λ x k. find_newest-All f rows x h.1 k)
    | inr t ↦ find_newest-All f rows r h.1 (rw t at e)
  ]

assert_parts :
    (rows : List Recovery) (input : VerifiedPayment) (r : Recovery)
    → assert_verified_customer_payment rows input ≡ ok r
    → (find_newest (verifies input) rows ≡ some r) × (is_mismatch input r ≡ false)
unfolding assert_verified_customer_payment
assert_parts rows input r e = found (find_newest (verifies input) rows) (
    if_err
      (is_empty (trimmed input.provider_session_id) && is_empty (trimmed input.provider_payment_id))
      _ _ e)
  where
    found :
        (o : Option Recovery)
        → check_verified input o ≡ ok r
        → (o ≡ some r) × (is_mismatch input r ≡ false)
    found none k = cc
    found (some q) k =
        let (fits, same_row) = if_ok (is_mismatch input q) _ (ok q) k in
        let e : q ≡ r = ok_inj same_row in
        (ap some e, subst (λ x. is_mismatch input x ≡ false) e fits)

verifies_parts :
    (input : VerifiedPayment) (r : Recovery)
    → verifies input r ≡ true
    → (same_gateway r.gateway input.gateway ≡ true)
      × (is_open r.status ≡ true)
      × (is_customer_of input.customer_id r.customer_id ≡ true)
      × ((is_key (trimmed input.provider_session_id) r.provider_session_id
            || is_key (trimmed input.provider_payment_id) r.provider_payment_id)
          ≡ true)
unfolding verifies
verifies_parts input r h =
    parts (same_gateway r.gateway input.gateway) (is_open r.status)
      (is_customer_of input.customer_id r.customer_id) _ h
  where
    parts :
        (a b c d : Bool)
        → (a && b && c && d) ≡ true
        → (a ≡ true) × (b ≡ true) × (c ≡ true) × (d ≡ true)
    parts true true true true e = (refl, refl, refl, refl)
    parts true true true false e = cc
    parts true true false d e = cc
    parts true false c d e = cc
    parts false b c d e = cc

mismatch_parts :
    (input : VerifiedPayment) (r : Recovery)
    → is_mismatch input r ≡ false
    → (0 < r.amount)
      × (r.amount ≤ input.amount + 10)
      × (input.amount ≤ r.amount + 10)
      × (same_codes (upper (codes r.currency)) (upper (codes input.currency)) ≡ true)
unfolding is_mismatch
mismatch_parts input r h = ground arith

pub verified_fits :
    (rows : List Recovery) (input : VerifiedPayment) (r : Recovery)
    → assert_verified_customer_payment rows input ≡ ok r
    → ((same_gateway r.gateway input.gateway ≡ true)
        × (is_open r.status ≡ true)
        × (is_customer_of input.customer_id r.customer_id ≡ true)
        × ((is_key (trimmed input.provider_session_id) r.provider_session_id
              || is_key (trimmed input.provider_payment_id) r.provider_payment_id)
            ≡ true))
      × (0 < r.amount)
      × (r.amount ≤ input.amount + 10)
      × (input.amount ≤ r.amount + 10)
      × (same_codes (upper (codes r.currency)) (upper (codes input.currency)) ≡ true)
verified_fits rows input r e =
    let (found, fits) = assert_parts rows input r e in
    let (positive, above, below, currency) = mismatch_parts input r fits in
    (
      verifies_parts input r (
          find_newest-All (λ q. verifies input q ≡ true) (verifies input) rows r
            (All-every _ (λ q t. t) rows) found),
      positive,
      above,
      below,
      currency,
    )

-- A row that is not the one with the id, or is not open.
IsSpent : String → Recovery → Type 0
IsSpent id q = (same q.id id ≡ true) → is_open q.status ≡ false

resolved-IsSpent :
    (now : ℕ) (keys : RecoveryKeys) (id : String) (q : Recovery)
    → IsSpent id (update_recovery id (resolve_row now keys) q)
unfolding IsSpent
resolved-IsSpent now keys id q = elim (Bool-cases (same q.id id)) [
  | inl t ↦ rw t λ _. refl
  | inr t ↦ rw t λ k. cc
]

resolve-IsSpent :
    (rows : List Recovery) (now : ℕ) (keys : RecoveryKeys) (r : Recovery)
    → find_open_match rows keys ≡ some r
    → All (IsSpent r.id) (resolve rows now keys)
unfolding resolve
resolve-IsSpent rows now keys r e = rw (e, resolve) (each rows)
  where
    each :
        (qs : List Recovery)
        → All (IsSpent r.id) (map (update_recovery r.id (resolve_row now keys)) qs)
    each [] = tt
    each (q ∷ qs) = (resolved-IsSpent now keys r.id q, each qs)

-- The recovery that is resolved verifies no payment afterwards: a payment that is verified then is so
-- by another recovery.
pub resolve_spends :
    (rows : List Recovery) (now : ℕ) (keys : RecoveryKeys) (input : VerifiedPayment)
    (r used : Recovery)
    → find_open_match rows keys ≡ some r
    → assert_verified_customer_payment (resolve rows now keys) input ≡ ok used
    → same used.id r.id ≡ false
unfolding IsSpent
resolve_spends rows now keys input r used e h =
    let after = resolve rows now keys in
    let spent =
      find_newest-All (IsSpent r.id) (verifies input) after used
        (All-map (λ q s _. s) after (resolve-IsSpent rows now keys r e))
        (assert_parts after input used h).0 in
    let opened = (verified_fits after input used h).0.1 in
    elim (Bool-cases (same used.id r.id)) [ inl t ↦ (let closed = spent t in cc) | inr t ↦ t ]
