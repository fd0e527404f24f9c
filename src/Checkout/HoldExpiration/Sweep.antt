-- ===== src/Checkout/HoldExpiration/Sweep.antt =====
-- A sweep goes on until no hold that is due and not locked is left.
use bookingqube_nest_backend.Prelude.{
  ℕ, zero, suc, ◌≤◌, ◌<◌, ◌≡◌, refl, sym, ◌∙◌, ap, String, List, [], ◌∷◌, map, filter, any, take,
  length, Bool, true, false, not, ◌&&◌, ◌==◌, arith, Bool-cases, inl, inr, All, All-map,
  length-filter-le, subst, ==_iff,
}
use bookingqube_nest_backend.Prelude.Text.{same}
use bookingqube_nest_backend.Checkout.Records.{TicketHold, AdvancePayment, Bookings}
use bookingqube_nest_backend.Checkout.HoldExpiration.{
  is_active_hold, has_id, is_due, by_expiry, claimed_ids, expire_hold, expire_claimed,
  settle_claimed, release_expired_holds, sweep_loop, run_sweep, default_batch_size,
}
use bookingqube_nest_backend.Checkout.HoldExpiration.Once.{
  release_expired-holds, List-cases, has_id_own,
}
use bookingqube_nest_backend.Checkout.HoldExpiration.Claims.{
  any-by_expiry, any-filter, any-take, take-all, has_id-map, length-map_id, some_has_id,
}

module _ (advances : List AdvancePayment) (locked : String → Bool) (now : ℕ) where
  is_due-expire_hold :
      (ids : List String) (h : TicketHold)
      → is_due advances locked now (expire_hold ids h)
        ≡ (is_due advances locked now h && not (has_id ids h.id))
  unfolding is_due
  is_due-expire_hold ids h = elim (Bool-cases (has_id ids h.id)) [
    | inl m ↦ elim (Bool-cases (is_active_hold h.status)) [
      | inl a ↦ rw (m, a) (ground arith)
      | inr a ↦ rw (m, a) (rw a refl)
    ]
    | inr m ↦ rw m (ground arith)
  ]

  -- How many holds are due.
  abbrev pub count_due : List TicketHold → ℕ
  count_due holds = length (filter (is_due advances locked now) holds)

  count_due-expire_le :
      (ids : List String) (holds : List TicketHold)
      → count_due (map (expire_hold ids) holds) ≤ count_due holds
  count_due-expire_le ids [] = omega arith
  count_due-expire_le ids (h ∷ holds) =
      ground (arith, is_due-expire_hold ids h, count_due-expire_le ids holds)

  count_due-expire_lt :
      (ids : List String) (holds : List TicketHold)
      → any (λ (h : TicketHold). is_due advances locked now h && has_id ids h.id) holds ≡ true
      → count_due (map (expire_hold ids) holds) < count_due holds
  count_due-expire_lt ids [] e = cc
  count_due-expire_lt ids (h ∷ holds) e = ground (
    arith,
    is_due-expire_hold ids h,
    count_due-expire_le ids holds,
    count_due-expire_lt ids holds,
  )

  abbrev Among : List TicketHold → TicketHold → Type 0
  Among holds h =
      is_due advances locked now h ≡ true → any (λ (x : TicketHold). same x.id h.id) holds ≡ true

  abbrev Covered : List String → TicketHold → Type 0
  Covered ids h = is_due advances locked now h ≡ true → has_id ids h.id ≡ true

  none_due :
      (ids : List String) (holds : List TicketHold)
      → All (Covered ids) holds
      → All (λ h. is_due advances locked now h ≡ false) (map (expire_hold ids) holds)
  none_due ids [] h = tt
  none_due ids (x ∷ holds) h =
      (ground (arith, is_due-expire_hold ids x, h.0), none_due ids holds h.1)

  any-filter_cons :
      (f : TicketHold → Bool) (x : TicketHold) (holds : List TicketHold)
      → any f (filter (is_due advances locked now) holds) ≡ true
      → any f (filter (is_due advances locked now) (x ∷ holds)) ≡ true
  any-filter_cons f x holds e = ground arith

  due_has_id :
      (holds : List TicketHold) → All (Among (filter (is_due advances locked now) holds)) holds
  due_has_id [] = tt
  due_has_id (x ∷ holds) = (
    λ e. rw e (ground (arith, has_id_own x.id)),
    All-map {P = Among (filter (is_due advances locked now) holds)}
        {Q = Among (filter (is_due advances locked now) (x ∷ holds))}
        (λ h k e. any-filter_cons (λ (y : TicketHold). same y.id h.id) x holds (k e)) holds
        (due_has_id holds),
  )

  abbrev claim : ℕ → List TicketHold → List String
  claim batch_size holds =
      map (λ (h : TicketHold). h.id)
        (take batch_size (by_expiry (filter (is_due advances locked now) holds)))

  -- A batch that is not full takes every hold that is due.
  short_claim :
      (batch_size : ℕ) (holds : List TicketHold)
      → (length (claim batch_size holds) == batch_size) ≡ false
      → All
          (λ h. is_due advances locked now h ≡ false)
          (map (expire_hold (claim batch_size holds)) holds)
  short_claim batch_size holds e = none_due (claim batch_size holds) holds (
      All-map {P = Among due} {Q = Covered (claim batch_size holds)} (λ h k d. covered h (k d))
        holds (due_has_id holds))
    where
      due : List TicketHold
      due = filter (is_due advances locked now) holds

      covered :
          (h : TicketHold)
          → any (λ (x : TicketHold). same x.id h.id) due ≡ true
          → has_id (claim batch_size holds) h.id ≡ true
      covered h k =
          has_id-map (take batch_size (by_expiry due)) h.id
          ∙ ap (any (λ (x : TicketHold). same x.id h.id)) (
              take-all batch_size (by_expiry due) (
                ap (λ n. n == batch_size) (sym (length-map_id (take batch_size (by_expiry due))))
                ∙ e))
          ∙ any-by_expiry (λ (x : TicketHold). same x.id h.id) due
          ∙ k

  -- A batch that is not empty leaves fewer holds that are due.
  claim_lt :
      (batch_size : ℕ) (holds : List TicketHold) (n : ℕ)
      → length (claim batch_size holds) ≡ suc n
      → count_due (map (expire_hold (claim batch_size holds)) holds) < count_due holds
  claim_lt batch_size holds n e = count_due-expire_lt ids holds (
      sym (any-filter (λ (h : TicketHold). has_id ids h.id) (is_due advances locked now) holds)
      ∙ sym (any-by_expiry (λ (h : TicketHold). has_id ids h.id) due)
      ∙ any-take (λ (h : TicketHold). has_id ids h.id) batch_size (by_expiry due)
          (some_has_id (take batch_size (by_expiry due)) n e))
    where
      due : List TicketHold
      due = filter (is_due advances locked now) holds

      ids : List String
      ids = claim batch_size holds

-- A sweep leaves the deposits alone and returns the number of the holds that it claimed.
release_expired_parts :
    (s : Bookings) (locked : String → Bool) (now batch_size : ℕ)
    → ((release_expired_holds s locked now batch_size).0.advance_payments ≡ s.advance_payments)
      × ((release_expired_holds s locked now batch_size).1
          ≡ length (claimed_ids s locked now batch_size))
unfolding release_expired_holds expire_claimed settle_claimed
release_expired_parts s locked now batch_size =
    elim (List-cases (claimed_ids s locked now batch_size)) [
      | inl e ↦ (rw (e, release_expired_holds) refl, rw (e, release_expired_holds) refl)
      | inr (x, rest, e) ↦ (rw (e, release_expired_holds) refl, rw (e, release_expired_holds) refl)
    ]

-- With more fuel than holds that are due, the loop ends with none that is.
sweep_loop_lem :
    (fuel : ℕ) (s : Bookings) (locked : String → Bool) (now : ℕ)
    → count_due s.advance_payments locked now s.holds < fuel
    → All (λ h. is_due s.advance_payments locked now h ≡ false) (sweep_loop fuel s locked now).holds
unfolding sweep_loop claimed_ids
sweep_loop_lem zero s locked now h = absurd (omega arith)
sweep_loop_lem (suc fuel) s locked now h = elim (Bool-cases (result.1 == default_batch_size)) [
  | inl full ↦
      let size : length ids ≡ 100 = sym parts.1 ∙ (==_iff result.1 default_batch_size).0 full in
      let fewer = claim_lt s.advance_payments locked now default_batch_size s.holds 99 size in
      rw full (
        subst
          (λ a. All (λ h. is_due a locked now h ≡ false) (sweep_loop fuel after locked now).holds)
          parts.0 (sweep_loop_lem fuel after locked now (omega (arith, fewer, h, counted))))
  | inr short ↦ rw short (
      subst (λ hs. All (λ h. is_due s.advance_payments locked now h ≡ false) hs) (sym holds_after)
        (short_claim s.advance_payments locked now default_batch_size s.holds
          (ap (λ n. n == default_batch_size) (sym parts.1) ∙ short)))
]
  where
    result : Bookings × ℕ
    result = release_expired_holds s locked now default_batch_size

    after : Bookings
    after = result.0

    ids : List String
    ids = claimed_ids s locked now default_batch_size

    parts : (after.advance_payments ≡ s.advance_payments) × (result.1 ≡ length ids)
    parts = release_expired_parts s locked now default_batch_size

    holds_after : after.holds ≡ map (expire_hold ids) s.holds
    holds_after = release_expired-holds s locked now default_batch_size

    counted :
        count_due after.advance_payments locked now after.holds
        ≡ count_due s.advance_payments locked now (map (expire_hold ids) s.holds)
    counted =
        ap (λ a. count_due a locked now after.holds) parts.0
        ∙ ap (count_due s.advance_payments locked now) holds_after

-- A sweep ends, and of the holds that no other transaction has locked it leaves none active whose
-- time has come, except those with a pending deposit.
pub run_sweep_lem :
    (s : Bookings) (locked : String → Bool) (now : ℕ)
    → All (λ h. is_due s.advance_payments locked now h ≡ false) (run_sweep s locked now).holds
unfolding run_sweep
run_sweep_lem s locked now =
    sweep_loop_lem (suc (length s.holds)) s locked now
      (omega (arith, length-filter-le (is_due s.advance_payments locked now) s.holds))
