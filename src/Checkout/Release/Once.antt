-- ===== src/Checkout/Release/Once.antt =====
-- A hold is released to its customer or to who has its token, and gives its stock back once:
-- whichever of a release, the sweep and its job comes first, the others change nothing.
use bookingqube_nest_backend.Prelude.{
  not-false, inl, inr, ◌≡◌, refl, sym, ap, ◌∙◌, subst, ℕ, String, Option, none, some, some_inj,
  List, [], ◌∷◌, map, Bool, true, false, not, arith, Bool-cases, filter,
}
use bookingqube_nest_backend.Prelude.Text.{Text, same, same-eq}
use bookingqube_nest_backend.Prelude.Http.{ok, ok_inj, if_ok}
use bookingqube_nest_backend.Inventory.Model.{InventoryDelta}
use bookingqube_nest_backend.Checkout.Records.{TicketHold, Bookings}
use bookingqube_nest_backend.Checkout.HoldExpiration.{
  is_active_hold, find_hold, process_hold_expire, release_expired_holds, claimed_ids, has_id,
  expire_hold,
}
use bookingqube_nest_backend.Checkout.HoldExpiration.Once.{
  process_hold_expire-inactive, find_hold-expire, expire_hold-id, release_expired-holds,
}
use bookingqube_nest_backend.Checkout.Release.{
  ReleaseReply, already_released, hold_released, release_row, free_hold, release_found,
  release_hold, may_release, belongs_to,
}

find_hold-id :
    (id : String) (holds : List TicketHold) (h : TicketHold)
    → find_hold id holds ≡ some h
    → same h.id id ≡ true
unfolding find_hold
find_hold-id id [] h e = cc
find_hold-id id (x ∷ holds) h e = elim (Bool-cases (same x.id id)) [
  | inl k ↦ subst (λ (y : TicketHold). same y.id id ≡ true) (some_inj (rw k at e)) k
  | inr k ↦ find_hold-id id holds h (rw k at e)
]

release_row-id : (id : String) (h : TicketHold) → (release_row id h).id ≡ h.id
release_row-id id h = ground arith

find_hold-release :
    (id : String) (holds : List TicketHold) (h : TicketHold)
    → find_hold id (map (release_row id) holds) ≡ some h
    → is_active_hold h.status ≡ false
unfolding find_hold
find_hold-release id [] h e = cc
find_hold-release id (x ∷ holds) h e = elim (Bool-cases (same x.id id)) [
  | inl k ↦
      ap (λ (y : TicketHold). is_active_hold y.status)
        (sym (some_inj (rw (release_row-id id x, k) at e)))
  | inr k ↦ find_hold-release id holds h (rw (release_row-id id x, k) at e)
]

module _ (digest : Text → String) where
  -- What an answer `hold_released` says.
  released_parts :
      (s after : Bookings) (now : ℕ) (id : String) (actor_id : Option String) (token : Option Text)
      → release_hold digest s now id actor_id token ≡ ok (after, hold_released)
      → (h : TicketHold) × (find_hold id s.holds ≡ some h)
        × (may_release digest h actor_id token ≡ true)
        × (after.holds ≡ map (release_row id) s.holds)
  unfolding release_hold free_hold
  released_parts s after now id actor_id token e = found (find_hold id s.holds) refl e
    where
      found :
          (o : Option TicketHold)
          → find_hold id s.holds ≡ o
          → release_found digest s now actor_id token o ≡ ok (after, hold_released)
          → (h : TicketHold) × (find_hold id s.holds ≡ some h)
            × (may_release digest h actor_id token ≡ true)
            × (after.holds ≡ map (release_row id) s.holds)
      found none f k = cc
      found (some h) f k = elim (Bool-cases (is_active_hold h.status)) [
        | inl busy ↦
            let (allowed, done) =
              if_ok (not (may_release digest h actor_id token)) _
                (ok (free_hold s now h (filter (belongs_to h.id) s.orders), hold_released))
                (rw busy at k) in
            (
              h,
              f,
              not-false _ allowed,
              ap (λ (r : Bookings × ReleaseReply). r.0.holds) (sym (ok_inj done))
                  ∙ ap (λ i. map (release_row i) s.holds)
                      (same-eq h.id id (find_hold-id id s.holds h f)),
            )
        | inr idle ↦
            (let answers : already_released ≡ hold_released =
                ap (λ (r : Bookings × ReleaseReply). r.1) (ok_inj (rw idle at k)) in
              cc)
      ]

  release_hold-inactive :
      (s : Bookings) (now : ℕ) (id : String) (actor_id : Option String) (token : Option Text)
      (h : TicketHold)
      → find_hold id s.holds ≡ some h
      → is_active_hold h.status ≡ false
      → release_hold digest s now id actor_id token ≡ ok (s, already_released)
  unfolding release_hold
  release_hold-inactive s now id actor_id token h e idle = rw (e, release_hold) (rw idle refl)

  released-idle :
      (s after : Bookings) (now : ℕ) (id : String) (actor_id : Option String) (token : Option Text)
      → release_hold digest s now id actor_id token ≡ ok (after, hold_released)
      → (h : TicketHold) → find_hold id after.holds ≡ some h
      → is_active_hold h.status ≡ false
  released-idle s after now id actor_id token e h f =
      let (_, _, _, holds) = released_parts s after now id actor_id token e in
      find_hold-release id s.holds h (ap (find_hold id) (sym holds) ∙ f)

  still_found :
      (id : String) (holds : List TicketHold) (f : TicketHold → TicketHold)
      → ((h : TicketHold) → (f h).id ≡ h.id)
      → (h : TicketHold) → find_hold id holds ≡ some h
      → (x : TicketHold) × (find_hold id (map f holds) ≡ some x)
  unfolding find_hold
  still_found id [] f kept h e = cc
  still_found id (x ∷ holds) f kept h e = elim (Bool-cases (same x.id id)) [
    | inl k ↦ (f x, rw (kept x, k) refl)
    | inr k ↦
        let (y, found) = still_found id holds f kept h (rw k at e) in (y, rw (kept x, k) found)
  ]

  -- After a release, its delayed job changes nothing, and a second release, by whoever, answers that
  -- the hold was released already and changes nothing: the stock is given back once.
  pub release_once :
      (s after : Bookings) (now later : ℕ) (id : String) (actor_id other : Option String)
      (token presented : Option Text) (deltas : List InventoryDelta)
      → release_hold digest s now id actor_id token ≡ ok (after, hold_released)
      → (process_hold_expire after id deltas ≡ after)
        × (release_hold digest after later id other presented ≡ ok (after, already_released))
  release_once s after now later id actor_id other token presented deltas e =
      let idle = released-idle s after now id actor_id token e in
      let (h, found, _, holds) = released_parts s after now id actor_id token e in
      let (x, again) = still_found id s.holds (release_row id) (release_row-id id) h found in
      let there = ap (find_hold id) holds ∙ again in
      (
        process_hold_expire-inactive after id deltas idle,
        release_hold-inactive after later id other presented x there (idle x there),
      )

  -- A hold that the sweep has claimed is not released again: the answer is that it was released
  -- already, and nothing changes.
  pub sweep_then_release :
      (s : Bookings) (locked : String → Bool) (now batch_size later : ℕ) (h : TicketHold)
      (actor_id : Option String) (token : Option Text)
      → find_hold h.id s.holds ≡ some h
      → has_id (claimed_ids s locked now batch_size) h.id ≡ true
      → let after = (release_expired_holds s locked now batch_size).0 in
        release_hold digest after later h.id actor_id token ≡ ok (after, already_released)
  sweep_then_release s locked now batch_size later h actor_id token f m =
      let ids = claimed_ids s locked now batch_size in
      let after = (release_expired_holds s locked now batch_size).0 in
      let holds = release_expired-holds s locked now batch_size in
      let (x, again) = still_found h.id s.holds (expire_hold ids) (expire_hold-id ids) h f in
      release_hold-inactive after later h.id actor_id token x (ap (find_hold h.id) holds ∙ again)
        (find_hold-expire ids h.id s.holds x m again)
