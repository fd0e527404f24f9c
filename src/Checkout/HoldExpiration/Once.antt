-- ===== src/Checkout/HoldExpiration/Once.antt =====
-- A hold gives its stock back once, whichever of the two ways comes first.
use bookingqube_nest_backend.Prelude.{
  ◌≡◌, refl, sym, ◌∙◌, ap, ℕ, String, some, List, [], ◌∷◌, map, Bool, true, false, arith,
  Option-cases, Bool-cases, inl, inr, ◌⊎◌, some_inj,
}
use bookingqube_nest_backend.Prelude.Text.{same, same_refl, same-eq}
use bookingqube_nest_backend.Inventory.Model.{InventoryDelta}
use bookingqube_nest_backend.Checkout.Records.{TicketHold, Bookings}
use bookingqube_nest_backend.Checkout.HoldExpiration.{
  is_active_hold, has_id, expire_hold, expire_claimed, settle_claimed, claimed_ids,
  release_expired_holds, find_hold, process_hold_expire, has_pending_advance,
}

pub expire_hold-id : (ids : List String) (h : TicketHold) → (expire_hold ids h).id ≡ h.id
expire_hold-id ids h = ground arith

pub expire_hold-inactive :
    (ids : List String) (h : TicketHold)
    → has_id ids h.id ≡ true
    → is_active_hold (expire_hold ids h).status ≡ false
expire_hold-inactive ids h m = elim (Bool-cases (is_active_hold h.status)) [
  | inl a ↦ rw (m, a) refl
  | inr a ↦ rw (m, a) a
]

-- A claimed hold is found with another status than active.
pub find_hold-expire :
    (ids : List String) (id : String) (holds : List TicketHold) (h : TicketHold)
    → has_id ids id ≡ true
    → find_hold id (map (expire_hold ids) holds) ≡ some h
    → is_active_hold h.status ≡ false
unfolding find_hold
find_hold-expire ids id [] h m e = cc
find_hold-expire ids id (x ∷ holds) h m e = elim (Bool-cases (same x.id id)) [
  | inl k ↦
      let found : some (expire_hold ids x) ≡ some h = rw (expire_hold-id ids x, k) at e in
      ap (λ (y : TicketHold). is_active_hold y.status) (sym (some_inj found))
      ∙ expire_hold-inactive ids x (ap (has_id ids) (same-eq x.id id k) ∙ m)
  | inr k ↦ find_hold-expire ids id holds h m (rw (expire_hold-id ids x, k) at e)
]

-- A job of a hold that is found in another state, or not at all, changes nothing.
pub process_hold_expire-inactive :
    (s : Bookings) (id : String) (deltas : List InventoryDelta)
    → ((h : TicketHold) → find_hold id s.holds ≡ some h → is_active_hold h.status ≡ false)
    → process_hold_expire s id deltas ≡ s
unfolding process_hold_expire
process_hold_expire-inactive s id deltas inactive = elim (Option-cases (find_hold id s.holds)) [
  | inl e ↦ rw (e, process_hold_expire) refl
  | inr (h, e) ↦ rw (e, process_hold_expire) (rw (inactive h e) refl)
]

pub List-cases {ℓ} :
    {A : Type ℓ} (xs : List A) → (xs ≡ []) ⊎ ((x : A) × (rest : List A) × (xs ≡ x ∷ rest))
List-cases [] = inl refl
List-cases (x ∷ xs) = inr (x, xs, refl)

expire_none : (holds : List TicketHold) → map (expire_hold []) holds ≡ holds
expire_none [] = refl
expire_none (h ∷ holds) = ap (λ hs. h ∷ hs) (expire_none holds)

pub release_expired-holds :
    (s : Bookings) (locked : String → Bool) (now batch_size : ℕ)
    → (release_expired_holds s locked now batch_size).0.holds
      ≡ map (expire_hold (claimed_ids s locked now batch_size)) s.holds
unfolding release_expired_holds expire_claimed settle_claimed
release_expired-holds s locked now batch_size =
    elim (List-cases (claimed_ids s locked now batch_size)) [
      | inl e ↦ rw (e, release_expired_holds) (sym (expire_none s.holds))
      | inr (x, rest, e) ↦ rw (e, release_expired_holds) refl
    ]

-- After a sweep the jobs of the holds that it claimed change nothing, so that their stock is not
-- given back again.
pub sweep_then_job :
    (s : Bookings) (locked : String → Bool) (now batch_size : ℕ) (id : String)
    (deltas : List InventoryDelta)
    → has_id (claimed_ids s locked now batch_size) id ≡ true
    → let after = (release_expired_holds s locked now batch_size).0 in
      process_hold_expire after id deltas ≡ after
sweep_then_job s locked now batch_size id deltas m =
    let ids = claimed_ids s locked now batch_size in
    let after = (release_expired_holds s locked now batch_size).0 in
    process_hold_expire-inactive after id deltas λ h e.
      find_hold-expire ids id s.holds h m
        (ap (find_hold id) (sym (release_expired-holds s locked now batch_size)) ∙ e)

pub has_id_own : (id : String) → has_id (id ∷ []) id ≡ true
has_id_own id = rw (same_refl id) refl

process_hold_expire-kept :
    (s : Bookings) (id : String) (deltas more : List InventoryDelta)
    → process_hold_expire s id deltas ≡ s
    → process_hold_expire s id more ≡ s
    → process_hold_expire (process_hold_expire s id deltas) id more
      ≡ process_hold_expire s id deltas
process_hold_expire-kept s id deltas more a b =
    ap (λ t. process_hold_expire t id more) a ∙ b ∙ sym a

-- A job that runs again, with whatever deltas, changes nothing.
pub process_hold_expire_twice :
    (s : Bookings) (id : String) (deltas more : List InventoryDelta)
    → process_hold_expire (process_hold_expire s id deltas) id more
      ≡ process_hold_expire s id deltas
unfolding process_hold_expire expire_claimed
process_hold_expire_twice s id deltas more = elim (Option-cases (find_hold id s.holds)) [
  | inl e ↦
      process_hold_expire-kept s id deltas more (rw (e, process_hold_expire) refl)
        (rw (e, process_hold_expire) refl)
  | inr (h, e) ↦ elim (Bool-cases (is_active_hold h.status)) [
    | inr idle ↦
        process_hold_expire-kept s id deltas more (rw (e, process_hold_expire) (rw idle refl))
          (rw (e, process_hold_expire) (rw idle refl))
    | inl busy ↦ elim (Bool-cases (has_pending_advance s.advance_payments id)) [
      | inl deposit ↦
          process_hold_expire-kept s id deltas more
            (rw (e, process_hold_expire) (rw (busy, deposit) refl))
            (rw (e, process_hold_expire) (rw (busy, deposit) refl))
      | inr free ↦
          let expired_holds : (process_hold_expire s id deltas).holds
              ≡ map (expire_hold (id ∷ [])) s.holds =
            rw (e, process_hold_expire) (rw (busy, free) refl) in
          process_hold_expire-inactive (process_hold_expire s id deltas) id more λ x found.
            find_hold-expire (id ∷ []) id s.holds x (has_id_own id)
              (ap (find_hold id) (sym expired_holds) ∙ found)
    ]
  ]
]
