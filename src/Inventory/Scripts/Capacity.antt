-- ===== src/Inventory/Scripts/Capacity.antt =====
-- A reservation never takes more than the stock, and takes all that it is asked for or nothing.
use bookingqube_nest_backend.Prelude.{
  ℕ, suc, ◌+◌, ◌≤◌, ◌≡◌, ◌≢◌, ◌↔◌, ◌⊎◌, refl, String, Option, none, some, List, [], ◌∷◌, arith,
  Option-cases, inl, inr,
}
use bookingqube_nest_backend.Inventory.Model.{
  InventoryDelta, Mode, hold, sold, ℤ, pos, negsuc, active, Hash, Redis,
}
use bookingqube_nest_backend.Inventory.Deltas.Merge.{
  IsDistinct, delta_for, delta_for_head, delta_for_tail,
}
use bookingqube_nest_backend.Inventory.Scripts.{
  done, refusal, first_refusal, count_up, reserve_script,
}
use bookingqube_nest_backend.Inventory.Scripts.Effect.{
  written, applied, each_key_lem, first_refusal-none,
}

-- What is sold or held is at most the stock, where there is a limit.
abbrev pub Fits : ℤ → ℕ → Type 0
Fits (pos total) committed = committed ≤ total
Fits (negsuc _) committed = Unit {0}

abbrev pub HashFits : Option Hash → Type 0
HashFits none = Unit {0}
HashFits (some h) = Fits h.total (h.sold + h.held)

abbrev pub NoOversell : Redis → Type 0
NoOversell redis = (id : String) → HashFits (redis id)

-- A hash that can give a quantity.
abbrev pub Grants : ℕ → Option Hash → Type 0
Grants qty none = ⊥
Grants qty (some h) = (1 ≤ qty) × (h.status ≡ active) × Fits h.total (h.sold + h.held + qty)

pub refusal-none_iff : (qty : ℕ) (h : Option Hash) → (refusal qty h ≡ none) ↔ Grants qty h
unfolding refusal
refusal-none_iff qty none = ground arith
refusal-none_iff qty (some h) = ground arith

count_up-HashFits :
    (mode : Mode) (qty : ℕ) (h : Option Hash)
    → Grants qty h
    → HashFits (written (count_up mode qty) h)
count_up-HashFits mode qty none g = tt
count_up-HashFits hold qty (some h) g = ground arith
count_up-HashFits sold qty (some h) g = ground arith

-- Every delta of the list can be given, from the hashes as they are.
abbrev pub AllGranted : Redis → List InventoryDelta → Type 0
AllGranted redis ds = (id : String) (qty : ℕ) → delta_for id ds ≡ some qty → Grants qty (redis id)

granted_after_check :
    (redis : Redis) (i : ℕ) (ds : List InventoryDelta)
    → first_refusal redis i ds ≡ none
    → AllGranted redis ds
granted_after_check redis i ds e id qty k =
    (refusal-none_iff qty (redis id)).0 (first_refusal-none redis i id qty ds e k)

applied-HashFits :
    (mode : Mode) (h : Option Hash) (o : Option ℕ)
    → HashFits h
    → ((qty : ℕ) → o ≡ some qty → Grants qty h)
    → HashFits (applied (count_up mode) o h)
applied-HashFits mode h none fits g = fits
applied-HashFits mode h (some qty) fits g = count_up-HashFits mode qty h (g qty refl)

-- No reservation, whatever its reply, makes the sold and held tickets of an item exceed a limited
-- stock, if its keys are distinct and no stock was exceeded before.
pub reserve_script-NoOversell :
    (redis : Redis) (ds : List InventoryDelta) (mode : Mode)
    → IsDistinct ds
    → NoOversell redis
    → NoOversell (reserve_script redis ds mode).0
unfolding reserve_script
reserve_script-NoOversell redis ds mode distinct fits id =
    elim (Option-cases (first_refusal redis 1 ds)) [
      | inl e ↦
          rw (e, reserve_script, each_key_lem (count_up mode) redis id ds distinct)
            (applied-HashFits mode (redis id) (delta_for id ds) (fits id)
              (granted_after_check redis 1 ds e id))
      | inr (r, e) ↦ rw (e, reserve_script) (fits id)
    ]

check_of_granted :
    (redis : Redis) (i : ℕ) (ds : List InventoryDelta)
    → IsDistinct ds
    → AllGranted redis ds
    → first_refusal redis i ds ≡ none
unfolding first_refusal
check_of_granted redis i [] distinct g = refl
check_of_granted redis i (d ∷ ds) distinct g =
    rw
      (
        (refusal-none_iff d.quantity (redis d.inventory_item_id)).1
            (g d.inventory_item_id d.quantity (delta_for_head d ds)),
        first_refusal,
      )
      (check_of_granted redis (suc i) ds distinct.1
        (λ id qty k. g id qty (delta_for_tail id qty d ds distinct k)))

-- For deltas with distinct keys, either every delta can be given: the script answers `done` and gives
-- each of them; or not: it answers with a refusal and writes nothing.
pub reserve_script_lem :
    (redis : Redis) (ds : List InventoryDelta) (mode : Mode)
    → IsDistinct ds
    → (AllGranted redis ds
        × ((reserve_script redis ds mode).1 ≡ done)
        × ((id : String)
            → (reserve_script redis ds mode).0 id
              ≡ applied (count_up mode) (delta_for id ds) (redis id)))
      ⊎ ((¬ AllGranted redis ds)
          × ((reserve_script redis ds mode).1 ≢ done)
          × ((reserve_script redis ds mode).0 ≡ redis))
unfolding reserve_script
reserve_script_lem redis ds mode distinct = elim (Option-cases (first_refusal redis 1 ds)) [
  | inl e ↦ inl (
    granted_after_check redis 1 ds e,
    rw (e, reserve_script),
    λ id. rw (e, reserve_script) (each_key_lem (count_up mode) redis id ds distinct),
  )
  | inr ((i, reason), e) ↦ inr (
    λ g. cc (check_of_granted redis 1 ds distinct g),
    rw (e, reserve_script) (λ p. cc),
    rw (e, reserve_script),
  )
]
