-- ===== src/Inventory/Scripts.antt =====
-- The Lua scripts of src/modules/inventory/inventory.scripts.ts, each run atomically by Redis.
pub mod Capacity
pub mod Interleaving
pub mod Effect
use bookingqube_nest_backend.Prelude.{
  ℕ, suc, ◌+◌, ◌-◌, String, Option, none, some, List, [], ◌∷◌, Bool, false, ltb, if◌then◌else◌, not,
}
use bookingqube_nest_backend.Prelude.Dict.{update}
use bookingqube_nest_backend.Inventory.Model.{
  InventoryDelta, Mode, hold, sold, ℤ, pos, negsuc, Hash, Redis, is_active,
}

pub data Refusal : Type 0 where
  bad_qty missing inactive no_stock : Refusal

-- The reply `{0, i, reason}` or `{1}`.
pub data Reply : Type 0 where
  refused : ℕ → Refusal → Reply
  done : Reply

-- `total >= 0 and (total - sold - held) < qty`
abbrev pub short_of : ℤ → ℕ → ℕ → Bool
short_of (pos total) committed qty = ltb total (committed + qty)
short_of (negsuc _) committed qty = false

-- The tests of one round of the first loop.
unfoldable pub refusal : ℕ → Option Hash → Option Refusal
refusal qty none = if ltb qty 1 then some bad_qty else some missing
refusal qty (some h) =
    if ltb qty 1
    then some bad_qty
    else if not (is_active h.status)
    then some inactive
    else if short_of h.total (h.sold + h.held) qty
    then some no_stock
    else none

unfoldable pub first_refusal : Redis → ℕ → List InventoryDelta → Option (ℕ × Refusal)
first_refusal redis i [] = none
first_refusal redis i (d ∷ ds) = elim (refusal d.quantity (redis d.inventory_item_id)) [
  | some reason ↦ some (i, reason)
  | none ↦ first_refusal redis (suc i) ds
]

abbrev pub count_up : Mode → ℕ → Hash → Hash
count_up hold qty h = record h { held = h.held + qty }
count_up sold qty h = record h { sold = h.sold + qty }

-- Writes to a hash that exists and counts a limited stock; all else is left alone.
abbrev pub on_limited : (Hash → Hash) → Redis → String → Redis
on_limited f redis id = elim (redis id) [
  | none ↦ redis
  | some h ↦ elim h.total [ pos _ ↦ update redis id (f h) | negsuc _ ↦ redis ]
]

-- One round for each key.
unfoldable pub each_key : (ℕ → Hash → Hash) → Redis → List InventoryDelta → Redis
each_key f redis [] = redis
each_key f redis (d ∷ ds) = each_key f (on_limited (f d.quantity) redis d.inventory_item_id) ds

unfoldable pub reserve_script : Redis → List InventoryDelta → Mode → Redis × Reply
unfolding first_refusal refusal each_key
reserve_script redis ds mode = elim (first_refusal redis 1 ds) [
  | some (i, reason) ↦ (redis, refused i reason)
  | none ↦ (each_key (count_up mode) redis ds, done)
]

-- The scripts below skip a quantity of 0; their subtractions stop at 0.
abbrev pub release_held : ℕ → Hash → Hash
release_held qty h = if ltb 0 qty then record h { held = h.held - qty } else h

abbrev pub convert_held : ℕ → Hash → Hash
convert_held qty h = if ltb 0 qty then record h { held = h.held - qty; sold = h.sold + qty } else h

abbrev pub release_sold_count : ℕ → Hash → Hash
release_sold_count qty h = if ltb 0 qty then record h { sold = h.sold - qty } else h

unfoldable pub release_script : Redis → List InventoryDelta → Redis
unfolding each_key
release_script = each_key release_held

unfoldable pub convert_script : Redis → List InventoryDelta → Redis
unfolding each_key
convert_script = each_key convert_held

unfoldable pub release_sold_script : Redis → List InventoryDelta → Redis
unfolding each_key
release_sold_script = each_key release_sold_count
