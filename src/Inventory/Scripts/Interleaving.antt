-- ===== src/Inventory/Scripts/Interleaving.antt =====
-- The scripts of any number of clients, one after another in any order: Redis runs each script
-- alone, so what clients do at the same time is a sequence of scripts.
use bookingqube_nest_backend.Prelude.{
  ℕ, ◌≤◌, ◌≡◌, refl, sym, String, Option, none, some, List, [], ◌∷◌, arith, subst,
}
use bookingqube_nest_backend.Prelude.Text.{text_dec}
use bookingqube_nest_backend.Inventory.Model.{InventoryDelta, Mode, pos, negsuc, Hash, Redis}
use bookingqube_nest_backend.Inventory.Deltas.Merge.{IsDistinct, delta_for}
use bookingqube_nest_backend.Inventory.Scripts.{
  on_limited, each_key, reserve_script, release_held, convert_held, release_sold_count,
  release_script, convert_script, release_sold_script,
}
use bookingqube_nest_backend.Inventory.Scripts.Effect.{
  written, applied, each_key_lem, on_limited_self, on_limited_ne,
}
use bookingqube_nest_backend.Inventory.Scripts.Capacity.{
  HashFits, NoOversell, reserve_script-NoOversell,
}

-- The hold that is converted is still counted.
abbrev pub Holds : ℕ → Option Hash → Type 0
Holds qty none = Unit {0}
Holds qty (some h) = qty ≤ h.held

abbrev pub AllHeld : Redis → List InventoryDelta → Type 0
AllHeld redis ds = (id : String) (qty : ℕ) → delta_for id ds ≡ some qty → Holds qty (redis id)

-- One script, with the lists that the service gives it: distinct keys for a reservation and a
-- conversion, and for a conversion tickets that are held.
pub data Step (redis after : Redis) : Type 0 where
  reserve_step :
      (ds : List InventoryDelta) (mode : Mode)
      → IsDistinct ds
      → after ≡ (reserve_script redis ds mode).0
      → Step redis after
  release_step : (ds : List InventoryDelta) → after ≡ release_script redis ds → Step redis after
  convert_step :
      (ds : List InventoryDelta)
      → IsDistinct ds
      → AllHeld redis ds
      → after ≡ convert_script redis ds
      → Step redis after
  release_sold_step :
      (ds : List InventoryDelta) → after ≡ release_sold_script redis ds → Step redis after

pub data Reachable (start : Redis) : Redis → Type 0 where
  at_start : Reachable start start
  and_then :
      {redis after : Redis} → Reachable start redis → Step redis after → Reachable start after

written-HashFits :
    (f : Hash → Hash)
    → ((h : Hash) → HashFits (some h) → HashFits (some (f h)))
    → (o : Option Hash) → HashFits o
    → HashFits (written f o)
written-HashFits f keeps none fits = tt
written-HashFits f keeps (some h) fits =
    elim h.total as (λ t. HashFits (elim t [ pos _ ↦ some (f h) | negsuc _ ↦ some h ])) [
      | pos _ ↦ keeps h fits
      | negsuc _ ↦ fits
    ]

on_limited-NoOversell :
    (f : Hash → Hash) (redis : Redis) (k : String)
    → ((h : Hash) → HashFits (some h) → HashFits (some (f h)))
    → NoOversell redis
    → NoOversell (on_limited f redis k)
on_limited-NoOversell f redis k keeps fits id = elim (text_dec k id) [
  | yes p ↦
      subst (λ i. HashFits (on_limited f redis k i)) p
        (rw (on_limited_self f redis k) (written-HashFits f keeps (redis k) (fits k)))
  | no p ↦ rw (on_limited_ne f redis k id p) (fits id)
]

each_key-NoOversell :
    (f : ℕ → Hash → Hash) (redis : Redis) (ds : List InventoryDelta)
    → ((qty : ℕ) (h : Hash) → HashFits (some h) → HashFits (some (f qty h)))
    → NoOversell redis
    → NoOversell (each_key f redis ds)
unfolding each_key
each_key-NoOversell f redis [] keeps fits = fits
each_key-NoOversell f redis (d ∷ ds) keeps fits =
    each_key-NoOversell f (on_limited (f d.quantity) redis d.inventory_item_id) ds keeps
      (on_limited-NoOversell (f d.quantity) redis d.inventory_item_id (keeps d.quantity) fits)

release_held-HashFits :
    (qty : ℕ) (h : Hash) → HashFits (some h) → HashFits (some (release_held qty h))
release_held-HashFits qty h fits = ground arith

release_sold_count-HashFits :
    (qty : ℕ) (h : Hash) → HashFits (some h) → HashFits (some (release_sold_count qty h))
release_sold_count-HashFits qty h fits = ground arith

convert_held-HashFits :
    (qty : ℕ) (o : Option Hash) → Holds qty o → HashFits o → HashFits (written (convert_held qty) o)
convert_held-HashFits qty none holds fits = tt
convert_held-HashFits qty (some h) holds fits = ground arith

convert_script-NoOversell :
    (redis : Redis) (ds : List InventoryDelta)
    → IsDistinct ds
    → AllHeld redis ds
    → NoOversell redis
    → NoOversell (convert_script redis ds)
unfolding convert_script
convert_script-NoOversell redis ds distinct holds fits id =
    rw (each_key_lem convert_held redis id ds distinct) (go (delta_for id ds) (holds id))
  where
    go :
        (o : Option ℕ)
        → ((qty : ℕ) → o ≡ some qty → Holds qty (redis id))
        → HashFits (applied convert_held o (redis id))
    go none k = fits id
    go (some qty) k = convert_held-HashFits qty (redis id) (k qty refl) (fits id)

Step-NoOversell : (redis after : Redis) → Step redis after → NoOversell redis → NoOversell after
unfolding release_script release_sold_script
Step-NoOversell redis after (reserve_step ds mode distinct e) fits =
    subst NoOversell (sym e) (reserve_script-NoOversell redis ds mode distinct fits)
Step-NoOversell redis after (release_step ds e) fits =
    subst NoOversell (sym e) (each_key-NoOversell release_held redis ds release_held-HashFits fits)
Step-NoOversell redis after (convert_step ds distinct holds e) fits =
    subst NoOversell (sym e) (convert_script-NoOversell redis ds distinct holds fits)
Step-NoOversell redis after (release_sold_step ds e) fits =
    subst NoOversell (sym e)
      (each_key-NoOversell release_sold_count redis ds release_sold_count-HashFits fits)

-- However the scripts of clients interleave, no item's sold and held tickets exceed a limited stock,
-- if none did at the start, the keys of each reservation and conversion are distinct, and each
-- conversion is of tickets that are still held.
pub Reachable-NoOversell :
    (start redis : Redis) → Reachable start redis → NoOversell start → NoOversell redis
Reachable-NoOversell start _ at_start fits = fits
Reachable-NoOversell start redis (and_then {redis = before} r s) fits =
    Step-NoOversell before redis s (Reachable-NoOversell start before r fits)
