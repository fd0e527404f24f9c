-- ===== src/Inventory/Service/Mirror.antt =====
-- Redis and Postgres keep the same counts: each script does to a hash what its statement does to
-- the row.
use bookingqube_nest_backend.Prelude.{
  ℕ, ◌≡◌, refl, sym, ◌∙◌, ap, subst, String, Option, none, some, List, [], ◌∷◌, arith, Option-cases,
  Bool-cases, ◌⊎◌, inl, inr, if_pos, if_neg,
}
use bookingqube_nest_backend.Prelude.Text.{text_dec}
use bookingqube_nest_backend.Prelude.Dict.{update}
use bookingqube_nest_backend.Inventory.Model.{
  InventoryDelta, InventoryItem, Hash, Redis, Items, Store,
}
use bookingqube_nest_backend.Inventory.Scripts.{
  each_key, on_limited, convert_held, release_held, release_sold_count,
}
use bookingqube_nest_backend.Inventory.Statements.{
  each_row, on_limited_row, convert_held_row, release_held_row, release_sold_row,
}
use bookingqube_nest_backend.Inventory.Scripts.Effect.{written, on_limited_self, on_limited_ne}
use bookingqube_nest_backend.Inventory.Statements.Effect.{
  row_written, on_limited_row_self, on_limited_row_ne,
}
use bookingqube_nest_backend.Inventory.Service.{
  hash_of, load, ensure_loaded, filter_capacity_limited,
}

abbrev pub image : Option InventoryItem → Option Hash
image none = none
image (some r) = some (hash_of r)

-- Every hash that Redis has is the image of its row.
abbrev pub Mirrors : Redis → Items → Type 0
Mirrors redis items = (id : String) → (redis id ≡ none) ⊎ (redis id ≡ image (items id))

-- A change of a hash and a change of a row that agree on every row.
abbrev pub Agree : (Hash → Hash) → (InventoryItem → InventoryItem) → Type 0
Agree f g = (r : InventoryItem) → hash_of (g r) ≡ f (hash_of r)

pub written-image :
    (f : Hash → Hash) (g : InventoryItem → InventoryItem) (r : Option InventoryItem)
    → Agree f g
    → written f (image r) ≡ image (row_written g r)
written-image f g none a = refl
written-image f g (some r) a = ground (arith, a r)

on_limited-Mirrors_self :
    (f : Hash → Hash) (g : InventoryItem → InventoryItem) (redis : Redis) (items : Items)
    (k : String)
    → Agree f g
    → Mirrors redis items
    → (on_limited f redis k k ≡ none)
      ⊎ (on_limited f redis k k ≡ image (on_limited_row g items k k))
on_limited-Mirrors_self f g redis items k a m = elim (m k) [
  | inl e ↦ inl (on_limited_self f redis k ∙ ap (written f) e)
  | inr e ↦ inr (
      on_limited_self f redis k
      ∙ ap (written f) e
      ∙ written-image f g (items k) a
      ∙ ap image (sym (on_limited_row_self g items k)))
]

on_limited-Mirrors :
    (f : Hash → Hash) (g : InventoryItem → InventoryItem) (redis : Redis) (items : Items)
    (k : String)
    → Agree f g
    → Mirrors redis items
    → Mirrors (on_limited f redis k) (on_limited_row g items k)
on_limited-Mirrors f g redis items k a m id = elim (text_dec k id) [
  | yes p ↦
      subst
        (λ j.
          (on_limited f redis k j ≡ none)
          ⊎ (on_limited f redis k j ≡ image (on_limited_row g items k j)))
        p (on_limited-Mirrors_self f g redis items k a m)
  | no p ↦ rw (on_limited_ne f redis k id p, on_limited_row_ne g items k id p) (m id)
]

-- A script and a statement that agree on each row keep Redis and Postgres in agreement, for any
-- list of deltas.
pub each-Mirrors :
    (f : ℕ → Hash → Hash) (g : ℕ → InventoryItem → InventoryItem) (redis : Redis) (items : Items)
    (ds : List InventoryDelta)
    → ((qty : ℕ) → Agree (f qty) (g qty))
    → Mirrors redis items
    → Mirrors (each_key f redis ds) (each_row g items ds)
unfolding each_key each_row
each-Mirrors f g redis items [] a m = m
each-Mirrors f g redis items (d ∷ ds) a m =
    each-Mirrors f g (on_limited (f d.quantity) redis d.inventory_item_id)
      (on_limited_row (g d.quantity) items d.inventory_item_id) ds a
      (on_limited-Mirrors (f d.quantity) (g d.quantity) redis items d.inventory_item_id
        (a d.quantity) m)

pub release-Agree : (qty : ℕ) → Agree (release_held qty) (release_held_row qty)
release-Agree qty r = ground arith

pub convert-Agree : (qty : ℕ) → Agree (convert_held qty) (convert_held_row qty)
convert-Agree qty r = ground arith

pub release_sold-Agree : (qty : ℕ) → Agree (release_sold_count qty) (release_sold_row qty)
release_sold-Agree qty r = ground arith

update-Mirrors :
    (redis : Redis) (items : Items) (k : String) (r : InventoryItem)
    → items k ≡ some r
    → Mirrors redis items
    → Mirrors (update redis k (hash_of r)) items
update-Mirrors redis items k r e m id = elim (text_dec k id) [
  | yes p ↦ inr (rw (if_pos _ p, sym p, e))
  | no p ↦ rw (if_neg _ p) (m id)
]

-- Loading writes images only.
pub load-Mirrors :
    (items : Items) (redis : Redis) (wanted : List String)
    → Mirrors redis items
    → Mirrors (load items redis wanted) items
unfolding load
load-Mirrors items redis [] m = m
load-Mirrors items redis (id ∷ rest) m = elim (Option-cases (items id)) [
  | inl e ↦ rw (e, load) (load-Mirrors items redis rest m)
  | inr (r, e) ↦
      rw (e, load)
        (load-Mirrors items (update redis id (hash_of r)) rest
          (update-Mirrors redis items id r e m))
]

abbrev pub StoreMirrors : Store → Type 0
StoreMirrors s = Mirrors s.redis s.items

pub ensure_loaded-StoreMirrors :
    (s : Store) (wanted : List String) → StoreMirrors s → StoreMirrors (ensure_loaded s wanted)
unfolding ensure_loaded
ensure_loaded-StoreMirrors s wanted m = elim (Bool-cases s.redis_ready) [
  | inl e ↦ rw e (load-Mirrors s.items s.redis _ m)
  | inr e ↦ rw e m
]

pub filter-StoreMirrors :
    (s : Store) (ds : List InventoryDelta)
    → StoreMirrors s
    → StoreMirrors (filter_capacity_limited s ds).0
unfolding filter_capacity_limited
filter-StoreMirrors s ds m = ensure_loaded-StoreMirrors s _ m
