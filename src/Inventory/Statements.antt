-- ===== src/Inventory/Statements.antt =====
-- The SQL statements of src/modules/inventory/inventory.service.ts over `inventory_items`.
pub mod Capacity
pub mod Effect
use bookingqube_nest_backend.Prelude.{
  ℕ, ◌+◌, ◌-◌, String, Option, none, some, List, [], ◌∷◌, leb, Bool, ◌&&◌, false, if◌then◌else◌,
}
use bookingqube_nest_backend.Prelude.Dict.{update}
use bookingqube_nest_backend.Prelude.Http.{Result, ok, err, bad_request, ◌>>=◌}
use bookingqube_nest_backend.Inventory.Model.{
  InventoryDelta, Mode, hold, sold, InventoryItem, Items, is_active,
}

abbrev pub unavailable : String
unavailable = "Selected quantity is no longer available."

-- `total - sold - held >= quantity`, in a column that is not null.
abbrev pub covers : Option ℕ → ℕ → ℕ → Bool
covers none committed qty = false
covers (some total) committed qty = leb (committed + qty) total

abbrev pub count_up_row : Mode → ℕ → InventoryItem → InventoryItem
count_up_row hold qty r = record r { held_quantity = r.held_quantity + qty }
count_up_row sold qty r = record r { sold_quantity = r.sold_quantity + qty }

-- The guarded update of one row; no row changed is an exception.
unfoldable pub reserve_row : Mode → Items → InventoryDelta → Result Items
reserve_row mode items d = elim (items d.inventory_item_id) [
  | none ↦ err (bad_request unavailable)
  | some r ↦
      if is_active r.status
        && covers r.total_quantity (r.sold_quantity + r.held_quantity) d.quantity
      then ok (update items d.inventory_item_id (count_up_row mode d.quantity r))
      else err (bad_request unavailable)
]

-- The loop of the transaction, which commits the last table or none.
unfoldable pub reserve_rows : Mode → Items → List InventoryDelta → Result Items
unfolding reserve_row
reserve_rows mode items [] = ok items
reserve_rows mode items (d ∷ ds) = do next ← reserve_row mode items d; reserve_rows mode next ds

-- `UPDATE … WHERE "id" = … AND "total_quantity" IS NOT NULL`
abbrev pub on_limited_row : (InventoryItem → InventoryItem) → Items → String → Items
on_limited_row f items id = elim (items id) [
  | none ↦ items
  | some r ↦ elim r.total_quantity [ none ↦ items | some _ ↦ update items id (f r) ]
]

unfoldable pub each_row : (ℕ → InventoryItem → InventoryItem) → Items → List InventoryDelta → Items
each_row f items [] = items
each_row f items (d ∷ ds) = each_row f (on_limited_row (f d.quantity) items d.inventory_item_id) ds

-- `GREATEST(0, held - quantity)` is the subtraction that stops at 0.
abbrev pub release_held_row : ℕ → InventoryItem → InventoryItem
release_held_row qty r = record r { held_quantity = r.held_quantity - qty }

abbrev pub convert_held_row : ℕ → InventoryItem → InventoryItem
convert_held_row qty r = record r {
  held_quantity = r.held_quantity - qty;
  sold_quantity = r.sold_quantity + qty;
}

abbrev pub release_sold_row : ℕ → InventoryItem → InventoryItem
release_sold_row qty r = record r { sold_quantity = r.sold_quantity - qty }

unfoldable pub release_in_postgres : Items → List InventoryDelta → Items
unfolding each_row
release_in_postgres = each_row release_held_row

unfoldable pub convert_in_postgres : Items → List InventoryDelta → Items
unfolding each_row
convert_in_postgres = each_row convert_held_row

unfoldable pub release_sold_in_postgres : Items → List InventoryDelta → Items
unfolding each_row
release_sold_in_postgres = each_row release_sold_row
