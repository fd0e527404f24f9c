-- ===== src/Inventory/Deltas.antt =====
-- Inventory deltas: `mergeDeltas` and `sortDeltas` of src/modules/inventory/inventory.service.ts.
pub mod Merge
pub mod Sort
use bookingqube_nest_backend.Prelude.{
  ℕ, ◌+◌, ◌≡◌, ◌≢◌, refl, String, ite, List, [], ◌∷◌, map, arith, All, if◌then◌else◌,
}
use bookingqube_nest_backend.Prelude.Text.{text_dec, text_le}
use bookingqube_nest_backend.Inventory.Model.{InventoryDelta}

-- One round of the loop: a key of the map keeps its place, a new key goes to the end.
pub add_delta : InventoryDelta → List InventoryDelta → List InventoryDelta
add_delta d [] = d ∷ []
add_delta d (x ∷ xs) =
    ite (text_dec x.inventory_item_id d.inventory_item_id)
      (record x { quantity = x.quantity + d.quantity } ∷ xs) (x ∷ add_delta d xs)

pub merge_from : List InventoryDelta → List InventoryDelta → List InventoryDelta
merge_from acc [] = acc
merge_from acc (d ∷ ds) = merge_from (add_delta d acc) ds

unfoldable pub merge_deltas : List InventoryDelta → List InventoryDelta
unfolding merge_from add_delta text_dec
merge_deltas ds = merge_from [] ds

-- The stable sort by item.
pub insert_delta : InventoryDelta → List InventoryDelta → List InventoryDelta
insert_delta d [] = d ∷ []
insert_delta d (x ∷ xs) =
    if text_le d.inventory_item_id x.inventory_item_id then d ∷ x ∷ xs else x ∷ insert_delta d xs

unfoldable pub sort_deltas : List InventoryDelta → List InventoryDelta
unfolding insert_delta text_le
sort_deltas [] = []
sort_deltas (d ∷ ds) = insert_delta d (sort_deltas ds)

abbrev pub ids : List InventoryDelta → List String
ids = map λ d. d.inventory_item_id
