-- ===== src/Inventory/Deltas/Merge.antt =====
-- Merging deltas: one delta for each item, with the item's whole quantity.
use bookingqube_nest_backend.Prelude.{
  ℕ, ◌+◌, ◌≡◌, ◌≢◌, refl, String, Option, none, some, ite, List, [], ◌∷◌, arith, All,
}
use bookingqube_nest_backend.Prelude.Text.{text_dec}
use bookingqube_nest_backend.Inventory.Model.{InventoryDelta}
use bookingqube_nest_backend.Inventory.Deltas.{add_delta, merge_from, merge_deltas}

-- What the deltas ask of one item, all together.
unfoldable pub quantity_of : String → List InventoryDelta → ℕ
quantity_of id [] = 0
quantity_of id (d ∷ ds) = ite (text_dec d.inventory_item_id id) d.quantity 0 + quantity_of id ds

abbrev pub IsAbsent : String → List InventoryDelta → Type 0
IsAbsent id = All λ x. x.inventory_item_id ≢ id

abbrev pub IsDistinct : List InventoryDelta → Type 0
IsDistinct [] = Unit {0}
IsDistinct (d ∷ ds) = IsAbsent d.inventory_item_id ds × IsDistinct ds

add_delta-IsAbsent :
    (id : String) (d : InventoryDelta) (xs : List InventoryDelta)
    → d.inventory_item_id ≢ id
    → IsAbsent id xs
    → IsAbsent id (add_delta d xs)
unfolding add_delta
add_delta-IsAbsent id d [] h k = (h, tt)
add_delta-IsAbsent id d (x ∷ xs) h k = ground (arith, add_delta-IsAbsent id d xs h k.1)

add_delta-IsDistinct :
    (d : InventoryDelta) (xs : List InventoryDelta) → IsDistinct xs → IsDistinct (add_delta d xs)
unfolding add_delta
add_delta-IsDistinct d [] h = (tt, tt)
add_delta-IsDistinct d (x ∷ xs) h =
    ground (arith, add_delta-IsDistinct d xs h.1, add_delta-IsAbsent x.inventory_item_id d xs)

quantity_of-add_delta :
    (id : String) (d : InventoryDelta) (xs : List InventoryDelta)
    → quantity_of id (add_delta d xs) ≡ quantity_of id (d ∷ xs)
unfolding quantity_of add_delta
quantity_of-add_delta id d [] = refl
quantity_of-add_delta id d (x ∷ xs) = ground (arith, quantity_of-add_delta id d xs)

merge_from-IsDistinct :
    (acc ds : List InventoryDelta) → IsDistinct acc → IsDistinct (merge_from acc ds)
unfolding merge_from
merge_from-IsDistinct acc [] h = h
merge_from-IsDistinct acc (d ∷ ds) h =
    merge_from-IsDistinct (add_delta d acc) ds (add_delta-IsDistinct d acc h)

quantity_of-merge_from :
    (id : String) (acc ds : List InventoryDelta)
    → quantity_of id (merge_from acc ds) ≡ quantity_of id acc + quantity_of id ds
unfolding merge_from quantity_of
quantity_of-merge_from id acc [] = omega arith
quantity_of-merge_from id acc (d ∷ ds) =
    omega (arith, quantity_of-merge_from id (add_delta d acc) ds, quantity_of-add_delta id d acc)

pub merge_deltas-IsDistinct : (ds : List InventoryDelta) → IsDistinct (merge_deltas ds)
unfolding merge_deltas
merge_deltas-IsDistinct ds = merge_from-IsDistinct [] ds tt

pub quantity_of-merge_deltas :
    (id : String) (ds : List InventoryDelta) → quantity_of id (merge_deltas ds) ≡ quantity_of id ds
unfolding merge_deltas quantity_of
quantity_of-merge_deltas id ds = omega (arith, quantity_of-merge_from id [] ds)

-- The quantity of the first delta for an item.
unfoldable pub delta_for : String → List InventoryDelta → Option ℕ
delta_for id [] = none
delta_for id (d ∷ ds) = ite (text_dec d.inventory_item_id id) (some d.quantity) (delta_for id ds)

pub delta_for_absent :
    (id : String) (ds : List InventoryDelta) → IsAbsent id ds → delta_for id ds ≡ none
unfolding delta_for
delta_for_absent id [] h = refl
delta_for_absent id (d ∷ ds) h = ground (arith, delta_for_absent id ds h.1)

pub quantity_of_absent :
    (id : String) (ds : List InventoryDelta) → IsAbsent id ds → quantity_of id ds ≡ 0
unfolding quantity_of
quantity_of_absent id [] h = refl
quantity_of_absent id (d ∷ ds) h = ground (arith, quantity_of_absent id ds h.1)

abbrev pub or_zero : Option ℕ → ℕ
or_zero none = 0
or_zero (some n) = n

-- Among distinct items the first delta for an item is all that is asked of it.
pub quantity_of-delta_for :
    (id : String) (ds : List InventoryDelta)
    → IsDistinct ds
    → quantity_of id ds ≡ or_zero (delta_for id ds)
unfolding quantity_of delta_for
quantity_of-delta_for id [] h = refl
quantity_of-delta_for id (d ∷ ds) h =
    ground (arith, quantity_of-delta_for id ds h.1, quantity_of_absent id ds)

pub delta_for_head :
    (d : InventoryDelta) (ds : List InventoryDelta)
    → delta_for d.inventory_item_id (d ∷ ds) ≡ some d.quantity
unfolding delta_for
delta_for_head d ds = ground arith

-- The other deltas keep their quantities under a head of another item.
pub delta_for_tail :
    (id : String) (qty : ℕ) (d : InventoryDelta) (ds : List InventoryDelta)
    → IsDistinct (d ∷ ds)
    → delta_for id ds ≡ some qty
    → delta_for id (d ∷ ds) ≡ some qty
unfolding delta_for
delta_for_tail id qty d ds h k = ground (arith, delta_for_absent d.inventory_item_id ds h.0)
