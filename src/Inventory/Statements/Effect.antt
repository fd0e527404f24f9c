-- ===== src/Inventory/Statements/Effect.antt =====
-- What a statement writes, over a list of distinct items.
use bookingqube_nest_backend.Prelude.{
  ℕ, ◌≡◌, ◌≢◌, refl, ap, ◌∙◌, subst, String, Option, none, some, List, [], ◌∷◌, arith, if_pos,
  if_neg,
}
use bookingqube_nest_backend.Prelude.Text.{text_dec}
use bookingqube_nest_backend.Inventory.Model.{InventoryDelta, InventoryItem, Items}
use bookingqube_nest_backend.Inventory.Deltas.Merge.{
  IsAbsent, IsDistinct, quantity_of, quantity_of_absent,
}
use bookingqube_nest_backend.Inventory.Statements.{on_limited_row, each_row}

-- The row after an update of the rows with a limited stock.
abbrev pub row_written :
    (InventoryItem → InventoryItem) → Option InventoryItem → Option InventoryItem
row_written g none = none
row_written g (some r) = elim r.total_quantity [ none ↦ some r | some _ ↦ some (g r) ]

pub on_limited_row_self :
    (g : InventoryItem → InventoryItem) (items : Items) (id : String)
    → on_limited_row g items id id ≡ row_written g (items id)
on_limited_row_self g items id = ground arith

pub on_limited_row_ne :
    (g : InventoryItem → InventoryItem) (items : Items) (k id : String)
    → k ≢ id
    → on_limited_row g items k id ≡ items id
on_limited_row_ne g items k id h = ground arith

pub each_row_absent :
    (g : ℕ → InventoryItem → InventoryItem) (items : Items) (id : String) (ds : List InventoryDelta)
    → IsAbsent id ds
    → each_row g items ds id ≡ items id
unfolding each_row
each_row_absent g items id [] h = refl
each_row_absent g items id (d ∷ ds) h =
    each_row_absent g (on_limited_row (g d.quantity) items d.inventory_item_id) id ds h.1
    ∙ on_limited_row_ne (g d.quantity) items d.inventory_item_id id h.0

row_written_zero :
    (g : ℕ → InventoryItem → InventoryItem) (r : Option InventoryItem)
    → ((r : InventoryItem) → g 0 r ≡ r)
    → r ≡ row_written (g 0) r
row_written_zero g none z = refl
row_written_zero g (some r) z = ground (arith, z r)

-- A change that a quantity of 0 leaves undone goes by what is asked of the row in all.
pub each_row_total :
    (g : ℕ → InventoryItem → InventoryItem) (items : Items) (id : String) (ds : List InventoryDelta)
    → ((r : InventoryItem) → g 0 r ≡ r)
    → IsDistinct ds
    → each_row g items ds id ≡ row_written (g (quantity_of id ds)) (items id)
unfolding each_row quantity_of
each_row_total g items id [] z h = row_written_zero g (items id) z
each_row_total g items id (d ∷ ds) z h = elim (text_dec d.inventory_item_id id) [
  | yes p ↦ rw (if_pos _ p) (
      each_row_absent g (on_limited_row (g d.quantity) items d.inventory_item_id) id ds (absent p)
      ∙ here p
      ∙ ap (λ n. row_written (g n) (items id)) (omega (arith, quantity_of_absent id ds (absent p))))
  | no p ↦ rw (if_neg _ p) (
      each_row_total g (on_limited_row (g d.quantity) items d.inventory_item_id) id ds z h.1
      ∙ ap (row_written (g (quantity_of id ds)))
          (on_limited_row_ne (g d.quantity) items d.inventory_item_id id p)
      ∙ ap (λ n. row_written (g n) (items id)) (omega arith))
]
  where
    absent : d.inventory_item_id ≡ id → IsAbsent id ds
    absent p = subst (λ k. IsAbsent k ds) p h.0

    here :
        d.inventory_item_id ≡ id
        → on_limited_row (g d.quantity) items d.inventory_item_id id
          ≡ row_written (g d.quantity) (items id)
    here p =
        subst
          (λ k.
            on_limited_row (g d.quantity) items d.inventory_item_id k
            ≡ row_written (g d.quantity) (items k))
          p (on_limited_row_self (g d.quantity) items d.inventory_item_id)
