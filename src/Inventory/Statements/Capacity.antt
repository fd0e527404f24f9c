-- ===== src/Inventory/Statements/Capacity.antt =====
-- The guarded updates in Postgres: all rows or none, never more than the stock.
use bookingqube_nest_backend.Prelude.{
  ℕ, ◌+◌, ◌≤◌, ◌≡◌, refl, sym, ◌∙◌, ap, String, Option, none, some, List, [], ◌∷◌, arith,
  Option-cases, ◌⊎◌, inl, inr, true, ite, if_pos, if_neg, subst,
}
use bookingqube_nest_backend.Prelude.Text.{text_dec}
use bookingqube_nest_backend.Prelude.Dict.{update}
use bookingqube_nest_backend.Prelude.Http.{ok, err, bad_request, ◌>>=◌}
use bookingqube_nest_backend.Inventory.Model.{
  InventoryDelta, Mode, hold, sold, InventoryItem, active, Items,
}
use bookingqube_nest_backend.Inventory.Deltas.Merge.{quantity_of}
use bookingqube_nest_backend.Inventory.Statements.{
  reserve_row, reserve_rows, count_up_row, covers, unavailable,
}

abbrev pub FitsRow : Option ℕ → ℕ → Type 0
FitsRow none committed = Unit {0}
FitsRow (some total) committed = committed ≤ total

abbrev pub RowFits : Option InventoryItem → Type 0
RowFits none = Unit {0}
RowFits (some r) = FitsRow r.total_quantity (r.sold_quantity + r.held_quantity)

abbrev pub NoOversellRows : Items → Type 0
NoOversellRows items = (id : String) → RowFits (items id)

-- The row after an update that counts up.
abbrev pub raised : Mode → ℕ → Option InventoryItem → Option InventoryItem
raised mode qty none = none
raised mode qty (some r) = some (count_up_row mode qty r)

pub raised_zero : (mode : Mode) (r : Option InventoryItem) → raised mode 0 r ≡ r
raised_zero mode none = refl
raised_zero hold (some r) = ground arith
raised_zero sold (some r) = ground arith

raised_twice :
    (mode : Mode) (a b : ℕ) (r : Option InventoryItem)
    → raised mode b (raised mode a r) ≡ raised mode (a + b) r
raised_twice mode a b none = refl
raised_twice hold a b (some r) = ground arith
raised_twice sold a b (some r) = ground arith

-- A row that can give a quantity.
abbrev pub GrantsRow : ℕ → Option InventoryItem → Type 0
GrantsRow qty none = ⊥
GrantsRow qty (some r) =
    (r.status ≡ active) × (covers r.total_quantity (r.sold_quantity + r.held_quantity) qty ≡ true)

pub reserve_row_lem :
    (mode : Mode) (items : Items) (d : InventoryDelta)
    → ((r : InventoryItem) × (items d.inventory_item_id ≡ some r)
        × GrantsRow d.quantity (some r)
        × (reserve_row mode items d
            ≡ ok (update items d.inventory_item_id (count_up_row mode d.quantity r))))
      ⊎ ((¬ GrantsRow d.quantity (items d.inventory_item_id))
          × (reserve_row mode items d ≡ err (bad_request unavailable)))
unfolding reserve_row
reserve_row_lem mode items d = elim (Option-cases (items d.inventory_item_id)) [
  | inl e ↦ inr (rw e (λ g. g), rw (e, reserve_row))
  | inr (r, e) ↦ ground arith
]

raised-update :
    (mode : Mode) (items : Items) (d : InventoryDelta) (r : InventoryItem) (rest : ℕ) (id : String)
    → items d.inventory_item_id ≡ some r
    → raised mode rest (update items d.inventory_item_id (count_up_row mode d.quantity r) id)
      ≡ raised mode (ite (text_dec d.inventory_item_id id) d.quantity 0 + rest) (items id)
raised-update mode items d r rest id found = elim (text_dec d.inventory_item_id id) [
  | yes p ↦ ground (arith, ap items p, raised_twice mode d.quantity rest (some r))
  | no p ↦ ground arith
]

pub reserve_rows_step :
    (mode : Mode) (items next : Items) (d : InventoryDelta) (ds : List InventoryDelta)
    → reserve_row mode items d ≡ ok next
    → reserve_rows mode items (d ∷ ds) ≡ reserve_rows mode next ds
unfolding reserve_rows
reserve_rows_step mode items next d ds e = ap (λ m. m >>= λ i. reserve_rows mode i ds) e

reserve_rows_fail :
    (mode : Mode) (items : Items) (d : InventoryDelta) (ds : List InventoryDelta)
    → reserve_row mode items d ≡ err (bad_request unavailable)
    → reserve_rows mode items (d ∷ ds) ≡ err (bad_request unavailable)
unfolding reserve_rows
reserve_rows_fail mode items d ds e = ap (λ m. m >>= λ i. reserve_rows mode i ds) e

pub reserve_rows_nil : (mode : Mode) (items : Items) → reserve_rows mode items [] ≡ ok items
unfolding reserve_rows
reserve_rows_nil mode items = refl

-- A committed transaction raises the count of each item by all that was asked of it, also where an
-- item is named more than once, and touches no other item.
pub reserve_rows_effect :
    (mode : Mode) (items next : Items) (ds : List InventoryDelta) (id : String)
    → reserve_rows mode items ds ≡ ok next
    → next id ≡ raised mode (quantity_of id ds) (items id)
unfolding quantity_of
reserve_rows_effect mode items next [] id e =
    cc (reserve_rows_nil mode items, raised_zero mode (items id))
reserve_rows_effect mode items next (d ∷ ds) id e = elim (reserve_row_lem mode items d) [
  | inl (r, found, g, s) ↦
      reserve_rows_effect mode (update items d.inventory_item_id (count_up_row mode d.quantity r))
        next ds id (sym (reserve_rows_step mode items _ d ds s) ∙ e)
      ∙ raised-update mode items d r (quantity_of id ds) id found
  | inr (_, f) ↦ cc (reserve_rows_fail mode items d ds f)
]

granted-RowFits :
    (mode : Mode) (qty : ℕ) (r : InventoryItem)
    → GrantsRow qty (some r)
    → RowFits (some (count_up_row mode qty r))
granted-RowFits hold qty r g = ground arith
granted-RowFits sold qty r g = ground arith

reserve_row-NoOversellRows :
    (items : Items) (k : String) (r : InventoryItem)
    → RowFits (some r)
    → NoOversellRows items
    → NoOversellRows (update items k r)
reserve_row-NoOversellRows items k r here fits id = elim (text_dec k id) [
  | yes p ↦ rw (if_pos _ p) here
  | no p ↦ rw (if_neg _ p) (fits id)
]

-- A committed reservation never sells or holds more than a limited stock, whatever its list.
pub reserve_rows-NoOversellRows :
    (mode : Mode) (items next : Items) (ds : List InventoryDelta)
    → reserve_rows mode items ds ≡ ok next
    → NoOversellRows items
    → NoOversellRows next
reserve_rows-NoOversellRows mode items next [] e fits =
    subst NoOversellRows (cc (reserve_rows_nil mode items)) fits
reserve_rows-NoOversellRows mode items next (d ∷ ds) e fits = elim (reserve_row_lem mode items d) [
  | inl (r, found, g, s) ↦
      reserve_rows-NoOversellRows mode
        (update items d.inventory_item_id (count_up_row mode d.quantity r)) next ds
        (sym (reserve_rows_step mode items _ d ds s) ∙ e)
        (reserve_row-NoOversellRows items _ _ (granted-RowFits mode d.quantity r g) fits)
  | inr (_, f) ↦ cc (reserve_rows_fail mode items d ds f)
]

-- The transaction commits, or fails with the one exception that it throws.
pub reserve_rows_cases :
    (mode : Mode) (items : Items) (ds : List InventoryDelta)
    → ((next : Items) × (reserve_rows mode items ds ≡ ok next))
      ⊎ (reserve_rows mode items ds ≡ err (bad_request unavailable))
reserve_rows_cases mode items [] = inl (items, reserve_rows_nil mode items)
reserve_rows_cases mode items (d ∷ ds) = elim (reserve_row_lem mode items d) [
  | inr (_, f) ↦ inr (reserve_rows_fail mode items d ds f)
  | inl (r, _, _, s) ↦
      subst (λ o. ((next : Items) × (o ≡ ok next)) ⊎ (o ≡ err (bad_request unavailable)))
        (sym (reserve_rows_step mode items _ d ds s))
        (reserve_rows_cases mode (update items d.inventory_item_id (count_up_row mode d.quantity r))
          ds)
]
