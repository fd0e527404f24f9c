-- ===== src/Inventory/Deltas/Sort.antt =====
-- Sorting deltas by item keeps what is asked of each item, and puts them in order.
use bookingqube_nest_backend.Prelude.{
  ◌≡◌, ◌≢◌, refl, sym, String, List, [], ◌∷◌, arith, Bool, true, filter, All-filter, Bool-cases,
  inl, inr,
}
use bookingqube_nest_backend.Prelude.Text.{text_le, text_le_total}
use bookingqube_nest_backend.Inventory.Model.{InventoryDelta}
use bookingqube_nest_backend.Inventory.Deltas.{insert_delta, sort_deltas}
use bookingqube_nest_backend.Inventory.Deltas.Merge.{quantity_of, IsAbsent, IsDistinct}

abbrev pub IsBefore : InventoryDelta → List InventoryDelta → Type 0
IsBefore d [] = Unit {0}
IsBefore d (x ∷ xs) = text_le d.inventory_item_id x.inventory_item_id ≡ true

-- No item stands after a later one.
abbrev pub IsSorted : List InventoryDelta → Type 0
IsSorted [] = Unit {0}
IsSorted (d ∷ ds) = IsBefore d ds × IsSorted ds

insert_delta-IsBefore :
    (x d : InventoryDelta) (xs : List InventoryDelta)
    → text_le x.inventory_item_id d.inventory_item_id ≡ true
    → IsBefore x xs
    → IsBefore x (insert_delta d xs)
unfolding insert_delta
insert_delta-IsBefore x d [] h k = h
insert_delta-IsBefore x d (y ∷ ys) h k = ground arith

insert_delta-IsSorted :
    (d : InventoryDelta) (xs : List InventoryDelta) → IsSorted xs → IsSorted (insert_delta d xs)
unfolding insert_delta
insert_delta-IsSorted d [] h = (tt, tt)
insert_delta-IsSorted d (x ∷ xs) h =
    elim (Bool-cases (text_le d.inventory_item_id x.inventory_item_id)) [
      | inl e ↦ rw (e, insert_delta) (e, h)
      | inr e ↦
          rw (e, insert_delta)
            (insert_delta-IsBefore x d xs (text_le_total _ _ e) h.0, insert_delta-IsSorted d xs h.1)
    ]

pub sort_deltas-IsSorted : (ds : List InventoryDelta) → IsSorted (sort_deltas ds)
unfolding sort_deltas
sort_deltas-IsSorted [] = tt
sort_deltas-IsSorted (d ∷ ds) = insert_delta-IsSorted d (sort_deltas ds) (sort_deltas-IsSorted ds)

insert_delta-IsAbsent :
    (id : String) (d : InventoryDelta) (xs : List InventoryDelta)
    → d.inventory_item_id ≢ id
    → IsAbsent id xs
    → IsAbsent id (insert_delta d xs)
unfolding insert_delta
insert_delta-IsAbsent id d [] h k = (h, tt)
insert_delta-IsAbsent id d (x ∷ xs) h k = ground (arith, insert_delta-IsAbsent id d xs h k.1)

sort_deltas-IsAbsent :
    (id : String) (ds : List InventoryDelta) → IsAbsent id ds → IsAbsent id (sort_deltas ds)
unfolding sort_deltas
sort_deltas-IsAbsent id [] h = tt
sort_deltas-IsAbsent id (d ∷ ds) h =
    insert_delta-IsAbsent id d (sort_deltas ds) h.0 (sort_deltas-IsAbsent id ds h.1)

insert_delta-IsDistinct :
    (d : InventoryDelta) (xs : List InventoryDelta)
    → IsAbsent d.inventory_item_id xs
    → IsDistinct xs
    → IsDistinct (insert_delta d xs)
unfolding insert_delta
insert_delta-IsDistinct d [] h k = (tt, tt)
insert_delta-IsDistinct d (x ∷ xs) h k = ground (
  arith,
  insert_delta-IsDistinct d xs h.1 k.1,
  insert_delta-IsAbsent x.inventory_item_id d xs (λ e. h.0 (sym e)) k.0,
)

pub sort_deltas-IsDistinct :
    (ds : List InventoryDelta) → IsDistinct ds → IsDistinct (sort_deltas ds)
unfolding sort_deltas
sort_deltas-IsDistinct [] h = tt
sort_deltas-IsDistinct (d ∷ ds) h =
    insert_delta-IsDistinct d (sort_deltas ds) (sort_deltas-IsAbsent _ ds h.0)
      (sort_deltas-IsDistinct ds h.1)

quantity_of-insert_delta :
    (id : String) (d : InventoryDelta) (xs : List InventoryDelta)
    → quantity_of id (insert_delta d xs) ≡ quantity_of id (d ∷ xs)
unfolding quantity_of insert_delta
quantity_of-insert_delta id d [] = refl
quantity_of-insert_delta id d (x ∷ xs) = ground (arith, quantity_of-insert_delta id d xs)

pub quantity_of-sort_deltas :
    (id : String) (ds : List InventoryDelta) → quantity_of id (sort_deltas ds) ≡ quantity_of id ds
unfolding sort_deltas quantity_of
quantity_of-sort_deltas id [] = refl
quantity_of-sort_deltas id (d ∷ ds) =
    omega (arith, quantity_of-insert_delta id d (sort_deltas ds), quantity_of-sort_deltas id ds)

pub filter-IsDistinct :
    (p : InventoryDelta → Bool) (ds : List InventoryDelta)
    → IsDistinct ds
    → IsDistinct (filter p ds)
filter-IsDistinct p [] h = tt
filter-IsDistinct p (d ∷ ds) h = ground (
  arith,
  filter-IsDistinct p ds h.1,
  All-filter (λ (x : InventoryDelta). x.inventory_item_id ≢ d.inventory_item_id) p ds h.0,
)
