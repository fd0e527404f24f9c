-- ===== src/Inventory/Service/Quantities.antt =====
-- What is left of a request after `filterCapacityLimited`: the whole quantity of each item with a
-- limited stock, in one delta each, and nothing of the others.
use bookingqube_nest_backend.Prelude.{
  ℕ, ◌≡◌, ◌≢◌, refl, sym, ◌∙◌, ap, String, Option, none, some, List, [], ◌∷◌, arith, Option-cases,
  Bool-cases, ◌⊎◌, inl, inr, true, false, Bool, not, is_some, filter, if◌then◌else◌,
}
use bookingqube_nest_backend.Prelude.Text.{text_dec}
use bookingqube_nest_backend.Prelude.Dict.{update, update_ne}
use bookingqube_nest_backend.Inventory.Model.{InventoryDelta, Hash, Redis, Items, Store}
use bookingqube_nest_backend.Inventory.Deltas.{merge_deltas, ids}
use bookingqube_nest_backend.Inventory.Deltas.Merge.{
  quantity_of, IsDistinct, merge_deltas-IsDistinct, quantity_of-merge_deltas,
}
use bookingqube_nest_backend.Inventory.Deltas.Sort.{
  IsSorted, sort_deltas-IsSorted, sort_deltas-IsDistinct, quantity_of-sort_deltas,
  filter-IsDistinct,
}
use bookingqube_nest_backend.Inventory.Service.{
  hash_of, load, ensure_loaded, filter_capacity_limited, is_limited, is_limited_hash,
  is_limited_row,
}

-- The item counts a limited stock, where the store keeps it.
abbrev pub limited_id : Store → String → Bool
limited_id s id =
    if s.redis_ready then is_limited_hash (s.redis id) else is_limited_row (s.items id)

quantity_of-filter :
    (f : String → Bool) (id : String) (ds : List InventoryDelta)
    → quantity_of id (filter (λ d. f d.inventory_item_id) ds)
      ≡ (if f id then quantity_of id ds else 0)
unfolding quantity_of
quantity_of-filter f id [] = ground arith
quantity_of-filter f id (d ∷ ds) = elim (text_dec d.inventory_item_id id) [
  | yes p ↦ ground (arith, ap f p, quantity_of-filter f id ds)
  | no p ↦ ground (arith, quantity_of-filter f id ds)
]

-- Loading the keys that are missing leaves a key that is there alone.
load_other :
    (items : Items) (redis before : Redis) (wanted : List String) (id : String) (h : Hash)
    → before id ≡ some h
    → load items redis (filter (λ x. not (is_some (before x))) wanted) id ≡ redis id
unfolding load
load_other items redis before [] id h e = refl
load_other items redis before (x ∷ rest) id h e = elim (Option-cases (before x)) [
  | inl missing ↦ rw missing (elim (Option-cases (items x)) [
    | inl absent ↦ rw (absent, load) (load_other items redis before rest id h e)
    | inr (r, found) ↦
        rw (found, load)
          (load_other items (update redis x (hash_of r)) before rest id h e
            ∙ update_ne redis (hash_of r) (differs missing))
  ])
  | inr (_, there) ↦ rw there (load_other items redis before rest id h e)
]
  where
    differs : before x ≡ none → x ≢ id
    differs missing p = cc (ap before p)

pub ensure_loaded-ready :
    (s : Store) (wanted : List String) → (ensure_loaded s wanted).redis_ready ≡ s.redis_ready
unfolding ensure_loaded
ensure_loaded-ready s wanted = ground arith

pub ensure_loaded-items :
    (s : Store) (wanted : List String) → (ensure_loaded s wanted).items ≡ s.items
unfolding ensure_loaded
ensure_loaded-items s wanted = ground arith

pub ensure_loaded-keeps :
    (s : Store) (wanted : List String) (id : String) (h : Hash)
    → s.redis id ≡ some h
    → (ensure_loaded s wanted).redis id ≡ some h
unfolding ensure_loaded
ensure_loaded-keeps s wanted id h e = elim (Bool-cases s.redis_ready) [
  | inl ready ↦ rw ready (load_other s.items s.redis s.redis wanted id h e ∙ e)
  | inr off ↦ rw off e
]

-- The request that a client of the service sees: one delta for each item, sorted.
pub filter_capacity_limited-IsDistinct :
    (s : Store) (ds : List InventoryDelta) → IsDistinct (filter_capacity_limited s ds).1
unfolding filter_capacity_limited
filter_capacity_limited-IsDistinct s ds =
    sort_deltas-IsDistinct _ (filter-IsDistinct _ _ (merge_deltas-IsDistinct ds))

pub quantity_of-filter_capacity_limited :
    (s : Store) (ds : List InventoryDelta) (id : String)
    → quantity_of id (filter_capacity_limited s ds).1
      ≡ (if limited_id (filter_capacity_limited s ds).0 id then quantity_of id ds else 0)
unfolding filter_capacity_limited
quantity_of-filter_capacity_limited s ds id =
    let loaded = ensure_loaded s (ids (merge_deltas ds)) in
    quantity_of-sort_deltas id (filter (is_limited loaded) (merge_deltas ds))
    ∙ quantity_of-filter (limited_id loaded) id (merge_deltas ds)
    ∙ ap (λ n. if limited_id loaded id then n else 0) (quantity_of-merge_deltas id ds)

-- Whatever the request, what is reserved, released or converted has one delta for each item, in the
-- order of the items, and asks of each item all that the request asks of it if the item counts a
-- limited stock, and nothing otherwise.
pub filter_capacity_limited_lem :
    (s : Store) (ds : List InventoryDelta)
    → IsDistinct (filter_capacity_limited s ds).1
      × IsSorted (filter_capacity_limited s ds).1
      × ((id : String)
          → quantity_of id (filter_capacity_limited s ds).1
            ≡ (if limited_id (filter_capacity_limited s ds).0 id then quantity_of id ds else 0))
unfolding filter_capacity_limited
filter_capacity_limited_lem s ds = (
  filter_capacity_limited-IsDistinct s ds,
  sort_deltas-IsSorted
      (filter (is_limited (ensure_loaded s (ids (merge_deltas ds)))) (merge_deltas ds)),
  quantity_of-filter_capacity_limited s ds,
)

limited_id-ensure_loaded :
    (s : Store) (wanted : List String) (id : String)
    → limited_id s id ≡ true
    → limited_id (ensure_loaded s wanted) id ≡ true
limited_id-ensure_loaded s wanted id e = ground (
  arith,
  ensure_loaded-ready s wanted,
  ap (λ f. f id) (ensure_loaded-items s wanted),
  kept (s.redis id) refl,
)
  where
    kept :
        (o : Option Hash)
        → s.redis id ≡ o
        → (o ≡ none) ⊎ ((ensure_loaded s wanted).redis id ≡ s.redis id)
    kept none k = inl refl
    kept (some h) k = inr (ensure_loaded-keeps s wanted id h k ∙ sym k)

limited_id-filter :
    (s : Store) (ds : List InventoryDelta) (id : String)
    → limited_id s id ≡ true
    → limited_id (filter_capacity_limited s ds).0 id ≡ true
unfolding filter_capacity_limited
limited_id-filter s ds id e = limited_id-ensure_loaded s (ids (merge_deltas ds)) id e

-- Filtering a filtered request again, in the store that the first time left, loses nothing of it.
pub quantity_of-filter_twice :
    (s : Store) (ds : List InventoryDelta) (id : String)
    → let f = filter_capacity_limited s ds in
      quantity_of id (filter_capacity_limited f.0 f.1).1 ≡ quantity_of id f.1
quantity_of-filter_twice s ds id =
    let f = filter_capacity_limited s ds in
    let again = filter_capacity_limited f.0 f.1 in
    go (limited_id f.0 id) (limited_id again.0 id) (quantity_of id ds)
      (quantity_of-filter_capacity_limited s ds id) (quantity_of-filter_capacity_limited f.0 f.1 id)
      (limited_id-filter f.0 f.1 id)
  where
    go :
        (b c : Bool) (q : ℕ) {q' q'' : ℕ}
        → q' ≡ (if b then q else 0)
        → q'' ≡ (if c then q' else 0)
        → (b ≡ true → c ≡ true)
        → q'' ≡ q'
    go true true q h k i = k
    go true false q h k i = cc (i refl)
    go false true q h k i = k
    go false false q h k i = k ∙ sym h
