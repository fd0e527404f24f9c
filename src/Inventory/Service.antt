-- ===== src/Inventory/Service.antt =====
-- `InventoryService` of src/modules/inventory/inventory.service.ts.
pub mod Mirror
pub mod Quantities
pub mod Agreement
pub mod Reserve
pub mod Sync
use bookingqube_nest_backend.Prelude.{
  ℕ, ◌+◌, ◌-◌, String, Option, none, some, List, [], ◌∷◌, ◌++◌, Bool, true, false, not, is_some,
  filter, if◌then◌else◌,
}
use bookingqube_nest_backend.Prelude.Dict.{update, delete}
use bookingqube_nest_backend.Prelude.Text.{same}
use bookingqube_nest_backend.Prelude.Http.{Result, ok, err, bad_request}
use bookingqube_nest_backend.Inventory.Model.{
  InventoryDelta, Mode, InventoryItem, ℤ, pos, negsuc, Hash, Redis, Items, Store,
}
use bookingqube_nest_backend.Inventory.Deltas.{merge_deltas, sort_deltas, ids}
use bookingqube_nest_backend.Inventory.Scripts.{
  Reply, refused, done, reserve_script, release_script, convert_script, release_sold_script,
}
use bookingqube_nest_backend.Inventory.Statements.{
  unavailable, reserve_rows, release_in_postgres, convert_in_postgres, release_sold_in_postgres,
}

abbrev pub total_of : Option ℕ → ℤ
total_of none = negsuc 0
total_of (some n) = pos n

-- What `ensureLoaded` writes for a row.
abbrev pub hash_of : InventoryItem → Hash
hash_of r = record {
  total = total_of r.total_quantity;
  sold = r.sold_quantity;
  held = r.held_quantity;
  status = r.status;
}

-- One `hset` for each row that is found.
unfoldable pub load : Items → Redis → List String → Redis
load items redis [] = redis
load items redis (id ∷ rest) = elim (items id) [
  | none ↦ load items redis rest
  | some r ↦ load items (update redis id (hash_of r)) rest
]

unfoldable pub ensure_loaded : Store → List String → Store
unfolding load
ensure_loaded s wanted =
    if s.redis_ready
    then record s {
      redis = load s.items s.redis (filter (λ id. not (is_some (s.redis id))) wanted);
    }
    else s

abbrev pub is_limited_hash : Option Hash → Bool
is_limited_hash none = false
is_limited_hash (some h) = elim h.total [ pos _ ↦ true | negsuc _ ↦ false ]

abbrev pub is_limited_row : Option InventoryItem → Bool
is_limited_row none = false
is_limited_row (some r) = is_some r.total_quantity

abbrev pub is_limited : Store → InventoryDelta → Bool
is_limited s d =
    if s.redis_ready
    then is_limited_hash (s.redis d.inventory_item_id)
    else is_limited_row (s.items d.inventory_item_id)

-- The items that count a stock, merged and in order; Redis is loaded on the way.
unfoldable pub filter_capacity_limited : Store → List InventoryDelta → Store × List InventoryDelta
unfolding merge_deltas sort_deltas ensure_loaded
filter_capacity_limited s ds =
    let merged = merge_deltas ds in
    let loaded = ensure_loaded s (ids merged) in
    (loaded, sort_deltas (filter (is_limited loaded) merged))

abbrev pub of_reply : Reply → Result (Unit {0})
of_reply (refused _ _) = err (bad_request unavailable)
of_reply done = ok tt

-- The transaction's table is written when it commits.
abbrev pub commit : Store → Result Items → Store × Result (Unit {0})
commit s (ok items) = (record s { items = items }, ok tt)
commit s (err e) = (s, err e)

unfoldable pub reserve_sorted : Store → List InventoryDelta → Mode → Store × Result (Unit {0})
unfolding ensure_loaded reserve_script reserve_rows
reserve_sorted s [] mode = (s, ok tt)
reserve_sorted s (d ∷ ds) mode =
    let loaded = ensure_loaded s (ids (d ∷ ds)) in
    if loaded.redis_ready
    then (let (redis, reply) = reserve_script loaded.redis (d ∷ ds) mode in
        (record loaded { redis = redis }, of_reply reply))
    else commit loaded (reserve_rows mode loaded.items (d ∷ ds))

unfoldable pub reserve : Store → List InventoryDelta → Mode → Store × Result (Unit {0})
unfolding filter_capacity_limited reserve_sorted
reserve s ds mode =
    let (loaded, sorted) = filter_capacity_limited s ds in reserve_sorted loaded sorted mode

unfoldable pub release_redis_only : Store → List InventoryDelta → Store
unfolding filter_capacity_limited ensure_loaded release_script
release_redis_only s ds =
    let (first, sorted) = filter_capacity_limited s ds in
    let loaded = ensure_loaded first (ids sorted) in
    if first.redis_ready
    then record loaded { redis = release_script loaded.redis sorted }
    else first

unfoldable pub release : Store → List InventoryDelta → Store
unfolding filter_capacity_limited release_redis_only release_in_postgres
release s ds =
    let (first, sorted) = filter_capacity_limited s ds in
    let released = release_redis_only first sorted in
    record released { items = release_in_postgres released.items sorted }

-- The script, if Redis is ready, and then the statement.
abbrev on_both :
    (Redis → List InventoryDelta → Redis)
    → (Items → List InventoryDelta → Items)
    → Store × List InventoryDelta
    → Store
on_both script statement (first, sorted) =
    let loaded = ensure_loaded first (ids sorted) in
    let scripted : Store =
      if first.redis_ready then record loaded { redis = script loaded.redis sorted } else first in
    record scripted { items = statement scripted.items sorted }

unfoldable pub convert : Store → List InventoryDelta → Store
unfolding filter_capacity_limited ensure_loaded convert_script convert_in_postgres
convert s ds = on_both convert_script convert_in_postgres (filter_capacity_limited s ds)

unfoldable pub release_sold : Store → List InventoryDelta → Store
unfolding filter_capacity_limited ensure_loaded release_sold_script release_sold_in_postgres
release_sold s ds =
    on_both release_sold_script release_sold_in_postgres (filter_capacity_limited s ds)

abbrev pub available_hash : Option Hash → Option ℕ
available_hash none = none
available_hash (some h) = elim h.total [
  | pos total ↦ some (total - (h.sold + h.held))
  | negsuc _ ↦ none
]

abbrev pub available_row : Option InventoryItem → Option ℕ
available_row none = none
available_row (some r) = elim r.total_quantity [
  | none ↦ none
  | some total ↦ some (total - (r.sold_quantity + r.held_quantity))
]

-- The keys of a set that the texts are added to, in order.
unfoldable pub unique : List String → List String
unique [] = []
unique (id ∷ rest) = id ∷ filter (λ x. not (same x id)) (unique rest)

-- The entry of one item; a row that Postgres does not have makes none.
abbrev pub availability_entry : Store → String → List (String × Option ℕ)
availability_entry s id =
    if s.redis_ready
    then (id, available_hash (s.redis id)) ∷ []
    else elim (s.items id) [ none ↦ [] | some r ↦ (id, available_row (some r)) ∷ [] ]

unfoldable pub availability_entries : Store → List String → List (String × Option ℕ)
availability_entries s [] = []
availability_entries s (id ∷ rest) = availability_entry s id ++ availability_entries s rest

unfoldable pub get_availability : Store → List String → Store × List (String × Option ℕ)
unfolding ensure_loaded unique availability_entries
get_availability s wanted =
    let loaded = ensure_loaded s (unique wanted) in
    (loaded, availability_entries loaded (unique wanted))

unfoldable pub invalidate : Store → List String → Store
invalidate s [] = s
invalidate s (id ∷ rest) =
    invalidate (if s.redis_ready then record s { redis = delete s.redis id } else s) rest

-- The guarded updates, inside the caller's transaction.
unfoldable pub sync_reserve_to_postgres :
    Store → List InventoryDelta → Mode → Store × Result (Unit {0})
unfolding filter_capacity_limited reserve_rows
sync_reserve_to_postgres s ds mode =
    let (loaded, sorted) = filter_capacity_limited s ds in
    commit loaded (reserve_rows mode loaded.items sorted)
