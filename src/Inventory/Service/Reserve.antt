-- ===== src/Inventory/Service/Reserve.antt =====
-- `reserve` of the service: the stock is never exceeded, and the Postgres path does all or nothing.
use bookingqube_nest_backend.Prelude.{
  ◌≡◌, refl, ◌∙◌, ap, subst, String, some, List, [], ◌∷◌, arith, ◌⊎◌, inl, inr, false, Option-cases,
  Bool-cases, if_both, if_pos, if_neg, if◌then◌else◌,
}
use bookingqube_nest_backend.Prelude.Text.{text_dec}
use bookingqube_nest_backend.Prelude.Dict.{update}
use bookingqube_nest_backend.Prelude.Http.{Result, ok, err, bad_request}
use bookingqube_nest_backend.Inventory.Model.{
  InventoryDelta, InventoryItem, Hash, Redis, Items, Store, Mode,
}
use bookingqube_nest_backend.Inventory.Deltas.{ids, merge_deltas}
use bookingqube_nest_backend.Inventory.Deltas.Merge.{quantity_of, IsDistinct}
use bookingqube_nest_backend.Inventory.Scripts.Capacity.{
  NoOversell, HashFits, reserve_script-NoOversell,
}
use bookingqube_nest_backend.Inventory.Statements.{reserve_rows, unavailable}
use bookingqube_nest_backend.Inventory.Statements.Capacity.{
  NoOversellRows, RowFits, raised, reserve_rows_effect, reserve_rows-NoOversellRows,
  reserve_rows_cases,
}
use bookingqube_nest_backend.Inventory.Service.{
  hash_of, load, ensure_loaded, filter_capacity_limited, reserve, reserve_sorted, commit,
}
use bookingqube_nest_backend.Inventory.Service.Quantities.{
  limited_id, filter_capacity_limited-IsDistinct, quantity_of-filter_capacity_limited,
}

-- No store holds or sells more than a limited stock.
pub record StoreFits (s : Store) : Type 0 where
  pub in_redis : NoOversell s.redis
  pub in_postgres : NoOversellRows s.items

hash_of-HashFits : (r : InventoryItem) → RowFits (some r) → HashFits (some (hash_of r))
hash_of-HashFits r h = ground arith

update-NoOversell :
    (redis : Redis) (k : String) (h : Hash)
    → HashFits (some h)
    → NoOversell redis
    → NoOversell (update redis k h)
update-NoOversell redis k h here fits id = elim (text_dec k id) [
  | yes p ↦ rw (if_pos _ p) here
  | no p ↦ rw (if_neg _ p) (fits id)
]

load-NoOversell :
    (items : Items) (redis : Redis) (wanted : List String)
    → NoOversellRows items
    → NoOversell redis
    → NoOversell (load items redis wanted)
unfolding load
load-NoOversell items redis [] rows fits = fits
load-NoOversell items redis (id ∷ rest) rows fits = elim (Option-cases (items id)) [
  | inl e ↦ rw (e, load) (load-NoOversell items redis rest rows fits)
  | inr (r, e) ↦
      rw (e, load)
        (load-NoOversell items (update redis id (hash_of r)) rest rows (
          update-NoOversell redis id (hash_of r) (hash_of-HashFits r (subst RowFits e (rows id)))
            fits))
]

ensure_loaded-StoreFits :
    (s : Store) (wanted : List String) → StoreFits s → StoreFits (ensure_loaded s wanted)
unfolding ensure_loaded
ensure_loaded-StoreFits s wanted fits = elim (Bool-cases s.redis_ready) [
  | inl e ↦ rw e (record {
    in_redis = load-NoOversell s.items s.redis _ fits.in_postgres fits.in_redis;
    in_postgres = fits.in_postgres;
  })
  | inr e ↦ rw e (record { in_redis = fits.in_redis; in_postgres = fits.in_postgres })
]

commit-StoreFits :
    (s : Store) (r : Result Items)
    → StoreFits s
    → ((next : Items) → r ≡ ok next → NoOversellRows next)
    → StoreFits (commit s r).0
commit-StoreFits s (ok next) fits h = record { in_redis = fits.in_redis; in_postgres = h next refl }
commit-StoreFits s (err e) fits h = fits

reserve_sorted-StoreFits :
    (s : Store) (ds : List InventoryDelta) (mode : Mode)
    → IsDistinct ds
    → StoreFits s
    → StoreFits (reserve_sorted s ds mode).0
unfolding reserve_sorted
reserve_sorted-StoreFits s [] mode distinct fits = fits
reserve_sorted-StoreFits s (d ∷ ds) mode distinct fits =
    let loaded = ensure_loaded s (ids (d ∷ ds)) in
    let f : StoreFits loaded = ensure_loaded-StoreFits s (ids (d ∷ ds)) fits in
    if_both (λ (r : Store × Result (Unit {0})). StoreFits r.0) loaded.redis_ready
      (record {
        in_redis = reserve_script-NoOversell loaded.redis (d ∷ ds) mode distinct f.in_redis;
        in_postgres = f.in_postgres;
      })
      (commit-StoreFits loaded (reserve_rows mode loaded.items (d ∷ ds)) f
        (λ next e. reserve_rows-NoOversellRows mode loaded.items next (d ∷ ds) e f.in_postgres))

filter-StoreFits :
    (s : Store) (ds : List InventoryDelta)
    → StoreFits s
    → StoreFits (filter_capacity_limited s ds).0
unfolding filter_capacity_limited
filter-StoreFits s ds fits = ensure_loaded-StoreFits s (ids (merge_deltas ds)) fits

-- Whatever the request and whichever store answers it, a reservation leaves in neither store more
-- tickets held and sold than a limited stock has, if there were not more before.
pub reserve-StoreFits :
    (s : Store) (ds : List InventoryDelta) (mode : Mode)
    → StoreFits s
    → StoreFits (reserve s ds mode).0
unfolding reserve
reserve-StoreFits s ds mode fits =
    reserve_sorted-StoreFits (filter_capacity_limited s ds).0 (filter_capacity_limited s ds).1 mode
      (filter_capacity_limited-IsDistinct s ds) (filter-StoreFits s ds fits)

ensure_loaded_off :
    (s : Store) (wanted : List String) → s.redis_ready ≡ false → ensure_loaded s wanted ≡ s
unfolding ensure_loaded
ensure_loaded_off s wanted off = simp off

filter_off :
    (s : Store) (ds : List InventoryDelta)
    → s.redis_ready ≡ false
    → (filter_capacity_limited s ds).0 ≡ s
unfolding filter_capacity_limited
filter_off s ds off = ensure_loaded_off s (ids (merge_deltas ds)) off

reserve_sorted_off :
    (s : Store) (ds : List InventoryDelta) (mode : Mode)
    → s.redis_ready ≡ false
    → reserve_sorted s ds mode ≡ commit s (reserve_rows mode s.items ds)
unfolding reserve_sorted
reserve_sorted_off s [] mode off = refl
reserve_sorted_off s (d ∷ ds) mode off =
    (simp off)
    ∙ ap (λ (t : Store). commit t (reserve_rows mode t.items (d ∷ ds)))
        (ensure_loaded_off s (ids (d ∷ ds)) off)

reserve_off :
    (s : Store) (ds : List InventoryDelta) (mode : Mode)
    → s.redis_ready ≡ false
    → reserve s ds mode ≡ commit s (reserve_rows mode s.items (filter_capacity_limited s ds).1)
unfolding reserve
reserve_off s ds mode off =
    ap (λ (t : Store). reserve_sorted t (filter_capacity_limited s ds).1 mode) (filter_off s ds off)
    ∙ reserve_sorted_off s (filter_capacity_limited s ds).1 mode off

-- Without Redis a reservation either succeeds, and raises the count of each item that has a limited
-- stock by all that the request asks of it and of no other, or is refused, and changes nothing.
pub reserve_in_postgres_lem :
    (s : Store) (ds : List InventoryDelta) (mode : Mode)
    → s.redis_ready ≡ false
    → (((reserve s ds mode).1 ≡ ok tt)
        × ((id : String)
            → (reserve s ds mode).0.items id
              ≡ raised mode (if limited_id s id then quantity_of id ds else 0) (s.items id)))
      ⊎ (reserve s ds mode ≡ (s, err (bad_request unavailable)))
reserve_in_postgres_lem s ds mode off =
    elim (reserve_rows_cases mode s.items (filter_capacity_limited s ds).1) [
      | inl (next, e) ↦ inl (
        rw (reserve_off s ds mode off, e),
        λ id.
            rw (reserve_off s ds mode off, e)
              (reserve_rows_effect mode s.items next (filter_capacity_limited s ds).1 id e
                ∙ ap (λ n. raised mode n (s.items id)) (asked id)),
      )
      | inr e ↦ inr (rw (reserve_off s ds mode off, e))
    ]
  where
    asked :
        (id : String)
        → quantity_of id (filter_capacity_limited s ds).1
          ≡ (if limited_id s id then quantity_of id ds else 0)
    asked id =
        quantity_of-filter_capacity_limited s ds id
        ∙ ap (λ (t : Store). if limited_id t id then quantity_of id ds else 0) (filter_off s ds off)
