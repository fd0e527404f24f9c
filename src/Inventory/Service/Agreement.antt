-- ===== src/Inventory/Service/Agreement.antt =====
-- While Redis is ready, `release`, `convert` and `releaseSold` keep Redis and Postgres in
-- agreement, and each changes the counts of an item by what the request asks of it.
use bookingqube_nest_backend.Prelude.{
  ℕ, ◌≡◌, sym, ◌∙◌, ap, subst, String, List, arith, inl, inr, true,
}
use bookingqube_nest_backend.Inventory.Model.{
  InventoryDelta, InventoryItem, Hash, Redis, Items, Store,
}
use bookingqube_nest_backend.Inventory.Deltas.{ids}
use bookingqube_nest_backend.Inventory.Deltas.Merge.{quantity_of, IsDistinct}
use bookingqube_nest_backend.Inventory.Scripts.{
  each_key, convert_held, release_held, release_sold_count, release_script,
}
use bookingqube_nest_backend.Inventory.Scripts.Effect.{written, each_key_total}
use bookingqube_nest_backend.Inventory.Statements.{
  each_row, convert_held_row, release_held_row, release_sold_row, release_in_postgres,
}
use bookingqube_nest_backend.Inventory.Statements.Effect.{each_row_total}
use bookingqube_nest_backend.Inventory.Service.{
  ensure_loaded, filter_capacity_limited, on_both, convert, release_sold, release,
  release_redis_only,
}
use bookingqube_nest_backend.Inventory.Service.Mirror.{
  Agree, Mirrors, StoreMirrors, each-Mirrors, ensure_loaded-StoreMirrors, filter-StoreMirrors,
  release-Agree, convert-Agree, release_sold-Agree, written-image,
}
use bookingqube_nest_backend.Inventory.Service.Quantities.{
  ensure_loaded-ready, filter_capacity_limited-IsDistinct, quantity_of-filter_twice,
}

filter-ready :
    (s : Store) (ds : List InventoryDelta)
    → (filter_capacity_limited s ds).0.redis_ready ≡ s.redis_ready
unfolding filter_capacity_limited
filter-ready s ds = ensure_loaded-ready s _

on_both_ready :
    (script : Redis → List InventoryDelta → Redis) (statement : Items → List InventoryDelta → Items)
    (first : Store) (sorted : List InventoryDelta)
    → first.redis_ready ≡ true
    → on_both script statement (first, sorted) ≡ record (ensure_loaded first (ids sorted)) {
      redis = script (ensure_loaded first (ids sorted)).redis sorted;
      items = statement (ensure_loaded first (ids sorted)).items sorted;
    }
on_both_ready script statement first sorted ready = simp ready

on_both-StoreMirrors :
    (f : ℕ → Hash → Hash) (g : ℕ → InventoryItem → InventoryItem) (first : Store)
    (sorted : List InventoryDelta)
    → ((qty : ℕ) → Agree (f qty) (g qty))
    → first.redis_ready ≡ true
    → StoreMirrors first
    → StoreMirrors (on_both (each_key f) (each_row g) (first, sorted))
on_both-StoreMirrors f g first sorted a ready m =
    let loaded = ensure_loaded first (ids sorted) in
    subst StoreMirrors (sym (on_both_ready (each_key f) (each_row g) first sorted ready)) (
      each-Mirrors f g loaded.redis loaded.items sorted a
        (ensure_loaded-StoreMirrors first (ids sorted) m))

-- While Redis is ready and holds for each loaded item what Postgres holds, it does so after a
-- conversion of held tickets to sold ones, whatever the request.
pub convert-StoreMirrors :
    (s : Store) (ds : List InventoryDelta)
    → s.redis_ready ≡ true
    → StoreMirrors s
    → StoreMirrors (convert s ds)
unfolding convert
convert-StoreMirrors s ds ready m =
    let f = filter_capacity_limited s ds in
    on_both-StoreMirrors convert_held convert_held_row f.0 f.1 convert-Agree
      (filter-ready s ds ∙ ready) (filter-StoreMirrors s ds m)

-- While Redis is ready and holds for each loaded item what Postgres holds, it does so after sold
-- tickets are given back, whatever the request.
pub release_sold-StoreMirrors :
    (s : Store) (ds : List InventoryDelta)
    → s.redis_ready ≡ true
    → StoreMirrors s
    → StoreMirrors (release_sold s ds)
unfolding release_sold
release_sold-StoreMirrors s ds ready m =
    let f = filter_capacity_limited s ds in
    on_both-StoreMirrors release_sold_count release_sold_row f.0 f.1 release_sold-Agree
      (filter-ready s ds ∙ ready) (filter-StoreMirrors s ds m)

release_redis_only_ready :
    (s : Store) (ds : List InventoryDelta)
    → s.redis_ready ≡ true
    → let f = filter_capacity_limited s ds in
      release_redis_only s ds ≡ record (ensure_loaded f.0 (ids f.1)) {
        redis = release_script (ensure_loaded f.0 (ids f.1)).redis f.1;
      }
unfolding release_redis_only
release_redis_only_ready s ds ready = simp ready

release-Mirrors :
    (redis : Redis) (items : Items) (ds es : List InventoryDelta)
    → IsDistinct ds
    → IsDistinct es
    → ((id : String) → quantity_of id es ≡ quantity_of id ds)
    → Mirrors redis items
    → Mirrors (release_script redis es) (release_in_postgres items ds)
unfolding release_script release_in_postgres
release-Mirrors redis items ds es dd de same_total m id =
    rw
      (
        each_key_total release_held redis id es (λ h. ground arith) de,
        each_row_total release_held_row items id ds (λ r. ground arith) dd,
        same_total id,
      )
      (elim (m id) [
        | inl e ↦ inl (ap (written (release_held (quantity_of id ds))) e)
        | inr e ↦ inr (
            ap (written (release_held (quantity_of id ds))) e
            ∙ written-image (release_held (quantity_of id ds))
                (release_held_row (quantity_of id ds)) (items id)
                (release-Agree (quantity_of id ds)))
      ])

-- While Redis is ready and holds for each loaded item what Postgres holds, it does so after held
-- tickets are released, although the script is given the request filtered twice and the statement
-- the request filtered once.
pub release-StoreMirrors :
    (s : Store) (ds : List InventoryDelta)
    → s.redis_ready ≡ true
    → StoreMirrors s
    → StoreMirrors (release s ds)
unfolding release
release-StoreMirrors s ds ready m =
    let f = filter_capacity_limited s ds in
    let g = filter_capacity_limited f.0 f.1 in
    let loaded = ensure_loaded g.0 (ids g.1) in
    subst (λ (r : Store). StoreMirrors (record r { items = release_in_postgres r.items f.1 }))
      (sym (release_redis_only_ready f.0 f.1 (filter-ready s ds ∙ ready)))
      (release-Mirrors loaded.redis loaded.items f.1 g.1 (filter_capacity_limited-IsDistinct s ds)
        (filter_capacity_limited-IsDistinct f.0 f.1) (quantity_of-filter_twice s ds)
        (ensure_loaded-StoreMirrors g.0 (ids g.1)
          (filter-StoreMirrors f.0 f.1 (filter-StoreMirrors s ds m))))
