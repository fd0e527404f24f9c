-- ===== src/Inventory/Service/Sync.antt =====
-- A reservation that Redis has granted can be written to Postgres, and then both agree again.
use bookingqube_nest_backend.Prelude.{
  ℕ, ◌≡◌, ◌≢◌, refl, sym, ◌∙◌, ap, subst, String, Option, none, some, List, [], ◌∷◌, arith, ◌⊎◌,
  inl, inr, true,
}
use bookingqube_nest_backend.Prelude.Dict.{update, update_ne}
use bookingqube_nest_backend.Prelude.Http.{ok}
use bookingqube_nest_backend.Inventory.Model.{
  InventoryDelta, InventoryItem, Hash, Redis, Items, Mode, hold, sold,
}
use bookingqube_nest_backend.Inventory.Deltas.Merge.{
  IsAbsent, IsDistinct, delta_for, delta_for_head, delta_for_tail, delta_for_absent,
  quantity_of-delta_for, or_zero,
}
use bookingqube_nest_backend.Inventory.Scripts.{reserve_script, done, count_up}
use bookingqube_nest_backend.Inventory.Scripts.Effect.{written, applied}
use bookingqube_nest_backend.Inventory.Scripts.Capacity.{AllGranted, Grants, reserve_script_lem}
use bookingqube_nest_backend.Inventory.Statements.{reserve_rows, count_up_row}
use bookingqube_nest_backend.Inventory.Statements.Capacity.{
  GrantsRow, raised, raised_zero, reserve_row_lem, reserve_rows_effect, reserve_rows_nil,
  reserve_rows_step,
}
use bookingqube_nest_backend.Inventory.Service.{is_limited_hash}
use bookingqube_nest_backend.Inventory.Service.Mirror.{Mirrors, image}

-- Every item of the list has a hash with a limited stock.
abbrev pub AllLimited : Redis → List InventoryDelta → Type 0
AllLimited redis ds =
    (id : String) (qty : ℕ) → delta_for id ds ≡ some qty → is_limited_hash (redis id) ≡ true

grants_row :
    (qty : ℕ) (r : Option InventoryItem)
    → Grants qty (image r)
    → is_limited_hash (image r) ≡ true
    → GrantsRow qty r
grants_row qty none g l = g
grants_row qty (some r) g l = ground arith

granted_rows :
    (redis : Redis) (items : Items) (ds : List InventoryDelta)
    → Mirrors redis items
    → AllGranted redis ds
    → AllLimited redis ds
    → (id : String) (qty : ℕ) → delta_for id ds ≡ some qty
    → GrantsRow qty (items id)
granted_rows redis items ds m g l id qty e = elim (m id) [
  | inl missing ↦ absurd (subst (Grants qty) missing (g id qty e))
  | inr same ↦
      grants_row qty (items id) (subst (Grants qty) same (g id qty e))
        (subst (λ o. is_limited_hash o ≡ true) same (l id qty e))
]

rows_of_granted :
    (mode : Mode) (items : Items) (ds : List InventoryDelta)
    → IsDistinct ds
    → ((id : String) (qty : ℕ) → delta_for id ds ≡ some qty → GrantsRow qty (items id))
    → (next : Items) × (reserve_rows mode items ds ≡ ok next)
rows_of_granted mode items [] distinct g = (items, reserve_rows_nil mode items)
rows_of_granted mode items (d ∷ ds) distinct g = elim (reserve_row_lem mode items d) [
  | inl (r, _, _, s) ↦
      let after = update items d.inventory_item_id (count_up_row mode d.quantity r) in
      let (next, e) = rows_of_granted mode after ds distinct.1 (later r) in
      (next, reserve_rows_step mode items after d ds s ∙ e)
  | inr (ng, _) ↦ absurd (ng (g d.inventory_item_id d.quantity (delta_for_head d ds)))
]
  where
    differs : (id : String) (qty : ℕ) → delta_for id ds ≡ some qty → d.inventory_item_id ≢ id
    differs id qty e p = cc (delta_for_absent id ds (subst (λ k. IsAbsent k ds) p distinct.0))

    later :
        (r : InventoryItem) (id : String) (qty : ℕ)
        → delta_for id ds ≡ some qty
        → GrantsRow qty (update items d.inventory_item_id (count_up_row mode d.quantity r) id)
    later r id qty e =
        subst (GrantsRow qty)
          (sym (update_ne items (count_up_row mode d.quantity r) (λ p. differs id qty e p)))
          (g id qty (delta_for_tail id qty d ds distinct e))

counted-image :
    (mode : Mode) (qty : ℕ) (r : Option InventoryItem)
    → is_limited_hash (image r) ≡ true
    → written (count_up mode qty) (image r) ≡ image (raised mode qty r)
counted-image mode qty none l = refl
counted-image hold qty (some r) l = ground arith
counted-image sold qty (some r) l = ground arith

counted-Mirrors :
    (mode : Mode) (h : Option Hash) (r : Option InventoryItem) (o : Option ℕ)
    → ((qty : ℕ) → o ≡ some qty → is_limited_hash h ≡ true)
    → (h ≡ none) ⊎ (h ≡ image r)
    → (applied (count_up mode) o h ≡ none)
      ⊎ (applied (count_up mode) o h ≡ image (raised mode (or_zero o) r))
counted-Mirrors mode h r none l (inl e) = inl e
counted-Mirrors mode h r none l (inr e) = inr (e ∙ ap image (sym (raised_zero mode r)))
counted-Mirrors mode h r (some qty) l (inl e) = inl (ap (written (count_up mode qty)) e)
counted-Mirrors mode h r (some qty) l (inr e) = inr (
    ap (written (count_up mode qty)) e
    ∙ counted-image mode qty r (subst (λ g. is_limited_hash g ≡ true) e (l qty refl)))

-- If Redis agrees with Postgres and its script grants a request of distinct items with limited
-- stocks, then the guarded updates of the same request commit, and both agree afterwards.
pub reserve_then_sync :
    (redis : Redis) (items : Items) (ds : List InventoryDelta) (mode : Mode)
    → Mirrors redis items
    → IsDistinct ds
    → AllLimited redis ds
    → (reserve_script redis ds mode).1 ≡ done
    → (next : Items) × (reserve_rows mode items ds ≡ ok next)
      × Mirrors (reserve_script redis ds mode).0 next
reserve_then_sync redis items ds mode m distinct l e =
    elim (reserve_script_lem redis ds mode distinct) [
      | inr (_, ne, _) ↦ absurd (ne e)
      | inl (g, _, effect) ↦
          let (next, committed) =
            rows_of_granted mode items ds distinct (granted_rows redis items ds m g l) in
          (
            next,
            committed,
            λ id.
                rw
                  (
                    effect id,
                    reserve_rows_effect mode items next ds id committed,
                    quantity_of-delta_for id ds distinct,
                  )
                  (counted-Mirrors mode (redis id) (items id) (delta_for id ds) (l id) (m id)),
          )
    ]
