-- ===== src/Inventory/Scripts/Effect.antt =====
-- What a script writes: each named key once, and no other.
use bookingqube_nest_backend.Prelude.{
  ℕ, suc, ◌≡◌, ◌≢◌, refl, sym, ap, ◌∙◌, subst, String, Option, none, some, List, [], ◌∷◌, arith,
  if_pos, if_neg,
}
use bookingqube_nest_backend.Prelude.Text.{text_dec}
use bookingqube_nest_backend.Inventory.Model.{InventoryDelta, pos, negsuc, Hash, Redis}
use bookingqube_nest_backend.Inventory.Deltas.Merge.{
  IsAbsent, IsDistinct, delta_for, quantity_of, quantity_of-delta_for, or_zero,
}
use bookingqube_nest_backend.Inventory.Scripts.{refusal, first_refusal, on_limited, each_key}

-- The hash after a write.
abbrev pub written : (Hash → Hash) → Option Hash → Option Hash
written f none = none
written f (some h) = elim h.total [ pos _ ↦ some (f h) | negsuc _ ↦ some h ]

pub on_limited_self :
    (f : Hash → Hash) (redis : Redis) (id : String)
    → on_limited f redis id id ≡ written f (redis id)
on_limited_self f redis id = ground arith

pub on_limited_ne :
    (f : Hash → Hash) (redis : Redis) (k id : String) → k ≢ id → on_limited f redis k id ≡ redis id
on_limited_ne f redis k id h = ground arith

-- A key that no delta names is left alone.
pub each_key_absent :
    (f : ℕ → Hash → Hash) (redis : Redis) (id : String) (ds : List InventoryDelta)
    → IsAbsent id ds
    → each_key f redis ds id ≡ redis id
unfolding each_key
each_key_absent f redis id [] h = refl
each_key_absent f redis id (d ∷ ds) h =
    each_key_absent f (on_limited (f d.quantity) redis d.inventory_item_id) id ds h.1
    ∙ on_limited_ne (f d.quantity) redis d.inventory_item_id id h.0

abbrev pub applied : (ℕ → Hash → Hash) → Option ℕ → Option Hash → Option Hash
applied f none h = h
applied f (some qty) h = written (f qty) h

-- After a script each key holds what its one delta makes of it.
pub each_key_lem :
    (f : ℕ → Hash → Hash) (redis : Redis) (id : String) (ds : List InventoryDelta)
    → IsDistinct ds
    → each_key f redis ds id ≡ applied f (delta_for id ds) (redis id)
unfolding each_key delta_for
each_key_lem f redis id [] h = refl
each_key_lem f redis id (d ∷ ds) h = elim (text_dec d.inventory_item_id id) [
  | yes p ↦ rw (if_pos _ p) (
      each_key_absent f (on_limited (f d.quantity) redis d.inventory_item_id) id ds
        (subst (λ k. IsAbsent k ds) p h.0)
      ∙ subst (λ k. on_limited (f d.quantity) redis k id ≡ written (f d.quantity) (redis id))
          (sym p) (on_limited_self (f d.quantity) redis id))
  | no p ↦ rw (if_neg _ p) (
      each_key_lem f (on_limited (f d.quantity) redis d.inventory_item_id) id ds h.1
      ∙ ap (applied f (delta_for id ds))
          (on_limited_ne (f d.quantity) redis d.inventory_item_id id p))
]

-- The first loop lets a list pass only if it lets each delta pass.
pub first_refusal-none :
    (redis : Redis) (i : ℕ) (id : String) (qty : ℕ) (ds : List InventoryDelta)
    → first_refusal redis i ds ≡ none
    → delta_for id ds ≡ some qty
    → refusal qty (redis id) ≡ none
unfolding first_refusal delta_for
first_refusal-none redis i id qty [] h k = cc
first_refusal-none redis i id qty (d ∷ ds) h k =
    ground (arith, first_refusal-none redis (suc i) id qty ds)

-- A change that a quantity of 0 leaves undone goes by what is asked of the key in all.
pub each_key_total :
    (f : ℕ → Hash → Hash) (redis : Redis) (id : String) (ds : List InventoryDelta)
    → ((h : Hash) → f 0 h ≡ h)
    → IsDistinct ds
    → each_key f redis ds id ≡ written (f (quantity_of id ds)) (redis id)
each_key_total f redis id ds zero_lem distinct =
    each_key_lem f redis id ds distinct
    ∙ applied-written (delta_for id ds) (redis id)
    ∙ ap (λ n. written (f n) (redis id)) (sym (quantity_of-delta_for id ds distinct))
  where
    applied-written : (o : Option ℕ) (h : Option Hash) → applied f o h ≡ written (f (or_zero o)) h
    applied-written none none = refl
    applied-written none (some h) = ground (arith, zero_lem h)
    applied-written (some q) h = refl
