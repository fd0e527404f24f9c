-- ===== src/Inventory/Tests.antt =====
-- Runs of the inventory, and its theorems at concrete inputs.
use bookingqube_nest_backend.Prelude.{
  ℕ, ◌≡◌, ◌≢◌, refl, String, none, some, List, [], ◌∷◌, true, false, arith, ◌⊎◌, if◌then◌else◌,
}
use bookingqube_nest_backend.Prelude.Text.{text_dec}
use bookingqube_nest_backend.Prelude.Dict.{update}
use bookingqube_nest_backend.Prelude.Http.{ok, err, bad_request}
use bookingqube_nest_backend.Inventory.Model.{
  InventoryDelta, InventoryItem, active, hold, sold, Redis, Items, Store,
}
use bookingqube_nest_backend.Inventory.Deltas.Merge.{quantity_of, delta_for}
use bookingqube_nest_backend.Inventory.Scripts.{reserve_script, done, count_up}
use bookingqube_nest_backend.Inventory.Scripts.Effect.{applied}
use bookingqube_nest_backend.Inventory.Scripts.Capacity.{NoOversell, AllGranted, reserve_script_lem}
use bookingqube_nest_backend.Inventory.Statements.{reserve_rows, unavailable}
use bookingqube_nest_backend.Inventory.Statements.Capacity.{raised, NoOversellRows}
use bookingqube_nest_backend.Inventory.Service.{
  reserve, release, filter_capacity_limited, hash_of, get_availability,
}
use bookingqube_nest_backend.Inventory.Service.Mirror.{StoreMirrors, Mirrors}
use bookingqube_nest_backend.Inventory.Service.Quantities.{limited_id}
use bookingqube_nest_backend.Inventory.Service.Agreement.{release-StoreMirrors}
use bookingqube_nest_backend.Inventory.Service.Reserve.{
  StoreFits, reserve-StoreFits, reserve_in_postgres_lem,
}
use bookingqube_nest_backend.Inventory.Service.Sync.{AllLimited, reserve_then_sync}
use bookingqube_nest_backend.Inventory.Scripts.{convert_script, release_sold_script}
use bookingqube_nest_backend.Inventory.Scripts.Interleaving.{
  AllHeld, Reachable, at_start, and_then, convert_step, reserve_step, release_sold_step,
  Reachable-NoOversell,
}

-- Ten seats, three sold and two held, and an item with no limit.
abbrev seats : InventoryItem
seats = record { total_quantity = some 10; sold_quantity = 3; held_quantity = 2; status = active }

abbrev parking : InventoryItem
parking = record { total_quantity = none; sold_quantity = 0; held_quantity = 0; status = active }

abbrev venue : Items
venue = update (update (λ _. none) "parking" parking) "seats" seats

abbrev cached : Redis
cached = update (λ _. none) "seats" (hash_of seats)

abbrev online : Store
online = record { redis_ready = true; redis = cached; items = venue }

abbrev offline : Store
offline = record { redis_ready = false; redis = λ _. none; items = venue }

abbrev delta : String → ℕ → InventoryDelta
delta id n = record { inventory_item_id = id; quantity = n }

-- Five seats asked for in two parts, and a parking place.
abbrev request : List InventoryDelta
request = delta "seats" 2 ∷ delta "parking" 1 ∷ delta "seats" 3 ∷ []

abbrev five_seats : List InventoryDelta
five_seats = delta "seats" 5 ∷ []

request_filtered : (filter_capacity_limited online request).1 ≡ five_seats
unfolding filter_capacity_limited text_dec
request_filtered = refl

reserved_seats : (reserve offline request hold).1 ≡ ok tt
unfolding reserve text_dec
reserved_seats = refl

sixth_seat_refused : (reserve online (delta "seats" 6 ∷ []) sold).1 ≡ err (bad_request unavailable)
unfolding reserve text_dec
sixth_seat_refused = refl

seats_left :
    (get_availability online ("seats" ∷ "parking" ∷ "seats" ∷ [])).1
    ≡ ("seats", some 5) ∷ ("parking", none) ∷ []
unfolding get_availability text_dec
seats_left = refl

venue-NoOversellRows : NoOversellRows venue
venue-NoOversellRows id = ground arith

cached-NoOversell : NoOversell cached
cached-NoOversell id = ground arith

online-StoreMirrors : StoreMirrors online
online-StoreMirrors id = ground arith

five_seats-AllLimited : AllLimited cached five_seats
unfolding delta_for
five_seats-AllLimited id qty e = ground arith

five_seats_done : (reserve_script cached five_seats hold).1 ≡ done
unfolding reserve_script text_dec
five_seats_done = refl

reserve-StoreFits_example : StoreFits (reserve online request hold).0
reserve-StoreFits_example =
    reserve-StoreFits online request hold
      (record { in_redis = cached-NoOversell; in_postgres = venue-NoOversellRows })

reserve_in_postgres_lem_example :
    (((reserve offline request hold).1 ≡ ok tt)
      × ((id : String)
          → (reserve offline request hold).0.items id
            ≡ raised hold (if limited_id offline id then quantity_of id request else 0) (venue id)))
    ⊎ (reserve offline request hold ≡ (offline, err (bad_request unavailable)))
reserve_in_postgres_lem_example = reserve_in_postgres_lem offline request hold refl

reserve_script_lem_example :
    (AllGranted cached five_seats
      × ((reserve_script cached five_seats hold).1 ≡ done)
      × ((id : String)
          → (reserve_script cached five_seats hold).0 id
            ≡ applied (count_up hold) (delta_for id five_seats) (cached id)))
    ⊎ ((¬ AllGranted cached five_seats)
        × ((reserve_script cached five_seats hold).1 ≢ done)
        × ((reserve_script cached five_seats hold).0 ≡ cached))
reserve_script_lem_example = reserve_script_lem cached five_seats hold (tt, tt)

abbrev six_held : Items
six_held = update venue "seats" (record seats { held_quantity = 7 })

five_seats_committed :
    reserve_rows hold venue five_seats
    ≡ ok (update venue "seats" (record seats { held_quantity = 7 }))
unfolding reserve_rows text_dec
five_seats_committed = refl

reserve_then_sync_example :
    (next : Items) × (reserve_rows hold venue five_seats ≡ ok next)
    × Mirrors (reserve_script cached five_seats hold).0 next
reserve_then_sync_example =
    reserve_then_sync cached venue five_seats hold online-StoreMirrors (tt, tt)
      five_seats-AllLimited five_seats_done

release-StoreMirrors_example : StoreMirrors (release online request)
release-StoreMirrors_example = release-StoreMirrors online request refl online-StoreMirrors

-- The two seats that are held are sold; then five are asked for, and two are given back.
abbrev two_seats : List InventoryDelta
two_seats = delta "seats" 2 ∷ []

two_seats-AllHeld : AllHeld cached two_seats
unfolding delta_for
two_seats-AllHeld id qty e = ground arith

abbrev three_scripts : Redis
three_scripts =
    release_sold_script (reserve_script (convert_script cached two_seats) five_seats sold).0
      two_seats

three_scripts-Reachable : Reachable cached three_scripts
three_scripts-Reachable =
    and_then
      (and_then (and_then at_start (convert_step two_seats (tt, tt) two_seats-AllHeld refl))
        (reserve_step five_seats sold (tt, tt) refl))
      (release_sold_step two_seats refl)

Reachable-NoOversell_example : NoOversell three_scripts
Reachable-NoOversell_example =
    Reachable-NoOversell cached three_scripts three_scripts-Reachable cached-NoOversell
