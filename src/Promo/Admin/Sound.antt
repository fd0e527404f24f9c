-- ===== src/Promo/Admin/Sound.antt =====
-- No stored code takes off more than all of an order, so that no booking is charged below nothing.
use bookingqube_nest_backend.Prelude.{
  inl, inr, ℕ, ◌*◌, ◌≤◌, ◌≡◌, sym, ap, ◌∙◌, subst, String, some, some_inj, List, [], ◌∷◌, map, any,
  Bool, true, false, not, ◌&&◌, ltb, if◌then◌else◌, arith, All, All-append, Bool-cases, sum_by,
}
use bookingqube_nest_backend.Prelude.Text.{Text, same}
use bookingqube_nest_backend.Prelude.Http.{ok, ok_inj, bind_parts, if_ok, bad_request, conflict}
use bookingqube_nest_backend.Promo.{PromoCode, percent, scale}
use bookingqube_nest_backend.Promo.Charge.{
  ResolvedLineItem, line_subtotal, calculate_promo_discount,
}
use bookingqube_nest_backend.Promo.Charge.Limits.{calculate_promo_discount-le}
use bookingqube_nest_backend.Promo.AdminInput.{
  Owners, UpsertPromocode, is_percent, validate, to_data, code_of_input,
}
use bookingqube_nest_backend.Promo.Admin.{
  is_code, in_use, create_promocode, find_promo, update_promo, check_redeemed, update_promocode,
  SetStatus, new_status, check_expiry, set_status, has_duplicates, codes_of_batch, normalized_codes,
  rows_of, bulk_create,
}

-- A percentage is at most all.
abbrev pub IsSound : PromoCode → Type 0
IsSound promo = promo.discount_type ≡ percent → promo.discount_value ≤ scale

validate_sound :
    (owners : Owners) (input : UpsertPromocode)
    → validate owners input ≡ ok tt
    → input.discount_type ≡ percent
    → input.discount_value ≤ scale
unfolding validate
validate_sound owners input e p =
    let (low, _) =
      if_ok (is_percent input.discount_type && ltb (100 * 1000) input.discount_value)
        (bad_request "Percentage discounts cannot exceed 100%.") _ e in
    let test : (true && ltb (100 * 1000) input.discount_value) ≡ false =
      ap (λ t. is_percent t && ltb (100 * 1000) input.discount_value) (sym p) ∙ low in
    ground (arith, test)

map-IsSound :
    (id : String) (f : PromoCode → PromoCode) (promos : List PromoCode)
    → ((p : PromoCode) → IsSound p → IsSound (f p))
    → All IsSound promos
    → All IsSound (map (update_promo id f) promos)
map-IsSound id f [] keep h = tt
map-IsSound id f (p ∷ promos) keep h = (head (same p.id id), map-IsSound id f promos keep h.1)
  where
    head : (b : Bool) → IsSound (if b then f p else p)
    head true = keep p h.0
    head false = h.0

create_promocode-IsSound :
    (owners : Owners) (promos after : List PromoCode) (id : String) (input : UpsertPromocode)
    → create_promocode owners promos id input ≡ ok after
    → All IsSound promos
    → All IsSound after
unfolding create_promocode to_data
create_promocode-IsSound owners promos after id input e h =
    let (_, checked, e1) = bind_parts (validate owners input) _ e in
    let (_, made) = if_ok (any (is_code (code_of_input input)) promos) in_use _ e1 in
    subst (All IsSound) (ok_inj made) (validate_sound owners input checked, h)

update_promocode-IsSound :
    (owners : Owners) (promos after : List PromoCode) (id : String) (input : UpsertPromocode)
    → update_promocode owners promos id input ≡ ok after
    → All IsSound promos
    → All IsSound after
unfolding update_promocode to_data
update_promocode-IsSound owners promos after id input e h =
    let (_, _, e1) = bind_parts (check_redeemed input (find_promo id promos)) _ e in
    let (_, checked, e2) = bind_parts (validate owners input) _ e1 in
    let (_, made) =
      if_ok (any (λ (p : PromoCode). not (same p.id id) && is_code (code_of_input input) p) promos)
        in_use _ e2 in
    subst (All IsSound) (ok_inj made)
      (map-IsSound id (to_data input) promos (λ p s. validate_sound owners input checked) h)

set_status-IsSound :
    (promos after : List PromoCode) (now : ℕ) (id : String) (status : SetStatus)
    → set_status promos now id status ≡ ok after
    → All IsSound promos
    → All IsSound after
unfolding set_status
set_status-IsSound promos after now id status e h =
    let (_, _, made) = bind_parts (check_expiry now status (find_promo id promos)) _ e in
    subst (All IsSound) (ok_inj made)
      (map-IsSound id (λ p. record p { status = new_status status }) promos (λ p s. s) h)

rows-IsSound :
    (config : UpsertPromocode) (batch : List (String × Text))
    → (config.discount_type ≡ percent → config.discount_value ≤ scale)
    → All IsSound (rows_of config batch)
unfolding to_data
rows-IsSound config [] h = tt
rows-IsSound config ((id, code) ∷ batch) h = (h, rows-IsSound config batch h)

bulk_create-IsSound :
    (owners : Owners) (promos after : List PromoCode) (batch : List (String × Text))
    (config : UpsertPromocode)
    → bulk_create owners promos batch config ≡ ok after
    → All IsSound promos
    → All IsSound after
unfolding bulk_create
bulk_create-IsSound owners promos after batch config e h =
    let (_, e1) = if_ok (has_duplicates (codes_of_batch (normalized_codes batch))) _ _ e in
    let (_, checked, e2) = bind_parts (validate owners config) _ e1 in
    let (_, made) =
      if_ok
        (any (λ (p : PromoCode). any (λ c. is_code c p) (codes_of_batch (normalized_codes batch)))
          promos)
        (conflict "Already in use.") _ e2 in
    subst (All IsSound) (ok_inj made) (
      All-append IsSound (rows_of config (normalized_codes batch)) promos
        (rows-IsSound config (normalized_codes batch) (validate_sound owners config checked)) h)

-- What administrators have stored, one operation after another, from no codes.
pub data Stored (owners : Owners) : List PromoCode → Type 0 where
  nothing_stored : Stored owners []
  created :
      {promos after : List PromoCode} (id : String) (input : UpsertPromocode)
      → Stored owners promos
      → create_promocode owners promos id input ≡ ok after
      → Stored owners after
  updated :
      {promos after : List PromoCode} (id : String) (input : UpsertPromocode)
      → Stored owners promos
      → update_promocode owners promos id input ≡ ok after
      → Stored owners after
  status_set :
      {promos after : List PromoCode} (now : ℕ) (id : String) (status : SetStatus)
      → Stored owners promos
      → set_status promos now id status ≡ ok after
      → Stored owners after
  bulk_created :
      {promos after : List PromoCode} (batch : List (String × Text)) (config : UpsertPromocode)
      → Stored owners promos
      → bulk_create owners promos batch config ≡ ok after
      → Stored owners after

Stored-IsSound :
    (owners : Owners) (promos : List PromoCode) → Stored owners promos → All IsSound promos
Stored-IsSound owners promos nothing_stored = tt
Stored-IsSound owners promos (created {promos = before} id input s e) =
    create_promocode-IsSound owners before promos id input e (Stored-IsSound owners before s)
Stored-IsSound owners promos (updated {promos = before} id input s e) =
    update_promocode-IsSound owners before promos id input e (Stored-IsSound owners before s)
Stored-IsSound owners promos (status_set {promos = before} now id status s e) =
    set_status-IsSound before promos now id status e (Stored-IsSound owners before s)
Stored-IsSound owners promos (bulk_created {promos = before} batch config s e) =
    bulk_create-IsSound owners before promos batch config e (Stored-IsSound owners before s)

find_promo-IsSound :
    (id : String) (promos : List PromoCode) (p : PromoCode)
    → All IsSound promos
    → find_promo id promos ≡ some p
    → IsSound p
unfolding find_promo
find_promo-IsSound id [] p h e = cc
find_promo-IsSound id (q ∷ promos) p h e = elim (Bool-cases (same q.id id)) [
  | inl t ↦ subst IsSound (some_inj (rw t at e)) h.0
  | inr t ↦ find_promo-IsSound id promos p h.1 (rw t at e)
]

-- A code that administrators have stored, by whatever sequence of creations, batches, updates and
-- changes of status, takes off a booking at most what its lines cost, options included.
pub offered_discount_le :
    (owners : Owners) (promos : List PromoCode) (p : PromoCode) (id : String) (now : ℕ)
    (event_id organization_id customer_id : String) (items : List ResolvedLineItem) (d : ℕ)
    → Stored owners promos
    → find_promo id promos ≡ some p
    → calculate_promo_discount (some p) now event_id organization_id customer_id items ≡ ok d
    → d ≤ sum_by line_subtotal items
offered_discount_le owners promos p id now event_id organization_id customer_id items d s found e =
    let sound = find_promo-IsSound id promos p (Stored-IsSound owners promos s) found in
    calculate_promo_discount-le (some p) now event_id organization_id customer_id items d
      (λ q k. subst IsSound (some_inj k) sound) e
