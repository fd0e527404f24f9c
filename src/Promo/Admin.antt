-- ===== src/Promo/Admin.antt =====
-- `AdminPromocodesService` of src/modules/admin-promocodes/admin-promocodes.service.ts: how codes are
-- stored. The column of a code ignores its case. The lists and the reports on codes, the draw of
-- random codes and who changed a row are not modelled.
pub mod Sound
use bookingqube_nest_backend.Prelude.{
  ℕ, String, Option, none, some, List, [], ◌∷◌, ◌++◌, map, any, Bool, true, false, not, ◌&&◌, ◌||◌,
  if◌then◌else◌,
}
use bookingqube_nest_backend.Prelude.Text.{Text, same, same_codes, trim, upper}
use bookingqube_nest_backend.Prelude.Http.{
  Result, ok, err, HttpError, bad_request, not_found, conflict, ◌>>=◌,
}
use bookingqube_nest_backend.Promo.{
  PromoCode, PromoCodeStatus, draft, active, paused, fixed, per_ticket, has_ended, is_nil,
}
use bookingqube_nest_backend.Promo.AdminInput.{
  UpsertPromocode, Owners, validate, to_data, code_of_input,
}

abbrev pub is_code : Text → PromoCode → Bool
is_code code promo = same_codes (upper promo.code) code

abbrev pub in_use : HttpError
in_use = conflict "That promocode is already in use."

-- A row with no columns yet.
abbrev pub new_promo : String → PromoCode
new_promo id = record {
  id = id;
  organization_id = id;
  code = [];
  name = none;
  description = none;
  show_in_pos = false;
  status = draft;
  discount_type = fixed;
  discount_application = per_ticket;
  discount_value = 0;
  currency = none;
  starts_at = none;
  ends_at = none;
  max_redemptions = none;
  max_redemptions_per_customer = none;
  targets = [];
  redemptions = [];
}

unfoldable pub create_promocode :
    Owners → List PromoCode → String → UpsertPromocode → Result (List PromoCode)
unfolding validate to_data upper trim
create_promocode owners promos id input = validate owners input >>= λ _.
    if any (is_code (code_of_input input)) promos
    then err in_use
    else ok (to_data input (new_promo id) ∷ promos)

unfoldable pub find_promo : String → List PromoCode → Option PromoCode
find_promo id [] = none
find_promo id (p ∷ promos) = if same p.id id then some p else find_promo id promos

abbrev pub update_promo : String → (PromoCode → PromoCode) → PromoCode → PromoCode
update_promo id f p = if same p.id id then f p else p

abbrev pub check_redeemed : UpsertPromocode → Option PromoCode → Result (Unit {0})
check_redeemed input none = err (not_found "Promocode not found.")
check_redeemed input (some promo) =
    if not (is_nil promo.redemptions) && not (is_code (code_of_input input) promo)
    then err (bad_request "The code cannot be changed after it has been redeemed.")
    else ok tt

unfoldable pub update_promocode :
    Owners → List PromoCode → String → UpsertPromocode → Result (List PromoCode)
unfolding find_promo validate to_data upper trim
update_promocode owners promos id input = check_redeemed input (find_promo id promos) >>= λ _.
    validate owners input >>= λ _.
    if any (λ (p : PromoCode). not (same p.id id) && is_code (code_of_input input) p) promos
    then err in_use
    else ok (map (update_promo id (to_data input)) promos)

-- The status that an administrator may set.
pub data SetStatus : Type 0 where
  activate pause : SetStatus

abbrev pub new_status : SetStatus → PromoCodeStatus
new_status activate = active
new_status pause = paused

abbrev pub is_activate : SetStatus → Bool
is_activate activate = true
is_activate pause = false

abbrev pub check_expiry : ℕ → SetStatus → Option PromoCode → Result (Unit {0})
check_expiry now status none = err (not_found "Promocode not found.")
check_expiry now status (some promo) =
    if is_activate status && has_ended now promo.ends_at
    then err (bad_request "Extend the expiry date before activating this promocode.")
    else ok tt

unfoldable pub set_status : List PromoCode → ℕ → String → SetStatus → Result (List PromoCode)
unfolding find_promo
set_status promos now id status = check_expiry now status (find_promo id promos) >>= λ _.
    ok (map (update_promo id (λ p. record p { status = new_status status })) promos)

abbrev pub has_duplicates : List Text → Bool
has_duplicates [] = false
has_duplicates (c ∷ texts) = any (λ d. same_codes d c) texts || has_duplicates texts

abbrev pub normalized_codes : List (String × Text) → List (String × Text)
normalized_codes batch = map (λ (b : String × Text). (b.0, upper (trim b.1))) batch

abbrev pub codes_of_batch : List (String × Text) → List Text
codes_of_batch batch = map (λ (b : String × Text). b.1) batch

-- The rows of a batch, each under a new id.
abbrev pub rows_of : UpsertPromocode → List (String × Text) → List PromoCode
rows_of config [] = []
rows_of config ((id, code) ∷ batch) =
    to_data (record config { code = code }) (new_promo id) ∷ rows_of config batch

-- `bulkCreate`, whose message lists the codes in use, for codes that are drawn or imported.
unfoldable pub bulk_create :
    Owners → List PromoCode → List (String × Text) → UpsertPromocode → Result (List PromoCode)
unfolding validate to_data upper trim
bulk_create owners promos batch config =
    if has_duplicates (codes_of_batch (normalized_codes batch))
    then err (bad_request "The batch contains duplicate promocodes.")
    else validate owners config >>= λ _.
        if any (λ (p : PromoCode). any (λ c. is_code c p) (codes_of_batch (normalized_codes batch)))
          promos
        then err (conflict "Already in use.")
        else ok (rows_of config (normalized_codes batch) ++ promos)
