-- ===== src/Promo/AdminInput.antt =====
-- The input of src/modules/admin-promocodes/admin-promocodes.service.ts: `validate`, `toData` and
-- `targetRows`. Which rows belong to which organization is a parameter.
use bookingqube_nest_backend.Prelude.{
  ℕ, ◌*◌, String, Option, none, some, List, [], ◌∷◌, map, filter, length, Bool, true, false, not,
  ◌&&◌, ◌||◌, leb, ltb, ◌==◌, if◌then◌else◌, is_some,
}
use bookingqube_nest_backend.Prelude.Text.{Text, codes, same, trim, upper}
use bookingqube_nest_backend.Prelude.Http.{Result, ok, err, bad_request}
use bookingqube_nest_backend.Inventory.Service.{unique}
use bookingqube_nest_backend.Promo.{
  PromoCode, PromoCodeTarget, PromoCodeStatus, DiscountType, percent, fixed, DiscountApplication,
  per_ticket, order_total, PromoTargetType, event, ticket_type, ticket_variant, customer, cafe,
  cafe_menu_item, is_customer, is_nil,
}

-- No target type stands for `all`.
pub record UpsertPromocode : Type 0 where
  pub organization_id : String
  pub code : Text
  pub name : Option Text
  pub description : Option Text
  pub show_in_pos : Bool
  pub status : PromoCodeStatus
  pub discount_type : DiscountType
  pub application_mode : DiscountApplication
  pub discount_value : ℕ
  pub currency : Option Text
  pub target_type : Option PromoTargetType
  pub target_ids : List String
  pub starts_at : Option ℕ
  pub ends_at : Option ℕ
  pub max_redemptions : Option ℕ
  pub max_redemptions_per_customer : Option ℕ

-- Which organizations are active, and to which one a target belongs.
pub record Owners : Type 0 where
  pub is_active_organization : String → Bool
  pub organization_of : PromoTargetType → String → Option String

abbrev pub is_percent : DiscountType → Bool
is_percent percent = true
is_percent fixed = false

abbrev pub is_order_total : DiscountApplication → Bool
is_order_total order_total = true
is_order_total per_ticket = false

abbrev pub is_line_target : Option PromoTargetType → Bool
is_line_target (some ticket_type) = true
is_line_target (some ticket_variant) = true
is_line_target (some cafe_menu_item) = true
is_line_target _ = false

abbrev pub trimmed_text : Option Text → Text
trimmed_text none = []
trimmed_text (some s) = trim s

-- `value?.trim() || null`
abbrev pub text_or_null : Option Text → Option Text
text_or_null s = elim (trimmed_text s) [ [] ↦ none | c ∷ rest ↦ some (c ∷ rest) ]

abbrev pub ends_too_soon : Option ℕ → Option ℕ → Bool
ends_too_soon (some starts) (some ends) = leb ends starts
ends_too_soon _ _ = false

abbrev pub is_owned : Owners → PromoTargetType → String → String → Bool
is_owned owners t organization_id id = elim (owners.organization_of t id) [
  | none ↦ false
  | some owner ↦ same owner organization_id
]

abbrev pub foreign_message : PromoTargetType → String
foreign_message event = "One or more events do not belong to this organizer."
foreign_message ticket_type = "One or more ticket types do not belong to this organizer."
foreign_message ticket_variant = "One or more ticket variants do not belong to this organizer."
foreign_message cafe = "One or more cafes do not belong to this organizer."
foreign_message cafe_menu_item = "One or more cafe menu items do not belong to this organizer."
foreign_message customer = ""

-- A query counts each row once, so that an id that is given twice is refused. No input has customers
-- as its targets, and they are not looked up.
abbrev pub check_targets : Owners → UpsertPromocode → Option PromoTargetType → Result (Unit {0})
check_targets owners input none = ok tt
check_targets owners input (some t) =
    if is_customer t
      || length (filter (is_owned owners t input.organization_id) (unique input.target_ids))
        == length input.target_ids
    then ok tt
    else err (bad_request (foreign_message t))

unfoldable pub validate : Owners → UpsertPromocode → Result (Unit {0})
unfolding trim unique
validate owners input =
    if is_percent input.discount_type && ltb (100 * 1000) input.discount_value
    then err (bad_request "Percentage discounts cannot exceed 100%.")
    else if input.show_in_pos && is_nil (trimmed_text input.name)
    then err (bad_request "Enter an offer name before showing this promotion in POS.")
    else if is_order_total input.application_mode && is_line_target input.target_type
    then err (
        bad_request
          "Order-total promocodes can only apply to all organizer events, selected events, or selected cafes.")
    else if not (is_some input.target_type) && not (is_nil input.target_ids)
    then err (bad_request "All-events promocodes must not include individual targets.")
    else if is_some input.target_type && is_nil input.target_ids
    then err (bad_request "Select at least one eligible target.")
    else if ends_too_soon input.starts_at input.ends_at
    then err (bad_request "Expiry must be after the start date.")
    else if not (owners.is_active_organization input.organization_id)
    then err (bad_request "Select an active organizer.")
    else check_targets owners input input.target_type

abbrev pub code_of_input : UpsertPromocode → Text
code_of_input input = upper (trim input.code)

abbrev pub target_rows : Option PromoTargetType → List String → List PromoCodeTarget
target_rows none ids = []
target_rows (some t) ids = map (λ id. record { target_type = t; target_id = id }) ids

-- The columns of `toData` and the rows of `targetRows`; a code for a percentage has no currency.
unfoldable pub to_data : UpsertPromocode → PromoCode → PromoCode
unfolding trim upper
to_data input promo = record promo {
  organization_id = input.organization_id;
  code = code_of_input input;
  name = text_or_null input.name;
  description = text_or_null input.description;
  show_in_pos = input.show_in_pos;
  status = input.status;
  discount_type = input.discount_type;
  discount_application = input.application_mode;
  discount_value = input.discount_value;
  currency =
      if is_percent input.discount_type then none else some (upper (currency_text input.currency));
  starts_at = input.starts_at;
  ends_at = input.ends_at;
  max_redemptions = input.max_redemptions;
  max_redemptions_per_customer = input.max_redemptions_per_customer;
  targets = target_rows input.target_type input.target_ids;
}
  where
    currency_text : Option Text → Text
    currency_text none = codes "QAR"
    currency_text (some s) = s
