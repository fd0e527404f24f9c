-- ===== src/Promo/Basket.antt =====
-- The basket of a preview in src/modules/promocodes/promocodes.service.ts: the tickets of a request,
-- and those that a code is good for. A quantity and a price are whole numbers of thousandths, since the
-- preview does not ask for whole quantities; what a quantity costs is in millionths.
use bookingqube_nest_backend.Prelude.{
  ℕ, suc, ◌*◌, String, Option, none, some, List, [], ◌∷◌, ◌++◌, map, filter, sum_by, Bool, false,
  ◌&&◌, ◌||◌, if◌then◌else◌,
}
use bookingqube_nest_backend.Prelude.Text.{Text, same}
use bookingqube_nest_backend.Prelude.Integers.{ℤ, pos}
use bookingqube_nest_backend.Promo.{
  PromoCode, PromoCodeTarget, is_ticket_type, is_ticket_variant, is_nil, targets_of, is_target,
}

-- A ticket of the request; a number is `none` if it is not finite, an id if it is missing or empty.
pub record TicketInput : Type 0 where
  pub ticket_id : Option String
  pub variant_id : Option String
  pub quantity : Option ℤ
  pub unit_price : Option ℤ

pub record SelectedTicket : Type 0 where
  pub ticket_id : String
  pub variant_id : Option String
  pub quantity : ℕ
  pub unit_price : ℕ

pub record PromoApplyRequest : Type 0 where
  pub code : Option Text
  pub event_slug : Text
  pub selected_tickets : List TicketInput

pub record TicketVariant : Type 0 where
  pub id : String
  pub external_key : String

pub record TicketType : Type 0 where
  pub id : String
  pub external_key : String
  pub variants : List TicketVariant

pub record PromoEvent : Type 0 where
  pub id : String
  pub organization_id : String
  pub is_published : Bool
  pub ticket_types : List TicketType

pub record Catalogue : Type 0 where
  pub find_promo : Text → Option PromoCode
  pub find_event : Text → Option PromoEvent

-- A ticket with an id, a quantity above zero and a price that is not negative.
abbrev pub ticket_of : Option String → Option String → Option ℤ → Option ℤ → List SelectedTicket
ticket_of (some id) variant_id (some (pos (suc n))) (some (pos price)) =
    record { ticket_id = id; variant_id = variant_id; quantity = suc n; unit_price = price } ∷ []
ticket_of _ _ _ _ = []

abbrev pub normalize_ticket : TicketInput → List SelectedTicket
normalize_ticket input = ticket_of input.ticket_id input.variant_id input.quantity input.unit_price

unfoldable pub normalize_selected_tickets : List TicketInput → List SelectedTicket
normalize_selected_tickets [] = []
normalize_selected_tickets (input ∷ inputs) =
    normalize_ticket input ++ normalize_selected_tickets inputs

-- `new Map(entries).get(key)`: a later entry replaces an earlier one.
abbrev pub map_get : String → List (String × String) → Option String
map_get key [] = none
map_get key ((k, v) ∷ entries) = elim (map_get key entries) [
  | some w ↦ some w
  | none ↦ if same k key then some v else none
]

abbrev pub type_entries : List TicketType → List (String × String)
type_entries types = map (λ (t : TicketType). (t.external_key, t.id)) types

abbrev pub variant_entries : List TicketType → List (String × String)
variant_entries [] = []
variant_entries (t ∷ types) =
    map (λ (v : TicketVariant). (v.external_key, v.id)) t.variants ++ variant_entries types

abbrev pub found_target : List PromoCodeTarget → Option String → Bool
found_target targets none = false
found_target targets (some id) = is_target targets id

-- Whether the variant of a ticket, or its type, is a target.
abbrev pub variant_target : PromoCode → PromoEvent → Option String → Bool
variant_target promo e none = false
variant_target promo e (some variant_id) =
    found_target (targets_of is_ticket_variant promo)
      (map_get variant_id (variant_entries e.ticket_types))

abbrev pub type_target : PromoCode → PromoEvent → String → Bool
type_target promo e ticket_id =
    found_target (targets_of is_ticket_type promo) (map_get ticket_id (type_entries e.ticket_types))

abbrev pub is_eligible : PromoCode → PromoEvent → SelectedTicket → Bool
is_eligible promo e ticket =
    variant_target promo e ticket.variant_id || type_target promo e ticket.ticket_id

unfoldable pub get_eligible_tickets :
    PromoCode → List SelectedTicket → PromoEvent → List SelectedTicket
get_eligible_tickets promo selected e =
    if is_nil (targets_of is_ticket_type promo) && is_nil (targets_of is_ticket_variant promo)
    then selected
    else filter (is_eligible promo e) selected

abbrev pub price_of : SelectedTicket → ℕ
price_of ticket = ticket.unit_price * ticket.quantity

abbrev pub subtotal_of : List SelectedTicket → ℕ
subtotal_of tickets = sum_by price_of tickets
