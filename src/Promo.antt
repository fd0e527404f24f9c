-- ===== src/Promo.antt =====
-- Promo codes: the tables of prisma/schema.prisma and the parts that both the preview of a discount
-- (src/modules/promocodes) and the booking (src/modules/checkout/checkout.service.ts) use.
-- Amounts are thousandths of a rial; a percentage is in thousandths of a percent.
pub mod Basket
pub mod Preview
pub mod Charge
pub mod Redemption
pub mod Agreement
pub mod AdminInput
pub mod Admin
mod Tests
use bookingqube_nest_backend.Prelude.{
  ℕ, ◌+◌, ◌*◌, ◌/◌, String, Option, none, some, List, [], ◌∷◌, map, filter, any, Bool, true, false,
  not, ◌||◌, leb, ltb, if◌then◌else◌,
}
use bookingqube_nest_backend.Prelude.Text.{Text, same}

pub data PromoCodeStatus : Type 0 where
  draft active paused expired : PromoCodeStatus

pub data DiscountType : Type 0 where
  percent fixed : DiscountType

pub data DiscountApplication : Type 0 where
  per_ticket order_total : DiscountApplication

pub data PromoTargetType : Type 0 where
  event ticket_type ticket_variant customer cafe cafe_menu_item : PromoTargetType

pub record PromoCodeTarget : Type 0 where
  pub target_type : PromoTargetType
  pub target_id : String

pub record PromoCodeRedemption : Type 0 where
  pub promo_code_id : String
  pub order_id : String
  pub customer_id : String
  pub discount_amount : ℕ

-- A code with the rows of its targets and redemptions.
pub record PromoCode : Type 0 where
  pub id : String
  pub organization_id : String
  pub code : Text
  pub name : Option Text
  pub description : Option Text
  pub show_in_pos : Bool
  pub status : PromoCodeStatus
  pub discount_type : DiscountType
  pub discount_application : DiscountApplication
  pub discount_value : ℕ
  pub currency : Option Text
  pub starts_at : Option ℕ
  pub ends_at : Option ℕ
  pub max_redemptions : Option ℕ
  pub max_redemptions_per_customer : Option ℕ
  pub targets : List PromoCodeTarget
  pub redemptions : List PromoCodeRedemption

abbrev pub is_active : PromoCodeStatus → Bool
is_active active = true
is_active _ = false

abbrev pub is_event : PromoTargetType → Bool
is_event event = true
is_event _ = false

abbrev pub is_ticket_type : PromoTargetType → Bool
is_ticket_type ticket_type = true
is_ticket_type _ = false

abbrev pub is_ticket_variant : PromoTargetType → Bool
is_ticket_variant ticket_variant = true
is_ticket_variant _ = false

abbrev pub is_customer : PromoTargetType → Bool
is_customer customer = true
is_customer _ = false

abbrev pub not_started : ℕ → Option ℕ → Bool
not_started now none = false
not_started now (some starts) = ltb now starts

abbrev pub has_ended : ℕ → Option ℕ → Bool
has_ended now none = false
has_ended now (some ends) = ltb ends now

-- `max !== null && used >= max`
abbrev pub is_used_up : ℕ → Option ℕ → Bool
is_used_up used none = false
is_used_up used (some most) = leb most used

abbrev pub is_nil {ℓ} : {A : Type ℓ} → List A → Bool
is_nil [] = true
is_nil (_ ∷ _) = false

-- The targets of some types, and whether one of them is the id.
abbrev pub targets_of : (PromoTargetType → Bool) → PromoCode → List PromoCodeTarget
targets_of f promo = filter (λ (t : PromoCodeTarget). f t.target_type) promo.targets

abbrev pub is_target : List PromoCodeTarget → String → Bool
is_target targets id = any (λ (t : PromoCodeTarget). same t.target_id id) targets

-- A code with no target of the types is good for every id.
unfoldable pub is_targeted : (PromoTargetType → Bool) → PromoCode → String → Bool
is_targeted f promo id = is_nil (targets_of f promo) || is_target (targets_of f promo) id

-- An amount before it is rounded is counted in parts of a thousandth, so that a percentage of it
-- is exact.
abbrev pub scale : ℕ
scale = 100_000

abbrev pub least : ℕ → ℕ → ℕ
least a b = if leb a b then a else b

-- What a code takes off an amount, before it is rounded.
abbrev pub share_of : PromoCode → ℕ → ℕ
share_of promo amount = elim promo.discount_type [
  | percent ↦ amount * promo.discount_value
  | fixed ↦ promo.discount_value * scale
]
