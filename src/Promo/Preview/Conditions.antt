-- ===== src/Promo/Preview/Conditions.antt =====
-- What it takes for a code to be applied, and the tests of the preview one by one.
use bookingqube_nest_backend.Prelude.{
  ◌≢◌, ◌⊎◌, inl, inr, ◌≤◌, sym, [], ◌∷◌, ◌||◌, some_inj, ◌↔◌, ◌<◌, ℕ, ◌≡◌, refl, ap, String, Option,
  none, some, List, Bool, true, false, if◌then◌else◌, arith, length, ◌==◌,
}
use bookingqube_nest_backend.Prelude.Text.{Text, upper}
use bookingqube_nest_backend.Promo.{
  PromoCodeStatus, draft, active, paused, expired, PromoCodeTarget, targets_of, is_target,
  PromoCode, is_active, is_event, not_started, has_ended, is_used_up, is_nil, is_targeted,
}
use bookingqube_nest_backend.Promo.Basket.{
  SelectedTicket, PromoApplyRequest, PromoEvent, Catalogue, normalize_selected_tickets,
  get_eligible_tickets,
}
use bookingqube_nest_backend.Promo.Preview.{
  PromoReply, applied, failure, PromoDiscount, discount_reply, code_of, total_discount,
  has_ticket_specific_target, or_qar, breakdown_of,
}

pub if_failure :
    (bad : Bool) (c : Text) (m : String) (r : PromoReply) {d : PromoDiscount}
    → (if bad then failure c m else r) ≡ applied d
    → (bad ≡ false) × (r ≡ applied d)
if_failure true c m r h = cc
if_failure false c m r h = (refl, h)

pub applied_inj : {d d' : PromoDiscount} → applied d ≡ applied d' → d ≡ d'
applied_inj {d = d} e = ap (λ r. elim r [ applied x ↦ x | failure _ _ ↦ d ]) e

-- A code that may be used for an event now.
pub record IsUsable (now : ℕ) (promo : PromoCode) (e : PromoEvent) : Type 0 where
  pub active_lem : promo.status ≡ active
  pub published_lem : e.is_published ≡ true
  pub organization_lem : promo.organization_id ≡ e.organization_id
  pub started_lem : (t : ℕ) → promo.starts_at ≡ some t → t ≤ now
  pub ended_lem : (t : ℕ) → promo.ends_at ≡ some t → now ≤ t
  pub limit_lem : (most : ℕ) → promo.max_redemptions ≡ some most → length promo.redemptions < most
  pub target_lem :
      (targets_of is_event promo ≡ []) ⊎ (is_target (targets_of is_event promo) e.id ≡ true)

-- What is shown for tickets.
abbrev pub discount_of_tickets : PromoCode → PromoEvent → List SelectedTicket → PromoDiscount
discount_of_tickets promo e tickets = record {
  code = upper promo.code;
  discount_type = if has_ticket_specific_target promo then "ticket_specific" else "total_order";
  total_discount_amount = total_discount promo e tickets;
  currency = or_qar promo.currency;
  applied_breakdown = breakdown_of promo.discount_application promo e tickets;
}

-- The tickets of a request that a code is good for.
abbrev pub eligible_of : PromoApplyRequest → PromoCode → PromoEvent → List SelectedTicket
eligible_of input promo e =
    get_eligible_tickets promo (normalize_selected_tickets input.selected_tickets) e

-- The reply is a discount for the tickets that the code is good for.
pub record IsApplied (catalogue : Catalogue) (now : ℕ) (input : PromoApplyRequest)
    (d : PromoDiscount) : Type 0 where
  pub promo : PromoCode
  pub promo_event : PromoEvent
  pub promo_lem : catalogue.find_promo (code_of input.code) ≡ some promo
  pub event_lem : catalogue.find_event input.event_slug ≡ some promo_event
  pub code_lem : code_of input.code ≢ []
  pub slug_lem : input.event_slug ≢ []
  pub tickets_lem : normalize_selected_tickets input.selected_tickets ≢ []
  pub usable_lem : IsUsable now promo promo_event
  pub eligible_lem : eligible_of input promo promo_event ≢ []
  pub positive_lem : 0 < d.total_discount_amount
  pub discount_lem : d ≡ discount_of_tickets promo promo_event (eligible_of input promo promo_event)

pub is_nil-false {ℓ} : {A : Type ℓ} (xs : List A) → is_nil xs ≡ false → xs ≢ []
is_nil-false [] h = cc
is_nil-false (x ∷ xs) h = λ e. cc

pub not-nil {ℓ} : {A : Type ℓ} (xs : List A) → xs ≢ [] → is_nil xs ≡ false
not-nil [] h = absurd (h refl)
not-nil (x ∷ xs) h = refl

pub started_iff :
    (now : ℕ) (o : Option ℕ) → (not_started now o ≡ false) ↔ ((t : ℕ) → o ≡ some t → t ≤ now)
started_iff now none = ((λ h t e. cc), λ h. refl)
started_iff now (some s) = (
  (λ h t e. (let own = some_inj e in ground (arith, own))),
  λ h. (let k = h s refl in ground (arith, k)),
)

pub ended_iff :
    (now : ℕ) (o : Option ℕ) → (has_ended now o ≡ false) ↔ ((t : ℕ) → o ≡ some t → now ≤ t)
ended_iff now none = ((λ h t e. cc), λ h. refl)
ended_iff now (some s) = (
  (λ h t e. (let own = some_inj e in ground (arith, own))),
  λ h. (let k = h s refl in ground (arith, k)),
)

pub limit_iff :
    (used : ℕ) (o : Option ℕ)
    → (is_used_up used o ≡ false) ↔ ((most : ℕ) → o ≡ some most → used < most)
limit_iff used none = ((λ h t e. cc), λ h. refl)
limit_iff used (some s) = (
  (λ h t e. (let own = some_inj e in ground (arith, own))),
  λ h. (let k = h s refl in ground (arith, k)),
)

pub is_active_eq : (s : PromoCodeStatus) → is_active s ≡ true → s ≡ active
is_active_eq active h = refl
is_active_eq draft h = cc
is_active_eq paused h = cc
is_active_eq expired h = cc

pub target_iff :
    (promo : PromoCode) (id : String)
    → (is_targeted is_event promo id ≡ true)
      ↔ ((targets_of is_event promo ≡ []) ⊎ (is_target (targets_of is_event promo) id ≡ true))
unfolding is_targeted
target_iff promo id = iff (targets_of is_event promo)
  where
    iff :
        (targets : List PromoCodeTarget)
        → ((is_nil targets || is_target targets id) ≡ true)
          ↔ ((targets ≡ []) ⊎ (is_target targets id ≡ true))
    iff [] = ((λ h. inl refl), λ h. refl)
    iff (t ∷ targets) = ((λ h. inr h), λ h. elim h [ inl e ↦ cc | inr k ↦ k ])

-- A reply for tickets is a discount exactly if there is a ticket and the discount is above zero.
pub discount_reply_iff :
    (code : Text) (promo : PromoCode) (e : PromoEvent) (tickets : List SelectedTicket)
    (d : PromoDiscount)
    → (discount_reply code promo e tickets ≡ applied d)
      ↔ ((tickets ≢ []) × (0 < d.total_discount_amount) × (d ≡ discount_of_tickets promo e tickets))
unfolding discount_reply
discount_reply_iff code promo e tickets d = (
  λ h.
      let (some_ticket, h1) =
        if_failure (is_nil tickets) code "This promo code is not valid for the selected tickets." _
          h in
      let (z, h2) =
        if_failure (total_discount promo e tickets == 0) code
          "This promo code does not apply a discount."
          (applied (discount_of_tickets promo e tickets)) h1 in
      let own = applied_inj h2 in
      let same_total : total_discount promo e tickets ≡ d.total_discount_amount =
        ap (λ (x : PromoDiscount). x.total_discount_amount) own in
      (is_nil-false tickets some_ticket, ground (arith, z, same_total), sym own),
  λ r.
      let (some_ticket, positive, own) = r in
      let same_total : d.total_discount_amount ≡ total_discount promo e tickets =
        ap (λ (x : PromoDiscount). x.total_discount_amount) own in
      let nonzero : (total_discount promo e tickets == 0) ≡ false =
        ground (arith, positive, same_total) in
      rw (not-nil tickets some_ticket, nonzero) (ap applied (sym own)),
)
