-- ===== src/Promo/Preview/Guards.antt =====
-- When a code is applied: exactly if each test of the preview passes.
use bookingqube_nest_backend.Prelude.{
  sym, not-false, ◌↔◌, ℕ, ◌≡◌, refl, ◌∙◌, ap, Option, none, some, List, true, not, length,
}
use bookingqube_nest_backend.Prelude.Text.{Text, same, same-eq, same_refl}
use bookingqube_nest_backend.Promo.{PromoCode, is_active}
use bookingqube_nest_backend.Promo.Basket.{
  SelectedTicket, PromoApplyRequest, PromoEvent, Catalogue, normalize_selected_tickets,
  get_eligible_tickets,
}
use bookingqube_nest_backend.Promo.Preview.{
  applied, failure, PromoDiscount, discount_reply, check_event, wrong_event, check_promo, code_of,
  apply_promocode,
}
use bookingqube_nest_backend.Promo.Preview.Conditions.{
  if_failure, is_nil-false, not-nil, started_iff, ended_iff, limit_iff, is_active_eq, target_iff,
  discount_reply_iff, IsUsable, eligible_of, IsApplied,
}

check_event_parts :
    (now : ℕ) (code : Text) (selected : List SelectedTicket) (promo : PromoCode) (e : PromoEvent)
    (d : PromoDiscount)
    → is_active promo.status ≡ true
    → check_event now code selected promo e ≡ applied d
    → IsUsable now promo e
      × (discount_reply code promo e (get_eligible_tickets promo selected e) ≡ applied d)
unfolding check_event
check_event_parts now code selected promo e d open_status h =
    let (a, h1) = if_failure _ _ _ _ h in
    let (b, h2) = if_failure _ _ _ _ h1 in
    let (c, h3) = if_failure _ _ _ _ h2 in
    let (k, h4) = if_failure _ _ _ _ h3 in
    let (l, h5) = if_failure _ _ _ _ h4 in
    let (m, h6) = if_failure _ _ _ _ h5 in
    (
      record {
        active_lem = is_active_eq promo.status open_status;
        published_lem = not-false _ a;
        organization_lem = same-eq promo.organization_id e.organization_id (not-false _ b);
        started_lem = (started_iff now promo.starts_at).0 c;
        ended_lem = (ended_iff now promo.ends_at).0 k;
        limit_lem = (limit_iff (length promo.redemptions) promo.max_redemptions).0 l;
        target_lem = (target_iff promo e.id).0 (not-false _ m);
      },
      h6,
    )

no_event {ℓ} :
    {A : Type ℓ} (code : Text) {d : PromoDiscount} → failure code wrong_event ≡ applied d → A
no_event code e = cc

check_promo_parts :
    (now : ℕ) (code : Text) (selected : List SelectedTicket) (p : Option PromoCode)
    (f : Option PromoEvent) (d : PromoDiscount)
    → check_promo now code selected p f ≡ applied d
    → (promo : PromoCode) × (e : PromoEvent) × (p ≡ some promo)
      × (f ≡ some e)
      × IsUsable now promo e
      × (discount_reply code promo e (get_eligible_tickets promo selected e) ≡ applied d)
check_promo_parts now code selected none f d h = cc
check_promo_parts now code selected (some promo) none d h =
    no_event code (if_failure (not (is_active promo.status)) code _ (failure code wrong_event) h).1
check_promo_parts now code selected (some promo) (some e) d h =
    let (a, k) = if_failure _ _ _ _ h in
    let (u, r) = check_event_parts now code selected promo e d (not-false _ a) k in
    (promo, e, refl, refl, u, r)

pub apply_promocode_parts :
    (catalogue : Catalogue) (now : ℕ) (input : PromoApplyRequest) (d : PromoDiscount)
    → apply_promocode catalogue now input ≡ applied d
    → IsApplied catalogue now input d
unfolding apply_promocode
apply_promocode_parts catalogue now input d h =
    let (a, h1) = if_failure _ _ _ _ h in
    let (b, h2) = if_failure _ _ _ _ h1 in
    let (c, h3) = if_failure _ _ _ _ h2 in
    let (promo, e, p, q, u, reply) = check_promo_parts _ _ _ _ _ d h3 in
    let (eligible, positive, own) =
      (discount_reply_iff (code_of input.code) promo e (eligible_of input promo e) d).0 reply in
    record {
      promo = promo;
      promo_event = e;
      promo_lem = p;
      event_lem = q;
      code_lem = is_nil-false _ a;
      slug_lem = is_nil-false _ b;
      tickets_lem = is_nil-false _ c;
      usable_lem = u;
      eligible_lem = eligible;
      positive_lem = positive;
      discount_lem = own;
    }

check_event_lem :
    (now : ℕ) (code : Text) (selected : List SelectedTicket) (promo : PromoCode) (e : PromoEvent)
    → IsUsable now promo e
    → check_event now code selected promo e
      ≡ discount_reply code promo e (get_eligible_tickets promo selected e)
unfolding check_event
check_event_lem now code selected promo e u =
    let organization : same promo.organization_id e.organization_id ≡ true =
      ap (same promo.organization_id) (sym u.organization_lem) ∙ same_refl promo.organization_id in
    let started = (started_iff now promo.starts_at).1 u.started_lem in
    let ended = (ended_iff now promo.ends_at).1 u.ended_lem in
    let limit = (limit_iff (length promo.redemptions) promo.max_redemptions).1 u.limit_lem in
    let target = (target_iff promo e.id).1 u.target_lem in
    simp (u.published_lem, organization, started, ended, limit, target)

IsApplied-apply_promocode :
    (catalogue : Catalogue) (now : ℕ) (input : PromoApplyRequest) (d : PromoDiscount)
    → IsApplied catalogue now input d
    → apply_promocode catalogue now input ≡ applied d
unfolding apply_promocode
IsApplied-apply_promocode catalogue now input d a =
    let code = not-nil (code_of input.code) a.code_lem in
    let slug = not-nil input.event_slug a.slug_lem in
    let tickets = not-nil (normalize_selected_tickets input.selected_tickets) a.tickets_lem in
    let open_status : is_active a.promo.status ≡ true = ap is_active a.usable_lem.active_lem in
    (simp (code, slug, tickets, a.promo_lem, a.event_lem, open_status))
    ∙ check_event_lem now (code_of input.code) (normalize_selected_tickets input.selected_tickets)
        a.promo a.promo_event a.usable_lem
    ∙ (discount_reply_iff (code_of input.code) a.promo a.promo_event
          (eligible_of input a.promo a.promo_event) d).1
        (a.eligible_lem, a.positive_lem, a.discount_lem)

-- A request gets a discount exactly if it names a code, an event and a ticket; the code is found and
-- active; the event is found, published and of the same organization; now is neither before the code
-- starts nor after it ends; it has fewer redemptions than its limit, if it has one; it has no events
-- as its targets, or this one; there is a ticket it is good for; and its discount for those tickets,
-- which is then the reply, is above zero. Any other request is refused.
pub apply_promocode_iff :
    (catalogue : Catalogue) (now : ℕ) (input : PromoApplyRequest) (d : PromoDiscount)
    → (apply_promocode catalogue now input ≡ applied d) ↔ IsApplied catalogue now input d
apply_promocode_iff catalogue now input d =
    (apply_promocode_parts catalogue now input d, IsApplied-apply_promocode catalogue now input d)
