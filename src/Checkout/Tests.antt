-- ===== src/Checkout/Tests.antt =====
-- Runs of the checkout's parts, and their theorems at concrete inputs.
mod Payments
mod Confirmations
mod Callbacks
use bookingqube_nest_backend.Prelude.{◌≡◌, refl, none, some, [], true, false, inr}
use bookingqube_nest_backend.Prelude.Text.{codes, codes_dec, trim}
use bookingqube_nest_backend.Prelude.Integers.{pos, negsuc, ◌+ℤ◌}
use bookingqube_nest_backend.Checkout.OfflinePayment.{
  OfflinePaymentDto, NormalizedOfflinePayment, split, in_cash, by_card, round_money,
  normalize_offline_payment, assert_offline_payment, resolve_tender_amounts,
  tender_from_advance_legs,
}
use bookingqube_nest_backend.Checkout.OfflinePayment.Tender.{
  total_tender, resolve_tender_total, tender_from_advance_total,
}
use bookingqube_nest_backend.Checkout.OfflinePayment.Legs.{
  LegArguments, other_leg, create_offline_payment_legs,
}
use bookingqube_nest_backend.Checkout.OfflinePayment.LegTotals.{total_amount_of, create_legs_total}
use bookingqube_nest_backend.Prelude.{◌∷◌, Bool, String, All}
use bookingqube_nest_backend.Prelude.Text.{text_dec}
use bookingqube_nest_backend.Checkout.Records.{Order, active, pending_payment, TicketHold, Bookings}
use bookingqube_nest_backend.Checkout.HoldExpiration.{
  has_id, has_pending_advance, is_due, insert_hold, by_expiry, claimed_ids, release_expired_holds,
  run_sweep, process_hold_expire,
}
use bookingqube_nest_backend.Checkout.HoldExpiration.Once.{
  sweep_then_job, process_hold_expire_twice,
}
use bookingqube_nest_backend.Checkout.HoldExpiration.Sweep.{run_sweep_lem}

-- Ten in cash and five by card.
abbrev split_request : OfflinePaymentDto
split_request = record {
  mode = codes "split";
  split_cash_amount = some (pos 10000000);
  split_card_amount = some (pos 4999600);
  advance_amount = none;
  advance_type = none;
  agent_id = some (codes "  ");
  booked_by_agent_id = none;
  sold_by_user_id = some (codes " u7");
}

abbrev split_payment : NormalizedOfflinePayment
split_payment = record {
  mode = split;
  split_cash_amount = pos 10000;
  split_card_amount = pos 5000;
  advance_amount = pos 0;
  advance_type = none;
  booked_by_agent_id = some (codes "u7");
}

split_normalized : normalize_offline_payment (some split_request) none ≡ inr (some split_payment)
unfolding normalize_offline_payment codes_dec trim round_money
split_normalized = refl

half_up : round_money (negsuc 499) ≡ pos 0
unfolding round_money
half_up = refl

split_accepted : assert_offline_payment (some split_payment) (pos 15000) ≡ none
unfolding assert_offline_payment ◌+ℤ◌
split_accepted = refl

abbrev split_arguments : LegArguments
split_arguments = record {
  order_id = "o1";
  offline = some split_payment;
  online_paid = none;
  total_amount = pos 15000;
  currency = "QAR";
  default_leg_type = other_leg;
  collected_by_user_id = none;
  now = 0;
  extra_legs = [];
}

resolve_tender_total_example :
    total_tender (resolve_tender_amounts (some split_payment) (pos 15000) true false) ≡ pos 15000
resolve_tender_total_example = resolve_tender_total split_payment (pos 15000) false split_accepted

create_legs_total_example :
    total_amount_of (create_offline_payment_legs [] split_arguments) ≡ pos 15000
create_legs_total_example = create_legs_total split_arguments split_payment refl refl split_accepted

-- A hold that has run out, one with a deposit, and one that has time left.
abbrev pub old_hold : TicketHold
old_hold = record {
  id = "h1";
  status = active;
  expires_at = 10;
  customer_id = some "c1";
  release_token_hash = some "hash";
  items = record { inventory_item_id = "seats"; quantity = 2 } ∷ [];
}

abbrev pub first_order : Order
first_order = record {
  id = "o1";
  hold_id = some "h1";
  status = pending_payment;
  common_order = "BQ1";
  idempotency_key = "key";
  customer_id = some "c1";
  customer_email = none;
  event_id = none;
  event_slug = none;
  is_pos = false;
  total_amount = 50000;
  currency = "QAR";
  items = record { inventory_item_id = some "seats"; quantity = 2 } ∷ [];
  label_method_id = none;
  paid_at = none;
  cancelled_at = none;
  report_version = 1;
}

abbrev pub bookings : Bookings
bookings = record {
  store = record { redis_ready = false; redis = λ _. none; items = λ _. none };
  holds =
      old_hold
      ∷ record old_hold { id = "h2" }
      ∷ record old_hold { id = "h3"; expires_at = 90 }
      ∷ [];
  orders = first_order ∷ [];
  advance_payments = record { hold_id = "h2"; is_pending = true } ∷ [];
  payments = [];
  recoveries = [];
  sessions = [];
  jobs = "h1" ∷ [];
  report_syncs = [];
}

abbrev pub unlocked : String → Bool
unlocked _ = false

claimed_first : claimed_ids bookings unlocked 50 100 ≡ "h1" ∷ []
unfolding claimed_ids is_due by_expiry insert_hold has_pending_advance text_dec
claimed_first = refl

pub claimed_has_first : has_id (claimed_ids bookings unlocked 50 100) "h1" ≡ true
unfolding claimed_ids is_due by_expiry insert_hold has_pending_advance text_dec
claimed_has_first = refl

sweep_then_job_example :
    let after = (release_expired_holds bookings unlocked 50 100).0 in
    process_hold_expire after "h1" old_hold.items ≡ after
sweep_then_job_example =
    sweep_then_job bookings unlocked 50 100 "h1" old_hold.items claimed_has_first

run_sweep_lem_example :
    All
      (λ h. is_due bookings.advance_payments unlocked 50 h ≡ false)
      (run_sweep bookings unlocked 50).holds
run_sweep_lem_example = run_sweep_lem bookings unlocked 50
