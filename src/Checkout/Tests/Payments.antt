-- ===== src/Checkout/Tests/Payments.antt =====
-- Releases, recoveries and confirmations at concrete inputs.
use bookingqube_nest_backend.Prelude.{◌≡◌, refl, String, none, some, [], ◌∷◌, false}
use bookingqube_nest_backend.Prelude.Text.{Text, codes, text_dec, codes_dec, trim, upper, same}
use bookingqube_nest_backend.Prelude.Http.{ok}
use bookingqube_nest_backend.Checkout.Records.{
  Bookings, Recovery, qpay, open_recovery, awaiting_confirm,
}
use bookingqube_nest_backend.Checkout.HoldExpiration.{
  find_hold, process_hold_expire, release_expired_holds,
}
use bookingqube_nest_backend.Checkout.Recovery.{
  VerifiedPayment, RecoveryKeys, find_newest, verifies, is_mismatch,
  assert_verified_customer_payment, is_open_match, find_open_match, resolve,
}
use bookingqube_nest_backend.Checkout.Recovery.Spent.{resolve_spends}
use bookingqube_nest_backend.Checkout.Release.{
  already_released, hold_released, free_hold, release_hold,
}
use bookingqube_nest_backend.Checkout.Release.Once.{release_once, sweep_then_release}
use bookingqube_nest_backend.Checkout.Tests.{
  old_hold, first_order, bookings, unlocked, claimed_has_first,
}

abbrev recovery : Recovery
recovery = record {
  id = "r1";
  common_order = some "BQ1";
  order_id = some "o1";
  customer_id = some "c1";
  customer_email = none;
  event_id = none;
  event_slug = none;
  gateway = qpay;
  status = open_recovery;
  reason = awaiting_confirm;
  amount = 50000;
  currency = "QAR";
  idempotency_key = some "key";
  provider_session_id = some "s1";
  provider_invoice_id = none;
  provider_payment_id = none;
  checkout_snapshot = λ _. none;
  failure_message = none;
  resolved_at = none;
  created_at = 2;
}

abbrev older : Recovery
older = record recovery { id = "r0"; created_at = 1 }

abbrev payment : VerifiedPayment
payment = record {
  gateway = qpay;
  customer_id = some "c1";
  provider_session_id = some " s1";
  provider_payment_id = none;
  amount = 49995;
  currency = "qar";
}

abbrev session_keys : RecoveryKeys
session_keys = record {
  common_order = none;
  order_id = none;
  idempotency_key = none;
  provider_session_id = some "s1";
}

newest_test : find_open_match (older ∷ recovery ∷ []) session_keys ≡ some recovery
unfolding find_open_match find_newest is_open_match trim codes_dec
newest_test = refl

-- What is left when the newer of two recoveries of a session is resolved.
left_test :
    assert_verified_customer_payment (resolve (older ∷ recovery ∷ []) 5 session_keys) payment
    ≡ ok older
unfolding assert_verified_customer_payment resolve find_open_match find_newest is_open_match
    verifies is_mismatch upper trim text_dec codes_dec
left_test = refl

resolve_spends_example : same "r0" "r1" ≡ false
resolve_spends_example =
    resolve_spends (older ∷ recovery ∷ []) 5 session_keys payment recovery older newest_test
      left_test

abbrev plain : Text → String
plain _ = "hash"

abbrev released_bookings : Bookings
released_bookings = free_hold bookings 20 old_hold (first_order ∷ [])

release_test :
    release_hold plain bookings 20 "h1" (some "c1") none ≡ ok (released_bookings, hold_released)
unfolding release_hold find_hold text_dec trim
release_test = refl

release_once_example :
    (process_hold_expire released_bookings "h1" old_hold.items ≡ released_bookings)
    × (release_hold plain released_bookings 30 "h1" none (some (codes "token"))
        ≡ ok (released_bookings, already_released))
release_once_example =
    release_once plain bookings released_bookings 20 30 "h1" (some "c1") none none
      (some (codes "token")) old_hold.items release_test

first_hold : find_hold "h1" bookings.holds ≡ some old_hold
unfolding find_hold text_dec
first_hold = refl

sweep_then_release_example :
    let after = (release_expired_holds bookings unlocked 50 100).0 in
    release_hold plain after 60 "h1" (some "c1") none ≡ ok (after, already_released)
sweep_then_release_example =
    sweep_then_release plain bookings unlocked 50 100 60 old_hold (some "c1") none first_hold
      claimed_has_first
