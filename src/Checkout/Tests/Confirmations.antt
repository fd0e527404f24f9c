-- ===== src/Checkout/Tests/Confirmations.antt =====
-- Confirmations of payments at concrete inputs.
use bookingqube_nest_backend.Prelude.{◌≡◌, refl, none, some, [], ◌∷◌, true, false}
use bookingqube_nest_backend.Prelude.Text.{
  Text, text_dec, codes_dec, trim, upper, same, trim_string,
}
use bookingqube_nest_backend.Prelude.Http.{ok, err, bad_request}
use bookingqube_nest_backend.Inventory.Model.{sold, active}
use bookingqube_nest_backend.Inventory.Statements.{unavailable, reserve_rows}
use bookingqube_nest_backend.Inventory.Service.{reserve, reserve_sorted, filter_capacity_limited}
use bookingqube_nest_backend.Checkout.Records.{Order, order_expired, Bookings, qpay, HostedSession}
use bookingqube_nest_backend.Checkout.HoldExpiration.{find_hold, process_hold_expire}
use bookingqube_nest_backend.Checkout.Settlement.{
  currencies_match, assert_amount_and_currency_match,
}
use bookingqube_nest_backend.Checkout.Hosted.{
  no_refs, merge_provider_refs, refs_from_hosted_params, find_hosted_checkout_for_order,
  hosted_session_belongs_to_order, may_be_hosted, by_creation, insert_session, find_session,
  payment_provider_from_gateway,
}
use bookingqube_nest_backend.Checkout.Verification.{Gateways, throws, verify_gateway_settlement}
use bookingqube_nest_backend.Checkout.PaidRows.{ConfirmPayment, Prepared}
use bookingqube_nest_backend.Checkout.Confirmation.{
  confirmed, no_stock, status_of, already_confirmed, find_order, merged_refs, prepare,
  prepare_found, deltas_of, write_tables, settle, confirm_transaction, confirm_payment,
}
use bookingqube_nest_backend.Checkout.Confirmation.Once.{confirm_once, confirm_then_job}
use bookingqube_nest_backend.Checkout.Confirmation.OnRecord.{IsOnRecord, lost_stock-IsOnRecord}
use bookingqube_nest_backend.Checkout.Tests.{old_hold, first_order, bookings}

-- A session that a callback of the bank has paid.
abbrev hosted : HostedSession
hosted = record {
  id = "x1";
  sid = "s1";
  order_id = some "o1";
  common_order = some "BQ1";
  checkout_ref = none;
  gateway = qpay;
  is_paid = true;
  amount = 50000;
  currency = "QAR";
  params = record {
    provider_response = record no_refs { payment_id = some "p1" };
    gateway_callback = none;
    qpay_callback = none;
    result_indicator = none;
    qpay_verified = true;
    confirmed_at = none;
  };
  created_at = 1;
}

abbrev paid_session : Bookings
paid_session = record bookings { sessions = hosted ∷ [] }

abbrev request : ConfirmPayment
request = record {
  common_order = some "BQ1";
  idempotency_key = none;
  provider = none;
  session_id = none;
  payment_id = none;
  result_indicator = none;
}

abbrev digest : Text → Text
digest s = s

abbrev no_gateways : Gateways
no_gateways = record {
  resolve_payment_status = λ _ _ _. throws "offline";
  retrieve_order_status = λ _. throws "offline";
}

prepared : Prepared
prepared = record {
  order = first_order;
  hosted = some hosted;
  refs = record no_refs { session_id = some "s1"; payment_id = some "p1"; gateway = some qpay };
  deltas = old_hold.items;
}

prepare_test : prepare digest no_gateways paid_session request false first_order ≡ ok prepared
unfolding prepared prepare prepare_found find_hosted_checkout_for_order
    hosted_session_belongs_to_order may_be_hosted by_creation insert_session find_session
    merged_refs merge_provider_refs refs_from_hosted_params trim_string verify_gateway_settlement
    assert_amount_and_currency_match currencies_match deltas_of find_hold
    payment_provider_from_gateway trim upper codes_dec text_dec
prepare_test = refl

abbrev paid_bookings : Bookings
paid_bookings = (confirm_payment digest no_gateways paid_session 7 "r9" request false).0

abbrev written_bookings : Bookings
written_bookings = (confirm_transaction paid_session 7 "r9" request prepared).0

transaction_test :
    confirm_transaction paid_session 7 "r9" request prepared ≡ (written_bookings, ok confirmed)
unfolding confirm_transaction find_order text_dec settle write_tables prepared
transaction_test = refl

confirm_once_example :
    confirm_transaction written_bookings 8 "r8" request prepared
    ≡ (written_bookings, ok already_confirmed)
confirm_once_example =
    confirm_once paid_session written_bookings 7 8 "r9" "r8" request request prepared prepared refl
      transaction_test

confirm_then_job_example :
    process_hold_expire written_bookings "h1" old_hold.items ≡ written_bookings
unfolding prepared
confirm_then_job_example =
    confirm_then_job paid_session written_bookings 7 "r9" "h1" request prepared old_hold.items refl
      transaction_test

-- The hold has run out and the seats are sold.
abbrev sold_out : Bookings
sold_out = record bookings {
  store = record {
    redis_ready = false;
    redis = λ _. none;
    items = λ _.
        some (record {
          total_quantity = some 2;
          sold_quantity = 2;
          held_quantity = 0;
          status = active;
        });
  };
  orders = record first_order { status = order_expired } ∷ [];
}

gone_test : (reserve sold_out.store prepared.deltas sold).1 ≡ err (bad_request unavailable)
unfolding prepared reserve filter_capacity_limited reserve_sorted reserve_rows text_dec
gone_test = refl

ran_out_test :
    status_of (find_order (λ (o : Order). same o.id prepared.order.id) sold_out.orders)
    ≡ some order_expired
unfolding prepared find_order text_dec
ran_out_test = refl

lost_stock-IsOnRecord_example :
    IsOnRecord sold_out (confirm_transaction sold_out 7 "r9" request prepared).0 prepared
    × ((confirm_transaction sold_out 7 "r9" request prepared).1 ≡ err no_stock)
unfolding prepared
lost_stock-IsOnRecord_example =
    lost_stock-IsOnRecord sold_out 7 "r9" request prepared (bad_request unavailable) ran_out_test
      refl gone_test
