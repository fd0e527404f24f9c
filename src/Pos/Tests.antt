-- ===== src/Pos/Tests.antt =====
-- A refund at the counter, and its theorems at concrete inputs.
use bookingqube_nest_backend.Prelude.{◌≡◌, refl, none, some, [], ◌∷◌, true, false}
use bookingqube_nest_backend.Prelude.Text.{codes, same, text_dec}
use bookingqube_nest_backend.Prelude.Http.{ok, err}
use bookingqube_nest_backend.Pos.Refunds.{
  ticket_type, paid, Order, OrderPayment, PosAgent, Pos, CreatePosRefund, already_refunded,
  refund_transaction, create, find_order, has_full_order_access, create_refunds, check_order,
  prepare_refund, settle_refund, refund_order, refund_of,
}
use bookingqube_nest_backend.Pos.Refunds.Once.{refund_transaction_once, create_once}

abbrev in_cash : OrderPayment
in_cash = record {
  id = "p1";
  is_internal = true;
  is_paid = true;
  is_refunded = false;
  amount = 50000;
  currency = "QAR";
}

abbrev one_order : Order
one_order = record {
  id = "o1";
  event_id = "e1";
  status = paid;
  payment_refunded = false;
  report_version = 1;
  items =
      record {
        item_type = ticket_type;
        item_id = "t1";
        third_party_vendor_id = none;
        inventory_item_id = none;
        quantity = 2;
      }
      ∷ [];
  payments = in_cash ∷ [];
  pos_refund = none;
}

abbrev desk : Pos
desk = record {
  store = record { redis_ready = false; redis = λ _. none; items = λ _. none };
  password_hashes = λ _. some "pw";
  variants = λ _. none;
  orders = one_order ∷ [];
  refunds = [];
  report_syncs = [];
}

abbrev agent : PosAgent
agent = record { id = "a1"; event_id = "e1"; ticket_type_ids = []; third_party_vendor_ids = [] }

abbrev request : CreatePosRefund
request = record { order_id = "o1"; password = "pw"; reason = codes "sick" }

abbrev committed : Pos
committed = record desk {
  orders = refund_order agent 9 (codes "sick") one_order one_order ∷ [];
  refunds = refund_of agent 9 (codes "sick") one_order in_cash ∷ [];
}

commits : refund_transaction desk agent 9 (codes "sick") one_order ≡ ok committed
unfolding refund_transaction text_dec find_order create_refunds
commits = refl

abbrev settled : Pos
settled = record committed { report_syncs = "o1" ∷ [] }

succeeds : create same desk agent 9 request ≡ ok settled
unfolding create refund_transaction text_dec find_order create_refunds has_full_order_access
    check_order prepare_refund settle_refund
succeeds = refl

refund_transaction_once_example :
    refund_transaction committed agent 12 (codes "again") one_order ≡ err already_refunded
refund_transaction_once_example =
    refund_transaction_once desk committed agent agent 9 12 (codes "sick") (codes "again") one_order
      one_order commits refl

create_once_example : ¬ (create same settled agent 12 request ≡ ok settled)
create_once_example =
    create_once same desk settled settled agent agent 9 12 request request succeeds refl
