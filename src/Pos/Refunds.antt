-- ===== src/Pos/Refunds.antt =====
-- `PosRefundsService` of src/modules/pos/pos-refunds.service.ts: the refund of a whole order at the
-- counter. The check of a password is a parameter; that a hash is brought up to date afterwards is
-- not modelled. Times are in milliseconds and amounts in thousandths.
pub mod Once
use bookingqube_nest_backend.Prelude.{
  ℕ, suc, String, Option, none, some, List, [], ◌∷◌, ◌++◌, map, filter, any, all, Bool, true, false,
  not, ◌&&◌, ◌||◌, if◌then◌else◌, is_some,
}
use bookingqube_nest_backend.Prelude.Text.{includes, Text, same, trim}
use bookingqube_nest_backend.Prelude.Http.{
  Result, ok, err, HttpError, bad_request, unauthorized, not_found, ◌>>=◌, throw_if,
}
use bookingqube_nest_backend.Inventory.Model.{InventoryDelta, Store}
use bookingqube_nest_backend.Inventory.Service.{release_sold}

pub data OrderItemType : Type 0 where
  ticket_type ticket_variant other_item : OrderItemType

pub record OrderItem : Type 0 where
  pub item_type : OrderItemType
  pub item_id : String
  pub third_party_vendor_id : Option String
  pub inventory_item_id : Option String
  pub quantity : ℕ

pub record OrderPayment : Type 0 where
  pub id : String
  pub is_internal : Bool
  pub is_paid : Bool
  pub is_refunded : Bool
  pub amount : ℕ
  pub currency : String

pub data OrderStatus : Type 0 where
  paid refunded other_status : OrderStatus

pub record RefundNote : Type 0 where
  pub agent_id : String
  pub reason : Text
  pub refunded_at : ℕ

-- An order with its items and payments; the note is `metadata.pos_refund`.
pub record Order : Type 0 where
  pub id : String
  pub event_id : String
  pub status : OrderStatus
  pub payment_refunded : Bool
  pub report_version : ℕ
  pub items : List OrderItem
  pub payments : List OrderPayment
  pub pos_refund : Option RefundNote

pub record Refund : Type 0 where
  pub order_id : String
  pub payment_id : String
  pub amount : ℕ
  pub currency : String
  pub reason : Text
  pub created_by_user_id : String
  pub completed_at : ℕ

pub record PosAgent : Type 0 where
  pub id : String
  pub event_id : String
  pub ticket_type_ids : List String
  pub third_party_vendor_ids : List String

pub record CreatePosRefund : Type 0 where
  pub order_id : String
  pub password : String
  pub reason : Text

-- The stock, the tables, and the orders handed to the report. `variants` gives the ticket type of
-- a variant.
pub record Pos : Type 0 where
  pub store : Store
  pub password_hashes : String → Option String
  pub variants : String → Option String
  pub orders : List Order
  pub refunds : List Refund
  pub report_syncs : List String

abbrev pub already_refunded : HttpError
already_refunded = bad_request "This order has already been refunded."

abbrev pub not_paid : HttpError
not_paid = bad_request "Only fully paid orders can be refunded here."

abbrev pub includes_some : List String → Option String → Bool
includes_some ids none = false
includes_some ids (some id) = includes ids id

abbrev pub is_nonempty {ℓ} : {A : Type ℓ} → List A → Bool
is_nonempty [] = false
is_nonempty (_ ∷ _) = true

abbrev pub is_ticket : OrderItem → Bool
is_ticket item = elim item.item_type [
  | ticket_type ↦ true
  | ticket_variant ↦ true
  | other_item ↦ false
]

-- The type of a ticket; a variant that is not found has none.
abbrev pub ticket_type_of : (String → Option String) → OrderItem → Option String
ticket_type_of variants item = elim item.item_type [
  | ticket_type ↦ some item.item_id
  | ticket_variant ↦ variants item.item_id
  | other_item ↦ variants item.item_id
]

unfoldable pub has_full_order_access : (String → Option String) → PosAgent → List OrderItem → Bool
has_full_order_access variants agent items =
    let tickets = filter is_ticket items in
    if is_nonempty agent.third_party_vendor_ids
      && any
          (λ (item : OrderItem).
            not (includes_some agent.third_party_vendor_ids item.third_party_vendor_id))
          tickets
    then false
    else if not (is_nonempty agent.ticket_type_ids)
    then true
    else all
        (λ (item : OrderItem). includes_some agent.ticket_type_ids (ticket_type_of variants item))
        tickets

abbrev pub is_visible : PosAgent → String → Order → Bool
is_visible agent id order =
    same order.id id
    && same order.event_id agent.event_id
    && (not (is_nonempty agent.third_party_vendor_ids)
        || any
            (λ (item : OrderItem).
              includes_some agent.third_party_vendor_ids item.third_party_vendor_id)
            order.items)

unfoldable pub find_order : (Order → Bool) → List Order → Option Order
find_order f [] = none
find_order f (order ∷ orders) = if f order then some order else find_order f orders

abbrev pub paid_payments : Order → List OrderPayment
paid_payments order = filter (λ (p : OrderPayment). p.is_paid) order.payments

abbrev pub check_status : OrderStatus → Result (Unit {0})
check_status paid = ok tt
check_status refunded = err already_refunded
check_status other_status = err not_paid

-- The tests on the order that is read before the transaction.
unfoldable pub check_order : Pos → PosAgent → Order → Result Order
unfolding has_full_order_access
check_order s agent order =
    if not (has_full_order_access s.variants agent order.items)
    then err (not_found "The full order is outside your assigned ticket or vendor access.")
    else check_status order.status >>= λ _.
        if not (is_nonempty (paid_payments order))
        then err (bad_request "No completed payment was found for this order.")
        else if any (λ (p : OrderPayment). not p.is_internal) (paid_payments order)
        then err (bad_request "Online gateway payments must be refunded from the admin portal.")
        else ok order

abbrev pub check_found : Pos → PosAgent → Option Order → Result Order
check_found s agent none = err (not_found "Order not found for this event.")
check_found s agent (some order) = check_order s agent order

abbrev pub refund_of : PosAgent → ℕ → Text → Order → OrderPayment → Refund
refund_of agent now reason order payment = record {
  order_id = order.id;
  payment_id = payment.id;
  amount = payment.amount;
  currency = payment.currency;
  reason = trim reason;
  created_by_user_id = agent.id;
  completed_at = now;
}

-- The refunds of the loop; the table has one refund for each payment at most.
unfoldable pub create_refunds : List Refund → List Refund → Result (List Refund)
create_refunds refunds [] = ok refunds
create_refunds refunds (r ∷ rest) =
    if any (λ (x : Refund). same x.payment_id r.payment_id) refunds
    then err already_refunded
    else create_refunds (refunds ++ (r ∷ [])) rest

abbrev pub refund_payment : List OrderPayment → OrderPayment → OrderPayment
refund_payment paid_ones p =
    if any (λ (x : OrderPayment). same x.id p.id) paid_ones
    then record p { is_paid = false; is_refunded = true }
    else p

abbrev pub refund_order : PosAgent → ℕ → Text → Order → Order → Order
refund_order agent now reason order o =
    if same o.id order.id
    then record o {
      status = refunded;
      payment_refunded = true;
      report_version = suc o.report_version;
      payments = map (refund_payment (paid_payments order)) o.payments;
      pos_refund = some (record { agent_id = agent.id; reason = trim reason; refunded_at = now });
    }
    else o

abbrev pub status_of : Option Order → OrderStatus
status_of none = other_status
status_of (some order) = order.status

-- The transaction, which reads the status again under a lock of the row.
unfoldable pub refund_transaction : Pos → PosAgent → ℕ → Text → Order → Result Pos
unfolding find_order create_refunds
refund_transaction s agent now reason order =
    check_status (status_of (find_order (λ (o : Order). same o.id order.id) s.orders)) >>= λ _.
    create_refunds s.refunds (map (refund_of agent now reason order) (paid_payments order))
    >>= λ refunds. ok (record s {
      refunds = refunds;
      orders = map (refund_order agent now reason order) s.orders;
    })

abbrev pub inventory_deltas : List OrderItem → List InventoryDelta
inventory_deltas [] = []
inventory_deltas (item ∷ items) = elim item.inventory_item_id [
  | none ↦ inventory_deltas items
  | some id ↦ record { inventory_item_id = id; quantity = item.quantity } ∷ inventory_deltas items
]

abbrev pub give_back : Store → List InventoryDelta → Store
give_back store [] = store
give_back store (d ∷ deltas) = release_sold store (d ∷ deltas)

-- What follows the transaction.
unfoldable pub settle_refund : Order → Pos → Pos
settle_refund order s = record s {
  store = give_back s.store (inventory_deltas order.items);
  report_syncs = s.report_syncs ++ (order.id ∷ []);
}

module _ (verify_password : String → String → Bool) where
  abbrev pub password_fits : Option String → String → Bool
  password_fits none password = false
  password_fits (some hash) password = verify_password password hash

  -- What is read and tested before the transaction.
  unfoldable pub prepare_refund : Pos → PosAgent → CreatePosRefund → Result Order
  unfolding find_order check_order
  prepare_refund s agent body =
      if not (password_fits (s.password_hashes agent.id) body.password)
      then err (unauthorized "Incorrect POS password.")
      else check_found s agent (find_order (is_visible agent body.order_id) s.orders)

  unfoldable pub create : Pos → PosAgent → ℕ → CreatePosRefund → Result Pos
  unfolding prepare_refund refund_transaction settle_refund
  create s agent now body = prepare_refund s agent body >>= λ order.
      refund_transaction s agent now body.reason order >>= λ after. ok (settle_refund order after)
