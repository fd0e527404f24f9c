-- ===== src/Checkout/HoldExpiration.antt =====
-- Holds that run out: the sweep of src/modules/checkout/hold-expiration.service.ts, and the delayed
-- job of each hold in src/modules/queues/booking-jobs.service.ts. Times are in milliseconds.
pub mod Claims
pub mod Once
pub mod Sweep
use bookingqube_nest_backend.Prelude.{
  ℕ, zero, suc, String, Option, none, some, List, [], ◌∷◌, ◌++◌, map, filter, any, take, length,
  Bool, true, false, not, ◌&&◌, leb, ltb, ◌==◌, if◌then◌else◌,
}
use bookingqube_nest_backend.Prelude.Text.{same}
use bookingqube_nest_backend.Inventory.Model.{InventoryDelta}
use bookingqube_nest_backend.Inventory.Deltas.{sort_deltas}
use bookingqube_nest_backend.Inventory.Service.{release}
use bookingqube_nest_backend.Checkout.Records.{
  HoldStatus, active, expired, OrderStatus, pending_payment, order_expired, TicketHold, Order,
  AdvancePayment, PaymentStatus, payment_pending, payment_cancelled, OrderPayment, RecoveryStatus,
  open_recovery, RecoveryReason, awaiting_confirm, confirm_never_called, Recovery, Bookings,
}

abbrev pub default_batch_size : ℕ
default_batch_size = 100

abbrev pub is_active_hold : HoldStatus → Bool
is_active_hold active = true
is_active_hold _ = false

abbrev pub is_pending_payment : OrderStatus → Bool
is_pending_payment pending_payment = true
is_pending_payment _ = false

abbrev pub is_order_expired : OrderStatus → Bool
is_order_expired order_expired = true
is_order_expired _ = false

abbrev pub is_pending_status : PaymentStatus → Bool
is_pending_status payment_pending = true
is_pending_status _ = false

abbrev pub is_open : RecoveryStatus → Bool
is_open open_recovery = true
is_open _ = false

abbrev pub is_awaiting : RecoveryReason → Bool
is_awaiting awaiting_confirm = true
is_awaiting _ = false

-- `x IN (…)`
abbrev pub has_id : List String → String → Bool
has_id ids id = any (λ x. same x id) ids

abbrev pub has_some_id : List String → Option String → Bool
has_some_id ids none = false
has_some_id ids (some id) = has_id ids id

unfoldable pub has_pending_advance : List AdvancePayment → String → Bool
has_pending_advance advances id =
    any (λ (a : AdvancePayment). same a.hold_id id && a.is_pending) advances

-- The condition of the query; a row that another transaction has locked is skipped.
unfoldable pub is_due : List AdvancePayment → (String → Bool) → ℕ → TicketHold → Bool
is_due advances locked now h =
    is_active_hold h.status
    && leb h.expires_at now
    && not (has_pending_advance advances h.id)
    && not (locked h.id)

-- `ORDER BY "expires_at" ASC`
unfoldable pub insert_hold : TicketHold → List TicketHold → List TicketHold
insert_hold h [] = h ∷ []
insert_hold h (x ∷ holds) =
    let rest = insert_hold h holds in
    if leb h.expires_at x.expires_at then h ∷ x ∷ holds else x ∷ rest

unfoldable pub by_expiry : List TicketHold → List TicketHold
by_expiry [] = []
by_expiry (h ∷ holds) = insert_hold h (by_expiry holds)

unfoldable pub claimed_ids : Bookings → (String → Bool) → ℕ → ℕ → List String
unfolding is_due by_expiry
claimed_ids s locked now batch_size =
    map (λ (h : TicketHold). h.id)
      (take batch_size (by_expiry (filter (is_due s.advance_payments locked now) s.holds)))

abbrev pub expire_hold : List String → TicketHold → TicketHold
expire_hold ids h =
    if has_id ids h.id && is_active_hold h.status then record h { status = expired } else h

abbrev pub expire_order : List String → Order → Order
expire_order ids o =
    if has_some_id ids o.hold_id && is_pending_payment o.status
    then record o { status = order_expired }
    else o

-- The transaction of both ways.
unfoldable pub expire_claimed : List String → Bookings → Bookings
expire_claimed ids s = record s {
  holds = map (expire_hold ids) s.holds;
  orders = map (expire_order ids) s.orders;
}

abbrev pub items_of : List String → List TicketHold → List InventoryDelta
items_of ids [] = []
items_of ids (h ∷ holds) =
    if has_id ids h.id then h.items ++ items_of ids holds else items_of ids holds

abbrev pub order_ids : (Order → Bool) → List Order → List String
order_ids f orders = map (λ (o : Order). o.id) (filter f orders)

abbrev pub cancel_payment : List String → ℕ → OrderPayment → OrderPayment
cancel_payment ids now p =
    if has_id ids p.order_id && is_pending_status p.status
    then record p {
      status = payment_cancelled;
      failed_at = some now;
      failure_message = some "Hold expired before payment confirmation.";
    }
    else p

abbrev pub mark_recovery : List String → Recovery → Recovery
mark_recovery ids r =
    if has_some_id ids r.order_id && is_open r.status && is_awaiting r.reason
    then record r { reason = confirm_never_called }
    else r

-- What follows the transaction of the sweep, for the holds that it claimed.
unfoldable pub settle_claimed : ℕ → List String → Bookings → Bookings
unfolding sort_deltas release
settle_claimed now ids s =
    let expired_orders =
      order_ids (λ (o : Order). has_some_id ids o.hold_id && is_order_expired o.status) s.orders in
    record s {
      store = release s.store (sort_deltas (items_of ids s.holds));
      payments = map (cancel_payment expired_orders now) s.payments;
      recoveries = map (mark_recovery expired_orders) s.recoveries;
      jobs = filter (λ id. not (has_id ids id)) s.jobs;
      report_syncs = s.report_syncs ++ expired_orders;
    }

unfoldable pub release_expired_holds : Bookings → (String → Bool) → ℕ → ℕ → Bookings × ℕ
unfolding claimed_ids expire_claimed settle_claimed
release_expired_holds s locked now batch_size = elim (claimed_ids s locked now batch_size) [
  | [] ↦ (s, 0)
  | id ∷ ids ↦ (settle_claimed now (id ∷ ids) (expire_claimed (id ∷ ids) s), suc (length ids))
]

-- The loop of `runSweep`, whose fuel is more than the number of holds. Its rounds see one time and
-- one set of locked rows.
unfoldable pub sweep_loop : ℕ → Bookings → (String → Bool) → ℕ → Bookings
unfolding release_expired_holds
sweep_loop zero s locked now = s
sweep_loop (suc fuel) s locked now =
    let after = (release_expired_holds s locked now default_batch_size).0 in
    let rest = sweep_loop fuel after locked now in
    if (release_expired_holds s locked now default_batch_size).1 == default_batch_size
    then rest
    else after

unfoldable pub run_sweep : Bookings → (String → Bool) → ℕ → Bookings
unfolding sweep_loop
run_sweep s locked now = sweep_loop (suc (length s.holds)) s locked now

unfoldable pub find_hold : String → List TicketHold → Option TicketHold
find_hold id [] = none
find_hold id (h ∷ holds) = if same h.id id then some h else find_hold id holds

abbrev pub or_items : List InventoryDelta → List InventoryDelta → List InventoryDelta
or_items [] items = items
or_items (d ∷ deltas) items = d ∷ deltas

-- The job of one hold.
unfoldable pub process_hold_expire : Bookings → String → List InventoryDelta → Bookings
unfolding find_hold has_pending_advance expire_claimed release
process_hold_expire s hold_id deltas = elim (find_hold hold_id s.holds) [
  | none ↦ s
  | some h ↦
      if not (is_active_hold h.status)
      then s
      else if has_pending_advance s.advance_payments hold_id
      then s
      else let expired_hold = expire_claimed (hold_id ∷ []) s in
        record expired_hold {
          store = release s.store (or_items deltas h.items);
          report_syncs =
              s.report_syncs
              ++ order_ids (λ (o : Order). has_some_id (hold_id ∷ []) o.hold_id) s.orders;
        }
]
