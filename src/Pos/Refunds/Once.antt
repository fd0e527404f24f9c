-- ===== src/Pos/Refunds/Once.antt =====
-- An order is refunded once, and by what was paid.
use mathlib.Core.List.{append_assoc}
use bookingqube_nest_backend.Prelude.{
  ℕ, ◌+◌, ◌≡◌, refl, sym, ◌∙◌, ap, String, some, List, [], ◌∷◌, ◌++◌, map, any, Bool, true, false,
  not, if◌then◌else◌, arith, Bool-cases, inl, inr, sum_by, some_inj, Option-cases, ◌&&◌,
}
use bookingqube_nest_backend.Prelude.Text.{Text, same, same-eq}
use bookingqube_nest_backend.Prelude.Http.{
  bind_parts, ok_inj, if_err, HttpError, Result, ok, err, bad_request, unauthorized, not_found,
  ◌>>=◌,
}
use bookingqube_nest_backend.Pos.Refunds.{
  Order, OrderPayment, OrderStatus, paid, refunded, other_status, Refund, PosAgent, Pos,
  already_refunded, check_status, status_of, find_order, refund_order, refund_of, create_refunds,
  refund_transaction, paid_payments, is_visible, is_nonempty, has_full_order_access, check_order,
  check_found, CreatePosRefund, prepare_refund, create, settle_refund, password_fits,
}

check_status_paid : (status : OrderStatus) → check_status status ≡ ok tt → status ≡ paid
check_status_paid paid e = refl
check_status_paid refunded e = cc
check_status_paid other_status e = cc

append-nil : (xs : List Refund) → xs ++ [] ≡ xs
append-nil [] = refl
append-nil (x ∷ xs) = ap (λ ys. x ∷ ys) (append-nil xs)

create_refunds_lem :
    (refunds new out : List Refund) → create_refunds refunds new ≡ ok out → out ≡ refunds ++ new
unfolding create_refunds
create_refunds_lem refunds [] out e = sym (ok_inj e) ∙ sym (append-nil refunds)
create_refunds_lem refunds (r ∷ rest) out e =
    elim (Bool-cases (any (λ (x : Refund). same x.payment_id r.payment_id) refunds)) [
      | inl k ↦ cc (rw k at e)
      | inr k ↦
          create_refunds_lem (refunds ++ (r ∷ [])) rest out (rw k at e)
          ∙ append_assoc refunds (r ∷ []) rest
    ]

-- What a transaction that commits leaves.
refund_transaction_lem :
    (s after : Pos) (agent : PosAgent) (now : ℕ) (reason : Text) (order : Order)
    → refund_transaction s agent now reason order ≡ ok after
    → (status_of (find_order (λ (o : Order). same o.id order.id) s.orders) ≡ paid)
      × (after.orders ≡ map (refund_order agent now reason order) s.orders)
      × (after.refunds ≡ s.refunds ++ map (refund_of agent now reason order) (paid_payments order))
unfolding refund_transaction
refund_transaction_lem s after agent now reason order e =
    let (_, checked, rest) =
      bind_parts (check_status status) (λ _. create_refunds s.refunds new >>= commit) e in
    let (refunds, created, done) = bind_parts (create_refunds s.refunds new) commit rest in
    let committed : committed_with refunds ≡ after = ok_inj done in
    (
      check_status_paid status checked,
      ap (λ (p : Pos). p.orders) (sym committed),
      ap (λ (p : Pos). p.refunds) (sym committed)
          ∙ create_refunds_lem s.refunds new refunds created,
    )
  where
    status : OrderStatus
    status = status_of (find_order (λ (o : Order). same o.id order.id) s.orders)

    new : List Refund
    new = map (refund_of agent now reason order) (paid_payments order)

    committed_with : List Refund → Pos
    committed_with refunds = record s {
      refunds = refunds;
      orders = map (refund_order agent now reason order) s.orders;
    }

    commit : List Refund → Result Pos
    commit refunds = ok (committed_with refunds)

status_of-refund_order :
    (agent : PosAgent) (now : ℕ) (reason : Text) (order : Order) (orders : List Order)
    → status_of (find_order (λ (o : Order). same o.id order.id) orders) ≡ paid
    → status_of (
        find_order
          (λ (o : Order). same o.id order.id)
          (map (refund_order agent now reason order) orders))
      ≡ refunded
unfolding find_order
status_of-refund_order agent now reason order [] e = cc
status_of-refund_order agent now reason order (o ∷ orders) e =
    elim (Bool-cases (same o.id order.id)) [
      | inl k ↦ rw (k, k) refl
      | inr k ↦ rw (k, k) (status_of-refund_order agent now reason order orders (rw k at e))
    ]

-- The order is closed once the transaction of its refund has committed.
closed_after :
    (s after : Pos) (agent : PosAgent) (now : ℕ) (reason : Text) (order : Order) (id : String)
    → refund_transaction s agent now reason order ≡ ok after
    → id ≡ order.id
    → status_of (find_order (λ (o : Order). same o.id id) after.orders) ≡ refunded
closed_after s after agent now reason order id e same_id =
    let (was_paid, orders_after, _) = refund_transaction_lem s after agent now reason order e in
    ap (λ i. status_of (find_order (λ (o : Order). same o.id i) after.orders)) same_id
    ∙ ap (λ os. status_of (find_order (λ (o : Order). same o.id order.id) os)) orders_after
    ∙ status_of-refund_order agent now reason order s.orders was_paid

refund_transaction-closed :
    (s : Pos) (agent : PosAgent) (now : ℕ) (reason : Text) (order : Order)
    → status_of (find_order (λ (o : Order). same o.id order.id) s.orders) ≡ refunded
    → refund_transaction s agent now reason order ≡ err already_refunded
unfolding refund_transaction
refund_transaction-closed s agent now reason order closed = rw closed refl

-- Once the transaction of a refund has committed, the transaction of any other refund of the same
-- order is refused, also one whose tests had passed before.
pub refund_transaction_once :
    (s after : Pos) (agent other : PosAgent) (now later : ℕ) (reason again : Text)
    (order snapshot : Order)
    → refund_transaction s agent now reason order ≡ ok after
    → snapshot.id ≡ order.id
    → refund_transaction after other later again snapshot ≡ err already_refunded
refund_transaction_once s after agent other now later reason again order snapshot e same_id =
    refund_transaction-closed after other later again snapshot
      (closed_after s after agent now reason order snapshot.id e same_id)

sum-append :
    (xs ys : List Refund)
    → sum_by (λ (r : Refund). r.amount) (xs ++ ys)
      ≡ sum_by (λ (r : Refund). r.amount) xs + sum_by (λ (r : Refund). r.amount) ys
sum-append [] ys = omega arith
sum-append (x ∷ xs) ys = omega (arith, sum-append xs ys)

sum-refund_of :
    (agent : PosAgent) (now : ℕ) (reason : Text) (order : Order) (payments : List OrderPayment)
    → sum_by (λ (r : Refund). r.amount) (map (refund_of agent now reason order) payments)
      ≡ sum_by (λ (p : OrderPayment). p.amount) payments
sum-refund_of agent now reason order [] = refl
sum-refund_of agent now reason order (p ∷ payments) =
    ap (λ n. p.amount + n) (sum-refund_of agent now reason order payments)

-- A transaction that commits refunds exactly what the completed payments of the order came to.
pub refund_transaction_amount :
    (s after : Pos) (agent : PosAgent) (now : ℕ) (reason : Text) (order : Order)
    → refund_transaction s agent now reason order ≡ ok after
    → sum_by (λ (r : Refund). r.amount) after.refunds
      ≡ sum_by (λ (r : Refund). r.amount) s.refunds
        + sum_by (λ (p : OrderPayment). p.amount) (paid_payments order)
refund_transaction_amount s after agent now reason order e =
    let (_, _, refunds_after) = refund_transaction_lem s after agent now reason order e in
    ap (sum_by (λ (r : Refund). r.amount)) refunds_after
    ∙ sum-append s.refunds (map (refund_of agent now reason order) (paid_payments order))
    ∙ ap (λ n. sum_by (λ (r : Refund). r.amount) s.refunds + n)
        (sum-refund_of agent now reason order (paid_payments order))

found_id :
    (agent : PosAgent) (id : String) (orders : List Order) (order : Order)
    → find_order (is_visible agent id) orders ≡ some order
    → same order.id id ≡ true
unfolding find_order
found_id agent id [] order e = cc
found_id agent id (o ∷ orders) order e = elim (Bool-cases (is_visible agent id o)) [
  | inl k ↦
      ap (λ (x : Order). same x.id id) (sym (some_inj (rw k at e)))
      ∙ first_of (same o.id id) (same o.event_id agent.event_id) _ k
  | inr k ↦ found_id agent id orders order (rw k at e)
]
  where
    first_of : (a b c : Bool) → (a && b && c) ≡ true → a ≡ true
    first_of true b c h = refl
    first_of false b c h = cc h

check_order_same :
    (s : Pos) (agent : PosAgent) (o order : Order) → check_order s agent o ≡ ok order → o ≡ order
unfolding check_order
check_order_same s agent o order e =
    let (_, _, rest) =
      bind_parts (check_status o.status) (λ _. if_paid)
        (if_err (not (has_full_order_access s.variants agent o.items)) outside
          (check_status o.status >>= λ _. if_paid) e) in
    ok_inj (
      if_err gateway by_gateway (ok o)
        (if_err (not (is_nonempty (paid_payments o))) without_payment if_internal rest))
  where
    outside : HttpError
    outside = not_found "The full order is outside your assigned ticket or vendor access."

    without_payment : HttpError
    without_payment = bad_request "No completed payment was found for this order."

    by_gateway : HttpError
    by_gateway = bad_request "Online gateway payments must be refunded from the admin portal."

    gateway : Bool
    gateway = any (λ (p : OrderPayment). not p.is_internal) (paid_payments o)

    if_internal : Result Order
    if_internal = if gateway then err by_gateway else ok o

    if_paid : Result Order
    if_paid = if not (is_nonempty (paid_payments o)) then err without_payment else if_internal

module _ (verify_password : String → String → Bool) where
  prepare_refund-id :
      (s : Pos) (agent : PosAgent) (body : CreatePosRefund) (order : Order)
      → prepare_refund verify_password s agent body ≡ ok order
      → order.id ≡ body.order_id
  unfolding prepare_refund
  prepare_refund-id s agent body order e =
      let checked =
        if_err (not (password_fits verify_password (s.password_hashes agent.id) body.password))
          (unauthorized "Incorrect POS password.")
          (check_found s agent (find_order (is_visible agent body.order_id) s.orders)) e in
      elim (Option-cases (find_order (is_visible agent body.order_id) s.orders)) [
        | inl none_found ↦ cc (rw none_found at checked)
        | inr (o, found) ↦
            ap (λ (x : Order). x.id) (sym (check_order_same s agent o order (rw found at checked)))
            ∙ same-eq o.id body.order_id (found_id agent body.order_id s.orders o found)
      ]

  -- After a refund of an order has succeeded, no other refund of it succeeds, whoever asks for it.
  pub create_once :
      (s after result : Pos) (agent other : PosAgent) (now later : ℕ) (body again : CreatePosRefund)
      → create verify_password s agent now body ≡ ok after
      → again.order_id ≡ body.order_id
      → ¬ (create verify_password after other later again ≡ ok result)
  unfolding create settle_refund
  create_once s after result agent other now later body again e same_order f =
      let (order, prepared, rest) = bind_parts (prepare_refund verify_password s agent body) _ e in
      let (middle, committed, settled) =
        bind_parts (refund_transaction s agent now body.reason order) _ rest in
      let (snapshot, prepared_again, rest_again) =
        bind_parts (prepare_refund verify_password after other again) _ f in
      let same_id : snapshot.id ≡ order.id =
        prepare_refund-id after other again snapshot prepared_again
        ∙ same_order
        ∙ sym (prepare_refund-id s agent body order prepared) in
      let orders_kept : middle.orders ≡ after.orders =
        ap (λ (p : Pos). p.orders) (ok_inj settled) in
      let closed =
        ap (λ os. status_of (find_order (λ (o : Order). same o.id snapshot.id) os))
          (sym orders_kept)
        ∙ closed_after s middle agent now body.reason order snapshot.id committed same_id in
      let (_, committed_again, _) =
        bind_parts (refund_transaction after other later again.reason snapshot) _ rest_again in
      cc (
        sym (refund_transaction-closed after other later again.reason snapshot closed)
        ∙ committed_again)
