-- ===== src/Checkout/Upsert/Kept.antt =====
-- A payment that is put on record is found again, until it is resolved.
use mathlib.Core.List.Memᴰ
use mathlib.Core.List.{Memᴰ}
use bookingqube_nest_backend.Prelude.{
  subst, or_left, or_right, ℕ, ◌≡◌, refl, ap, ◌∙◌, String, Option, none, some, List, [], ◌∷◌, map,
  Bool, true, false, ◌&&◌, if◌then◌else◌, any, is_some, Option-cases, Bool-cases, inl, inr, All,
  All-map,
}
use bookingqube_nest_backend.Prelude.Text.{same_refl, same_codes_refl, codes, same, trim}
use bookingqube_nest_backend.Checkout.Records.{Recovery}
use bookingqube_nest_backend.Checkout.HoldExpiration.{is_open}
use bookingqube_nest_backend.Checkout.Recovery.{
  RecoveryKeys, find_newest, is_open_match, find_open_match, is_empty, trimmed, is_key,
  update_recovery,
}
use bookingqube_nest_backend.Checkout.Upsert.{
  UpsertRecovery, coalesce, reason_of, merge_row, new_row, upsert_open,
}
use bookingqube_nest_backend.Checkout.Recovery.Spent.{find_newest-All}

find_newest-any :
    (f : Recovery → Bool) (rows : List Recovery)
    → any f rows ≡ true
    → is_some (find_newest f rows) ≡ true
unfolding find_newest
find_newest-any f [] h = cc
find_newest-any f (r ∷ rows) h = elim (Bool-cases (f r)) [
  | inl t ↦ rw t refl
  | inr t ↦ rw t (find_newest-any f rows (rw t at h))
]

-- A text that trimming leaves as it is, and that is not empty.
pub record IsTrimmed (s : String) : Type 0 where
  pub trim_lem : trim (codes s) ≡ codes s
  pub empty_lem : is_empty (codes s) ≡ false

is_key-IsTrimmed : (s : String) → IsTrimmed s → is_key (trimmed (some s)) (some s) ≡ true
is_key-IsTrimmed s h = rw (h.trim_lem, h.empty_lem) (same_codes_refl (codes s))

-- A row that is open and has the key is found.
is_open_match-common_order :
    (keys : RecoveryKeys) (k : String) (r : Recovery)
    → keys.common_order ≡ some k
    → IsTrimmed k
    → is_open r.status ≡ true
    → r.common_order ≡ some k
    → is_open_match keys r ≡ true
unfolding is_open_match
is_open_match-common_order keys k r e h o c = rw (o, e, c, is_key-IsTrimmed k h) refl

find_open_match-any :
    (rows : List Recovery) (keys : RecoveryKeys) (k : String)
    → keys.common_order ≡ some k
    → IsTrimmed k
    → any (is_open_match keys) rows ≡ true
    → is_some (find_open_match rows keys) ≡ true
unfolding find_open_match
find_open_match-any rows keys k e h a =
    let blank : is_empty (trimmed keys.common_order) ≡ false =
      ap (λ o. is_empty (trimmed o)) e ∙ ap is_empty h.trim_lem ∙ h.empty_lem in
    rw blank (find_newest-any (is_open_match keys) rows a)

-- A row that meets the test has the id of a row that does.
has_newest :
    (f : Recovery → Bool) (rows : List Recovery) (r : Recovery)
    → find_newest f rows ≡ some r
    → any (λ q. same q.id r.id) rows ≡ true
has_newest f rows r e =
    find_newest-All (λ q. any (λ x. same x.id q.id) rows ≡ true) f rows r
      (All-map (λ q h _. h) rows (own rows)) e
  where
    own : (qs : List Recovery) → All (λ q. any (λ x. same x.id q.id) qs ≡ true) qs
    own [] = tt
    own (q ∷ qs) =
        (or_left _ (same_refl q.id), All-map (λ x h. or_right (same q.id x.id) h) qs (own qs))

found_if :
    (b : Bool) {o : Option Recovery} {r : Recovery} → (if b then none else o) ≡ some r → o ≡ some r
found_if true h = cc
found_if false h = h

has_open :
    (rows : List Recovery) (keys : RecoveryKeys) (r : Recovery)
    → find_open_match rows keys ≡ some r
    → any (λ q. same q.id r.id) rows ≡ true
unfolding find_open_match
has_open rows keys r e = has_newest (is_open_match keys) rows r (
    found_if
      (is_empty (trimmed keys.common_order)
        && is_empty (trimmed keys.order_id)
        && is_empty (trimmed keys.idempotency_key)
        && is_empty (trimmed keys.provider_session_id))
      e)

any-merged :
    (input : UpsertRecovery) (k id : String) (rows : List Recovery)
    → input.keys.common_order ≡ some k
    → IsTrimmed k
    → any (λ (q : Recovery). same q.id id) rows ≡ true
    → any (is_open_match input.keys) (map (update_recovery id (merge_row input)) rows) ≡ true
any-merged input k id [] e h a = cc
any-merged input k id (q ∷ rows) e h a = elim (Bool-cases (same q.id id)) [
  | inl t ↦
      rw t
        (rw (is_open_match-common_order input.keys k (merge_row input q) e h refl (rw e refl)) refl)
  | inr t ↦
      rw t (or_right (is_open_match input.keys q) (any-merged input k id rows e h (rw t at a)))
]

-- After a payment with a trimmed order number is put on record, whether a row for it was open or not,
-- an open row for it is found.
pub upsert_open_found :
    (rows : List Recovery) (id : String) (now : ℕ) (input : UpsertRecovery) (k : String)
    → input.keys.common_order ≡ some k
    → IsTrimmed k
    → is_some (find_open_match (upsert_open rows id now input) input.keys) ≡ true
unfolding upsert_open
upsert_open_found rows id now input k e h =
    find_open_match-any (upsert_open rows id now input) input.keys k e h
      (elim (Option-cases (find_open_match rows input.keys)) [
        | inl none_open ↦
            rw (none_open, upsert_open)
              (rw (is_open_match-common_order input.keys k (new_row id now input) e h refl e) refl)
        | inr (r, found) ↦
            rw (found, upsert_open)
              (any-merged input k r.id rows e h (has_open rows input.keys r found))
      ])

-- An open row of a payment, as it was put on record.
pub record IsRecorded (input : UpsertRecovery) (r : Recovery) : Type 0 where
  pub status_lem : is_open r.status ≡ true
  pub number_lem : (k : String) → input.keys.common_order ≡ some k → r.common_order ≡ some k
  pub order_lem : (k : String) → input.keys.order_id ≡ some k → r.order_id ≡ some k
  pub payment_lem :
      (k : String) → input.provider_payment_id ≡ some k → r.provider_payment_id ≡ some k
  pub gateway_lem : r.gateway ≡ input.gateway
  pub reason_lem : r.reason ≡ reason_of input.reason
  pub amount_lem : r.amount ≡ input.amount
  message_lem : (m : String) → input.failure_message ≡ some m → r.failure_message ≡ some m
  resolved_lem : r.resolved_at ≡ none

coalesce-some : (a b : Option String) (k : String) → a ≡ some k → coalesce a b ≡ some k
coalesce-some none b k e = cc
coalesce-some (some x) b k e = e

new_row-IsRecorded :
    (id : String) (now : ℕ) (input : UpsertRecovery) → IsRecorded input (new_row id now input)
new_row-IsRecorded id now input = record {
  status_lem = refl;
  number_lem = λ k e. e;
  order_lem = λ k e. e;
  payment_lem = λ k e. e;
  gateway_lem = refl;
  reason_lem = refl;
  amount_lem = refl;
  message_lem = λ m e. e;
  resolved_lem = refl;
}

merge_row-IsRecorded :
    (input : UpsertRecovery) (r : Recovery) → IsRecorded input (merge_row input r)
merge_row-IsRecorded input r = record {
  status_lem = refl;
  number_lem = coalesce-some _ _;
  order_lem = coalesce-some _ _;
  payment_lem = coalesce-some _ _;
  gateway_lem = refl;
  reason_lem = refl;
  amount_lem = refl;
  message_lem = coalesce-some _ _;
  resolved_lem = refl;
}

find_open_match-Memᴰ :
    (rows : List Recovery) (keys : RecoveryKeys) (r : Recovery)
    → find_open_match rows keys ≡ some r
    → Memᴰ r rows
unfolding find_open_match
find_open_match-Memᴰ rows keys r e =
    find_newest-All (λ q. Memᴰ q rows) (is_open_match keys) rows r
      (All-map (λ q m _. m) rows (own rows)) (found_if _ e)
  where
    own : (qs : List Recovery) → All (λ q. Memᴰ q qs) qs
    own [] = tt
    own (q ∷ qs) = (Memᴰ.head refl, All-map (λ x m. Memᴰ.tail m) qs (own qs))

update-Memᴰ :
    (input : UpsertRecovery) (rows : List Recovery) (r : Recovery)
    → Memᴰ r rows
    → Memᴰ (merge_row input r) (map (update_recovery r.id (merge_row input)) rows)
update-Memᴰ input [] r m = absurd (Memᴰ.not-nil m)
update-Memᴰ input (q ∷ rows) r m = elim (Memᴰ.cases_cons m) [
  | inl e ↦ Memᴰ.head (merged e)
  | inr later ↦ Memᴰ.tail (update-Memᴰ input rows r later)
]
  where
    merged : r ≡ q → merge_row input r ≡ update_recovery r.id (merge_row input) q
    merged e =
        subst (λ (x : Recovery). merge_row input r ≡ update_recovery r.id (merge_row input) x) e
          (rw (same_refl r.id) refl)

-- Whatever was on record, a row of the payment is there afterwards with what was given.
pub upsert_open-IsRecorded :
    (rows : List Recovery) (id : String) (now : ℕ) (input : UpsertRecovery)
    → (r : Recovery) × Memᴰ r (upsert_open rows id now input) × IsRecorded input r
unfolding upsert_open
upsert_open-IsRecorded rows id now input = elim (Option-cases (find_open_match rows input.keys)) [
  | inl none_open ↦ (
    new_row id now input,
    rw (none_open, upsert_open) (Memᴰ.head refl),
    new_row-IsRecorded id now input,
  )
  | inr (r, found) ↦ (
    merge_row input r,
    rw (found, upsert_open)
        (update-Memᴰ input rows r (find_open_match-Memᴰ rows input.keys r found)),
    merge_row-IsRecorded input r,
  )
]
