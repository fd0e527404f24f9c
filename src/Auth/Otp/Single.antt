-- ===== src/Auth/Otp/Single.antt =====
-- A code is good for one use, and only the last code of an owner is good.
use bookingqube_nest_backend.Prelude.{
  ℕ, ◌+◌, ◌<◌, ◌≤◌, ◌≡◌, refl, sym, ◌∙◌, ap, String, Option, none, some, List, [], ◌∷◌, Bool, true,
  false, not, is_some, ◌&&◌, leb, ltb, if◌then◌else◌, arith, Bool-cases, Option-cases, inl, inr,
  ◌⊎◌,
}
use bookingqube_nest_backend.Prelude.Text.{Text, same_codes}
use bookingqube_nest_backend.Auth.Otp.{
  Otp, Table, otp_ttl_ms, consume_row, attempt_row, consume_all, update_row, store_code, is_active,
  newer, find_active, take_code, invalidate_email_change,
}

-- A code of the owner that nobody has used or replaced.
abbrev pub is_open : Text → Otp → Bool
is_open owner r = same_codes r.owner owner && not (is_some r.consumed_at)

unfoldable pub open_count : Text → List Otp → ℕ
open_count owner [] = 0
open_count owner (r ∷ rows) = (if is_open owner r then 1 else 0) + open_count owner rows

-- No owner has two open codes.
abbrev pub IsSingle : Table → Type 0
IsSingle t = (owner : Text) → open_count owner t.rows ≤ 1

pub find_active-none :
    (now : ℕ) (owner : Text) (rows : List Otp)
    → open_count owner rows ≡ 0
    → find_active now owner rows ≡ none
unfolding find_active open_count is_active
find_active-none now owner [] h = refl
find_active-none now owner (r ∷ rows) h = ground (arith, find_active-none now owner rows)

pub open_count-consume_all :
    (now : ℕ) (owner other : Text) (rows : List Otp)
    → open_count other (consume_all now owner rows)
      ≡ (if same_codes owner other then 0 else open_count other rows)
unfolding open_count consume_all
open_count-consume_all now owner other [] = ground arith
open_count-consume_all now owner other (r ∷ rows) =
    ground (arith, open_count-consume_all now owner other rows)

pub open_count-update_attempt :
    (owner : Text) (id : ℕ) (rows : List Otp)
    → open_count owner (update_row attempt_row id rows) ≡ open_count owner rows
unfolding open_count update_row
open_count-update_attempt owner id [] = refl
open_count-update_attempt owner id (r ∷ rows) =
    ground (arith, open_count-update_attempt owner id rows)

pub open_count-update_consume :
    (now : ℕ) (owner : Text) (id : ℕ) (rows : List Otp)
    → open_count owner (update_row (consume_row now) id rows) ≤ open_count owner rows
unfolding open_count update_row
open_count-update_consume now owner id [] = omega arith
open_count-update_consume now owner id (r ∷ rows) =
    ground (arith, open_count-update_consume now owner id rows)

pub find_active_nil : (now : ℕ) (owner : Text) → find_active now owner [] ≡ none
unfolding find_active
find_active_nil now owner = refl

find_active_hit :
    (now : ℕ) (owner : Text) (x : Otp) (rows : List Otp)
    → is_active now owner x ≡ true
    → find_active now owner (x ∷ rows) ≡ newer x (find_active now owner rows)
unfolding find_active
find_active_hit now owner x rows e = rw e

find_active_miss :
    (now : ℕ) (owner : Text) (x : Otp) (rows : List Otp)
    → is_active now owner x ≡ false
    → find_active now owner (x ∷ rows) ≡ find_active now owner rows
unfolding find_active
find_active_miss now owner x rows e = rw e

some_path : {x r : Otp} → some x ≡ some r → x ≡ r
some_path h = cc

newer_cases : (x r : Otp) (o : Option Otp) → newer x o ≡ some r → (x ≡ r) ⊎ (o ≡ some r)
newer_cases x r none h = inl (some_path h)
newer_cases x r (some best) h = elim (Bool-cases (leb best.created_at x.created_at)) [
  | inl e ↦ inl (some_path (rw e at h))
  | inr e ↦ inr (rw e at h)
]

-- The row that is found heads the list, or is found behind the head.
pub find_active_cases :
    (now : ℕ) (owner : Text) (x r : Otp) (rows : List Otp)
    → find_active now owner (x ∷ rows) ≡ some r
    → ((x ≡ r) × (is_active now owner x ≡ true)) ⊎ (find_active now owner rows ≡ some r)
find_active_cases now owner x r rows h = elim (Bool-cases (is_active now owner x)) [
  | inl e ↦ elim (newer_cases x r (find_active now owner rows) (sym (found e) ∙ h)) [
    | inl same ↦ inl (same, e)
    | inr later ↦ inr later
  ]
  | inr e ↦ inr (sym (passed e) ∙ h)
]
  where
    found :
        is_active now owner x ≡ true
        → find_active now owner (x ∷ rows) ≡ newer x (find_active now owner rows)
    found e = find_active_hit now owner x rows e

    passed :
        is_active now owner x ≡ false
        → find_active now owner (x ∷ rows) ≡ find_active now owner rows
    passed e = find_active_miss now owner x rows e

active-is_open :
    (now : ℕ) (owner : Text) (r : Otp) → is_active now owner r ≡ true → is_open owner r ≡ true
unfolding is_active
active-is_open now owner r h = ground arith

-- Using the row that is found leaves the owner fewer open codes.
open_count-take :
    (now at : ℕ) (owner : Text) (rows : List Otp) (r : Otp)
    → find_active now owner rows ≡ some r
    → open_count owner (update_row (consume_row at) r.id rows) < open_count owner rows
unfolding open_count update_row
open_count-take now at owner [] r h = cc (find_active_nil now owner)
open_count-take now at owner (x ∷ rows) r h = elim (find_active_cases now owner x r rows h) [
  | inl (same, active) ↦ ground (
    arith,
    ap (λ (y : Otp). y.id) same,
    active-is_open now owner x active,
    open_count-update_consume at owner r.id rows,
  )
  | inr later ↦ ground (arith, open_count-take now at owner rows r later)
]

store_code-rest :
    (t : Table) (now later : ℕ) (owner : Text)
    → find_active later owner (consume_all now owner t.rows) ≡ none
store_code-rest t now later owner =
    find_active-none later owner (consume_all now owner t.rows)
      (open_count-consume_all now owner owner t.rows ∙ ground arith)

-- Of the codes of an owner the last one is found, until it expires.
pub find_active-store_code :
    (t : Table) (now later : ℕ) (owner subject : Text) (hash : String)
    → find_active later owner (store_code t now owner subject hash).rows ≡ (
        if ltb later (now + otp_ttl_ms)
        then some (record {
          id = t.next_id;
          owner = owner;
          subject = subject;
          otp_hash = hash;
          expires_at = now + otp_ttl_ms;
          consumed_at = none;
          attempts = 0;
          created_at = now;
        })
        else none)
unfolding find_active is_active store_code
find_active-store_code t now later owner subject hash =
    ground (arith, store_code-rest t now later owner)

pub store_code-IsSingle :
    (t : Table) (now : ℕ) (owner subject : Text) (hash : String)
    → IsSingle t
    → IsSingle (store_code t now owner subject hash)
unfolding store_code open_count
store_code-IsSingle t now owner subject hash s other =
    ground (arith, open_count-consume_all now owner other t.rows, s other)

pub invalidate-IsSingle :
    (t : Table) (now : ℕ) (owner : Text)
    → IsSingle t
    → IsSingle (invalidate_email_change t now owner)
unfolding invalidate_email_change
invalidate-IsSingle t now owner s other =
    ground (arith, open_count-consume_all now owner other t.rows, s other)

module _ (hash_password : String → String) (verify_password : String → String → Bool) where
  -- What a call finds, and what it makes of it.
  pub take_code_cases :
      (t : Table) (now : ℕ) (owner : Text) (otp : String)
      → ((find_active now owner t.rows ≡ none)
          × (take_code hash_password verify_password t now owner otp ≡ (t, none)))
        ⊎ ((r : Otp) × (find_active now owner t.rows ≡ some r)
            × (verify_password otp r.otp_hash ≡ true)
            × (take_code hash_password verify_password t now owner otp
                ≡ (record t { rows = update_row (consume_row now) r.id t.rows }, some r)))
        ⊎ ((r : Otp) × (find_active now owner t.rows ≡ some r)
            × (verify_password otp r.otp_hash ≡ false)
            × (take_code hash_password verify_password t now owner otp
                ≡ (record t { rows = update_row attempt_row r.id t.rows }, none)))
  unfolding take_code
  take_code_cases t now owner otp = elim (Option-cases (find_active now owner t.rows)) [
    | inl e ↦ inl (e, rw (e, take_code))
    | inr (r, e) ↦ elim (Bool-cases (verify_password otp r.otp_hash)) [
      | inl v ↦ inr (inl (r, e, v, rw (e, take_code) (rw v)))
      | inr v ↦ inr (inr (r, e, v, rw (e, take_code) (rw v)))
    ]
  ]

  -- If no owner had more than one open code, no owner has after a call, whether its code fits or
  -- not.
  pub take_code-IsSingle :
      (t : Table) (now : ℕ) (owner : Text) (otp : String)
      → IsSingle t
      → IsSingle (take_code hash_password verify_password t now owner otp).0
  take_code-IsSingle t now owner otp s = elim (take_code_cases t now owner otp) [
    | inl (_, e) ↦ rw e s
    | inr (inl (r, _, _, e)) ↦
        rw e λ other. omega (arith, open_count-update_consume now other r.id t.rows, s other)
    | inr (inr (r, _, _, e)) ↦
        rw e λ other. omega (arith, open_count-update_attempt other r.id t.rows, s other)
  ]

  -- If no owner had more than one open code, then after a call that accepts a code of an owner the
  -- next call for that owner, at whatever time and with whatever code, accepts none and changes
  -- nothing.
  pub single_use :
      (t after : Table) (now later : ℕ) (owner : Text) (otp other : String) (r : Otp)
      → IsSingle t
      → take_code hash_password verify_password t now owner otp ≡ (after, some r)
      → take_code hash_password verify_password after later owner other ≡ (after, none)
  single_use t after now later owner otp other r s taken =
      elim (take_code_cases after later owner other) [
        | inl (_, e) ↦ e
        | inr (inl (q, found, _, _)) ↦ absurd (nothing q found)
        | inr (inr (q, found, _, _)) ↦ absurd (nothing q found)
      ]
    where
      closed : open_count owner after.rows ≡ 0
      closed = elim (take_code_cases t now owner otp) [
        | inl (_, e) ↦ cc
        | inr (inl (q, found, _, e)) ↦
            rw (ap (λ (p : Table × Option Otp). p.0) (sym taken ∙ e))
              (omega (arith, open_count-take now now owner t.rows q found, s owner))
        | inr (inr (q, _, _, e)) ↦ cc
      ]

      nothing : (q : Otp) → find_active later owner after.rows ≡ some q → ⊥
      nothing q found = cc (find_active-none later owner after.rows closed)
