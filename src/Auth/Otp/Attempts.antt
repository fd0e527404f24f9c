-- ===== src/Auth/Otp/Attempts.antt =====
-- What a stored code is good for, and how often it can be guessed at.
use bookingqube_nest_backend.Prelude.{
  ℕ, ◌+◌, ◌-◌, ◌<◌, ◌≤◌, ◌≡◌, refl, ap, String, Option, none, some, List, [], ◌∷◌, Bool, true,
  false, is_some, ◌&&◌, ltb, if◌then◌else◌, arith, inl, inr, not, Option-cases, Bool-cases,
}
use bookingqube_nest_backend.Prelude.Text.{Text, lower}
use bookingqube_nest_backend.Auth.Otp.{
  Otp, Table, otp_ttl_ms, otp_max_attempts, consume_row, attempt_row, consume_all, update_row,
  store_code, is_active, find_active, take_code, consume, verify, consume_email_change,
  generate_and_store, generate_email_change, subject_of,
}
use bookingqube_nest_backend.Auth.Otp.Single.{
  is_open, find_active_cases, find_active_nil, find_active-store_code, take_code_cases,
}

-- How many more codes can be compared with the open codes of an owner.
unfoldable pub tries_left : Text → List Otp → ℕ
tries_left owner [] = 0
tries_left owner (r ∷ rows) =
    (if is_open owner r then otp_max_attempts - r.attempts else 0) + tries_left owner rows

tries_left-update_le :
    (owner : Text) (id now : ℕ) (rows : List Otp)
    → (tries_left owner (update_row attempt_row id rows) ≤ tries_left owner rows)
      × (tries_left owner (update_row (consume_row now) id rows) ≤ tries_left owner rows)
unfolding tries_left update_row
tries_left-update_le owner id now [] = omega arith
tries_left-update_le owner id now (r ∷ rows) =
    ground (arith, tries_left-update_le owner id now rows)

active_facts :
    (now : ℕ) (owner : Text) (r : Otp)
    → is_active now owner r ≡ true
    → (is_open owner r ≡ true) × (r.attempts < otp_max_attempts)
unfolding is_active
active_facts now owner r h = ground arith

tries_left-update_lt :
    (now at : ℕ) (owner : Text) (rows : List Otp) (r : Otp)
    → find_active now owner rows ≡ some r
    → (tries_left owner (update_row attempt_row r.id rows) < tries_left owner rows)
      × (tries_left owner (update_row (consume_row at) r.id rows) < tries_left owner rows)
unfolding tries_left update_row
tries_left-update_lt now at owner [] r h = cc (find_active_nil now owner)
tries_left-update_lt now at owner (x ∷ rows) r h = elim (find_active_cases now owner x r rows h) [
  | inl (same, active) ↦ ground (
    arith,
    ap (λ (y : Otp). y.id) same,
    active_facts now owner x active,
    tries_left-update_le owner r.id at rows,
  )
  | inr later ↦ ground (arith, tries_left-update_lt now at owner rows r later)
]

tries_left-consume_all :
    (now : ℕ) (owner : Text) (rows : List Otp) → tries_left owner (consume_all now owner rows) ≡ 0
unfolding tries_left consume_all
tries_left-consume_all now owner [] = refl
tries_left-consume_all now owner (r ∷ rows) = ground (arith, tries_left-consume_all now owner rows)

tries_left-store_code :
    (t : Table) (now : ℕ) (owner subject : Text) (hash : String)
    → tries_left owner (store_code t now owner subject hash).rows ≤ otp_max_attempts
unfolding tries_left store_code
tries_left-store_code t now owner subject hash =
    ground (arith, tries_left-consume_all now owner t.rows)

stored_facts :
    (t : Table) (now later : ℕ) (owner subject : Text) (hash : String) (r : Otp)
    → find_active later owner (store_code t now owner subject hash).rows ≡ some r
    → (ltb later (now + otp_ttl_ms) ≡ true) × (r.otp_hash ≡ hash) × (r.subject ≡ subject)
stored_facts t now later owner subject hash r e =
    ground (arith, find_active-store_code t now later owner subject hash)

-- A call of `consume` or of `verify`, with its code.
pub data Try : Type 0 where
  consuming verifying : String → Try

abbrev pub tried_code : Try → String
tried_code (consuming otp) = otp
tried_code (verifying otp) = otp

module _ (hash_password : String → String) (verify_password : String → String → Bool) where
  -- The table after a try.
  abbrev pub after_try : Table → ℕ → Text → Try → Table
  after_try t now email (consuming otp) = (consume hash_password verify_password t now email otp).0
  after_try t now email (verifying otp) = (verify hash_password verify_password t now email otp).0

  abbrev pub misfits : String → Option Otp → Bool
  misfits otp none = false
  misfits otp (some r) = not (verify_password otp r.otp_hash)

  -- How many of the tries compare their code with a stored one that it does not fit.
  unfoldable pub misses : Table → Text → List (ℕ × Try) → ℕ
  misses t email [] = 0
  misses t email ((now, try) ∷ tries) =
      (if misfits (tried_code try) (find_active now (lower email) t.rows) then 1 else 0)
      + misses (after_try t now email try) email tries

  take_code-tries_left :
      (t : Table) (now : ℕ) (owner : Text) (otp : String)
      → (if misfits otp (find_active now owner t.rows) then 1 else 0)
          + tries_left owner (take_code hash_password verify_password t now owner otp).0.rows
        ≤ tries_left owner t.rows
  take_code-tries_left t now owner otp =
      elim (take_code_cases hash_password verify_password t now owner otp) [
        | inl (found, e) ↦ rw (e, found) (omega arith)
        | inr (inl (r, found, v, e)) ↦
            rw (e, found, v) (omega (arith, tries_left-update_lt now now owner t.rows r found))
        | inr (inr (r, found, v, e)) ↦
            rw (e, found, v) (omega (arith, tries_left-update_lt now now owner t.rows r found))
      ]

  verify-tries_left :
      (t : Table) (now : ℕ) (email : Text) (otp : String)
      → (if misfits otp (find_active now (lower email) t.rows) then 1 else 0)
          + tries_left (lower email) (verify hash_password verify_password t now email otp).0.rows
        ≤ tries_left (lower email) t.rows
  unfolding verify
  verify-tries_left t now email otp = elim (Option-cases (find_active now (lower email) t.rows)) [
    | inl none_found ↦ rw (none_found, verify) (omega arith)
    | inr (r, found) ↦ elim (Bool-cases (verify_password otp r.otp_hash)) [
      | inl fits ↦ rw (found, verify) (rw fits (omega arith))
      | inr wrong ↦
          rw (found, verify)
            (rw wrong (omega (arith, tries_left-update_lt now now (lower email) t.rows r found)))
    ]
  ]

  try-tries_left :
      (t : Table) (now : ℕ) (email : Text) (try : Try)
      → (if misfits (tried_code try) (find_active now (lower email) t.rows) then 1 else 0)
          + tries_left (lower email) (after_try t now email try).rows
        ≤ tries_left (lower email) t.rows
  unfolding consume
  try-tries_left t now email (consuming otp) = take_code-tries_left t now (lower email) otp
  try-tries_left t now email (verifying otp) = verify-tries_left t now email otp

  misses-le :
      (t : Table) (email : Text) (tries : List (ℕ × Try))
      → misses t email tries ≤ tries_left (lower email) t.rows
  unfolding misses
  misses-le t email [] = omega arith
  misses-le t email ((now, try) ∷ tries) =
      omega
        (arith, try-tries_left t now email try, misses-le (after_try t now email try) email tries)

  -- However many codes are tried on an address after a code was stored for it, each to consume the
  -- code or only to verify it, in whatever order and at whatever times, at most five of them are
  -- compared with a stored code that they do not fit.
  pub guesses_bounded :
      (t : Table) (now : ℕ) (email : Text) (otp : String) (tries : List (ℕ × Try))
      → misses (generate_and_store hash_password verify_password t now email otp) email tries
        ≤ otp_max_attempts
  unfolding generate_and_store
  guesses_bounded t now email otp tries = omega (
    arith,
    misses-le (store_code t now (lower email) [] (hash_password otp)) email tries,
    tries_left-store_code t now (lower email) [] (hash_password otp),
  )

  -- What a guess at the last code of an owner returns.
  take_code-store_code :
      (t : Table) (now later : ℕ) (owner subject : Text) (hash guess : String)
      → subject_of
          (take_code hash_password verify_password
            (store_code t now owner subject hash)
            later
            owner
            guess).1
        ≡ (if ltb later (now + otp_ttl_ms) && verify_password guess hash
            then some subject
            else none)
  take_code-store_code t now later owner subject hash guess =
      let stored = store_code t now owner subject hash in
      let found = find_active-store_code t now later owner subject hash in
      elim (take_code_cases hash_password verify_password stored later owner guess) [
        | inl (e, f) ↦ rw f (ground (arith, found))
        | inr (inl (r, e, v, f)) ↦
            let (live, same_hash, same_subject) = stored_facts t now later owner subject hash r e in
            rw (f, live, ← same_hash, v, same_subject)
        | inr (inr (r, e, v, f)) ↦
            let (live, same_hash, same_subject) = stored_facts t now later owner subject hash r e in
            rw (f, live, ← same_hash, v)
      ]

  subject_of-is_some :
      (o : Option Otp) (b : Bool) (s : Text)
      → subject_of o ≡ (if b then some s else none)
      → is_some o ≡ b
  subject_of-is_some none true s h = cc
  subject_of-is_some none false s h = refl
  subject_of-is_some (some r) true s h = refl
  subject_of-is_some (some r) false s h = cc

  -- A password-reset code is accepted exactly if it fits the last code stored for the address and
  -- comes before that code expires.
  pub latest_code :
      (t : Table) (now later : ℕ) (email : Text) (otp guess : String)
      → (consume hash_password verify_password
          (generate_and_store hash_password verify_password t now email otp)
          later
          email
          guess).1
        ≡ (ltb later (now + otp_ttl_ms) && verify_password guess (hash_password otp))
  unfolding consume generate_and_store
  latest_code t now later email otp guess =
      subject_of-is_some _ _ []
        (take_code-store_code t now later (lower email) [] (hash_password otp) guess)

  -- A change of address is granted exactly if the code fits the last one stored for the user and
  -- comes before that code expires, and then it is to the address that was asked for.
  pub latest_email_change :
      (t : Table) (now later : ℕ) (user_id new_email : Text) (otp guess : String)
      → (consume_email_change hash_password verify_password
          (generate_email_change hash_password verify_password t now user_id new_email otp)
          later
          user_id
          guess).1
        ≡ (if ltb later (now + otp_ttl_ms) && verify_password guess (hash_password otp)
            then some (lower new_email)
            else none)
  unfolding consume_email_change generate_email_change
  latest_email_change t now later user_id new_email otp guess =
      take_code-store_code t now later user_id (lower new_email) (hash_password otp) guess
