-- ===== src/Auth/Otp.antt =====
-- `OtpService` of src/modules/auth/otp.service.ts: one-time codes for password resets, owned by an
-- e-mail address, and for changes of the address, owned by a user. Times are in milliseconds.
pub mod Single
pub mod Attempts
use bookingqube_nest_backend.Prelude.{
  ℕ, ◌+◌, ◌*◌, ◌≡◌, suc, String, Option, none, some, List, [], ◌∷◌, map, Bool, true, false, not,
  ◌&&◌, ltb, leb, ◌==◌, if◌then◌else◌, is_some, filter,
}
use bookingqube_nest_backend.Prelude.Text.{Text, same_codes, lower}

abbrev pub otp_ttl_ms : ℕ
otp_ttl_ms = 10 * 60 * 1000

abbrev pub otp_max_attempts : ℕ
otp_max_attempts = 5

-- A row of `password_reset_otps`, or of `email_change_otps` with the new address as its subject.
pub record Otp : Type 0 where
  pub id : ℕ
  pub owner : Text
  pub subject : Text
  pub otp_hash : String
  pub expires_at : ℕ
  pub consumed_at : Option ℕ
  pub attempts : ℕ
  pub created_at : ℕ

-- A table, the newest row first, and the id that the database gives next.
pub record Table : Type 0 where
  pub rows : List Otp
  pub next_id : ℕ

abbrev pub consume_row : ℕ → Otp → Otp
consume_row now r = record r { consumed_at = some now }

abbrev pub attempt_row : Otp → Otp
attempt_row r = record r { attempts = r.attempts + 1 }

-- `updateMany({ where: { owner, consumedAt: null }, … })`
unfoldable pub consume_all : ℕ → Text → List Otp → List Otp
consume_all now owner [] = []
consume_all now owner (r ∷ rows) =
    (if same_codes r.owner owner && not (is_some r.consumed_at) then consume_row now r else r)
    ∷ consume_all now owner rows

-- `update({ where: { id }, … })`
unfoldable pub update_row : (Otp → Otp) → ℕ → List Otp → List Otp
update_row f id [] = []
update_row f id (r ∷ rows) = (if r.id == id then f r else r) ∷ update_row f id rows

-- The transaction of both `generate` methods.
unfoldable pub store_code : Table → ℕ → Text → Text → String → Table
unfolding consume_all
store_code t now owner subject hash = record {
  rows =
      record {
        id = t.next_id;
        owner = owner;
        subject = subject;
        otp_hash = hash;
        expires_at = now + otp_ttl_ms;
        consumed_at = none;
        attempts = 0;
        created_at = now;
      }
      ∷ consume_all now owner t.rows;
  next_id = suc t.next_id;
}

unfoldable pub is_active : ℕ → Text → Otp → Bool
is_active now owner r =
    same_codes r.owner owner
    && not (is_some r.consumed_at)
    && ltb now r.expires_at
    && ltb r.attempts otp_max_attempts

-- `findFirst` in the order of falling `createdAt`: of two rows of one time the first is taken.
abbrev pub newer : Otp → Option Otp → Option Otp
newer r none = some r
newer r (some best) = if leb best.created_at r.created_at then some r else some best

unfoldable pub find_active : ℕ → Text → List Otp → Option Otp
find_active now owner [] = none
find_active now owner (r ∷ rows) =
    if is_active now owner r
    then newer r (find_active now owner rows)
    else find_active now owner rows

abbrev pub subject_of : Option Otp → Option Text
subject_of none = none
subject_of (some r) = some r.subject

-- The hash of a code and its check are those of src/common/crypto/password.ts, which calls Node's
-- scrypt; the code itself is drawn by the caller.
module _ (hash_password : String → String) (verify_password : String → String → Bool) where
  unfoldable pub generate_and_store : Table → ℕ → Text → String → Table
  unfolding store_code lower
  generate_and_store t now email otp = store_code t now (lower email) [] (hash_password otp)

  unfoldable pub generate_email_change : Table → ℕ → Text → Text → String → Table
  unfolding store_code lower
  generate_email_change t now user_id new_email otp =
      store_code t now user_id (lower new_email) (hash_password otp)

  -- The part that `consume` and `consumeEmailChange` share: the row that the code fits, marked as
  -- consumed; a code that does not fit counts as an attempt.
  unfoldable pub take_code : Table → ℕ → Text → String → Table × Option Otp
  unfolding find_active update_row
  take_code t now owner otp = elim (find_active now owner t.rows) [
    | none ↦ (t, none)
    | some r ↦
        if verify_password otp r.otp_hash
        then (record t { rows = update_row (consume_row now) r.id t.rows }, some r)
        else (record t { rows = update_row attempt_row r.id t.rows }, none)
  ]

  unfoldable pub consume : Table → ℕ → Text → String → Table × Bool
  unfolding take_code lower
  consume t now email otp =
      let (after, taken) = take_code t now (lower email) otp in (after, is_some taken)

  unfoldable pub consume_email_change : Table → ℕ → Text → String → Table × Option Text
  unfolding take_code
  consume_email_change t now user_id otp =
      let (after, taken) = take_code t now user_id otp in (after, subject_of taken)

  unfoldable pub verify : Table → ℕ → Text → String → Table × Bool
  unfolding find_active update_row lower
  verify t now email otp = elim (find_active now (lower email) t.rows) [
    | none ↦ (t, false)
    | some r ↦
        if verify_password otp r.otp_hash
        then (t, true)
        else (record t { rows = update_row attempt_row r.id t.rows }, false)
  ]

unfoldable pub invalidate_email_change : Table → ℕ → Text → Table
unfolding consume_all
invalidate_email_change t now user_id = record t { rows = consume_all now user_id t.rows }
