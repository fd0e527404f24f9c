-- ===== src/Auth/Tests.antt =====
-- Runs of the lockout and of the one-time codes, and their theorems at concrete inputs.
mod Roles
use bookingqube_nest_backend.Prelude.{
  ℕ, ◌+◌, ◌≡◌, ◌≢◌, ◌≤◌, refl, sym, ap, String, none, some, List, [], ◌∷◌, Bool, true, false, arith,
  length, ◌&&◌, ltb, ◌==◌, if◌then◌else◌,
}
use bookingqube_nest_backend.Prelude.Text.{
  Text, codes, codes_dec, same_codes, same, text_dec, lower,
}
use bookingqube_nest_backend.Auth.Lockout.{
  State, key, max_failures, window_ms, record_failure, is_locked,
}
use bookingqube_nest_backend.Auth.Lockout.Memory.{record_failures, last, memory_lockout}
use bookingqube_nest_backend.Auth.Lockout.Remote.{no_faults, redis_lockout}
use bookingqube_nest_backend.Auth.Otp.{
  Otp, Table, is_active, otp_max_attempts, take_code, generate_and_store,
}
use bookingqube_nest_backend.Auth.Otp.Single.{IsSingle, open_count, single_use}
use bookingqube_nest_backend.Auth.Otp.Attempts.{Try, consuming, verifying, misses, guesses_bounded}
use bookingqube_nest_backend.Prelude.{inl, inr, ◌⊎◌, Bool-cases, if_some}
use bookingqube_nest_backend.Prelude.Http.{Result, ok, err, unauthorized}
use bookingqube_nest_backend.Auth.Session.{
  CustomerSessionMetadata, CustomerUser, RefreshPayload, Sessions, invalid_session, TokenService,
  Issued, refresh_token_of, issue, refresh, logout,
}
use bookingqube_nest_backend.Auth.Session.Rotation.{logout_ends_session, refresh_once}
use bookingqube_nest_backend.Auth.Session.Renewal.{issue_then_refresh}

abbrev fresh : Bool → State
fresh ready = record {
  memory = λ _. none;
  redis_ready = ready;
  counters = λ _. none;
  locks = λ _. none;
}

abbrev ann : Text
ann = codes " Ann@x "

abbrev ann_key : Text
ann_key = codes "admin:ann@x"

abbrev bob_key : Text
bob_key = codes "admin:bob@x"

ann_key_lem : key "admin" ann ≡ some ann_key
unfolding key
ann_key_lem = refl

abbrev five_times : List ℕ
five_times = 1 ∷ 2 ∷ 3 ∷ 4 ∷ 5 ∷ []

apart : false ≡ true → ⊥
apart e = cc

keys_differ : ann_key ≢ bob_key
unfolding codes_dec
keys_differ e = apart (ap (λ k. same_codes k ann_key) (sym e))

memory_lockout_example :
    (is_locked (record_failures (fresh false) no_faults five_times "admin" ann) true 6 ann_key).1
    ≡ ((length five_times == max_failures) && ltb 6 (last five_times + window_ms))
memory_lockout_example =
    memory_lockout (fresh false) no_faults five_times true 6 "admin" ann ann_key refl ann_key_lem
      refl (omega arith)

redis_lockout_example :
    (is_locked (record_failures (fresh true) no_faults five_times "admin" ann) false 6 ann_key).1
    ≡ ((length five_times == max_failures) && ltb 6 (last five_times + window_ms))
redis_lockout_example =
    redis_lockout (fresh true) 1 (2 ∷ 3 ∷ 4 ∷ 5 ∷ []) 6 "admin" ann ann_key refl ann_key_lem refl
      refl (omega arith) (ground arith)

abbrev plain : String → String
plain otp = otp

abbrev no_codes : Table
no_codes = record { rows = []; next_id = 0 }

-- An open code of one owner.
abbrev open_code : Otp
open_code = record {
  id = 0;
  owner = codes "ann@x";
  subject = [];
  otp_hash = "111111";
  expires_at = 600000;
  consumed_at = none;
  attempts = 0;
  created_at = 0;
}

abbrev one_code : Table
one_code = record { rows = open_code ∷ []; next_id = 1 }

abbrev used_code : Table
used_code = record { rows = record open_code { consumed_at = some 5 } ∷ []; next_id = 1 }

one_code-IsSingle : IsSingle one_code
unfolding open_count
one_code-IsSingle owner = ground arith

code_taken : take_code plain same one_code 5 (codes "ann@x") "111111" ≡ (used_code, some open_code)
unfolding take_code text_dec is_active codes_dec
code_taken = refl

single_use_example : take_code plain same used_code 9 (codes "ann@x") "111111" ≡ (used_code, none)
single_use_example =
    single_use plain same one_code used_code 5 9 (codes "ann@x") "111111" "111111" open_code
      one_code-IsSingle code_taken

abbrev two_tries : List (ℕ × Try)
two_tries = (1, verifying "222222") ∷ (2, consuming "111111") ∷ []

guesses_bounded_example :
    misses plain same
      (generate_and_store plain same no_codes 0 (codes "Ann@x") "111111")
      (codes "Ann@x")
      two_tries
    ≤ otp_max_attempts
guesses_bounded_example = guesses_bounded plain same no_codes 0 (codes "Ann@x") "111111" two_tries

-- A token that carries its payload and the time of its signature; it is read for a day.
abbrev plain_tokens : TokenService
plain_tokens = record {
  Token = ℕ × RefreshPayload;
  sign_refresh = λ now p. (now, p);
  sign_access = λ now p. (now, record { sub = p.sub; sid = none; typ = "customer_access" });
  verify_refresh = λ now t. if ltb now (t.0 + 86400000) then some t.1 else none;
  hash_token = λ t. elim t.1.sid [ none ↦ [] | some sid ↦ t.0 ∷ sid ∷ [] ];
  refresh_ttl = 86400000;
  access_ttl = 900000;
}

abbrev ann_user : CustomerUser
ann_user = record {
  id = "u1";
  name = "Ann";
  email = "ann@x";
  phone = none;
  is_active = true;
  token_version = 0;
}

abbrev no_sessions : Sessions
no_sessions = record {
  rows = [];
  next_id = 0;
  users = λ id. if same id "u1" then some ann_user else none;
}

abbrev browser : CustomerSessionMetadata
browser = record { user_agent = none; ip_address = none }

abbrev ann_token : ℕ × RefreshPayload
ann_token = refresh_token_of plain_tokens 5 ann_user 0

abbrev ann_session : Sessions
ann_session = (issue plain_tokens no_sessions 5 ann_user browser []).0

ann_known : no_sessions.users ann_user.id ≡ some ann_user
unfolding text_dec
ann_known = refl

logout_ends_session_example :
    refresh plain_tokens (logout plain_tokens ann_session 7 ann_token) 9 ann_token browser []
    ≡ (logout plain_tokens ann_session 7 ann_token, err (unauthorized invalid_session))
logout_ends_session_example = logout_ends_session plain_tokens ann_session 7 9 ann_token browser []

issue_then_refresh_example :
    (again : Issued plain_tokens) × ((refresh plain_tokens
        (issue plain_tokens no_sessions 5 ann_user browser []).0
        9
        (issue plain_tokens no_sessions 5 ann_user browser []).1.refresh_token
        browser
        []).1
      ≡ ok again)
    × (again.id ≡ "u1")
issue_then_refresh_example =
    issue_then_refresh plain_tokens no_sessions 5 9 ann_user browser browser [] [] tt ann_known refl
      (omega arith) refl

tokens_stable :
    (n m : ℕ) (p : RefreshPayload)
    → plain_tokens.verify_refresh n ann_token ≡ some p
    → (plain_tokens.verify_refresh m ann_token ≡ none)
      ⊎ (plain_tokens.verify_refresh m ann_token ≡ some p)
tokens_stable n m p h = elim (Bool-cases (ltb m 86400005)) [
  | inl e ↦ inr (rw e (ap some (if_some (ltb n 86400005) ann_token.1 p h).1))
  | inr e ↦ inl (rw e refl)
]

abbrev renewed : Sessions × Result (Issued plain_tokens)
renewed = refresh plain_tokens ann_session 9 ann_token browser []

refreshed : (issued : Issued plain_tokens) × (renewed ≡ (renewed.0, ok issued))
unfolding refresh
refreshed =
    let (issued, done, _) =
      issue_then_refresh plain_tokens no_sessions 5 9 ann_user browser browser [] [] tt ann_known
        refl (omega arith) refl in
    (issued, ap (λ r. (renewed.0, r)) done)

refresh_once_example :
    refresh plain_tokens renewed.0 11 ann_token browser []
    ≡ (renewed.0, err (unauthorized invalid_session))
refresh_once_example =
    refresh_once plain_tokens ann_session renewed.0 9 11 ann_token browser browser [] [] refreshed.0
      tokens_stable refreshed.1
