-- ===== src/Auth/Session.antt =====
-- `CustomerSessionService` of src/modules/auth/customer-session.service.ts. Times and durations are
-- in milliseconds. The signing and checking of JSON Web Tokens and the hash of a token are
-- parameters.
pub mod Lookup
pub mod Rotation
pub mod Renewal
use bookingqube_nest_backend.Prelude.{
  ℕ, suc, ◌+◌, ◌/◌, String, Option, none, some, List, [], ◌∷◌, ◌++◌, map, take, Bool, true, false,
  not, ◌&&◌, ◌||◌, ltb, leb, ◌==◌, if◌then◌else◌, is_some,
}
use bookingqube_nest_backend.Prelude.Text.{Text, same, same_codes}
use bookingqube_nest_backend.Prelude.Http.{Result, ok, err, unauthorized}

pub record CustomerSessionMetadata : Type 0 where
  pub user_agent : Option Text
  pub ip_address : Option Text

-- A row of `users`, as far as the service reads it.
pub record CustomerUser : Type 0 where
  pub id : String
  pub name : String
  pub email : String
  pub phone : Option String
  pub is_active : Bool
  pub token_version : ℕ

pub record RefreshPayload : Type 0 where
  pub sub : String
  pub sid : Option ℕ
  pub typ : String

pub record AccessPayload : Type 0 where
  pub sub : String
  pub email : String
  pub tv : ℕ
  pub sid : ℕ

-- A row of `customer_sessions`.
pub record CustomerSession : Type 0 where
  pub id : ℕ
  pub user_id : String
  pub token_hash : Text
  pub expires_at : ℕ
  pub revoked_at : Option ℕ
  pub last_used_at : Option ℕ
  pub user_agent : Option Text
  pub ip_address : Option Text

-- The tables, and the id of the next session.
pub record Sessions : Type 0 where
  pub rows : List CustomerSession
  pub next_id : ℕ
  pub users : String → Option CustomerUser

abbrev pub invalid_session : String
invalid_session = "Invalid or expired session."

abbrev pub customer_refresh : String
customer_refresh = "customer_refresh"

abbrev pub revoke : ℕ → CustomerSession → CustomerSession
revoke now row = record row { revoked_at = some now; last_used_at = some now }

abbrev pub sliced : ℕ → Option Text → Option Text
sliced n none = none
sliced n (some s) = some (take n s)

unfoldable pub find_session : ℕ → List CustomerSession → Option CustomerSession
find_session id [] = none
find_session id (row ∷ rows) = if row.id == id then some row else find_session id rows

unfoldable pub update_session :
    (CustomerSession → CustomerSession) → ℕ → List CustomerSession → List CustomerSession
update_session f id [] = []
update_session f id (row ∷ rows) = (if row.id == id then f row else row) ∷ update_session f id rows

-- `updateMany` of the sessions of a token that are not revoked.
unfoldable pub revoke_hash : ℕ → Text → List CustomerSession → List CustomerSession
revoke_hash now hash [] = []
revoke_hash now hash (row ∷ rows) =
    (if same_codes row.token_hash hash && not (is_some row.revoked_at) then revoke now row else row)
    ∷ revoke_hash now hash rows

-- What the service is given: `JwtService`, the hash of a token, and the two lifetimes.
pub record TokenService : Type 1 where
  pub Token : Type 0
  pub sign_refresh : ℕ → RefreshPayload → Token
  pub sign_access : ℕ → AccessPayload → Token
  pub verify_refresh : ℕ → Token → Option RefreshPayload
  pub hash_token : Token → Text
  pub refresh_ttl : ℕ
  pub access_ttl : ℕ

module _ (jwt : TokenService) where
  open jwt use {
    Token, sign_refresh, sign_access, verify_refresh, hash_token, refresh_ttl, access_ttl,
  }

  pub record Issued : Type 0 where
    pub id : String
    pub name : String
    pub email : String
    pub phone : String
    pub token : Token
    pub refresh_token : Token
    pub expires_in : ℕ

  abbrev pub or_empty : Option String → String
  or_empty none = ""
  or_empty (some phone) = phone

  -- The random hash of a session whose token is not signed yet is an argument.
  abbrev pub create_session :
      Sessions → ℕ → CustomerUser → CustomerSessionMetadata → Text → Sessions
  create_session s now user metadata pending = record s {
    rows =
        s.rows
        ++ (record {
          id = s.next_id;
          user_id = user.id;
          token_hash = pending;
          expires_at = now + refresh_ttl;
          revoked_at = none;
          last_used_at = none;
          user_agent = sliced 500 metadata.user_agent;
          ip_address = sliced 100 metadata.ip_address;
        }
            ∷ []);
    next_id = suc s.next_id;
  }

  abbrev pub refresh_token_of : ℕ → CustomerUser → ℕ → Token
  refresh_token_of now user sid =
      sign_refresh now (record { sub = user.id; sid = some sid; typ = customer_refresh })

  unfoldable pub issue :
      Sessions → ℕ → CustomerUser → CustomerSessionMetadata → Text → Sessions × Issued
  issue s now user metadata pending =
      let created = create_session s now user metadata pending in
      let refresh_token = refresh_token_of now user s.next_id in
      let access_token =
        sign_access now (record {
          sub = user.id;
          email = user.email;
          tv = user.token_version;
          sid = s.next_id;
        }) in
      (
        record created {
          rows =
              update_session
                (λ (row : CustomerSession). record row { token_hash = hash_token refresh_token })
                s.next_id created.rows;
        },
        record {
          id = user.id;
          name = user.name;
          email = user.email;
          phone = or_empty user.phone;
          token = access_token;
          refresh_token = refresh_token;
          expires_in = access_ttl / 1000;
        },
      )

  -- The session of a payload with its user, unless one of the tests of `refresh` fails.
  abbrev pub usable : ℕ → Token → RefreshPayload → CustomerSession → CustomerUser → Bool
  usable now token payload row user =
      not (is_some row.revoked_at)
      && ltb now row.expires_at
      && same_codes row.token_hash (hash_token token)
      && same user.id payload.sub
      && user.is_active

  abbrev pub session_id : RefreshPayload → Option ℕ
  session_id payload = if same payload.typ customer_refresh then payload.sid else none

  abbrev pub check_user :
      ℕ
      → Token
      → RefreshPayload
      → CustomerSession
      → Option CustomerUser
      → Option (CustomerSession × CustomerUser)
  check_user now token payload row none = none
  check_user now token payload row (some user) =
      if usable now token payload row user then some (row, user) else none

  abbrev pub check_row :
      Sessions
      → ℕ
      → Token
      → RefreshPayload
      → Option CustomerSession
      → Option (CustomerSession × CustomerUser)
  check_row s now token payload none = none
  check_row s now token payload (some row) = check_user now token payload row (s.users row.user_id)

  abbrev pub check_sid :
      Sessions → ℕ → Token → RefreshPayload → Option ℕ → Option (CustomerSession × CustomerUser)
  check_sid s now token payload none = none
  check_sid s now token payload (some sid) = check_row s now token payload (find_session sid s.rows)

  abbrev pub check_payload :
      Sessions → ℕ → Token → Option RefreshPayload → Option (CustomerSession × CustomerUser)
  check_payload s now token none = none
  check_payload s now token (some payload) = check_sid s now token payload (session_id payload)

  -- The session that `refresh` finds for a token, and its user.
  unfoldable pub accepted : Sessions → ℕ → Token → Option (CustomerSession × CustomerUser)
  unfolding find_session
  accepted s now token = check_payload s now token (verify_refresh now token)

  unfoldable pub refresh :
      Sessions → ℕ → Token → CustomerSessionMetadata → Text → Sessions × Result Issued
  unfolding accepted update_session issue
  refresh s now token metadata pending = elim (accepted s now token) [
    | none ↦ (s, err (unauthorized invalid_session))
    | some (row, user) ↦
        let revoked : Sessions = record s { rows = update_session (revoke now) row.id s.rows } in
        let (after, issued) = issue revoked now user metadata pending in (after, ok issued)
  ]

  unfoldable pub logout : Sessions → ℕ → Token → Sessions
  unfolding revoke_hash
  logout s now token = record s { rows = revoke_hash now (hash_token token) s.rows }
