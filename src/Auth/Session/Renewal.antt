-- ===== src/Auth/Session/Renewal.antt =====
-- The refresh token of a new session is accepted until it expires.
use bookingqube_nest_backend.Prelude.{
  ℕ, ◌+◌, ◌<◌, ◌≡◌, refl, none, some, List, [], ◌∷◌, ◌++◌, true, false, ltb, ◌==◌, arith, All,
}
use bookingqube_nest_backend.Prelude.Text.{Text, text_dec, codes_dec}
use bookingqube_nest_backend.Prelude.Http.{ok}
use bookingqube_nest_backend.Auth.Session.{
  CustomerSessionMetadata, CustomerUser, CustomerSession, Sessions, customer_refresh,
  refresh_token_of, sliced, revoke, find_session, update_session, usable, accepted, TokenService,
  Issued, issue, refresh,
}

dec_same {ℓ} :
    {A : Type ℓ} {a : A} (d : Dec (a ≡ a)) → (elim d [ yes _ ↦ true | no _ ↦ false ]) ≡ true
dec_same (yes _) = refl
dec_same (no p) = absurd (p refl)

-- Every session has an id that was given before.
abbrev pub IsFresh : Sessions → Type 0
IsFresh s = All (λ (row : CustomerSession). row.id < s.next_id) s.rows

find_session-last :
    (f : CustomerSession → CustomerSession) (id : ℕ) (rows : List CustomerSession)
    (x : CustomerSession)
    → ((row : CustomerSession) → (f row).id ≡ row.id)
    → All (λ (row : CustomerSession). row.id < id) rows
    → x.id ≡ id
    → find_session id (update_session f id (rows ++ (x ∷ []))) ≡ some (f x)
unfolding find_session update_session
find_session-last f id [] x keeps h e =
    let hit : (x.id == id) ≡ true = ground (arith, e) in
    let kept : ((f x).id == id) ≡ true = ground (arith, e, keeps x) in rw (hit, kept) refl
find_session-last f id (row ∷ rows) x keeps h e =
    let other : (row.id == id) ≡ false = ground (arith, h.0) in
    rw (other, other) (find_session-last f id rows x keeps h.1 e)

module _ (jwt : TokenService) where
  open jwt use {Token, verify_refresh, hash_token, refresh_ttl}

  abbrev stored : Sessions → ℕ → CustomerUser → CustomerSessionMetadata → CustomerSession
  stored s now user metadata = record {
    id = s.next_id;
    user_id = user.id;
    token_hash = hash_token (refresh_token_of jwt now user s.next_id);
    expires_at = now + refresh_ttl;
    revoked_at = none;
    last_used_at = none;
    user_agent = sliced 500 metadata.user_agent;
    ip_address = sliced 100 metadata.ip_address;
  }

  stored-usable :
      (s : Sessions) (now later : ℕ) (user : CustomerUser) (metadata : CustomerSessionMetadata)
      → user.is_active ≡ true
      → later < now + refresh_ttl
      → usable jwt later
          (refresh_token_of jwt now user s.next_id)
          (record { sub = user.id; sid = some s.next_id; typ = customer_refresh })
          (stored s now user metadata)
          user
        ≡ true
  stored-usable s now later user metadata active live =
      let in_time : ltb later (now + refresh_ttl) ≡ true = ground arith in
      rw
        (
          in_time,
          dec_same (
              codes_dec (hash_token (refresh_token_of jwt now user s.next_id))
                (hash_token (refresh_token_of jwt now user s.next_id))),
          dec_same (text_dec user.id user.id),
          active,
        )
        refl

  issue-accepted :
      (s : Sessions) (now later : ℕ) (user : CustomerUser) (metadata : CustomerSessionMetadata)
      (pending : Text)
      → IsFresh s
      → s.users user.id ≡ some user
      → user.is_active ≡ true
      → later < now + refresh_ttl
      → verify_refresh later (refresh_token_of jwt now user s.next_id)
        ≡ some (record { sub = user.id; sid = some s.next_id; typ = customer_refresh })
      → accepted jwt
          (issue jwt s now user metadata pending).0
          later
          (refresh_token_of jwt now user s.next_id)
        ≡ some (stored s now user metadata, user)
  unfolding issue accepted
  issue-accepted s now later user metadata pending fresh known active live read =
      let found : find_session s.next_id (issue jwt s now user metadata pending).0.rows
          ≡ some (stored s now user metadata) =
        find_session-last _ s.next_id s.rows _ (λ _. refl) fresh refl in
      rw
        (
          read,
          dec_same (text_dec customer_refresh customer_refresh),
          found,
          known,
          stored-usable s now later user metadata active live,
        )
        refl

  -- If the id of a new session is greater than those in use, and the check of its refresh token gives
  -- back what was signed, then the token of a session issued to an active user is accepted before its
  -- lifetime is over, and gives a new session of the same user.
  pub issue_then_refresh :
      (s : Sessions) (now later : ℕ) (user : CustomerUser)
      (metadata other : CustomerSessionMetadata) (pending next_pending : Text)
      → IsFresh s
      → s.users user.id ≡ some user
      → user.is_active ≡ true
      → later < now + refresh_ttl
      → verify_refresh later (refresh_token_of jwt now user s.next_id)
        ≡ some (record { sub = user.id; sid = some s.next_id; typ = customer_refresh })
      → (again : Issued jwt) × ((refresh jwt
            (issue jwt s now user metadata pending).0
            later
            (issue jwt s now user metadata pending).1.refresh_token
            other
            next_pending).1
          ≡ ok again)
        × (again.id ≡ user.id)
  unfolding issue refresh
  issue_then_refresh s now later user metadata other pending next_pending fresh known active live
        read =
      let a = issue-accepted s now later user metadata pending fresh known active live read in
      let after = (issue jwt s now user metadata pending).0 in
      let revoked : Sessions = record after {
        rows = update_session (revoke later) s.next_id after.rows;
      } in
      ((issue jwt revoked later user other next_pending).1, rw (a, refresh) refl, refl)
