-- ===== src/Auth/Session/Rotation.antt =====
-- A refresh token is good for one refresh, and for none after a logout.
use bookingqube_nest_backend.Prelude.{
  ℕ, ◌≡◌, refl, sym, ◌∙◌, ap, none, some, Bool, true, false, not, ◌&&◌, ltb, is_some, arith,
  Option-cases, inl, inr, ◌⊎◌, if_some, some_inj,
}
use bookingqube_nest_backend.Prelude.Text.{Text, same, same_codes}
use bookingqube_nest_backend.Prelude.Http.{Result, ok, err, unauthorized}
use bookingqube_nest_backend.Auth.Session.{
  CustomerSessionMetadata, CustomerUser, RefreshPayload, CustomerSession, Sessions, invalid_session,
  revoke, find_session, update_session, usable, session_id, accepted, TokenService, Issued, issue,
  refresh, logout,
}
use bookingqube_nest_backend.Auth.Session.Lookup.{
  revoked_first, revoked_first-find_session, revoked_first-revoke, find_session-id,
  revoked_first-append, revoked_first-rehash, find_session-revoke_hash,
}

guards :
    (revoked live hashed owned active : Bool)
    → (not revoked && live && hashed && owned && active) ≡ true
    → (revoked ≡ false) × (hashed ≡ true)
guards true live hashed owned active h = ground arith
guards false live true owned active h = (refl, refl)
guards false live false owned active h = ground arith

clash :
    (revoked hashed : Bool)
    → (hashed && not revoked) ≡ false
    → (revoked ≡ false) × (hashed ≡ true)
    → ⊥
clash true hashed h p = cc p.0
clash false true h p = cc
clash false false h p = cc p.1

module _ (jwt : TokenService) where
  open jwt use {Token, verify_refresh, hash_token}

  -- What has been found where a token is accepted.
  record Found (s : Sessions) (now : ℕ) (token : Token) (row : CustomerSession) : Type 0 where
    payload : RefreshPayload
    sid : ℕ
    user : CustomerUser
    verified : verify_refresh now token ≡ some payload
    sid_lem : session_id jwt payload ≡ some sid
    row_lem : find_session sid s.rows ≡ some row
    usable_lem : usable jwt now token payload row user ≡ true

  accepted-Found :
      (s : Sessions) (now : ℕ) (token : Token) (row : CustomerSession) (user : CustomerUser)
      → accepted jwt s now token ≡ some (row, user)
      → Found s now token row
  unfolding accepted
  accepted-Found s now token row user e = elim (Option-cases (verify_refresh now token)) [
    | inl v ↦ cc (rw v at e)
    | inr (payload, v) ↦ elim (Option-cases (session_id jwt payload)) [
      | inl i ↦ cc (rw (v, i) at e)
      | inr (sid, i) ↦ elim (Option-cases (find_session sid s.rows)) [
        | inl f ↦ cc (rw (v, i, f) at e)
        | inr (x, f) ↦ elim (Option-cases (s.users x.user_id)) [
          | inl u ↦ cc (rw (v, i, f, u) at e)
          | inr (owner, u) ↦
              let (t, same) =
                if_some (usable jwt now token payload x owner) (x, owner) (row, user)
                  (rw (v, i, f, u) at e) in
              let rows_same : x ≡ row = ap (λ p. p.0) same in
              record {
                payload = payload;
                sid = sid;
                user = owner;
                verified = v;
                sid_lem = i;
                row_lem = f ∙ ap some rows_same;
                usable_lem = ap (λ y. usable jwt now token payload y owner) (sym rows_same) ∙ t;
              }
        ]
      ]
    ]
  ]

  -- The checks of `refresh` keep out a session that is revoked and one of another token.
  usable_parts :
      (now : ℕ) (token : Token) (payload : RefreshPayload) (row : CustomerSession)
      (user : CustomerUser)
      → usable jwt now token payload row user ≡ true
      → (is_some row.revoked_at ≡ false) × (same_codes row.token_hash (hash_token token) ≡ true)
  usable_parts now token payload row user h =
      guards (is_some row.revoked_at) (ltb now row.expires_at)
        (same_codes row.token_hash (hash_token token)) (same user.id payload.sub) user.is_active h

  -- A refresh that finds nothing leaves the tables as they are.
  refresh-refused :
      (s : Sessions) (now : ℕ) (token : Token) (metadata : CustomerSessionMetadata) (pending : Text)
      → ((row : CustomerSession) → Found s now token row → ⊥)
      → refresh jwt s now token metadata pending ≡ (s, err (unauthorized invalid_session))
  unfolding refresh
  refresh-refused s now token metadata pending h = elim (Option-cases (accepted jwt s now token)) [
    | inl e ↦ rw (e, refresh) refl
    | inr ((row, user), e) ↦ absurd (h row (accepted-Found s now token row user e))
  ]

  -- After a logout with a token no refresh with it is accepted, at whatever time.
  pub logout_ends_session :
      (s : Sessions) (now later : ℕ) (token : Token) (metadata : CustomerSessionMetadata)
      (pending : Text)
      → refresh jwt (logout jwt s now token) later token metadata pending
        ≡ (logout jwt s now token, err (unauthorized invalid_session))
  unfolding logout
  logout_ends_session s now later token metadata pending =
      refresh-refused (logout jwt s now token) later token metadata pending λ row f.
        clash (is_some row.revoked_at) (same_codes row.token_hash (hash_token token))
          (find_session-revoke_hash f.sid now (hash_token token) s.rows row f.row_lem)
          (usable_parts later token f.payload row f.user f.usable_lem)

  -- A refresh that is accepted leaves the session of its token revoked.
  refresh-revoked :
      (s after : Sessions) (now : ℕ) (token : Token) (metadata : CustomerSessionMetadata)
      (pending : Text) (issued : Issued jwt)
      → refresh jwt s now token metadata pending ≡ (after, ok issued)
      → (row : CustomerSession) × (f : Found s now token row) × (revoked_first f.sid after.rows
          ≡ true)
  unfolding refresh issue
  refresh-revoked s after now token metadata pending issued e =
      elim (Option-cases (accepted jwt s now token)) [
        | inl none_found ↦ cc (rw (none_found, refresh) at e)
        | inr ((row, user), found) ↦
            let f = accepted-Found s now token row user found in
            let e2 = rw (found, refresh) at e in
            let sid_same = find_session-id f.sid s.rows row f.row_lem in
            let revoked_rows = update_session (revoke now) row.id s.rows in
            let gone : revoked_first f.sid revoked_rows ≡ true =
              ap (λ i. revoked_first f.sid (update_session (revoke now) i s.rows)) sid_same
              ∙ revoked_first-revoke now f.sid s.rows row f.row_lem in
            (
              row,
              f,
              ap (λ (p : Sessions × Result (Issued jwt)). revoked_first f.sid p.0.rows) (sym e2)
                  ∙ revoked_first-rehash f.sid s.next_id _ _
                      (revoked_first-append f.sid revoked_rows _ gone),
            )
      ]

  -- A token that was refreshed is accepted by no later refresh, if the check of a token at different
  -- times does not give different payloads.
  pub refresh_once :
      (s after : Sessions) (now later : ℕ) (token : Token)
      (metadata other : CustomerSessionMetadata) (pending next_pending : Text) (issued : Issued jwt)
      → ((n m : ℕ) (p : RefreshPayload)
          → verify_refresh n token ≡ some p
          → (verify_refresh m token ≡ none) ⊎ (verify_refresh m token ≡ some p))
      → refresh jwt s now token metadata pending ≡ (after, ok issued)
      → refresh jwt after later token other next_pending
        ≡ (after, err (unauthorized invalid_session))
  refresh_once s after now later token metadata other pending next_pending issued stable e =
      let (row, f, gone) = refresh-revoked s after now token metadata pending issued e in
      refresh-refused after later token other next_pending λ x g.
        elim (stable now later f.payload f.verified) [
          | inl v ↦ cc (sym v ∙ g.verified)
          | inr v ↦
              let payloads : some f.payload ≡ some g.payload = sym v ∙ g.verified in
              let sids : f.sid ≡ g.sid =
                some_inj (sym f.sid_lem ∙ ap (session_id jwt) (some_inj payloads) ∙ g.sid_lem) in
              let dead =
                revoked_first-find_session f.sid after.rows x gone
                  (ap (λ i. find_session i after.rows) sids ∙ g.row_lem) in
              cc (sym dead ∙ (usable_parts later token g.payload x g.user g.usable_lem).0)
        ]
