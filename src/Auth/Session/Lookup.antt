-- ===== src/Auth/Session/Lookup.antt =====
-- What the lookup of a session by its id finds after the tables were written.
use bookingqube_nest_backend.Prelude.{
  ℕ, ◌≡◌, refl, some, List, [], ◌∷◌, ◌++◌, Bool, true, false, not, ◌&&◌, ◌==◌, if◌then◌else◌,
  is_some, arith, Bool-cases, inl, inr,
}
use bookingqube_nest_backend.Prelude.Text.{Text, same_codes}
use bookingqube_nest_backend.Auth.Session.{
  CustomerSession, revoke, find_session, update_session, revoke_hash,
}

-- Whether the session that an id finds is revoked.
unfoldable pub revoked_first : ℕ → List CustomerSession → Bool
revoked_first id [] = false
revoked_first id (row ∷ rows) =
    if row.id == id then is_some row.revoked_at else revoked_first id rows

pub revoked_first-find_session :
    (id : ℕ) (rows : List CustomerSession) (row : CustomerSession)
    → revoked_first id rows ≡ true
    → find_session id rows ≡ some row
    → is_some row.revoked_at ≡ true
unfolding revoked_first find_session
revoked_first-find_session id [] row h e = cc
revoked_first-find_session id (x ∷ rows) row h e = elim (Bool-cases (x.id == id)) [
  | inl k ↦ ground (arith, k, h, e)
  | inr k ↦ revoked_first-find_session id rows row (rw k at h) (rw k at e)
]

pub revoked_first-revoke :
    (now id : ℕ) (rows : List CustomerSession) (row : CustomerSession)
    → find_session id rows ≡ some row
    → revoked_first id (update_session (revoke now) id rows) ≡ true
unfolding revoked_first find_session update_session
revoked_first-revoke now id [] row e = cc
revoked_first-revoke now id (x ∷ rows) row e = elim (Bool-cases (x.id == id)) [
  | inl k ↦ rw (k, k) refl
  | inr k ↦ rw (k, k) (revoked_first-revoke now id rows row (rw k at e))
]

pub find_session-id :
    (id : ℕ) (rows : List CustomerSession) (row : CustomerSession)
    → find_session id rows ≡ some row
    → row.id ≡ id
unfolding find_session
find_session-id id [] row e = cc
find_session-id id (x ∷ rows) row e = elim (Bool-cases (x.id == id)) [
  | inl k ↦ ground (arith, k, e)
  | inr k ↦ find_session-id id rows row (rw k at e)
]

pub revoked_first-append :
    (id : ℕ) (rows more : List CustomerSession)
    → revoked_first id rows ≡ true
    → revoked_first id (rows ++ more) ≡ true
unfolding revoked_first
revoked_first-append id [] more h = cc
revoked_first-append id (x ∷ rows) more h = elim (Bool-cases (x.id == id)) [
  | inl k ↦ rw k (rw k at h)
  | inr k ↦ rw k (revoked_first-append id rows more (rw k at h))
]

pub revoked_first-rehash :
    (id j : ℕ) (hash : Text) (rows : List CustomerSession)
    → revoked_first id rows ≡ true
    → revoked_first id
        (update_session (λ (row : CustomerSession). record row { token_hash = hash }) j rows)
      ≡ true
unfolding revoked_first update_session
revoked_first-rehash id j hash [] h = cc
revoked_first-rehash id j hash (x ∷ rows) h = elim (Bool-cases (x.id == id)) [
  | inl k ↦ elim (Bool-cases (x.id == j)) [
    | inl q ↦ rw (q, k) (rw k at h)
    | inr q ↦ rw (q, k) (rw k at h)
  ]
  | inr k ↦ elim (Bool-cases (x.id == j)) [
    | inl q ↦ rw (q, k) (revoked_first-rehash id j hash rows (rw k at h))
    | inr q ↦ rw (q, k) (revoked_first-rehash id j hash rows (rw k at h))
  ]
]

pub find_session-revoke_hash :
    (id now : ℕ) (hash : Text) (rows : List CustomerSession) (row : CustomerSession)
    → find_session id (revoke_hash now hash rows) ≡ some row
    → (same_codes row.token_hash hash && not (is_some row.revoked_at)) ≡ false
unfolding find_session revoke_hash
find_session-revoke_hash id now hash [] row e = cc
find_session-revoke_hash id now hash (x ∷ rows) row e =
    elim (Bool-cases (same_codes x.token_hash hash && not (is_some x.revoked_at))) [
      | inl t ↦ elim (Bool-cases (x.id == id)) [
        | inl k ↦ ground (arith, t, k, e)
        | inr k ↦ find_session-revoke_hash id now hash rows row (rw (t, k) at e)
      ]
      | inr t ↦ elim (Bool-cases (x.id == id)) [
        | inl k ↦ ground (arith, t, k, e)
        | inr k ↦ find_session-revoke_hash id now hash rows row (rw (t, k) at e)
      ]
    ]
