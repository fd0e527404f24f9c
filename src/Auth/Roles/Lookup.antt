-- ===== src/Auth/Roles/Lookup.antt =====
-- Roles under their identifiers, after an update or a removal.
use bookingqube_nest_backend.Prelude.{
  inl, inr, ◌≡◌, refl, sym, ap, ◌∙◌, String, some, some_inj, List, [], ◌∷◌, filter, true, false,
  if◌then◌else◌, Bool-cases, if_both,
}
use bookingqube_nest_backend.Prelude.Text.{same, same-eq, same_refl}
use bookingqube_nest_backend.Auth.Roles.{Role, find_role, update_role, other_role}

pub found_id :
    (id : String) (roles : List Role) (r : Role) → find_role id roles ≡ some r → r.id ≡ id
unfolding find_role
found_id id [] r e = cc
found_id id (q ∷ roles) r e = elim (Bool-cases (same q.id id)) [
  | inl t ↦ ap (λ (x : Role). x.id) (sym (some_inj (rw t at e))) ∙ same-eq q.id id t
  | inr t ↦ found_id id roles r (rw t at e)
]

-- An update that keeps identifiers is found where the role was.
pub find_role-update_role :
    (a id : String) (f : Role → Role) (roles : List Role) (r : Role)
    → ((q : Role) → (f q).id ≡ q.id)
    → find_role a roles ≡ some r
    → find_role a (update_role id f roles) ≡ some (if same r.id id then f r else r)
unfolding find_role update_role
find_role-update_role a id f [] r keep e = cc
find_role-update_role a id f (q ∷ roles) r keep e = elim (Bool-cases (same q.id a)) [
  | inl t ↦
      (let own : q ≡ r = some_inj (rw t at e) in
        let found : same (if same q.id id then f q else q).id a ≡ true =
          ap (λ i. same i a) (kept_id q) ∙ t in
        rw found (ap (λ (x : Role). some (if same x.id id then f x else x)) own))
  | inr t ↦
      (let found : same (if same q.id id then f q else q).id a ≡ false =
          ap (λ i. same i a) (kept_id q) ∙ t in
        rw found (find_role-update_role a id f roles r keep (rw t at e)))
]
  where
    kept_id : (q : Role) → (if same q.id id then f q else q).id ≡ q.id
    kept_id q = if_both (λ (x : Role). x.id ≡ q.id) (same q.id id) (keep q) refl

pub find_role-filter :
    (a id : String) (roles : List Role)
    → same a id ≡ false
    → find_role a (filter (other_role id) roles) ≡ find_role a roles
unfolding find_role
find_role-filter a id [] h = refl
find_role-filter a id (q ∷ roles) h = elim (Bool-cases (same q.id id)) [
  | inl t ↦
      (let other : same q.id a ≡ false = others q t in
        rw (t, other) (find_role-filter a id roles h))
  | inr t ↦ rw t (ap (λ o. if same q.id a then some q else o) (find_role-filter a id roles h))
]
  where
    others : (q : Role) → same q.id id ≡ true → same q.id a ≡ false
    others q t = elim (Bool-cases (same q.id a)) [
      | inl u ↦
          (let equal : a ≡ id = sym (same-eq q.id a u) ∙ same-eq q.id id t in
            let never : same id id ≡ false = ap (λ i. same i id) (sym equal) ∙ h in
            let always = same_refl id in cc)
      | inr u ↦ u
    ]
