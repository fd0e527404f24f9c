-- ===== src/Auth/Roles/Grants.antt =====
-- What a role grants after its permissions are replaced.
use bookingqube_nest_backend.Prelude.{
  inl, inr, ◌≡◌, refl, sym, ap, ◌∙◌, subst, String, Option, none, some, some_inj, List, [], ◌∷◌,
  map, filter, any, Bool, true, false, not, ◌&&◌, ◌||◌, if◌then◌else◌, Bool-cases, or_right, arith,
}
use bookingqube_nest_backend.Prelude.Text.{includes, same, same-eq, same_refl}
use bookingqube_nest_backend.Prelude.Http.{Result, ok, err, ok_inj, bind_parts, bad_request}
use bookingqube_nest_backend.Auth.Roles.{
  Permission, resolve_permission_ids, resolve_given, drops_access, or_old,
}

-- Whether a permission of this key is among the permissions of these identifiers.
abbrev pub grants : List Permission → List String → String → Bool
grants table ids key = any (λ (p : Permission). same p.key key && includes ids p.id) table

grants_more :
    (table : List Permission) (ids more : List String) (key : String)
    → ((i : String) → includes ids i ≡ true → includes more i ≡ true)
    → grants table ids key ≡ true
    → grants table more key ≡ true
grants_more [] ids more key k h = cc
grants_more (p ∷ table) ids more key k h = ground (arith, k p.id, grants_more table ids more key k)

-- A permission that is asked for is among those that are resolved, if there is one of its key.
grants_found :
    (table : List Permission) (keys ids : List String) (key : String)
    → grants table ids key ≡ true
    → includes keys key ≡ true
    → grants table
        (map (λ (p : Permission). p.id) (filter (λ (p : Permission). includes keys p.key) table))
        key
      ≡ true
grants_found [] keys ids key h k = cc
grants_found (p ∷ table) keys ids key h k = elim (Bool-cases (same p.key key)) [
  | inl t ↦
      (let kept : includes keys p.key ≡ true = ap (includes keys) (same-eq p.key key t) ∙ k in
        rw (kept, t, same_refl p.id) refl)
  | inr t ↦
      (let rest = grants_found table keys ids key (rw t at h) k in
        let found =
          map (λ (q : Permission). q.id) (filter (λ (q : Permission). includes keys q.key) table) in
        elim (Bool-cases (includes keys p.key)) [
          | inl kept ↦
              (let more =
                  grants_more table found (p.id ∷ found) key (λ i m. or_right (same p.id i) m)
                    rest in
                let whole : grants (p ∷ table) (p.id ∷ found) key ≡ true = rw t more in
                subst Granted (sym (filter_kept kept)) whole)
          | inr dropped ↦
              (let whole : grants (p ∷ table) found key ≡ true = rw t rest in
                subst Granted (sym (filter_dropped dropped)) whole)
        ])
]
  where
    is_asked : Permission → Bool
    is_asked q = includes keys q.key

    Granted : List Permission → Type 0
    Granted ps = grants (p ∷ table) (map (λ (q : Permission). q.id) ps) key ≡ true

    filter_kept : is_asked p ≡ true → filter is_asked (p ∷ table) ≡ p ∷ filter is_asked table
    filter_kept e = rw e refl

    filter_dropped : is_asked p ≡ false → filter is_asked (p ∷ table) ≡ filter is_asked table
    filter_dropped e = rw e refl

resolved_grants :
    (table : List Permission) (keys old ids : List String) (key : String)
    → resolve_permission_ids table keys ≡ ok ids
    → grants table old key ≡ true
    → includes keys key ≡ true
    → grants table ids key ≡ true
unfolding resolve_permission_ids
resolved_grants table [] old ids key e h k = cc
resolved_grants table (k0 ∷ keys) old ids key e h k =
    let all = k0 ∷ keys in
    let found = filter (λ (p : Permission). includes all p.key) table in
    subst (λ is. grants table is key ≡ true) (ok_inj (resolved _ e))
      (grants_found table all old key h k)
  where
    resolved :
        {A : Type 0} (b : Bool) {x : Result A} {a : A}
        → (if b then x else err (bad_request "Unknown permission keys")) ≡ ok a
        → x ≡ ok a
    resolved true e = e
    resolved false e = cc

-- An update of the administrators' role that keeps access grants what it granted.
pub kept_grants :
    (table : List Permission) (keys : Option (List String)) (given : Option (List String))
    (old : List String) (key : String)
    → resolve_given table keys ≡ ok given
    → ((ks : List String) → keys ≡ some ks → includes ks key ≡ true)
    → grants table old key ≡ true
    → grants table (or_old given old) key ≡ true
kept_grants table none given old key e k h =
    subst (λ g. grants table (or_old g old) key ≡ true) (ok_inj e) h
kept_grants table (some ks) given old key e k h =
    let (ids, found, e1) = bind_parts (resolve_permission_ids table ks) _ e in
    subst (λ g. grants table (or_old g old) key ≡ true) (ok_inj e1)
      (resolved_grants table ks old ids key found h (k ks refl))

pub given_access :
    (keys : Option (List String))
    → drops_access keys ≡ false
    → (ks : List String) → keys ≡ some ks
    → (includes ks "panel.access" ≡ true) × (includes ks "admin.access" ≡ true)
given_access none d ks e = cc
given_access (some given) d ks e =
    subst (λ xs. (includes xs "panel.access" ≡ true) × (includes xs "admin.access" ≡ true))
      (some_inj e) (both (includes given "panel.access") (includes given "admin.access") d)
  where
    both : (a b : Bool) → (not a || not b) ≡ false → (a ≡ true) × (b ≡ true)
    both true true d = (refl, refl)
    both true false d = cc
    both false b d = cc
