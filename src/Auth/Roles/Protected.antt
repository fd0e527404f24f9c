-- ===== src/Auth/Roles/Protected.antt =====
-- The administrators' role stays, and keeps its access.
use bookingqube_nest_backend.Prelude.{
  inl, inr, ◌⊎◌, ℕ, ◌≡◌, refl, sym, ap, ◌∙◌, subst, String, none, some, some_inj, List, ◌∷◌, any,
  true, false, not, ◌&&◌, ltb, if◌then◌else◌, Bool-cases, not-false,
}
use bookingqube_nest_backend.Prelude.Text.{same, same-eq, same_codes, same_codes-eq}
use bookingqube_nest_backend.Prelude.Http.{ok, ok_inj, bind_parts, if_ok, bad_request}
use bookingqube_nest_backend.Auth.Roles.{
  Permission, Role, CreateRole, UpdateRole, is_blank, slugify_role_name, is_protected, given_keys,
  resolve_permission_ids, find_role, name_in_use, is_named, new_role, create_role, found_role,
  next_name, drops_access, written_role, update_role, change_role, remove_role,
}
use bookingqube_nest_backend.Auth.Roles.Lookup.{found_id, find_role-update_role, find_role-filter}
use bookingqube_nest_backend.Auth.Roles.Grants.{grants, kept_grants, given_access}
use bookingqube_nest_backend.Auth.Roles.Accepted.{update_found-Accepted, found_lem}

-- The role of this identifier is the administrators', and grants access to the panel and to its
-- administration.
pub record IsAdministered (table : List Permission) (admin_id : String) (roles : List Role)
    : Type 0 where
  pub role : Role
  pub role_lem : find_role admin_id roles ≡ some role
  pub name_lem : is_protected role.name ≡ true
  pub panel_lem : grants table role.permission_ids "panel.access" ≡ true
  pub admin_lem : grants table role.permission_ids "admin.access" ≡ true

-- What happens to the roles: the operations of the service, and administrators who are given a role
-- or lose it.
pub data Change (table : List Permission) (roles : List Role) : List Role → Type 0 where
  created :
      {after : List Role} (id : String) (input : CreateRole)
      → find_role id roles ≡ none
      → create_role table roles id input ≡ ok after
      → Change table roles after
  changed :
      {after : List Role} (id : String) (input : UpdateRole)
      → change_role table roles id input ≡ ok after
      → Change table roles after
  removed :
      {after : List Role} (id : String) → remove_role roles id ≡ ok after → Change table roles after
  staffed :
      (id : String) (admins : ℕ)
      → Change table roles (update_role id (λ r. record r { admins = admins }) roles)

pub data Reachable (table : List Permission) (roles : List Role) : List Role → Type 0 where
  here : Reachable table roles roles
  next :
      {between after : List Role}
      → Reachable table roles between
      → Change table between after
      → Reachable table roles after

module _ (table : List Permission) (admin_id : String) where
  created-IsAdministered :
      (roles after : List Role) (id : String) (input : CreateRole)
      → find_role id roles ≡ none
      → create_role table roles id input ≡ ok after
      → IsAdministered table admin_id roles
      → IsAdministered table admin_id after
  unfolding create_role find_role
  created-IsAdministered roles after id input free e h =
      let name = slugify_role_name input.name in
      let (_, e1) = if_ok (is_blank name) (bad_request "Role name is required.") _ e in
      let (ids, _, e2) =
        bind_parts (resolve_permission_ids table (given_keys input.permission_keys)) _ e1 in
      let (_, e3) = if_ok (any (is_named name) roles) name_in_use _ e2 in
      let stays : find_role admin_id (new_role id name input ids ∷ roles) ≡ some h.role =
        rw (others (Bool-cases (same id admin_id))) h.role_lem in
      record {
        role = h.role;
        role_lem = ap (find_role admin_id) (sym (ok_inj e3)) ∙ stays;
        name_lem = h.name_lem;
        panel_lem = h.panel_lem;
        admin_lem = h.admin_lem;
      }
    where
      others : (same id admin_id ≡ true) ⊎ (same id admin_id ≡ false) → same id admin_id ≡ false
      others (inl t) =
          let never : none ≡ some h.role =
            sym free ∙ ap (λ i. find_role i roles) (same-eq id admin_id t) ∙ h.role_lem in
          cc
      others (inr t) = t

  -- A role that an update leaves as it is, or writes with the same name and access.
  updated-IsAdministered :
      (roles : List Role) (id : String) (f : Role → Role)
      → ((q : Role) → (f q).id ≡ q.id)
      → (h : IsAdministered table admin_id roles)
      → (same h.role.id id ≡ true
          → (is_protected (f h.role).name ≡ true)
            × (grants table (f h.role).permission_ids "panel.access" ≡ true)
            × (grants table (f h.role).permission_ids "admin.access" ≡ true))
      → IsAdministered table admin_id (update_role id f roles)
  updated-IsAdministered roles id f keep h k = by (Bool-cases (same h.role.id id))
    where
      by :
          (same h.role.id id ≡ true) ⊎ (same h.role.id id ≡ false)
          → IsAdministered table admin_id (update_role id f roles)
      by (inl t) =
          let (name, panel, admin) = k t in
          record {
            role = f h.role;
            role_lem =
                find_role-update_role admin_id id f roles h.role keep h.role_lem
                ∙ ap (λ b. some (if b then f h.role else h.role)) t;
            name_lem = name;
            panel_lem = panel;
            admin_lem = admin;
          }
      by (inr t) = record {
        role = h.role;
        role_lem =
            find_role-update_role admin_id id f roles h.role keep h.role_lem
            ∙ ap (λ b. some (if b then f h.role else h.role)) t;
        name_lem = h.name_lem;
        panel_lem = h.panel_lem;
        admin_lem = h.admin_lem;
      }

  changed-IsAdministered :
      (roles after : List Role) (id : String) (input : UpdateRole)
      → change_role table roles id input ≡ ok after
      → IsAdministered table admin_id roles
      → IsAdministered table admin_id after
  unfolding change_role
  changed-IsAdministered roles after id input e h =
      let (existing, found, e1) = bind_parts (found_role (find_role id roles)) _ e in
      let accepted = update_found-Accepted table roles after id input existing e1 in
      let name = next_name existing input.name in
      subst (IsAdministered table admin_id) accepted.after_lem (
        updated-IsAdministered roles id (written_role name input accepted.permission_ids)
          (λ q. refl) h
          λ t.
            let same_id : admin_id ≡ id =
              sym (found_id admin_id roles h.role h.role_lem) ∙ same-eq h.role.id id t in
            let own : h.role ≡ existing = some_inj (
              sym h.role_lem
              ∙ ap (λ i. find_role i roles) same_id
              ∙ found_lem (find_role id roles) existing found) in
            let protected : is_protected existing.name ≡ true =
              ap (λ (r : Role). is_protected r.name) (sym own) ∙ h.name_lem in
            let unnamed : not (same_codes name existing.name) ≡ false =
              ap (λ b. b && not (same_codes name existing.name)) (sym protected)
              ∙ accepted.name_lem in
            let same_name = same_codes-eq name existing.name (not-false _ unnamed) in
            let keeps : drops_access input.permission_keys ≡ false =
              ap (λ b. b && drops_access input.permission_keys) (sym protected)
              ∙ accepted.access_lem in
            (
              ap is_protected same_name ∙ protected,
              kept_grants table input.permission_keys accepted.permission_ids h.role.permission_ids
                  "panel.access" accepted.given_lem
                  (λ ks k. (given_access input.permission_keys keeps ks k).0) h.panel_lem,
              kept_grants table input.permission_keys accepted.permission_ids h.role.permission_ids
                  "admin.access" accepted.given_lem
                  (λ ks k. (given_access input.permission_keys keeps ks k).1) h.admin_lem,
            ))

  removed-IsAdministered :
      (roles after : List Role) (id : String)
      → remove_role roles id ≡ ok after
      → IsAdministered table admin_id roles
      → IsAdministered table admin_id after
  unfolding remove_role
  removed-IsAdministered roles after id e h =
      let (existing, found, e1) = bind_parts (found_role (find_role id roles)) _ e in
      let (unprotected, e2) =
        if_ok (is_protected existing.name) (bad_request "The admin role cannot be deleted.") _ e1 in
      let (_, e3) =
        if_ok (ltb 0 existing.admins)
          (bad_request "This role is assigned to admin users. Reassign them before deleting.") _
          e2 in
      record {
        role = h.role;
        role_lem =
            ap (find_role admin_id) (sym (ok_inj e3))
            ∙ find_role-filter admin_id id roles (
                others existing unprotected (found_lem (find_role id roles) existing found)
                  (Bool-cases (same admin_id id)))
            ∙ h.role_lem;
        name_lem = h.name_lem;
        panel_lem = h.panel_lem;
        admin_lem = h.admin_lem;
      }
    where
      others :
          (existing : Role)
          → is_protected existing.name ≡ false
          → find_role id roles ≡ some existing
          → (same admin_id id ≡ true) ⊎ (same admin_id id ≡ false)
          → same admin_id id ≡ false
      others existing unprotected found (inl t) =
          let own : h.role ≡ existing =
            some_inj
              (sym h.role_lem ∙ ap (λ i. find_role i roles) (same-eq admin_id id t) ∙ found) in
          let protected : is_protected existing.name ≡ true =
            ap (λ (r : Role). is_protected r.name) (sym own) ∙ h.name_lem in
          cc
      others existing unprotected found (inr t) = t

  Change-IsAdministered :
      {roles after : List Role}
      → Change table roles after
      → IsAdministered table admin_id roles
      → IsAdministered table admin_id after
  Change-IsAdministered {roles} {after} (created id input free e) h =
      created-IsAdministered roles after id input free e h
  Change-IsAdministered {roles} {after} (changed id input e) h =
      changed-IsAdministered roles after id input e h
  Change-IsAdministered {roles} {after} (removed id e) h = removed-IsAdministered roles after id e h
  Change-IsAdministered {roles} (staffed id admins) h =
      updated-IsAdministered roles id (λ r. record r { admins = admins }) (λ q. refl) h
        (λ t. (h.name_lem, h.panel_lem, h.admin_lem))

  -- Once there is a role of administrators that grants access to the panel and to its
  -- administration, it stays under its identifier and its name and goes on granting both, through any
  -- sequence of creations, updates and removals of roles and of appointments of administrators.
  pub Reachable-IsAdministered :
      (roles after : List Role)
      → IsAdministered table admin_id roles
      → Reachable table roles after
      → IsAdministered table admin_id after
  Reachable-IsAdministered roles after h here = h
  Reachable-IsAdministered roles after h (next {between} r c) =
      Change-IsAdministered c (Reachable-IsAdministered roles between h r)
