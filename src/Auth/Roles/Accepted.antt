-- ===== src/Auth/Roles/Accepted.antt =====
-- What an accepted update of a role was checked for.
use bookingqube_nest_backend.Prelude.{
  ◌≡◌, ap, String, Option, none, some, List, any, false, not, ◌&&◌,
}
use bookingqube_nest_backend.Prelude.Text.{same, same_codes}
use bookingqube_nest_backend.Prelude.Http.{ok, ok_inj, bind_parts, if_ok, bad_request}
use bookingqube_nest_backend.Auth.Roles.{
  Permission, Role, UpdateRole, is_blank, is_protected, name_in_use, is_named, found_role,
  next_name, resolve_given, drops_access, written_role, update_role, update_found,
}

-- What an accepted update of a role was checked for, and what it wrote.
pub record Accepted (table : List Permission) (roles after : List Role) (id : String)
    (input : UpdateRole) (existing : Role) : Type 0 where
  pub permission_ids : Option (List String)
  pub given_lem : resolve_given table input.permission_keys ≡ ok permission_ids
  pub name_lem :
      (is_protected existing.name && not (same_codes (next_name existing input.name) existing.name))
      ≡ false
  pub access_lem : (is_protected existing.name && drops_access input.permission_keys) ≡ false
  pub after_lem :
      update_role id (written_role (next_name existing input.name) input permission_ids) roles
      ≡ after

pub update_found-Accepted :
    (table : List Permission) (roles after : List Role) (id : String) (input : UpdateRole)
    (existing : Role)
    → update_found table roles id input existing ≡ ok after
    → Accepted table roles after id input existing
update_found-Accepted table roles after id input existing e =
    let name = next_name existing input.name in
    let (_, e1) = if_ok (is_blank name) (bad_request "Role name is required.") _ e in
    let (same_name, e2) =
      if_ok (is_protected existing.name && not (same_codes name existing.name))
        (bad_request "The admin role name cannot be changed.") _ e1 in
    let (ids, given, e3) = bind_parts (resolve_given table input.permission_keys) _ e2 in
    let (access, e4) =
      if_ok (is_protected existing.name && drops_access input.permission_keys)
        (bad_request "admin must keep the panel.access and admin.access permissions.") _ e3 in
    let (_, e5) =
      if_ok (any (λ (r : Role). not (same r.id id) && is_named name r) roles) name_in_use _ e4 in
    record {
      permission_ids = ids;
      given_lem = given;
      name_lem = same_name;
      access_lem = access;
      after_lem = ok_inj e5;
    }

pub found_lem : (o : Option Role) (r : Role) → found_role o ≡ ok r → o ≡ some r
found_lem none r e = cc
found_lem (some q) r e = ap some (ok_inj e)
