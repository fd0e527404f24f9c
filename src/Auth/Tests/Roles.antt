-- ===== src/Auth/Tests/Roles.antt =====
-- Runs of the roles' service, and its theorems at concrete inputs.
use bookingqube_nest_backend.Prelude.{◌≡◌, refl, none, some, List, [], ◌∷◌, false}
use bookingqube_nest_backend.Prelude.Text.{codes, codes_dec, text_dec, trim, lower, is_space}
use bookingqube_nest_backend.Prelude.Http.{ok, err, bad_request}
use bookingqube_nest_backend.Auth.Roles.{
  Permission, Role, CreateRole, UpdateRole, slugify_role_name, create_role, change_role,
  remove_role, find_role, update_role, resolve_permission_ids, squeeze, drop_start,
}
use bookingqube_nest_backend.Auth.Roles.Protected.{
  IsAdministered, created, changed, here, next, Reachable-IsAdministered,
}

slug_test : slugify_role_name (codes "  Event  Manager (VIP)_ ") ≡ codes "event_manager_vip"
unfolding slugify_role_name squeeze drop_start trim lower is_space
slug_test = refl

abbrev table : List Permission
table =
    record { id = "p1"; key = "panel.access" }
    ∷ record { id = "p2"; key = "admin.access" }
    ∷ record { id = "p3"; key = "orders.read" }
    ∷ []

abbrev admin_role : Role
admin_role = record {
  id = "r1";
  name = codes "admin";
  description = none;
  is_third_party_shareholder = false;
  permission_ids = "p1" ∷ "p2" ∷ "p3" ∷ [];
  admins = 1;
}

abbrev roles : List Role
roles = admin_role ∷ []

abbrev scanner : CreateRole
scanner = record {
  name = codes "Scanner";
  description = some (codes " ");
  is_third_party_shareholder = false;
  permission_keys = some ("orders.read" ∷ []);
}

abbrev scanner_role : Role
scanner_role = record {
  id = "r2";
  name = codes "scanner";
  description = none;
  is_third_party_shareholder = false;
  permission_ids = "p3" ∷ [];
  admins = 0;
}

create_test : create_role table roles "r2" scanner ≡ ok (scanner_role ∷ roles)
unfolding create_role slugify_role_name squeeze drop_start trim lower is_space
    resolve_permission_ids text_dec codes_dec
create_test = refl

free_test : find_role "r2" roles ≡ none
unfolding find_role text_dec
free_test = refl

-- The administrators' role without the third permission.
abbrev less : UpdateRole
less = record {
  name = none;
  description = none;
  is_third_party_shareholder = none;
  permission_keys = some ("panel.access" ∷ "admin.access" ∷ []);
}

abbrev left : List Role
left = scanner_role ∷ record admin_role { permission_ids = "p1" ∷ "p2" ∷ [] } ∷ []

change_test : change_role table (scanner_role ∷ roles) "r1" less ≡ ok left
unfolding change_role find_role resolve_permission_ids update_role text_dec codes_dec
change_test = refl

-- It cannot lose its access, be renamed or be removed.
drop_test :
    change_role table roles "r1" (record less { permission_keys = some ("panel.access" ∷ []) })
    ≡ err (bad_request "admin must keep the panel.access and admin.access permissions.")
unfolding change_role find_role resolve_permission_ids update_role text_dec codes_dec
drop_test = refl

rename_test :
    change_role table roles "r1" (record less { name = some (codes "Root") })
    ≡ err (bad_request "The admin role name cannot be changed.")
unfolding change_role find_role slugify_role_name squeeze drop_start trim lower is_space text_dec
    codes_dec
rename_test = refl

remove_test : remove_role roles "r1" ≡ err (bad_request "The admin role cannot be deleted.")
unfolding remove_role find_role text_dec codes_dec
remove_test = refl

administered : IsAdministered table "r1" roles
unfolding find_role text_dec codes_dec
administered = record {
  role = admin_role;
  role_lem = refl;
  name_lem = refl;
  panel_lem = refl;
  admin_lem = refl;
}

Reachable-IsAdministered_example : IsAdministered table "r1" left
Reachable-IsAdministered_example =
    Reachable-IsAdministered table "r1" roles left administered (
      next (next here (created "r2" scanner free_test create_test)) (changed "r1" less change_test))
