-- ===== src/Auth/Roles.antt =====
-- `AdminRolesService` of src/modules/admin-roles/admin-roles.service.ts: roles and their permissions. A
-- role's identifier is new when it is created. The lists and how a role is shown are not modelled.
pub mod Lookup
pub mod Grants
pub mod Accepted
pub mod Protected
pub mod Names
use bookingqube_nest_backend.Prelude.{
  ℕ, ◌==◌, String, Option, none, some, List, [], ◌∷◌, map, filter, any, length, take, Bool, true,
  false, not, ◌&&◌, ◌||◌, leb, ltb, if◌then◌else◌, is_some,
}
use bookingqube_nest_backend.Prelude.Text.{
  includes, Text, codes, same, same_codes, trim, lower, is_space,
}
use bookingqube_nest_backend.Prelude.Http.{
  Result, ok, err, HttpError, bad_request, not_found, conflict, ◌>>=◌,
}
use mathlib.Core.List.{reverse}

pub record Permission : Type 0 where
  pub id : String
  pub key : String

-- A role with the permissions of its rows in `role_permissions` and the number of its administrators.
pub record Role : Type 0 where
  pub id : String
  pub name : Text
  pub description : Option Text
  pub is_third_party_shareholder : Bool
  pub permission_ids : List String
  pub admins : ℕ

pub record CreateRole : Type 0 where
  pub name : Text
  pub description : Option Text
  pub is_third_party_shareholder : Bool
  pub permission_keys : Option (List String)

-- A column that is not given is `none`.
pub record UpdateRole : Type 0 where
  pub name : Option Text
  pub description : Option Text
  pub is_third_party_shareholder : Option Bool
  pub permission_keys : Option (List String)

abbrev pub is_blank : Text → Bool
is_blank [] = true
is_blank _ = false

abbrev pub starts : (ℕ → Bool) → Text → Bool
starts p [] = false
starts p (c ∷ _) = p c

-- Each run of such characters becomes one character.
unfoldable pub squeeze : (ℕ → Bool) → ℕ → Text → Text
squeeze p d [] = []
squeeze p d (c ∷ s) =
    let rest = squeeze p d s in if p c then if starts p s then rest else d ∷ rest else c ∷ rest

abbrev pub is_separator : ℕ → Bool
is_separator c = c == 95 || c == 45

abbrev pub is_slug_code : ℕ → Bool
is_slug_code c = leb 97 c && leb c 122 || leb 48 c && leb c 57 || is_separator c

unfoldable pub drop_start : (ℕ → Bool) → Text → Text
drop_start p [] = []
drop_start p (c ∷ s) = if p c then drop_start p s else c ∷ s

abbrev pub drop_ends : (ℕ → Bool) → Text → Text
drop_ends p s = reverse (drop_start p (reverse (drop_start p s)))

unfoldable pub slugify_role_name : Text → Text
unfolding squeeze drop_start trim lower is_space
slugify_role_name value =
    let words = squeeze is_space 95 (lower (trim value)) in
    let kept = filter is_slug_code words in
    take 80 (drop_ends is_separator (squeeze (λ c. c == 45) 45 (squeeze (λ c. c == 95) 95 kept)))

abbrev pub is_protected : Text → Bool
is_protected name = same_codes name (codes "admin")

abbrev pub trimmed_or_none : Text → Option Text
trimmed_or_none s = elim (trim s) [ [] ↦ none | c ∷ t ↦ some (c ∷ t) ]

abbrev pub description_of : Option Text → Option Text
description_of none = none
description_of (some s) = trimmed_or_none s

abbrev pub given_keys : Option (List String) → List String
given_keys none = []
given_keys (some keys) = keys

-- The message lists the keys that are missing.
unfoldable pub resolve_permission_ids : List Permission → List String → Result (List String)
resolve_permission_ids table [] = ok []
resolve_permission_ids table (key ∷ keys) =
    let found = filter (λ (p : Permission). includes (key ∷ keys) p.key) table in
    if length found == length (key ∷ keys)
    then ok (map (λ (p : Permission). p.id) found)
    else err (bad_request "Unknown permission keys")

unfoldable pub find_role : String → List Role → Option Role
find_role id [] = none
find_role id (r ∷ roles) = if same r.id id then some r else find_role id roles

abbrev pub name_in_use : HttpError
name_in_use = conflict "A role with that name already exists."

abbrev pub is_named : Text → Role → Bool
is_named name role = same_codes role.name name

abbrev pub new_role : String → Text → CreateRole → List String → Role
new_role id name input permission_ids = record {
  id = id;
  name = name;
  description = description_of input.description;
  is_third_party_shareholder = input.is_third_party_shareholder;
  permission_ids = permission_ids;
  admins = 0;
}

unfoldable pub create_role : List Permission → List Role → String → CreateRole → Result (List Role)
unfolding slugify_role_name resolve_permission_ids trim
create_role table roles id input =
    let name = slugify_role_name input.name in
    if is_blank name
    then err (bad_request "Role name is required.")
    else resolve_permission_ids table (given_keys input.permission_keys) >>= λ permission_ids.
        if any (is_named name) roles
        then err name_in_use
        else ok (new_role id name input permission_ids ∷ roles)

abbrev pub found_role : Option Role → Result Role
found_role none = err (not_found "Role not found.")
found_role (some role) = ok role

abbrev pub next_name : Role → Option Text → Text
next_name existing none = existing.name
next_name existing (some name) = slugify_role_name name

abbrev pub resolve_given : List Permission → Option (List String) → Result (Option (List String))
resolve_given table none = ok none
resolve_given table (some keys) = resolve_permission_ids table keys >>= λ ids. ok (some ids)

abbrev pub drops_access : Option (List String) → Bool
drops_access none = false
drops_access (some keys) = not (includes keys "panel.access") || not (includes keys "admin.access")

abbrev pub or_old {ℓ} : {A : Type ℓ} → Option A → A → A
or_old none a = a
or_old (some b) _ = b

abbrev pub next_description : Option Text → Option Text → Option Text
next_description none old = old
next_description (some s) _ = trimmed_or_none s

-- The rows that the transaction writes.
abbrev pub written_role : Text → UpdateRole → Option (List String) → Role → Role
written_role name input permission_ids role = record role {
  name = name;
  description = next_description input.description role.description;
  is_third_party_shareholder =
      or_old input.is_third_party_shareholder role.is_third_party_shareholder;
  permission_ids = or_old permission_ids role.permission_ids;
}

unfoldable pub update_role : String → (Role → Role) → List Role → List Role
update_role id f [] = []
update_role id f (r ∷ roles) = (if same r.id id then f r else r) ∷ update_role id f roles

abbrev pub update_found :
    List Permission → List Role → String → UpdateRole → Role → Result (List Role)
update_found table roles id input existing =
    let name = next_name existing input.name in
    if is_blank name
    then err (bad_request "Role name is required.")
    else if is_protected existing.name && not (same_codes name existing.name)
    then err (bad_request "The admin role name cannot be changed.")
    else resolve_given table input.permission_keys >>= λ permission_ids.
        if is_protected existing.name && drops_access input.permission_keys
        then err (bad_request "admin must keep the panel.access and admin.access permissions.")
        else if any (λ (r : Role). not (same r.id id) && is_named name r) roles
        then err name_in_use
        else ok (update_role id (written_role name input permission_ids) roles)

unfoldable pub change_role : List Permission → List Role → String → UpdateRole → Result (List Role)
unfolding find_role slugify_role_name resolve_permission_ids trim update_role
change_role table roles id input =
    found_role (find_role id roles) >>= update_found table roles id input

abbrev pub other_role : String → Role → Bool
other_role id role = not (same role.id id)

abbrev pub remove_found : List Role → String → Role → Result (List Role)
remove_found roles id role =
    if is_protected role.name
    then err (bad_request "The admin role cannot be deleted.")
    else if ltb 0 role.admins
    then err (bad_request "This role is assigned to admin users. Reassign them before deleting.")
    else ok (filter (other_role id) roles)

unfoldable pub remove_role : List Role → String → Result (List Role)
unfolding find_role
remove_role roles id = found_role (find_role id roles) >>= remove_found roles id
