-- ===== src/Checkout/Redirect.antt =====
-- src/modules/checkout/frontend-origin.ts: where a customer is sent back to. The parser of URLs is a
-- parameter.
pub mod Allowed
use bookingqube_nest_backend.Prelude.{
  Option, none, some, List, [], ◌∷◌, ◌++◌, any, Bool, true, false, not, ◌&&◌, ◌||◌, ◌==◌,
  if◌then◌else◌,
}
use bookingqube_nest_backend.Prelude.Text.{Text, codes, same_codes, trim, lower}
use bookingqube_nest_backend.Checkout.Recovery.{is_empty}
use bookingqube_nest_backend.Checkout.Settlement.{has_text, unique_texts}
use bookingqube_nest_backend.Checkout.Settlement.Tokens.{starts_with}

-- `new URL(text)`; `none` where it throws.
pub record Url : Type 0 where
  pub protocol : Text
  pub origin : Text

abbrev pub text_or_empty : Option Text → Text
text_or_empty none = []
text_or_empty (some s) = s

unfoldable pub is_safe_relative_path : Text → Bool
unfolding starts_with
is_safe_relative_path value =
    starts_with (codes "/") value
    && not (starts_with (codes "//") value)
    && not (any (λ c. c == 92) value)

abbrev pub first_or_none : List Text → Option Text
first_or_none [] = none
first_or_none (o ∷ _) = some o

abbrev pub allowed_one : List Text → Option Text → Option Text
allowed_one allowed none = none
allowed_one allowed (some o) = if has_text allowed o then some o else none

-- `origin.replace(/\/+$/, '')`
unfoldable pub drop_slashes : Text → Text
drop_slashes [] = []
drop_slashes (c ∷ s) = elim (drop_slashes s) [
  | [] ↦ if c == 47 then [] else c ∷ []
  | d ∷ t ↦ c ∷ d ∷ t
]

abbrev pub fallback_redirect : Option Text → Text → Text
fallback_redirect none fallback_path = fallback_path
fallback_redirect (some origin) fallback_path =
    if not (is_empty origin) && is_safe_relative_path fallback_path
    then drop_slashes origin ++ fallback_path
    else fallback_path

abbrev pub is_some_text : Option Text → Bool
is_some_text none = false
is_some_text (some _) = true

module _ (parse_url : Text → Option Url) where
  abbrev pub web_origin : Option Url → Option Text
  web_origin none = none
  web_origin (some url) =
      if not (same_codes url.protocol (codes "http:"))
        && not (same_codes url.protocol (codes "https:"))
      then none
      else some url.origin

  unfoldable pub normalize_origin : Option Text → Option Text
  unfolding trim lower starts_with
  normalize_origin value =
      let raw = trim (text_or_empty value) in
      if is_empty raw
      then none
      else if starts_with (codes "http://") (lower raw)
          || starts_with (codes "https://") (lower raw)
      then web_origin (parse_url raw)
      else web_origin (parse_url (codes "https://" ++ raw))

  abbrev pub origins_of : List Text → List Text
  origins_of [] = []
  origins_of (origin ∷ origins) = elim (normalize_origin (some origin)) [
    | none ↦ origins_of origins
    | some o ↦ o ∷ origins_of origins
  ]

  unfoldable pub list_allowed_frontend_origins : List Text → Option Text → List Text
  unfolding normalize_origin unique_texts
  list_allowed_frontend_origins cors_origins app_public_url =
      unique_texts (origins_of cors_origins ++ app_origin (normalize_origin app_public_url))
    where
      app_origin : Option Text → List Text
      app_origin none = []
      app_origin (some o) = o ∷ []

  abbrev pub fallback_of : List Text → Option Text → Option Text
  fallback_of allowed fallback_origin =
      elim (allowed_one allowed (normalize_origin fallback_origin)) [
        | some o ↦ some o
        | none ↦ first_or_none allowed
      ]

  abbrev pub success_or : List Text → Text → Option Text → Option Text
  success_or allowed success fallback =
      if not (is_empty success) && is_safe_relative_path success
      then fallback
      else elim (allowed_one allowed (normalize_origin (some success))) [
        | some o ↦ some o
        | none ↦ fallback
      ]

  unfoldable pub resolve_allowed_frontend_origin :
      List Text → Option Text → Option Text → Option Text → Option Text
  unfolding normalize_origin is_safe_relative_path trim
  resolve_allowed_frontend_origin allowed fallback_origin base_domain success_url =
      elim (allowed_one allowed (normalize_origin base_domain)) [
        | some o ↦ some o
        | none ↦
            success_or allowed (trim (text_or_empty success_url))
              (fallback_of allowed fallback_origin)
      ]

  unfoldable pub sanitize_post_pay_redirect : Option Text → List Text → Option Text → Text → Text
  unfolding normalize_origin is_safe_relative_path trim drop_slashes
  sanitize_post_pay_redirect raw allowed fallback_origin fallback_path =
      let value = trim (text_or_empty raw) in
      if not (is_empty value) && is_safe_relative_path value
      then value
      else if not (is_empty value)
          && is_some_text (allowed_one allowed (normalize_origin (some value)))
      then value
      else fallback_redirect fallback_origin fallback_path
