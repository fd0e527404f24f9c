-- ===== src/Checkout/Redirect/Allowed.antt =====
-- A customer is sent nowhere but to an allowed origin.
use bookingqube_nest_backend.Prelude.{◌≢◌, ◌++◌, All, ◌≡◌, Option, some, List, ◌∷◌, true}
use bookingqube_nest_backend.Prelude.Text.{Text}
use bookingqube_nest_backend.Checkout.Settlement.{has_text}
use bookingqube_nest_backend.Checkout.Redirect.{drop_slashes, Url, normalize_origin}

-- An origin, if there is one, is in the list.
AllowedOrigin : List Text → Option Text → Type 0
AllowedOrigin allowed o = (x : Text) → o ≡ some x → has_text allowed x ≡ true

-- A path of the same site: it starts with one slash, no second slash or backslash follows, and no
-- backslash stands anywhere in it.
pub record IsSitePath (value : Text) : Type 0 where
  rest : Text
  slash_lem : value ≡ 47 ∷ rest
  second_lem : (t : Text) → rest ≢ 47 ∷ t
  backslash_lem : All (λ c. c ≢ 92) value

module _ (parse_url : Text → Option Url) where
  -- The address that a customer is sent to after a payment, for an origin and a path to fall back on.
  pub data IsSafeRedirect (allowed : List Text) (fallback_origin : Option Text)
      (fallback_path : Text) : Text → Type 0 where
    site_path :
        (value : Text)
        → IsSitePath value
        → IsSafeRedirect allowed fallback_origin fallback_path value
    allowed_origin :
        (value o : Text)
        → normalize_origin parse_url (some value) ≡ some o
        → has_text allowed o ≡ true
        → IsSafeRedirect allowed fallback_origin fallback_path value
    path_on_origin :
        (origin : Text)
        → fallback_origin ≡ some origin
        → IsSitePath fallback_path
        → IsSafeRedirect allowed fallback_origin fallback_path
            (drop_slashes origin ++ fallback_path)
    path_alone : IsSafeRedirect allowed fallback_origin fallback_path fallback_path
