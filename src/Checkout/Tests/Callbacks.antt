-- ===== src/Checkout/Tests/Callbacks.antt =====
-- Callbacks of the bank and redirects at concrete inputs.
use bookingqube_nest_backend.Prelude.{
  ◌≡◌, refl, ℕ, Option, none, some, List, [], ◌∷◌, map, true, false,
}
use bookingqube_nest_backend.Prelude.Text.{Text, codes, codes_dec, codes_le, trim, lower}
use bookingqube_nest_backend.Checkout.Callback.{
  Parameter, is_hashable_key, build_secure_hash, verify_callback_signature, is_callback_stale,
  presented_hash, by_key, insert_parameter,
}
use bookingqube_nest_backend.Checkout.Callback.Signature.{sent}
use bookingqube_nest_backend.Checkout.Redirect.{
  Url, normalize_origin, is_safe_relative_path, drop_slashes, sanitize_post_pay_redirect,
}

abbrev hex : Text → Text
hex _ = codes "0a"

abbrev fields : List Parameter
fields =
    record { key = codes "Response_Status"; value = codes "0000" }
    ∷ record { key = codes "PUN"; value = codes "BQ1" }
    ∷ []

-- Another secret gives another hash.
forged_test :
    verify_callback_signature
      (λ s. s)
      (record { key = codes "SecureHash"; value = some (codes "guess0000BQ1") } ∷ map sent fields)
      (codes "secret")
    ≡ false
unfolding verify_callback_signature build_secure_hash presented_hash by_key insert_parameter
    is_hashable_key trim lower codes_dec codes_le
forged_test = refl

abbrev no_date : Text → Option ℕ
no_date _ = none

-- A session that is not a day old is fresh, and one that is older is not.
fresh_test : is_callback_stale no_date 90000000 (some (codes "01012024")) (some 10000000) ≡ false
unfolding is_callback_stale
fresh_test = refl

stale_test : is_callback_stale no_date 90000000 none (some 3000000) ≡ true
unfolding is_callback_stale
stale_test = refl

-- A parser that knows one site.
abbrev parse_url : Text → Option Url
parse_url _ = some (record { protocol = codes "https:"; origin = codes "https://shop.qa" })

evil_test :
    sanitize_post_pay_redirect parse_url
      (some (codes "//evil.qa"))
      []
      (some (codes "https://shop.qa/"))
      (codes "/thanks")
    ≡ codes "https://shop.qa/thanks"
unfolding sanitize_post_pay_redirect normalize_origin is_safe_relative_path drop_slashes trim lower
    codes_dec
evil_test = refl
