-- ===== src/Checkout/Settlement/Tokens.antt =====
-- The tokens in the payload of a gateway: `collectMyFatoorahBindTokens` of
-- src/modules/checkout/payment-verification.ts. A number stands as its text.
use bookingqube_nest_backend.Prelude.{
  ℕ, zero, suc, List, [], ◌∷◌, ◌++◌, filter, Bool, true, false, not, ◌&&◌, ◌||◌, ◌==◌,
  if◌then◌else◌,
}
use bookingqube_nest_backend.Prelude.Text.{Text, codes, lower}
use bookingqube_nest_backend.Checkout.Recovery.{is_empty}
use bookingqube_nest_backend.Checkout.Settlement.{normalize_bind_token, has_text}

mutual
  pub data Json : Type 0 where
    null_json boolean_json : Json
    text_json : Text → Json
    array_json : Elements → Json
    object_json : Fields → Json

  pub data Elements : Type 0 where
    no_element : Elements
    element : Json → Elements → Elements

  pub data Fields : Type 0 where
    no_field : Fields
    field : Text → Json → Fields → Fields

unfoldable pub starts_with : Text → Text → Bool
starts_with [] s = true
starts_with (c ∷ prefix) [] = false
starts_with (c ∷ prefix) (d ∷ s) = c == d && starts_with prefix s

abbrev pub bind_keys : List Text
bind_keys =
    codes "externalidentifier"
    ∷ codes "external_identifier"
    ∷ codes "userdefinedfield"
    ∷ codes "invoicedisplayvalue"
    ∷ codes "invoicereference"
    ∷ codes "sessionid"
    ∷ codes "customeridentifier"
    ∷ []

unfoldable pub is_bind_key : Text → Bool
unfolding lower
is_bind_key key = has_text bind_keys (lower (filter (λ c. not (c == 95)) key))

abbrev pub add_token : Text → List Text → List Text
add_token token out =
    if not (is_empty token)
      && not (starts_with (codes "customer-") token)
      && not (has_text out token)
    then out ++ (token ∷ [])
    else out

abbrev pub is_nested : Json → Bool
is_nested (array_json _) = true
is_nested (object_json _) = true
is_nested _ = false

-- The walk stops where its depth is used up: `depth > 5`.
unfoldable mutual
  unfolding starts_with normalize_bind_token is_bind_key

  pub collect_bind_tokens : ℕ → Json → List Text → List Text
  collect_bind_tokens zero v out = out
  collect_bind_tokens (suc depth) null_json out = out
  collect_bind_tokens (suc depth) boolean_json out = out
  collect_bind_tokens (suc depth) (text_json s) out = add_token (normalize_bind_token s) out
  collect_bind_tokens (suc depth) (array_json items) out = collect_elements depth items out
  collect_bind_tokens (suc depth) (object_json fields) out = collect_fields depth fields out

  pub collect_elements : ℕ → Elements → List Text → List Text
  collect_elements depth no_element out = out
  collect_elements depth (element v items) out =
      collect_elements depth items (collect_bind_tokens depth v out)

  pub collect_fields : ℕ → Fields → List Text → List Text
  collect_fields depth no_field out = out
  collect_fields depth (field key v fields) out =
      collect_fields depth fields
        (if is_bind_key key || is_nested v then collect_bind_tokens depth v out else out)

unfoldable pub extract_bind_tokens : Json → List Text
unfolding collect_bind_tokens
extract_bind_tokens payload = collect_bind_tokens 6 payload []
