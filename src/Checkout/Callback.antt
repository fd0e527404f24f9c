-- ===== src/Checkout/Callback.antt =====
-- src/modules/checkout/qpay-callback.security.ts: the checks on a callback of the bank. The digest
-- of a text in hexadecimal and the parser of a request's date are parameters; a number stands as its
-- text. Times are in milliseconds and amounts in thousandths.
pub mod Signature
pub mod Age
use bookingqube_nest_backend.Prelude.{
  ℕ, ◌+◌, ◌-◌, ◌*◌, ◌/◌, Option, none, some, List, [], ◌∷◌, ◌++◌, filter, take, any, Bool, true,
  false, not, ◌&&◌, ◌||◌, leb, ltb, ◌==◌, if◌then◌else◌,
}
use bookingqube_nest_backend.Prelude.Text.{Text, codes, same_codes, codes_le, trim, lower}
use bookingqube_nest_backend.Checkout.Recovery.{is_empty}
use bookingqube_nest_backend.Checkout.Upsert.{coalesce}
use bookingqube_nest_backend.Checkout.Settlement.{has_text}
use bookingqube_nest_backend.Checkout.Settlement.Tokens.{starts_with}

-- A field of a callback; a value that is null or undefined is `none`.
pub record CallbackField : Type 0 where
  pub key : Text
  pub value : Option Text

pub record Parameter : Type 0 where
  pub key : Text
  pub value : Text

abbrev pub hash_excluded_keys : List Text
hash_excluded_keys = codes "SecureHash" ∷ codes "Response_SecureHash" ∷ []

abbrev pub hashable_aliases : List Text
hashable_aliases =
    codes "Action"
    ∷ codes "Amount"
    ∷ codes "BankID"
    ∷ codes "CurrencyCode"
    ∷ codes "Lang"
    ∷ codes "MerchantID"
    ∷ codes "MerchantModuleSessionID"
    ∷ codes "PUN"
    ∷ codes "PaymentDescription"
    ∷ codes "Quantity"
    ∷ codes "TransactionRequestDate"
    ∷ []

unfoldable pub is_hashable_key : Text → Bool
unfolding starts_with
is_hashable_key key =
    if has_text hash_excluded_keys key
    then false
    else starts_with (codes "Response_") key || has_text hashable_aliases key

-- `Object.keys(…).sort()`, with the values.
unfoldable pub insert_parameter : Parameter → List Parameter → List Parameter
unfolding codes_le
insert_parameter p [] = p ∷ []
insert_parameter p (q ∷ params) =
    let rest = insert_parameter p params in
    if codes_le p.key q.key then p ∷ q ∷ params else q ∷ rest

unfoldable pub by_key : List Parameter → List Parameter
unfolding insert_parameter
by_key [] = []
by_key (p ∷ params) = insert_parameter p (by_key params)

abbrev pub values_of : List Parameter → Text
values_of [] = []
values_of (p ∷ params) = p.value ++ values_of params

abbrev pub field_of : Text → List CallbackField → Option Text
field_of key [] = none
field_of key (f ∷ raw) = if same_codes f.key key then f.value else field_of key raw

abbrev pub presented_text : Option Text → Text
presented_text none = []
presented_text (some s) = s

unfoldable pub presented_hash : List CallbackField → Text
unfolding trim lower
presented_hash raw = lower (
    trim (
      presented_text (
        coalesce (field_of (codes "Response_SecureHash") raw) (field_of (codes "SecureHash") raw))))

-- The fields that are signed.
abbrev pub signed_fields : List CallbackField → List Parameter
signed_fields [] = []
signed_fields (f ∷ raw) = elim f.value [
  | none ↦ signed_fields raw
  | some value ↦
      if is_hashable_key f.key
      then record { key = f.key; value = value } ∷ signed_fields raw
      else signed_fields raw
]

abbrev pub max_age_ms : ℕ
max_age_ms = 24 * 60 * 60 * 1000

abbrev pub future_skew_ms : ℕ
future_skew_ms = 5 * 60 * 1000

-- The stamp is the date of the request, if it parses, or else the time of creation.
abbrev pub is_old : ℕ → Option ℕ → Bool
is_old now none = true
is_old now (some stamped) = ltb future_skew_ms (stamped - now) || ltb max_age_ms (now - stamped)

abbrev pub parsed {ℓ} : {A : Type ℓ} → (Text → Option A) → Option Text → Option A
parsed parse none = none
parsed parse (some []) = none
parsed parse (some (c ∷ s)) = parse (c ∷ s)

unfoldable pub is_callback_stale : (Text → Option ℕ) → ℕ → Option Text → Option ℕ → Bool
is_callback_stale parse_request_date now request_date created_at =
    is_old now (coalesce (parsed parse_request_date request_date) created_at)

-- The amount of a callback may be in rials or in their hundredths.
unfoldable pub callback_amount_matches : ℕ → Option ℕ → Bool
callback_amount_matches major none = false
callback_amount_matches major (some response) =
    let minor = (major + 5) / 10 * 1000 in
    not (ltb 10 (response - major) || ltb 10 (major - response))
    || not (ltb 1000 (response - minor) || ltb 1000 (minor - response))

abbrev pub is_alphanumeric : ℕ → Bool
is_alphanumeric c = leb 65 c && leb c 90 || leb 97 c && leb c 122 || leb 48 c && leb c 57

-- The number of an order without other characters; the fallback is the time.
unfoldable pub sanitize_pun : Text → Text → Text
sanitize_pun order_number fallback = take 40 (or_fallback (filter is_alphanumeric order_number))
  where
    or_fallback : Text → Text
    or_fallback [] = fallback
    or_fallback (c ∷ s) = c ∷ s

module _ (digest : Text → Text) where
  unfoldable pub build_secure_hash : List Parameter → Text → Text
  unfolding by_key
  build_secure_hash params secret = digest (
      secret
      ++ values_of
          (by_key (filter (λ (p : Parameter). not (has_text hash_excluded_keys p.key)) params)))

  unfoldable pub verify_callback_signature : List CallbackField → Text → Bool
  unfolding presented_hash is_hashable_key build_secure_hash trim lower
  verify_callback_signature raw secret =
      if is_empty (presented_hash raw) || is_empty (trim secret)
      then false
      else same_codes (lower (build_secure_hash (signed_fields raw) secret)) (presented_hash raw)
