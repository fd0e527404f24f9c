-- ===== src/Checkout/Settlement.antt =====
-- src/modules/checkout/payment-verification.ts: whether what a gateway reports fits an order. The
-- digest of a text in hexadecimal is a parameter. Amounts are thousandths. The texts of errors leave
-- out the name of what reported an amount.
pub mod Tokens
pub mod Amounts
use bookingqube_nest_backend.Prelude.{
  ℕ, zero, suc, ◌-◌, String, Option, none, some, List, [], ◌∷◌, ◌++◌, map, filter, any, all, take,
  length, Bool, true, false, not, ◌&&◌, ◌||◌, leb, ltb, ◌==◌, if◌then◌else◌,
}
use bookingqube_nest_backend.Prelude.Text.{Text, codes, same_codes, trim, lower, upper}
use bookingqube_nest_backend.Prelude.Http.{Result, ok, err, HttpError, payment_required}
use bookingqube_nest_backend.Checkout.Recovery.{is_empty, or_text, differs}

abbrev pub payment_not_verified : String → HttpError
payment_not_verified message = payment_required message

-- A currency that is missing is the expected one.
unfoldable pub currencies_match : Text → Option Text → Bool
unfolding trim upper
currencies_match expected actual =
    let left = upper (trim (or_text expected (codes "QAR"))) in
    same_codes left (upper (trim (or_text (given actual) left)))
  where
    given : Option Text → Text
    given none = []
    given (some currency) = currency

-- `Math.abs(expected - actual) <= PAYMENT_AMOUNT_TOLERANCE`
abbrev pub amounts_match : ℕ → Option ℕ → Bool
amounts_match expected none = false
amounts_match expected (some actual) = not (differs expected actual)

unfoldable pub assert_amount_and_currency_match :
    ℕ → Text → Option ℕ → Option Text → Result (Unit {0})
unfolding currencies_match
assert_amount_and_currency_match expected_amount expected_currency actual_amount actual_currency =
    if not (amounts_match expected_amount actual_amount)
    then err (payment_not_verified "Paid amount does not match the order total.")
    else if not (currencies_match expected_currency actual_currency)
    then err (payment_not_verified "Paid currency does not match the order currency.")
    else ok tt

unfoldable pub normalize_bind_token : Text → Text
unfolding trim lower
normalize_bind_token value = lower (trim value)

-- `/^[A-Za-z0-9_-]{1,36}$/`
abbrev pub is_word_or_dash : ℕ → Bool
is_word_or_dash c =
    leb 65 c && leb c 90 || leb 97 c && leb c 122 || leb 48 c && leb c 57 || c == 95 || c == 45

abbrev pub is_identifier : Text → Bool
is_identifier s = all is_word_or_dash s && leb 1 (length s) && leb (length s) 36

abbrev pub non_empty : Text → List Text
non_empty [] = []
non_empty (c ∷ s) = (c ∷ s) ∷ []

abbrev pub has_text : List Text → Text → Bool
has_text texts t = any (λ s. same_codes s t) texts

-- `[...new Set(texts)]`
unfoldable pub unique_texts : List Text → List Text
unique_texts [] = []
unique_texts (t ∷ texts) = t ∷ filter (λ s. not (same_codes s t)) (unique_texts texts)

module _ (digest : Text → Text) where
  unfoldable pub normalize_external_identifier : Text → Text
  unfolding trim
  normalize_external_identifier raw =
      if is_identifier (trim raw) then trim raw else codes "BQ" ++ take 24 (digest (trim raw))

  abbrev pub with_identifiers : List Text → List Text
  with_identifiers [] = []
  with_identifiers (v ∷ values) = v ∷ normalize_external_identifier v ∷ with_identifiers values

  unfoldable pub checkout_refs_for_key : Text → List Text
  unfolding trim normalize_external_identifier unique_texts
  checkout_refs_for_key idempotency_key =
      let key = trim idempotency_key in
      if is_empty key
      then []
      else unique_texts (
          with_identifiers (
            key
            ∷ (key ++ codes "_googlepay")
            ∷ (key ++ codes "_applepay")
            ∷ (key ++ codes "_card")
            ∷ []))

  abbrev pub bind_tokens : List Text → List Text
  bind_tokens [] = []
  bind_tokens (v ∷ values) =
      normalize_bind_token v
      ∷ normalize_bind_token (normalize_external_identifier v)
      ∷ bind_tokens values

  pub record BindInput : Type 0 where
    pub common_order : Text
    pub idempotency_key : Text
    pub hosted_sid : Text
    pub hosted_checkout_ref : Text
    pub hosted_invoice_id : Text

  unfoldable pub expected_bind_tokens : BindInput → List Text
  unfolding trim normalize_bind_token normalize_external_identifier checkout_refs_for_key
      unique_texts
  expected_bind_tokens input =
      filter (λ t. not (is_empty t))
        (unique_texts (
          bind_tokens (
            non_empty (trim input.common_order)
            ++ non_empty (trim input.idempotency_key)
            ++ non_empty (trim input.hosted_sid)
            ++ non_empty (trim input.hosted_checkout_ref)
            ++ non_empty (trim input.hosted_invoice_id)
            ++ checkout_refs_for_key input.idempotency_key)))

unfoldable pub settlement_matches_order : List Text → List Text → Bool
unfolding normalize_bind_token
settlement_matches_order presented expected =
    any (has_text (filter (λ t. not (is_empty t)) (map normalize_bind_token expected)))
      (filter (λ t. not (is_empty t)) (map normalize_bind_token presented))
