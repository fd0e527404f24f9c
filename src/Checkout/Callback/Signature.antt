-- ===== src/Checkout/Callback/Signature.antt =====
-- A signed callback is accepted, and fields that are not signed change nothing.
use bookingqube_nest_backend.Prelude.{some, List, Bool, false, ◌||◌, if◌then◌else◌}
use bookingqube_nest_backend.Prelude.Text.{Text, codes, same_codes, trim, lower}
use bookingqube_nest_backend.Checkout.Recovery.{is_empty}
use bookingqube_nest_backend.Checkout.Callback.{CallbackField, Parameter, build_secure_hash}

-- The field of a parameter that the bank sends back.
abbrev pub sent : Parameter → CallbackField
sent p = record { key = p.key; value = some p.value }

abbrev hash_field : Text → CallbackField
hash_field hash = record { key = codes "Response_SecureHash"; value = some hash }

-- The answer for signed fields and a presented hash.
abbrev answer : (Text → Text) → List Parameter → Text → Text → Bool
answer digest params secret presented =
    if is_empty presented || is_empty (trim secret)
    then false
    else same_codes (lower (build_secure_hash digest params secret)) presented
