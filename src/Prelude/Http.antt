-- ===== src/Prelude/Http.antt =====
-- The exceptions of NestJS that the services throw, as values.
use Prim.Native.String.{String}
use mathlib.Core.Path.{◌≡◌, refl, ap}
use bookingqube_nest_backend.Prelude.Tests.{if◌then◌else◌}
use mathlib.Core.Bool.{Bool, true, false}

pub data HttpError : Type 0 where
  bad_request unauthorized payment_required forbidden not_found conflict : String → HttpError

pub data Result {ℓ} (A : Type ℓ) : Type ℓ where
  ok : A → Result A
  err : HttpError → Result A

-- `if (bad) throw e;`
abbrev pub throw_if : Bool → HttpError → Result (Unit {0})
throw_if bad e = elim bad [ true ↦ err e | false ↦ ok tt ]

module _ {ℓ κ} {Got : Type ℓ} {Next : Type κ} where
  infixl 5 ◌>>=◌
  -- What follows an `await` that did not throw.
  abbrev pub ◌>>=◌ : Result Got → (Got → Result Next) → Result Next
  (ok got) >>= next = next got
  (err thrown) >>= next = err thrown

-- The parts of a chain that did not throw.
pub bind_parts {ℓ κ} :
    {Got : Type ℓ} {Next : Type κ} (m : Result Got) (f : Got → Result Next) {b : Next}
    → (m >>= f) ≡ ok b
    → (a : Got) × (m ≡ ok a) × (f a ≡ ok b)
bind_parts (ok a) f e = (a, refl, e)
bind_parts (err t) f e = cc

pub ok_inj {ℓ} : {A : Type ℓ} {a b : A} → ok a ≡ ok b → a ≡ b
ok_inj {a = a} e = ap (λ r. elim r [ ok x ↦ x | err _ ↦ a ]) e

-- What follows a test that did not throw.
pub if_err {ℓ} :
    {A : Type ℓ} (bad : Bool) (thrown : HttpError) (m : Result A) {a : A}
    → (if bad then err thrown else m) ≡ ok a
    → m ≡ ok a
if_err true thrown m e = cc
if_err false thrown m e = e

pub if_ok {ℓ} :
    {A : Type ℓ} (bad : Bool) (thrown : HttpError) (m : Result A) {a : A}
    → (if bad then err thrown else m) ≡ ok a
    → (bad ≡ false) × (m ≡ ok a)
if_ok true thrown m e = cc
if_ok false thrown m e = (refl, e)
