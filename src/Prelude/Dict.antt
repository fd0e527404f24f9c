-- ===== src/Prelude/Dict.antt =====
-- Stores keyed by an identifier, as functions.
use Prim.Native.String.{String}
use mathlib.Core.Path.{◌≡◌}
use mathlib.Core.Logic.{◌≢◌, ite}
use mathlib.Core.Option.{Option, none, some}
use native.Mathlib.Omega.{arith}
use bookingqube_nest_backend.Prelude.Text.{text_dec}

module _ {ℓ} {V : Type ℓ} where
  abbrev pub update : (String → Option V) → String → V → String → Option V
  update f k v j = ite (text_dec k j) (some v) (f j)

  abbrev pub delete : (String → Option V) → String → String → Option V
  delete f k j = ite (text_dec k j) none (f j)

  pub update_ne : (f : String → Option V) {k j : String} (v : V) → k ≢ j → update f k v j ≡ f j
  update_ne f v h = ground arith
