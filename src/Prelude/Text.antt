-- ===== src/Prelude/Text.antt =====
-- Decided equality of texts, and their order by code points.
use Prim.Native.Char.{code}
use Prim.Native.Nat.{ℕ, ◌+◌, ◌-◌}
use Prim.Native.String.{String}
use text.Mathlib.Text.{◌==◌ as str_eq}
use text.Mathlib.TextEquality.{eq_iff}
use mathlib.Core.Path.{◌≡◌, refl, ap₂}
use mathlib.Core.Logic.{◌↔◌}
use mathlib.Core.Bool.{Bool, true, false, ◌&&◌, ◌||◌}
use mathlib.Core.List.{List, [], ◌∷◌, map, reverse}
use native.Mathlib.Omega.{arith}
use native.Mathlib.Decide.{ℕ_discrete}
use bookingqube_nest_backend.Prelude.Lists.{any}
use bookingqube_nest_backend.Prelude.Tests.{ltb, leb, ◌==◌, if◌then◌else◌}

dec_of_test : (b : Bool) {A : Type 0} → (b ≡ true) ↔ A → Dec A
dec_of_test true h = yes (h.0 refl)
dec_of_test false h = no (λ a. cc (h.1 a))

unfoldable pub text_dec : (s t : String) → Dec (s ≡ t)
unfolding dec_of_test
text_dec s t = dec_of_test (str_eq s t) (eq_iff s t)

abbrev pub same : String → String → Bool
same s t = elim (text_dec s t) [ yes _ ↦ true | no _ ↦ false ]

dec_true : {A : Type 0} (d : Dec A) → A → (elim d [ yes _ ↦ true | no _ ↦ false ]) ≡ true
dec_true (yes _) a = refl
dec_true (no p) a = absurd (p a)

holds_of_true : {A : Type 0} (d : Dec A) → (elim d [ yes _ ↦ true | no _ ↦ false ]) ≡ true → A
holds_of_true (yes a) h = a
holds_of_true (no _) h = cc h

pub same_refl : (s : String) → same s s ≡ true
same_refl s = dec_true (text_dec s s) refl

-- `texts.includes(text)`
abbrev pub includes : List String → String → Bool
includes texts text = any (λ t. same t text) texts

pub same-eq : (s t : String) → same s t ≡ true → s ≡ t
same-eq s t h = holds_of_true (text_dec s t) h

-- The code points of a text.
abbrev pub codes : String → List ℕ
codes String.[] = []
codes (String.◌∷◌ c s) = code c ∷ codes s

-- The lexicographic order of two lists of code points, first not after second.
unfoldable pub codes_le : List ℕ → List ℕ → Bool
codes_le [] _ = true
codes_le (c ∷ s) [] = false
codes_le (c ∷ s) (d ∷ t) = if ltb c d then true else if ltb d c then false else codes_le s t

unfoldable pub text_le : String → String → Bool
unfolding codes_le
text_le s t = codes_le (codes s) (codes t)

codes_le_total : (s t : List ℕ) → codes_le s t ≡ false → codes_le t s ≡ true
unfolding codes_le
codes_le_total [] t h = cc
codes_le_total (c ∷ s) [] h = refl
codes_le_total (c ∷ s) (d ∷ t) h = ground (arith, codes_le_total s t)

-- One of two texts is not after the other.
pub text_le_total : (s t : String) → text_le s t ≡ false → text_le t s ≡ true
unfolding text_le
text_le_total s t h = codes_le_total (codes s) (codes t) h

-- Texts that the program takes apart, as lists of code points.
abbrev pub Text : Type 0
Text = List ℕ

cons_dec : {c d : ℕ} {s t : Text} → Dec (c ≡ d) → Dec (s ≡ t) → Dec (c ∷ s ≡ d ∷ t)
cons_dec (yes p) (yes q) = yes (ap₂ (λ x xs. x ∷ xs) p q)
cons_dec (yes p) (no q) = no (λ e. q (cc))
cons_dec (no p) _ = no (λ e. p (cc))

unfoldable pub codes_dec : (s t : Text) → Dec (s ≡ t)
unfolding cons_dec ℕ_discrete
codes_dec [] [] = yes refl
codes_dec [] (d ∷ t) = no (λ e. cc)
codes_dec (c ∷ s) [] = no (λ e. cc)
codes_dec (c ∷ s) (d ∷ t) = cons_dec (ℕ_discrete c d) (codes_dec s t)

abbrev pub same_codes : Text → Text → Bool
same_codes s t = elim (codes_dec s t) [ yes _ ↦ true | no _ ↦ false ]

pub same_codes_refl : (s : Text) → same_codes s s ≡ true
same_codes_refl s = dec_true (codes_dec s s) refl

pub same_codes-eq : (s t : Text) → same_codes s t ≡ true → s ≡ t
same_codes-eq s t h = holds_of_true (codes_dec s t) h

-- `toLowerCase` of an ASCII letter; other characters are left alone.
unfoldable pub to_lower : ℕ → ℕ
to_lower c = if leb 65 c && leb c 90 then c + 32 else c

unfoldable pub lower : Text → Text
unfolding to_lower
lower s = map to_lower s

-- `toUpperCase`, likewise.
unfoldable pub to_upper : ℕ → ℕ
to_upper c = if leb 97 c && leb c 122 then c - 32 else c

unfoldable pub upper : Text → Text
unfolding to_upper
upper s = map to_upper s

-- The white space of ASCII, which `trim` drops at both ends.
unfoldable pub is_space : ℕ → Bool
is_space c = c == 32 || leb 9 c && leb c 13

unfoldable pub trim_start : Text → Text
unfolding is_space
trim_start [] = []
trim_start (c ∷ s) = if is_space c then trim_start s else c ∷ s

unfoldable pub trim : Text → Text
unfolding trim_start
trim s = reverse (trim_start (reverse (trim_start s)))

-- `trim` of a text that is kept as it is.
unfoldable pub trim_end_string : String → String
unfolding is_space
trim_end_string String.[] = String.[]
trim_end_string (String.◌∷◌ c s) = elim (trim_end_string s) [
  | String.[] ↦ if is_space (code c) then String.[] else String.◌∷◌ c String.[]
  | String.◌∷◌ d t ↦ String.◌∷◌ c (String.◌∷◌ d t)
]

unfoldable pub trim_start_string : String → String
unfolding is_space
trim_start_string String.[] = String.[]
trim_start_string (String.◌∷◌ c s) =
    if is_space (code c) then trim_start_string s else String.◌∷◌ c s

unfoldable pub trim_string : String → String
unfolding trim_end_string trim_start_string
trim_string s = trim_end_string (trim_start_string s)
