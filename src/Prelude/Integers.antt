-- ===== src/Prelude/Integers.antt =====
-- Integers over the native natural numbers.
use Prim.Native.Nat.{ℕ, suc, ◌+◌, ◌-◌}
use mathlib.Core.Path.{◌≡◌, refl, ap}
use mathlib.Core.Bool.{Bool, true, false}
use native.Mathlib.Omega.{arith}
use bookingqube_nest_backend.Prelude.Tests.{ltb, ◌==◌, if◌then◌else◌}

-- `negsuc n` is the number below zero by n + 1.
pub data ℤ : Type 0 where
  pos : ℕ → ℤ
  negsuc : ℕ → ℤ

infixl 20 ◌+ℤ◌
unfoldable pub ◌+ℤ◌ : ℤ → ℤ → ℤ
pos a +ℤ pos b = pos (a + b)
pos a +ℤ negsuc b = if ltb b a then pos (a - suc b) else negsuc (b - a)
negsuc a +ℤ pos b = if ltb a b then pos (b - suc a) else negsuc (a - b)
negsuc a +ℤ negsuc b = negsuc (suc (a + b))

abbrev pub is_negative : ℤ → Bool
is_negative (pos _) = false
is_negative (negsuc _) = true

abbrev pub is_positive : ℤ → Bool
is_positive (pos n) = ltb 0 n
is_positive (negsuc _) = false

abbrev pub lt_int : ℤ → ℤ → Bool
lt_int (pos a) (pos b) = ltb a b
lt_int (pos a) (negsuc b) = false
lt_int (negsuc a) (pos b) = true
lt_int (negsuc a) (negsuc b) = ltb b a

abbrev pub eq_int : ℤ → ℤ → Bool
eq_int (pos a) (pos b) = a == b
eq_int (negsuc a) (negsuc b) = a == b
eq_int _ _ = false

pub add-zero : (a : ℤ) → a +ℤ pos 0 ≡ a
unfolding ◌+ℤ◌
add-zero (pos a) = ground arith
add-zero (negsuc a) = ground arith

pub zero-add : (a : ℤ) → pos 0 +ℤ a ≡ a
unfolding ◌+ℤ◌
zero-add (pos a) = ground arith
zero-add (negsuc a) = ground arith

pub add_comm : (a b : ℤ) → a +ℤ b ≡ b +ℤ a
unfolding ◌+ℤ◌
add_comm (pos a) (pos b) = ground arith
add_comm (pos a) (negsuc b) = refl
add_comm (negsuc a) (pos b) = refl
add_comm (negsuc a) (negsuc b) = ground arith

-- A number that is neither negative nor positive.
pub nothing_left : (a : ℤ) → is_negative a ≡ false → is_positive a ≡ false → a ≡ pos 0
nothing_left (pos n) h k = ap pos (ground (arith, k))
nothing_left (negsuc n) h k = cc
