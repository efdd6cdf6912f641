-- ===== src/Base/Ints.antt =====
-- The `int32_t` statuses that the libraries return, as signed integers.
use Prim.Native.Nat.{ℕ}
use mathlib.Core.Path.{◌≡◌}
use mathlib.Core.Bool.{Bool, true, false}
use native.Mathlib.Omega.{arith}
use tryspace_comp_radio.Base.Tests.{◌==◌}

-- `negsuc n` is -(n + 1).
pub data ℤ : Type 0 where
  pos : ℕ → ℤ
  negsuc : ℕ → ℤ

-- `a == b`
abbrev pub eq_int : ℤ → ℤ → Bool
eq_int (pos a) (pos b) = a == b
eq_int (negsuc a) (negsuc b) = a == b
eq_int (pos a) (negsuc b) = false
eq_int (negsuc a) (pos b) = false

-- `a < 0`
abbrev pub is_negative : ℤ → Bool
is_negative (pos a) = false
is_negative (negsuc a) = true

-- The value of a status that is not negative.
abbrev pub pos_part : ℤ → ℕ
pos_part (pos n) = n
pos_part (negsuc n) = 0

pub eq_int_refl : (a : ℤ) → eq_int a a ≡ true
eq_int_refl (pos a) = ground arith
eq_int_refl (negsuc a) = ground arith

pub eq_int_sound : (a b : ℤ) → eq_int a b ≡ true → a ≡ b
eq_int_sound (pos a) (pos b) h = ground arith
eq_int_sound (negsuc a) (negsuc b) h = ground arith
eq_int_sound (pos a) (negsuc b) h = ground arith
eq_int_sound (negsuc a) (pos b) h = ground arith
