-- ===== src/Prelude/Int.antt =====
-- The C type `int`: integers, and the value that a 32-bit pattern stands for.
use Prim.Native.Nat.{ℕ, suc, ◌-◌, ◌*◌, ◌%◌, ◌^◌, ◌<◌}
use mathlib.Core.Path.{◌≡◌}
use native.Mathlib.Omega.{arith}
use cs.Prelude.Tests.{ltb, if◌then◌else◌}

-- `negsuc n` is -(n + 1).
pub data ℤ : Type 0 where
  pos : ℕ → ℤ
  negsuc : ℕ → ℤ

abbrev pub minus_one : ℤ
minus_one = negsuc 0

-- The signed reading of a residue modulo 2 ^ 32.
abbrev pub int_of_bits : ℕ → ℤ
int_of_bits r = if ltb r (2 ^ 31) then pos r else negsuc (2 ^ 32 - 1 - r)

-- The residue modulo 2 ^ 32 of an integer.
abbrev pub bits_of_int : ℤ → ℕ
bits_of_int (pos n) = n % 2 ^ 32
bits_of_int (negsuc n) = 2 ^ 32 - 1 - n % 2 ^ 32

-- The range of `int`.
abbrev pub IsInt : ℤ → Type 0
IsInt (pos n) = n < 2 ^ 31
IsInt (negsuc n) = n < 2 ^ 31

-- `a * b` of two `int`s, the second not negative, wrapped as the machine wraps it.
unfoldable pub mul_int : ℤ → ℕ → ℤ
mul_int (pos a) b = int_of_bits (a * b % 2 ^ 32)
mul_int (negsuc a) b = int_of_bits ((2 ^ 32 - suc a * b % 2 ^ 32) % 2 ^ 32)

pub int_of_bits-bits_of_int : (z : ℤ) → IsInt z → int_of_bits (bits_of_int z) ≡ z
int_of_bits-bits_of_int (pos n) h = ground arith
int_of_bits-bits_of_int (negsuc n) h = ground arith

pub bits_of_int-lt : (z : ℤ) → bits_of_int z < 2 ^ 32
bits_of_int-lt (pos n) = omega arith
bits_of_int-lt (negsuc n) = omega arith

pub mul_int_small : (a b : ℕ) → a * b < 2 ^ 31 → mul_int (pos a) b ≡ pos (a * b)
unfolding mul_int
mul_int_small a b h = ground arith
