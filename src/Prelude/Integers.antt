-- ===== src/Prelude/Integers.antt =====
-- Signed machine integers over the native numbers, under the library's names.
use Prim.Native.Nat.{ℕ, suc, ◌-◌, ◌%◌, ◌^◌}
use mathlib.Core.Bool.{Bool, true, false}
use mboot_core.Prelude.Tests.{ltb}

-- `negsuc n` is -(n + 1).
pub data ℤ : Type 0 where
  pos : ℕ → ℤ
  negsuc : ℕ → ℤ

-- `static_cast` to an unsigned type of `w` bits.
abbrev pub as_unsigned : ℕ → ℤ → ℕ
as_unsigned w (pos n) = n % 2 ^ w
as_unsigned w (negsuc n) = 2 ^ w - suc (n % 2 ^ w)

-- An integer as a number, and 0 if it is negative.
abbrev pub pos_part : ℤ → ℕ
pos_part (pos n) = n
pos_part (negsuc n) = 0

abbrev pub ltz : ℤ → ℤ → Bool
ltz (pos m) (pos n) = ltb m n
ltz (pos m) (negsuc n) = false
ltz (negsuc m) (pos n) = true
ltz (negsuc m) (negsuc n) = ltb n m
