-- ===== src/Prelude/Int.antt =====
-- Signed integers over the native numbers, and their residues modulo 2 ^ 32 and 2 ^ 64.
use Prim.Native.Nat.{ℕ, ◌-◌, ◌%◌, ◌^◌, ◌<◌}
use mathlib.Core.Path.{◌≡◌}
use native.Mathlib.Omega.{arith}
use erigon_risc_v_executable.Prelude.Tests.{ltb, if◌then◌else◌}

-- `negsuc n` is -(n + 1).
pub data ℤ : Type 0 where
  pos : ℕ → ℤ
  negsuc : ℕ → ℤ

-- the two's complement pattern of a number in 32 bits
unfoldable pub to_word : ℤ → ℕ
to_word (pos n) = n % 2 ^ 32
to_word (negsuc n) = 2 ^ 32 - 1 - n % 2 ^ 32

-- `int32(n)` of an unsigned number: the low 32 bits, read as two's complement
unfoldable pub int32 : ℕ → ℤ
int32 n = let w = n % 2 ^ 32 in if ltb w (2 ^ 31) then pos w else negsuc (2 ^ 32 - 1 - w)

-- The pattern that `int32` leaves in a register is the number modulo 2 ^ 32.
pub to_word-int32 : (n : ℕ) → to_word (int32 n) ≡ n % 2 ^ 32
unfolding to_word int32
to_word-int32 n = ground arith

pub to_word-lt : (z : ℤ) → to_word z < 2 ^ 32
unfolding to_word
to_word-lt (pos n) = omega arith
to_word-lt (negsuc n) = omega arith
