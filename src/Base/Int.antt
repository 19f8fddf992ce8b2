-- ===== src/Base/Int.antt =====
-- Signed integers over the native numbers: the values of the code's `long` and `int64_t`.
use Prim.Native.Nat.{ℕ, suc, ◌-◌, ◌%◌, ◌^◌, ◌<◌}
use mathlib.Core.Path.{◌≡◌}
use native.Mathlib.Omega.{arith}
use da4qi.Base.Tests.{ltb, if◌then◌else◌}

-- `negsuc n` is -(n + 1).
pub data ℤ : Type 0 where
  pos : ℕ → ℤ
  negsuc : ℕ → ℤ

abbrev pub pos_part : ℤ → ℕ
pos_part (pos n) = n
pos_part (negsuc n) = 0

-- The 64-bit two's-complement pattern read as a signed number.
abbrev pub of_word64 : ℕ → ℤ
of_word64 w = if ltb w (2 ^ 63) then pos w else negsuc (2 ^ 64 - w - 1)

-- Negation of a 64-bit pattern.
abbrev pub neg_word64 : ℕ → ℕ
neg_word64 w = (2 ^ 64 - w) % 2 ^ 64

abbrev pub IsInt64 : ℤ → Type 0
IsInt64 (pos n) = n < 2 ^ 63
IsInt64 (negsuc n) = n < 2 ^ 63

pub of_word64-pos : (n : ℕ) → n < 2 ^ 63 → of_word64 n ≡ pos n
of_word64-pos n h = ground arith

pub of_word64-neg : (n : ℕ) → n < 2 ^ 63 → of_word64 (neg_word64 (suc n)) ≡ negsuc n
of_word64-neg n h = ground arith
