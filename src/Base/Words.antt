-- ===== src/Base/Words.antt =====
-- 32-bit words as native numbers below 2 ^ 32; an `int` is its bit pattern.
use arm_kernel.Base.{ℕ, ◌+◌, ◌-◌, ◌%◌, ◌^◌, Bool, ltb}

abbrev pub u32_mod : ℕ
u32_mod = 2 ^ 32

-- -1 as an `int` or a `uint32_t`.
abbrev pub neg1 : ℕ
neg1 = u32_mod - 1

abbrev pub add32 : ℕ → ℕ → ℕ
add32 a b = (a + b) % u32_mod

abbrev pub sub32 : ℕ → ℕ → ℕ
sub32 a b = (a + u32_mod - b) % u32_mod

-- 0 <= x, for an `int` x.
abbrev pub nonneg : ℕ → Bool
nonneg x = ltb x (2 ^ 31)
