-- ===== src/Common/Signed.antt =====
-- Signed numbers, and their casts to machine words.
use Prim.Native.Nat.{ℕ, zero, suc, ◌+◌, ◌-◌, ◌*◌, ◌/◌, ◌%◌}
use mathlib.Core.Bool.{Bool, false}
use camrtsp.Common.Tests.{ltb}

-- `negsuc n` is -(n + 1).
pub data ℤ : Type 0 where
  pos : ℕ → ℤ
  negsuc : ℕ → ℤ

abbrev pub is_positive : ℤ → Bool
is_positive (pos n) = ltb 0 n
is_positive (negsuc n) = false

-- `max(0)`
abbrev pub max_zero : ℤ → ℕ
max_zero (pos n) = n
max_zero (negsuc n) = 0

-- `as u32`
abbrev pub as_u32 : ℤ → ℕ
as_u32 (pos n) = n % 4294967296
as_u32 (negsuc n) = 4294967295 - n % 4294967296

-- `* k / d`, which rounds towards zero.
abbrev pub scaled : ℕ → ℕ → ℤ → ℤ
scaled k d (pos n) = pos (n * k / d)
scaled k d (negsuc n) = negated ((n + 1) * k / d)
  where
    negated : ℕ → ℤ
    negated zero = pos 0
    negated (suc m) = negsuc m
