-- ===== src/Common/Bits.antt =====
-- Bytes and machine words: masks by tables over the 256 bytes, and big-endian words.
use Prim.Native.Nat.{ℕ, zero, suc, ◌+◌, ◌*◌, ◌/◌, ◌%◌, ◌<◌, bit_and, bit_or}
use mathlib.Core.Path.{◌≡◌, refl}
use mathlib.Core.Bool.{Bool, true, ◌&&◌}
use mathlib.Core.List.{List, [], ◌∷◌}
use native.Mathlib.Omega.{arith}
use camrtsp.Common.Tests.{◌==◌, ==_iff}

-- A test that holds of each of the first numbers.
table : (ℕ → Bool) → ℕ → Bool
table test zero = true
table test (suc last) = table test last && test last

table-entry :
    (test : ℕ → Bool) (size entry : ℕ) → entry < size → table test size ≡ true → test entry ≡ true
unfolding table
table-entry test zero entry bound filled = absurd (omega arith)
table-entry test (suc last) entry bound filled = ground (arith, table-entry test last entry)

low_table : table (λ x. bit_and x 0x1f == x % 32) 256 ≡ true
unfolding table
low_table = refl

-- The five bits of a NAL unit's type.
pub nal_bits : (x : ℕ) → x < 256 → bit_and x 0x1f ≡ x % 32
nal_bits x h = (==_iff _ _).0 (table-entry _ 256 x h low_table)

high_table : table (λ x. bit_or (bit_and x 0xe0) 28 == x / 32 * 32 + 28) 256 ≡ true
unfolding table
high_table = refl

-- The FU indicator: the three high bits of the header, and type 28.
pub indicator_bits : (x : ℕ) → x < 256 → bit_or (bit_and x 0xe0) 28 ≡ x / 32 * 32 + 28
indicator_bits x h = (==_iff _ _).0 (table-entry _ 256 x h high_table)

-- `to_be_bytes` of a `u16` and a `u32`.
abbrev pub be16 : ℕ → List ℕ
be16 n = (n / 256 % 256) ∷ (n % 256) ∷ []

abbrev pub be32 : ℕ → List ℕ
be32 n = (n / 16777216 % 256) ∷ (n / 65536 % 256) ∷ (n / 256 % 256) ∷ (n % 256) ∷ []

-- `from_be_bytes` of two and of four bytes.
abbrev pub from_be16 : ℕ → ℕ → ℕ
from_be16 a b = a * 256 + b

abbrev pub from_be32 : ℕ → ℕ → ℕ → ℕ → ℕ
from_be32 a b c d = ((a * 256 + b) * 256 + c) * 256 + d

pub u16_round : (n : ℕ) → n < 65536 → from_be16 (n / 256 % 256) (n % 256) ≡ n
u16_round n h = omega arith

pub u32_round :
    (n : ℕ)
    → n < 4294967296
    → from_be32 (n / 16777216 % 256) (n / 65536 % 256) (n / 256 % 256) (n % 256) ≡ n
u32_round n h = omega arith

start_table : table (λ x. bit_or (bit_or x 0x80) 0 == x + 128) 32 ≡ true
unfolding table
start_table = refl

both_table : table (λ x. bit_or (bit_or x 0x80) 0x40 == x + 192) 32 ≡ true
unfolding table
both_table = refl

middle_table : table (λ x. bit_or (bit_or x 0) 0 == x) 32 ≡ true
unfolding table
middle_table = refl

end_table : table (λ x. bit_or (bit_or x 0) 0x40 == x + 64) 32 ≡ true
unfolding table
end_table = refl

-- Setting the start and the end bit of an FU header over a type below 32.
pub fu_bits :
    (t : ℕ)
    → t < 32
    → (bit_or (bit_or t 0x80) 0 ≡ t + 128)
      × (bit_or (bit_or t 0x80) 0x40 ≡ t + 192)
      × (bit_or (bit_or t 0) 0 ≡ t)
      × (bit_or (bit_or t 0) 0x40 ≡ t + 64)
fu_bits t h = (
  (==_iff _ _).0 (table-entry _ 32 t h start_table),
  (==_iff _ _).0 (table-entry _ 32 t h both_table),
  (==_iff _ _).0 (table-entry _ 32 t h middle_table),
  (==_iff _ _).0 (table-entry _ 32 t h end_table),
)
