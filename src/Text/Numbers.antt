-- ===== src/Text/Numbers.antt =====
-- `Display` of the unsigned integers, and `{:02x}`.
use camrtsp.Common.{ℕ, zero, suc, ◌+◌, ◌-◌, ◌/◌, ◌%◌, List, [], ◌∷◌, ◌++◌, ltb, if◌then◌else◌}

-- The decimal digits, for a number below 10 ^ fuel.
unfoldable pub show_fuel : ℕ → ℕ → List ℕ
show_fuel zero n = []
show_fuel (suc fuel) n =
    let front = show_fuel fuel (n / 10) in
    if ltb n 10 then (b'0' + n) ∷ [] else front ++ (b'0' + n % 10) ∷ []

-- A `u64` or `usize` has at most twenty digits.
unfoldable pub show : ℕ → List ℕ
unfolding show_fuel
show n = show_fuel 20 n

unfoldable pub hex_digit : ℕ → ℕ
hex_digit d = if ltb d 10 then b'0' + d else b'a' + (d - 10)

unfoldable pub show_hex : ℕ → List ℕ
unfolding hex_digit
show_hex byte = hex_digit (byte / 16) ∷ hex_digit (byte % 16) ∷ []
