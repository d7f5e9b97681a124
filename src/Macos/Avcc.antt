-- ===== src/Macos/Avcc.antt =====
-- `parse_avcc_config` and `split_avcc`. A cursor into the data is a number, and `data[i]` is read
-- only behind a test of the length.
use camrtsp.Common.{
  ℕ, zero, suc, ◌+◌, ◌||◌, not, Option, none, some, List, [], ◌∷◌, length, take, drop, get_elem?,
  slice, and_then, ltb, ◌==◌, bit_and, if◌then◌else◌, from_be16, from_be32,
}
use camrtsp.Core.{CodecConfig}

-- `data[i]`
abbrev pub byte_at : List ℕ → ℕ → ℕ
byte_at data_bytes i = elim (get_elem? data_bytes i) [ none ↦ 0 | some b ↦ b ]

-- `u16::from_be_bytes([data[cursor], data[cursor + 1]])`
abbrev pub u16_at : List ℕ → ℕ → ℕ
u16_at bytes cursor = from_be16 (byte_at bytes cursor) (byte_at bytes (cursor + 1))

-- From the count of the picture parameter sets on, at `cursor`.
unfoldable pub parse_pps : List ℕ → List ℕ → ℕ → Option CodecConfig
parse_pps bytes sps cursor = and_then (get_elem? bytes cursor) λ pps_count.
    if pps_count == 0 || ltb (length bytes) (cursor + 1 + 2)
    then none
    else and_then (slice bytes (cursor + 3) (u16_at bytes (cursor + 1))) λ pps. some (record {
      sps = sps;
      pps = pps;
      profile_level_id = byte_at bytes 1 ∷ byte_at bytes 2 ∷ byte_at bytes 3 ∷ [];
    })

unfoldable pub parse_avcc_config : List ℕ → Option CodecConfig
unfolding parse_pps
parse_avcc_config bytes =
    if ltb (length bytes) 7 || not (byte_at bytes 0 == 1)
    then none
    else if bit_and (byte_at bytes 5) 0x1f == 0 || ltb (length bytes) (6 + 2)
    then none
    else and_then (slice bytes 8 (u16_at bytes 6)) λ sps. parse_pps bytes sps (8 + u16_at bytes 6)

-- The loop of `split_avcc`, on the bytes from the cursor on. A round takes four bytes at least, so
-- their number is fuel enough.
unfoldable pub split_fuel : ℕ → List ℕ → List (List ℕ)
split_fuel zero bytes = []
split_fuel (suc fuel) (a ∷ b ∷ c ∷ d ∷ rest) =
    let size = from_be32 a b c d in
    let later = split_fuel fuel (drop size rest) in
    if ltb (length rest) size then [] else take size rest ∷ later
split_fuel (suc fuel) bytes = []

unfoldable pub split_avcc : List ℕ → List (List ℕ)
unfolding split_fuel
split_avcc bytes = split_fuel (length bytes) bytes
