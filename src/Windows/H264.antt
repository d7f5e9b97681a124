-- ===== src/Windows/H264.antt =====
-- `split_h264`, the codec configurations and `hns_to_90khz`. An index into the bytes is a number.
use camrtsp.Common.{
  ℕ, zero, suc, ◌+◌, ◌-◌, ◌*◌, ◌/◌, ◌%◌, Bool, ◌||◌, not, Option, none, some, List, [], ◌∷◌, length,
  take, drop, min, get_elem?, slice, and_then, ltb, ◌==◌, bit_and, if◌then◌else◌, from_be16,
  from_be32, ℤ, max_zero,
}
use camrtsp.Core.{CodecConfig}
use camrtsp.Text.{starts_with}
use camrtsp.Broadcaster.{has_type}

-- Whether a start code stands at the front, of three bytes or of four.
abbrev pub is_start : List ℕ → Bool
is_start bytes = starts_with (0 ∷ 0 ∷ 1 ∷ []) bytes || starts_with (0 ∷ 0 ∷ 0 ∷ 1 ∷ []) bytes

-- The indices of the start codes, for bytes that stand at `index`.
unfoldable pub starts_from : ℕ → List ℕ → List ℕ
unfolding starts_with
starts_from index [] = []
starts_from index (b ∷ bs) =
    let later = starts_from (index + 1) bs in if is_start (b ∷ bs) then index ∷ later else later

-- The unit from a start to an end, if it is not empty.
abbrev pub unit_between : List ℕ → ℕ → ℕ → List (List ℕ) → List (List ℕ)
unit_between bytes start end later =
    let first = start + (if starts_with (0 ∷ 0 ∷ 0 ∷ 1 ∷ []) (drop start bytes) then 4 else 3) in
    if ltb first end then take (end - first) (drop first bytes) ∷ later else later

-- `starts.get(index + 1).copied().unwrap_or(bytes.len())`
abbrev pub end_of : List ℕ → List ℕ → ℕ
end_of bytes [] = length bytes
end_of bytes (next ∷ rest) = next

unfoldable pub units_at : List ℕ → List ℕ → List (List ℕ)
unfolding starts_with
units_at bytes [] = []
units_at bytes (start ∷ starts) =
    let later = units_at bytes starts in unit_between bytes start (end_of bytes starts) later

abbrev pub add_unit : List ℕ → Option (List (List ℕ)) → Option (List (List ℕ))
add_unit unit none = none
add_unit unit (some units) = some (unit ∷ units)

-- The loop over the length prefixes, while four bytes are left; none is `return Vec::new()`. Each round
-- takes four bytes at least, so their number is fuel enough.
unfoldable pub avcc : ℕ → List ℕ → Option (List (List ℕ))
avcc zero bytes = some []
avcc (suc fuel) (a ∷ b ∷ c ∷ d ∷ rest) =
    let size = from_be32 a b c d in
    let later = avcc fuel (drop size rest) in
    if ltb (length rest) size then none else add_unit (take size rest) later
avcc (suc fuel) bytes = some []

abbrev pub units_or_none : Option (List (List ℕ)) → List (List ℕ)
units_or_none none = []
units_or_none (some units) = units

abbrev pub split_at : List ℕ → List ℕ → List (List ℕ)
split_at bytes [] = units_or_none (avcc (length bytes) bytes)
split_at bytes (start ∷ starts) = units_at bytes (start ∷ starts)

unfoldable pub split_h264 : List ℕ → List (List ℕ)
unfolding starts_from units_at avcc
split_h264 bytes = split_at bytes (starts_from 0 bytes)

-- `units.iter().find(|nal| …)`
unfoldable pub find_type : ℕ → List (List ℕ) → Option (List ℕ)
find_type t [] = none
find_type t (nal ∷ nals) = if has_type t nal then some nal else find_type t nals

-- `[*sps.get(1)?, *sps.get(2)?, *sps.get(3)?]`, and the configuration
abbrev pub config_of : List ℕ → List ℕ → Option CodecConfig
config_of (h ∷ p ∷ c ∷ l ∷ more) pps =
    some (record { sps = h ∷ p ∷ c ∷ l ∷ more; pps = pps; profile_level_id = p ∷ c ∷ l ∷ [] })
config_of sps pps = none

unfoldable pub codec_config_from_nal_units : List (List ℕ) → Option CodecConfig
unfolding find_type
codec_config_from_nal_units units =
    and_then (find_type 7 units) λ sps. and_then (find_type 8 units) λ pps. config_of sps pps

unfoldable pub codec_config_from_annex_b : List ℕ → Option CodecConfig
unfolding codec_config_from_nal_units split_h264
codec_config_from_annex_b bytes = codec_config_from_nal_units (split_h264 bytes)

-- `if unit.first().is_some_and(…) { sps = Some(unit) }`
abbrev pub keep_type : ℕ → List ℕ → Option (List ℕ) → Option (List ℕ)
keep_type t unit kept = if has_type t unit then some unit else kept

-- The rounds of `for _ in 0..count` over the sets with a length of two bytes before each: the offset
-- behind them, and the last set of the type.
unfoldable pub sets : ℕ → ℕ → List ℕ → ℕ → Option (List ℕ) → Option (ℕ × Option (List ℕ))
sets t zero bytes offset kept = some (offset, kept)
sets t (suc count) bytes offset kept = and_then (get_elem? bytes offset) λ high.
    and_then (get_elem? bytes (offset + 1)) λ low.
      and_then (slice bytes (offset + 2) (from_be16 high low))
        λ unit. sets t count bytes (offset + 2 + from_be16 high low) (keep_type t unit kept)

abbrev pub both_sets : Option (List ℕ) → Option (List ℕ) → Option CodecConfig
both_sets (some sps) (some pps) = config_of sps pps
both_sets _ _ = none

unfoldable pub codec_config_from_avcc : List ℕ → Option CodecConfig
unfolding sets
codec_config_from_avcc bytes =
    if ltb (length bytes) 7
    then none
    else and_then (get_elem? bytes 0) λ version. and_then (get_elem? bytes 5) λ sps_count.
      if not (version == 1)
      then none
      else and_then (sets 7 (bit_and sps_count 0x1f) bytes 6 none) λ at_pps.
        and_then (get_elem? bytes at_pps.0) λ pps_count.
          and_then (sets 8 pps_count bytes (at_pps.0 + 1) none)
            λ behind. both_sets at_pps.1 behind.1

abbrev pub or_else {ℓ} : {A : Type ℓ} → Option A → Option A → Option A
or_else (some a) other = some a
or_else none other = other

unfoldable pub codec_config_from_sequence_header : List ℕ → Option CodecConfig
unfolding codec_config_from_annex_b codec_config_from_avcc
codec_config_from_sequence_header bytes =
    or_else (codec_config_from_annex_b bytes) (codec_config_from_avcc bytes)

-- A time in units of 100 ns; the product saturates at the greatest `u64`.
unfoldable pub hns_to_90khz : ℤ → ℕ
hns_to_90khz value = min (max_zero value * 9) 18446744073709551615 / 1000 % 4294967296
