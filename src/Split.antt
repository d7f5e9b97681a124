-- ===== src/Split.antt =====
-- crates/camrtsp-android/src/lib.rs, `split_h264`: the NAL units of an access unit of an encoder.
pub mod Avcc
use camrtsp.Common.{
  ℕ, zero, suc, Bool, true, false, ◌&&◌, ◌||◌, Option, none, some, List, [], ◌∷◌, ◌++◌, length,
  take, drop, ltb, in_range, ◌==◌, bit_and, if◌then◌else◌, from_be32,
}
use camrtsp.Text.{starts_with}

-- `split_h264`. The bytes that are left stand for the index into the payload, and the unit that has
-- begun for its start.
abbrev pub prefix_length : List ℕ → ℕ
prefix_length bytes =
    if starts_with (0 ∷ 0 ∷ 0 ∷ 1 ∷ []) bytes
    then 4
    else if starts_with (0 ∷ 0 ∷ 1 ∷ []) bytes
    then 3
    else 0

-- `while end > start && payload[end - 1] == 0 { end -= 1 }`
unfoldable pub trim_zeros : List ℕ → List ℕ
trim_zeros [] = []
trim_zeros (b ∷ bs) = elim (trim_zeros bs) [
  | [] ↦ if b == 0 then [] else b ∷ []
  | c ∷ cs ↦ b ∷ c ∷ cs
]

-- The unit that has begun, if it is not empty, before the units after it.
abbrev pub push_filled : List ℕ → List (List ℕ) → List (List ℕ)
push_filled [] units = units
push_filled (b ∷ bs) units = (b ∷ bs) ∷ units

unfoldable pub push_unit : Option (List ℕ) → List (List ℕ) → List (List ℕ)
unfolding trim_zeros
push_unit none units = units
push_unit (some unit) units = push_filled (trim_zeros unit) units

abbrev pub extend : ℕ → Option (List ℕ) → Option (List ℕ)
extend b none = none
extend b (some unit) = some (unit ++ b ∷ [])

-- The loop over the start codes. A round takes a byte at least, so the length is fuel enough.
unfoldable pub annex_b : ℕ → List ℕ → Option (List ℕ) → List (List ℕ)
unfolding push_unit
annex_b zero bytes unit = push_unit unit []
annex_b (suc fuel) [] unit = push_unit unit []
annex_b (suc fuel) (b ∷ bs) unit =
    let n = prefix_length (b ∷ bs) in
    let later =
      annex_b fuel (if ltb 0 n then drop n (b ∷ bs) else bs)
        (if ltb 0 n then some [] else extend b unit) in
    if ltb 0 n then push_unit unit later else later

abbrev pub add_unit : List ℕ → Option (List (List ℕ)) → Option (List (List ℕ))
add_unit unit none = none
add_unit unit (some units) = some (unit ∷ units)

-- The loop over the length prefixes; `none` is `return Vec::new()`.
unfoldable pub avcc : ℕ → List ℕ → Option (List (List ℕ))
avcc zero bytes = none
avcc (suc fuel) [] = some []
avcc (suc fuel) (a ∷ b ∷ c ∷ d ∷ rest) =
    let size = from_be32 a b c d in
    let later = avcc fuel (drop size rest) in
    if size == 0 || ltb (length rest) size then none else add_unit (take size rest) later
avcc (suc fuel) bytes = none

-- `first().is_some_and(|b| b & 0x80 == 0 && (1..=23).contains(&(b & 0x1f)))`
abbrev pub is_raw : List ℕ → Bool
is_raw [] = false
is_raw (b ∷ bs) = bit_and b 0x80 == 0 && in_range 1 23 (bit_and b 0x1f)

abbrev pub units_or_none : Option (List (List ℕ)) → List (List ℕ)
units_or_none none = []
units_or_none (some units) = units

unfoldable pub split_h264 : List ℕ → List (List ℕ)
unfolding annex_b avcc starts_with
split_h264 payload =
    if ltb 0 (prefix_length payload)
    then annex_b (length payload) payload none
    else if is_raw payload
    then payload ∷ []
    else units_or_none (avcc (suc (length payload)) payload)
