-- ===== src/Text/Utf8.antt =====
-- `str::from_utf8`, `String::as_bytes` and `str::len`.
use camrtsp.Common.{
  ℕ, zero, suc, ◌+◌, ◌-◌, ◌*◌, ◌/◌, ◌%◌, ◌<◌, ◌≡◌, refl, ap, true, Option, none, some, List, [],
  ◌∷◌, ◌++◌, ltb, ◌==◌, in_range, if◌then◌else◌, All, arith,
}

abbrev onto : ℕ → Option (List ℕ) → Option (List ℕ)
onto c none = none
onto c (some cs) = some (c ∷ cs)

-- Where the decoder stands: between characters, or with `n + 1` continuation bytes to come, the bits
-- read so far, and the range of the next byte, which rules out overlong forms and surrogates.
pub data Pending : Type 0 where
  between : Pending
  expect : ℕ → ℕ → ℕ → ℕ → Pending

-- What one byte does: it ends a character, it is followed by others, or it is wrong.
pub data Step : Type 0 where
  emit : ℕ → Step
  more : Pending → Step
  bad : Step

lead : ℕ → Step
lead b =
    if ltb b 0x80
    then emit b
    else if in_range 0xc2 0xdf b
    then more (expect 0 (b - 0xc0) 0x80 0xbf)
    else if b == 0xe0
    then more (expect 1 0 0xa0 0xbf)
    else if b == 0xed
    then more (expect 1 0xd 0x80 0x9f)
    else if in_range 0xe1 0xef b
    then more (expect 1 (b - 0xe0) 0x80 0xbf)
    else if b == 0xf0
    then more (expect 2 0 0x90 0xbf)
    else if in_range 0xf1 0xf3 b
    then more (expect 2 (b - 0xf0) 0x80 0xbf)
    else if b == 0xf4
    then more (expect 2 4 0x80 0x8f)
    else bad

follow : ℕ → ℕ → ℕ → Step
follow zero bits b = emit (bits * 64 + (b - 0x80))
follow (suc n) bits b = more (expect n (bits * 64 + (b - 0x80)) 0x80 0xbf)

step : Pending → ℕ → Step
unfolding lead follow
step between b = lead b
step (expect n bits lo hi) b = if in_range lo hi b then follow n bits b else bad

decode : Pending → List ℕ → Option (List ℕ)
unfolding step
decode between [] = some []
decode (expect n bits lo hi) [] = none
decode p (b ∷ bs) = elim (step p b) [
  | emit c ↦ onto c (decode between bs)
  | more q ↦ decode q bs
  | bad ↦ none
]

unfoldable pub from_utf8 : List ℕ → Option (List ℕ)
unfolding decode
from_utf8 bytes = decode between bytes

unfoldable pub encode_char : ℕ → List ℕ
encode_char c =
    if ltb c 0x80
    then c ∷ []
    else if ltb c 0x800
    then (0xc0 + c / 64) ∷ (0x80 + c % 64) ∷ []
    else if ltb c 0x10000
    then (0xe0 + c / 4096) ∷ (0x80 + c / 64 % 64) ∷ (0x80 + c % 64) ∷ []
    else (0xf0 + c / 262144) ∷ (0x80 + c / 4096 % 64) ∷ (0x80 + c / 64 % 64) ∷ (0x80 + c % 64) ∷ []

unfoldable pub as_bytes : List ℕ → List ℕ
unfolding encode_char
as_bytes [] = []
as_bytes (c ∷ cs) = encode_char c ++ as_bytes cs

abbrev pub IsAscii : List ℕ → Type 0
IsAscii = All (λ b. b < 0x80)

-- An ASCII text is its own encoding, and its own decoding.
pub from_utf8_ascii : (s : List ℕ) → IsAscii s → from_utf8 s ≡ some s
unfolding from_utf8
from_utf8_ascii [] h = refl
from_utf8_ascii (c ∷ cs) h = ground (arith, from_utf8_ascii cs h.1)

pub as_bytes_ascii : (s : List ℕ) → IsAscii s → as_bytes s ≡ s
unfolding as_bytes
as_bytes_ascii [] h = refl
as_bytes_ascii (c ∷ cs) h =
    let e : ltb c 0x80 ≡ true = ground arith in rw e (ap (λ l. c ∷ l) (as_bytes_ascii cs h.1))
