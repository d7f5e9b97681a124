-- ===== src/Split/Avcc.antt =====
-- The NAL units of an access unit that MediaCodec gives.
use camrtsp.Common.{
  ℕ, zero, suc, ◌+◌, ◌/◌, ◌%◌, ◌≤◌, ◌<◌, ◌≡◌, refl, false, some, List, [], ◌∷◌, ◌++◌, length,
  length-append, take-length, drop-length, All, arith, be32, u32_round, Bool-cases, ltb, ◌==◌, ◌⊎◌,
  inl, inr,
}
use camrtsp.Text.{starts_with}
use camrtsp.Split.{avcc, split_h264, is_raw, prefix_length}

-- NAL units with a length of four bytes before each.
unfoldable pub with_lengths : List (List ℕ) → List ℕ
with_lengths [] = []
with_lengths (nal ∷ nals) = be32 (length nal) ++ (nal ++ with_lengths nals)

abbrev pub IsShort : List ℕ → Type 0
IsShort nal = (0 < length nal) × (length nal < 4294967296)

avcc-with_lengths :
    (fuel : ℕ) (nals : List (List ℕ))
    → All IsShort nals
    → length (with_lengths nals) < fuel
    → avcc fuel (with_lengths nals) ≡ some nals
unfolding avcc with_lengths
avcc-with_lengths zero nals h f = absurd (omega arith)
avcc-with_lengths (suc fuel) [] h f = refl
avcc-with_lengths (suc fuel) (nal ∷ nals) h f =
    let enough : length nal + length (with_lengths nals) < fuel =
      omega (arith, f, length-append nal (with_lengths nals)) in
    let not_empty : (length nal == 0) ≡ false = ground (arith, h.0.0) in
    let not_longer : ltb (length (nal ++ with_lengths nals)) (length nal) ≡ false =
      ground (arith, length-append nal (with_lengths nals)) in
    rw
      (
        u32_round (length nal) h.0.1,
        not_empty,
        not_longer,
        take-length nal (with_lengths nals),
        drop-length nal (with_lengths nals),
        avcc-with_lengths fuel nals h.1 (omega (arith, enough)),
      )
      refl

-- A length from 2 to 255, or from 512 to 2 ^ 24 - 1: one whose four bytes are no start code.
abbrev pub IsNoStartCode : ℕ → Type 0
IsNoStartCode n = ((1 < n) × (n < 256)) ⊎ ((512 ≤ n) × (n < 16777216))

no_prefix :
    (n : ℕ) (rest : List ℕ)
    → IsNoStartCode n
    → (prefix_length (be32 n ++ rest) ≡ 0) × (is_raw (be32 n ++ rest) ≡ false)
unfolding starts_with
no_prefix n rest (inl h) =
    let a : n / 16777216 % 256 ≡ 0 = omega arith in
    let b : n / 65536 % 256 ≡ 0 = omega arith in
    let c : n / 256 % 256 ≡ 0 = omega arith in
    let d : (n % 256 == 1) ≡ false = ground arith in rw (a, b, c, d) (refl, refl)
no_prefix n rest (inr h) =
    let a : n / 16777216 % 256 ≡ 0 = omega arith in
    elim (Bool-cases (n / 65536 % 256 == 0)) [
      | inl small ↦
          let b : (n / 256 % 256 == 0) ≡ false = ground arith in
          let c : (n / 256 % 256 == 1) ≡ false = ground arith in rw (a, small, b, c) (refl, refl)
      | inr large ↦ rw (a, large) (refl, refl)
    ]

-- The first unit's length, if there is one.
abbrev pub StartsPlain : List (List ℕ) → Type 0
StartsPlain [] = Unit
StartsPlain (nal ∷ nals) = IsNoStartCode (length nal)

-- Units that come with a length of four bytes before each are split as they were: if none is empty,
-- each length fits its bytes, and the first length does not look like a start code.
pub split_h264-with_lengths :
    (nals : List (List ℕ))
    → All IsShort nals
    → StartsPlain nals
    → split_h264 (with_lengths nals) ≡ nals
unfolding split_h264
split_h264-with_lengths [] h p = unfold with_lengths avcc in refl
split_h264-with_lengths (nal ∷ nals) h p =
    let (start, raw) = no_prefix (length nal) (nal ++ with_lengths nals) p in
    let taken =
      avcc-with_lengths (suc (length (with_lengths (nal ∷ nals)))) (nal ∷ nals) h (omega arith) in
    let start' : prefix_length (with_lengths (nal ∷ nals)) ≡ 0 = unfold with_lengths in start in
    let raw' : is_raw (with_lengths (nal ∷ nals)) ≡ false = unfold with_lengths in raw in
    rw (start', raw', taken) refl
