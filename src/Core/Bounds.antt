-- ===== src/Core/Bounds.antt =====
-- What a valid configuration promises the encoders.
use camrtsp.Common.{
  ℕ, sym, ◌∙◌, zero, suc, inl, inr, ◌*◌, ◌/◌, ◌≤◌, ◌≡◌, ◌↔◌, arith, min, ok, le-dec,
}
use camrtsp.Core.{
  StreamConfig, BitrateMode, auto, bits_per_second, i32_max, u32_max, clamp, resolve, validate,
}

-- The ranges, as `validate` documents them in its message.
abbrev pub BitrateInRange : BitrateMode → Type 0
BitrateInRange auto = Unit
BitrateInRange (bits_per_second n) = (1 ≤ n) × (n ≤ i32_max)

pub record InRange (c : StreamConfig) : Type 0 where
  pub width : (1 ≤ c.requested_width) × (c.requested_width ≤ 16384)
  pub height : (1 ≤ c.requested_height) × (c.requested_height ≤ 16384)
  pub fps : (1 ≤ c.requested_fps) × (c.requested_fps ≤ 240)
  pub gop : (1 ≤ c.gop_seconds) × (c.gop_seconds ≤ 60)
  pub rate : BitrateInRange c.bitrate

-- `validate` accepts a configuration exactly when each of its fields is in range.
pub validate-InRange : (c : StreamConfig) → (validate c ≡ ok tt) ↔ InRange c
unfolding validate
validate-InRange c = (λ h. ground arith, λ h. ground arith)

-- A validated configuration resolves, at any size and rate that the camera settles on, to a bitrate
-- from 1 to 2147483647, so that the cast to `i32` keeps it.
pub resolve_bounds :
    (c : StreamConfig) (width height fps : ℕ)
    → validate c ≡ ok tt
    → (1 ≤ resolve c.bitrate width height fps) × (resolve c.bitrate width height fps ≤ i32_max)
unfolding validate resolve
resolve_bounds c width height fps h = ground arith

le-mul_suc : (p f : ℕ) → p ≤ p * suc f
le-mul_suc p f = grind arith

clamp-min : (q : ℕ) → clamp 1000000 12000000 (min q u32_max / 10) ≡ clamp 1000000 12000000 (q / 10)
clamp-min q = ground arith

clamp_large : (q : ℕ) → u32_max ≤ q → clamp 1000000 12000000 (q / 10) ≡ 12000000
clamp_large q h = ground arith

-- A product that saturates lies above the largest bitrate, whatever the rate.
saturated :
    (p fps : ℕ)
    → clamp 1000000 12000000 (min (min p u32_max * fps) u32_max / 10)
      ≡ clamp 1000000 12000000 (p * fps / 10)
saturated p zero = ground arith
saturated p (suc f) = elim (le-dec p u32_max) [
  | inl small ↦ let e : min p u32_max ≡ p = omega arith in rw e (clamp-min (p * suc f))
  | inr big ↦
      let e : min p u32_max ≡ u32_max = omega arith in
      rw (e, clamp-min (u32_max * suc f))
        (clamp_large (u32_max * suc f) (le-mul_suc u32_max f)
          ∙ sym (clamp_large (p * suc f) (omega (arith, le-mul_suc p f))))
]

-- The saturating products choose the bitrate that exact products would.
pub resolve_exact :
    (width height fps : ℕ)
    → resolve auto width height fps ≡ clamp 1000000 12000000 (width * height * fps / 10)
unfolding resolve
resolve_exact width height fps = saturated (width * height) fps
