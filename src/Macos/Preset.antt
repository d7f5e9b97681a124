-- ===== src/Macos/Preset.antt =====
-- The resolution that `choose_preset` gives.
use mathlib.Core.List.{Memᴰ}
use camrtsp.Common.{ℕ, ◌≤◌, ◌≡◌, Bool, true, All-Memᴰ, filter-All, filter-Memᴰ, arith, min_by-Memᴰ}
use camrtsp.Macos.Devices.{candidates, supported, distance, is_nearer, choose_preset}

-- Where the camera supports a candidate, the chosen resolution is one that it supports, and is at
-- least as near to the requested one as that candidate.
pub choose_preset_nearest :
    (supports : ℕ × ℕ → Bool) (width height : ℕ) (size : ℕ × ℕ)
    → Memᴰ size candidates
    → supports size ≡ true
    → (supports (choose_preset supports width height) ≡ true)
      × (distance width height (choose_preset supports width height) ≤ distance width height size)
unfolding choose_preset supported
choose_preset_nearest supports width height size member t =
    let (chosen, found, member', not_nearer) =
      min_by-Memᴰ (is_nearer width height) (λ x y z. ground arith) (λ x y. ground arith) size
        (supported supports) (filter-Memᴰ supports size candidates member t) in
    let good =
      All-Memᴰ (λ size. supports size ≡ true) chosen (supported supports)
        (filter-All supports candidates) member' in
    rw found (good, ground arith)
