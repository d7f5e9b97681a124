-- ===== src/Rtp/Bounds.antt =====
-- Payloads keep to the MTU, and no byte of a unit is lost in the chunks.
use camrtsp.Common.{
  ℕ, zero, suc, ◌+◌, ◌-◌, ◌≡◌, refl, ◌≤◌, ◌<◌, List, [], ◌∷◌, ◌++◌, length, take, drop, All, arith,
  length-take, length-drop, take-append-drop, ap, ◌∙◌, leb, leb→le, Bool-cases, true, false,
  bit_and, bit_or, subst, sym, inl, inr,
}
use camrtsp.Rtp.{chunks_fuel, chunks, fragment, fragments, packetize_h264}

abbrev pub flatten : List (List ℕ) → List ℕ
flatten [] = []
flatten (x ∷ xs) = x ++ flatten xs

-- The chunks joined are the input.
pub flatten-chunks_fuel :
    (fuel size : ℕ) (xs : List ℕ)
    → 1 ≤ size
    → length xs ≤ fuel
    → flatten (chunks_fuel fuel size xs) ≡ xs
unfolding chunks_fuel
flatten-chunks_fuel zero size [] p h = refl
flatten-chunks_fuel zero size (x ∷ xs) p h = absurd (omega arith)
flatten-chunks_fuel (suc fuel) size [] p h = refl
flatten-chunks_fuel (suc fuel) size (x ∷ xs) p h =
    ap (λ r. take size (x ∷ xs) ++ r)
      (flatten-chunks_fuel fuel size (drop size (x ∷ xs)) p
        (omega (arith, length-drop size (x ∷ xs))))
    ∙ take-append-drop size (x ∷ xs)

chunks_fuel_sizes :
    (fuel size : ℕ) (xs : List ℕ) → All (λ c. length c ≤ size) (chunks_fuel fuel size xs)
unfolding chunks_fuel
chunks_fuel_sizes zero size xs = tt
chunks_fuel_sizes (suc fuel) size [] = tt
chunks_fuel_sizes (suc fuel) size (x ∷ xs) =
    (omega (arith, length-take size (x ∷ xs)), chunks_fuel_sizes fuel size (drop size (x ∷ xs)))

chunks_sizes : (size : ℕ) (xs : List ℕ) → All (λ c. length c ≤ size) (chunks size xs)
unfolding chunks
chunks_sizes size xs = chunks_fuel_sizes (length xs) size xs

fragments_sizes :
    (fu nal_type chunk rest i : ℕ) (parts : List (List ℕ))
    → All (λ c. length c ≤ chunk) parts
    → All (λ p. length p ≤ chunk + 2) (fragments fu nal_type chunk rest i parts)
unfolding fragments fragment
fragments_sizes fu nal_type chunk rest i [] h = tt
fragments_sizes fu nal_type chunk rest i (part ∷ parts) h =
    (omega arith, fragments_sizes fu nal_type chunk rest (i + 1) parts h.1)

-- No payload of a NAL unit is longer than the MTU.
pub packetize_bounded :
    (nal : List ℕ) (mtu : ℕ) → All (λ p. length p ≤ mtu) (packetize_h264 nal mtu)
unfolding packetize_h264
packetize_bounded [] mtu = tt
packetize_bounded (header ∷ body) mtu = elim (Bool-cases (leb mtu 2)) [
  | inl small ↦ rw small tt
  | inr wide ↦ elim (Bool-cases (leb (suc (length body)) mtu)) [
    | inl fits ↦ rw (wide, fits) (leb→le _ _ fits, tt)
    | inr long ↦
        let e : mtu ≡ mtu - 2 + 2 = ground arith in
        rw (wide, long)
          (subst
            (λ n.
              All (λ (p : List ℕ). length p ≤ n)
                (fragments (bit_or (bit_and header 0xe0) 28) (bit_and header 0x1f) (mtu - 2)
                  (length body) 0 (chunks (mtu - 2) body)))
            (sym e) (fragments_sizes _ _ (mtu - 2) _ 0 _ (chunks_sizes (mtu - 2) body)))
  ]
]

-- The fragments of a body that is not empty are not none.
fragments-chunks-cons :
    (fu nal_type size rest i b : ℕ) (body : List ℕ)
    → (p : List ℕ) × (ps : List (List ℕ)) × (fragments fu nal_type size rest i
          (chunks size (b ∷ body))
        ≡ p ∷ ps)
unfolding fragments chunks chunks_fuel
fragments-chunks-cons fu nal_type size rest i b body = (_, _, refl)

-- A NAL unit that is not empty has a payload, for an MTU above 2.
pub packetize_h264-cons :
    (header : ℕ) (body : List ℕ) (mtu : ℕ)
    → 2 < mtu
    → (p : List ℕ) × (ps : List (List ℕ)) × (packetize_h264 (header ∷ body) mtu ≡ p ∷ ps)
unfolding packetize_h264
packetize_h264-cons header [] mtu h =
    let wide : leb mtu 2 ≡ false = ground arith in
    let fits : leb 1 mtu ≡ true = ground arith in (header ∷ [], [], rw (wide, fits))
packetize_h264-cons header (b ∷ body) mtu h =
    let wide : leb mtu 2 ≡ false = ground arith in
    elim (Bool-cases (leb (suc (length (b ∷ body))) mtu)) [
      | inl fits ↦ (header ∷ b ∷ body, [], rw (wide, fits))
      | inr long ↦
          let (p, ps, e) =
            fragments-chunks-cons (bit_or (bit_and header 0xe0) 28) (bit_and header 0x1f) (mtu - 2)
              (length (b ∷ body)) 0 b body in
          (p, ps, rw (wide, long) e)
    ]
