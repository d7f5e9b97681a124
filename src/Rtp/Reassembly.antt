-- ===== src/Rtp/Reassembly.antt =====
-- A receiver of RTP payloads after RFC 6184 (single NAL units and FU-A), written on its own, gets
-- back the NAL units that `packetize_h264` was given.
use mathlib.Core.Option
use camrtsp.Common.{
  ℕ, zero, suc, ◌+◌, ◌-◌, ◌*◌, ◌/◌, ◌%◌, ◌≡◌, ◌≢◌, refl, ◌≤◌, ◌<◌, false, Option, none, some, List,
  [], ◌∷◌, ◌++◌, length, take, drop, arith, length-drop, take-append-drop, ap, ◌∙◌, sym,
  append_assoc, append-nil, leb, ◌==◌, if◌then◌else◌, Bool-cases, inl, inr, All, nal_bits,
  indicator_bits, fu_bits, le-dec,
}
use camrtsp.Rtp.{chunks_fuel, chunks, fragment, fragments, packetize_h264}

-- The unit being put together, and the units that are complete.
pub record Receiver : Type 0 where
  pub partial : Option (List ℕ)
  pub units : List (List ℕ)

finish : Option (List ℕ) → List (List ℕ) → Receiver
finish none units = record { partial = none; units = units }
finish (some unit) units = record { partial = none; units = units ++ unit ∷ [] }

fu_part : ℕ → ℕ → List ℕ → Receiver → Option (List ℕ)
fu_part indicator header part r =
    if leb 128 header
    then some ((indicator / 32 * 32 + header % 32) ∷ part)
    else Option.map (λ unit. unit ++ part) r.partial

fu_a : ℕ → ℕ → List ℕ → Receiver → Receiver
unfolding fu_part finish
fu_a indicator header part r =
    if header / 64 % 2 == 1
    then finish (fu_part indicator header part r) r.units
    else record r { partial = fu_part indicator header part r }

pub receive : Receiver → List ℕ → Receiver
unfolding fu_a
receive r (indicator ∷ header ∷ part) =
    if indicator % 32 == 28
    then fu_a indicator header part r
    else record { partial = none; units = r.units ++ (indicator ∷ header ∷ part) ∷ [] }
receive r packet = record { partial = none; units = r.units ++ packet ∷ [] }

unfoldable pub receive_all : Receiver → List (List ℕ) → Receiver
receive_all r [] = r
receive_all r (p ∷ ps) = receive_all (receive r p) ps

pub receive_all-append :
    (r : Receiver) (ps qs : List (List ℕ))
    → receive_all r (ps ++ qs) ≡ receive_all (receive_all r ps) qs
unfolding receive_all
receive_all-append r [] qs = refl
receive_all-append r (p ∷ ps) qs = receive_all-append (receive r p) ps qs

-- One fragment after the first, which is the last or not.
module _ (high t : ℕ) (ht : t < 32) (size rest i : ℕ) (acc part : List ℕ)
    (units : List (List ℕ)) where
  middle_last :
      0 < i
      → rest ≤ (i + 1) * size
      → receive
          (record { partial = some acc; units = units })
          (fragment (high * 32 + 28) t size rest i part)
        ≡ record { partial = none; units = units ++ (acc ++ part) ∷ [] }
  unfolding receive fragment
  middle_last pos h = ground (arith, fu_bits t ht)

  middle_more :
      0 < i
      → (i + 1) * size < rest
      → receive
          (record { partial = some acc; units = units })
          (fragment (high * 32 + 28) t size rest i part)
        ≡ record { partial = some (acc ++ part); units = units }
  unfolding receive fragment
  middle_more pos h = ground (arith, fu_bits t ht)

-- The first fragment of a unit that takes more than one.
first_more :
    (high t : ℕ) (ht : t < 32) (size rest : ℕ) (before : Option (List ℕ)) (part : List ℕ)
    (units : List (List ℕ))
    → size < rest
    → receive
        (record { partial = before; units = units })
        (fragment (high * 32 + 28) t size rest 0 part)
      ≡ record { partial = some ((high * 32 + t) ∷ part); units = units }
unfolding receive fragment
first_more high t ht size rest before part units h = ground (arith, fu_bits t ht)

take_all : (n : ℕ) (xs : List ℕ) → length xs ≤ n → take n xs ≡ xs
take_all zero [] h = refl
take_all zero (x ∷ xs) h = absurd (omega arith)
take_all (suc n) [] h = refl
take_all (suc n) (x ∷ xs) h = ap (λ l. x ∷ l) (take_all n xs (omega arith))

drop_all : (n : ℕ) (xs : List ℕ) → length xs ≤ n → drop n xs ≡ []
drop_all zero [] h = refl
drop_all zero (x ∷ xs) h = absurd (omega arith)
drop_all (suc n) [] h = refl
drop_all (suc n) (x ∷ xs) h = drop_all n xs (omega arith)

chunks_fuel-nil : (fuel size : ℕ) → chunks_fuel fuel size [] ≡ []
unfolding chunks_fuel
chunks_fuel-nil zero size = refl
chunks_fuel-nil (suc fuel) size = refl

-- The fragments from index `i` on, past the first, complete the unit.
module _ (high t : ℕ) (ht : t < 32) (size rest : ℕ) (units : List (List ℕ)) where
  receive_later :
      (fuel i : ℕ) (acc xs : List ℕ)
      → xs ≢ []
      → length xs ≤ fuel
      → 1 ≤ size
      → 0 < i
      → i * size + length xs ≡ rest
      → receive_all
          (record { partial = some acc; units = units })
          (fragments (high * 32 + 28) t size rest i (chunks_fuel fuel size xs))
        ≡ record { partial = none; units = units ++ (acc ++ xs) ∷ [] }
  unfolding receive_all fragments chunks_fuel
  receive_later fuel i acc [] ne h p pos e = absurd (ne refl)
  receive_later zero i acc (x ∷ xs) ne h p pos e = absurd (omega arith)
  receive_later (suc fuel) i acc (x ∷ xs) ne h p pos e = elim (le-dec (length (x ∷ xs)) size) [
    | inl short ↦
        rw (drop_all size (x ∷ xs) short, take_all size (x ∷ xs) short, chunks_fuel-nil)
          (middle_last high t ht size rest i acc (x ∷ xs) units pos (omega arith))
    | inr long ↦
        ap
          (λ r. receive_all r (
            fragments (high * 32 + 28) t size rest (i + 1)
              (chunks_fuel fuel size (drop size (x ∷ xs)))))
          (middle_more high t ht size rest i acc (take size (x ∷ xs)) units pos (omega arith))
        ∙ receive_later fuel (i + 1) (acc ++ take size (x ∷ xs)) (drop size (x ∷ xs))
            (λ z. absurd (omega (arith, ap length z, length-drop size (x ∷ xs))))
            (omega (arith, length-drop size (x ∷ xs))) p (omega arith)
            (omega (arith, length-drop size (x ∷ xs)))
        ∙ ap (λ u. record { partial = none; units = units ++ u ∷ [] })
            (append_assoc acc _ _ ∙ ap (λ l. acc ++ l) (take-append-drop size (x ∷ xs)))
  ]

  -- The first fragment starts a unit, whatever was put together before, and the others complete it.
  receive_fragments :
      (fuel : ℕ) (before : Option (List ℕ)) (xs : List ℕ)
      → size < length xs
      → length xs ≤ fuel
      → 1 ≤ size
      → length xs ≡ rest
      → receive_all
          (record { partial = before; units = units })
          (fragments (high * 32 + 28) t size rest 0 (chunks_fuel fuel size xs))
        ≡ record { partial = none; units = units ++ ((high * 32 + t) ∷ xs) ∷ [] }
  unfolding receive_all fragments chunks_fuel
  receive_fragments fuel before [] long h p e = absurd (omega arith)
  receive_fragments zero before (x ∷ xs) long h p e = absurd (omega arith)
  receive_fragments (suc fuel) before (x ∷ xs) long h p e =
      ap
        (λ r.
          receive_all r
            (fragments (high * 32 + 28) t size rest 1 (chunks_fuel fuel size (drop size (x ∷ xs)))))
        (first_more high t ht size rest before (take size (x ∷ xs)) units (omega arith))
      ∙ receive_later fuel 1 ((high * 32 + t) ∷ take size (x ∷ xs)) (drop size (x ∷ xs))
          (λ z. absurd (omega (arith, ap length z, length-drop size (x ∷ xs))))
          (omega (arith, length-drop size (x ∷ xs))) p (omega arith)
          (omega (arith, length-drop size (x ∷ xs)))
      ∙ ap (λ u. record { partial = none; units = units ++ ((high * 32 + t) ∷ u) ∷ [] })
          (take-append-drop size (x ∷ xs))

receive_single :
    (r : Receiver) (header : ℕ) (body : List ℕ)
    → header % 32 ≢ 28
    → receive r (header ∷ body) ≡ record { partial = none; units = r.units ++ (header ∷ body) ∷ [] }
unfolding receive
receive_single r header [] h = refl
receive_single r header (x ∷ xs) h = ground arith

-- A receiver that reads the payloads of a NAL unit gains exactly that unit, whatever it had put
-- together before: for an MTU above 2 and a header byte whose type is not that of a fragment.
pub receive-packetize :
    (r : Receiver) (header : ℕ) (body : List ℕ) (mtu : ℕ)
    → header < 256
    → header % 32 ≢ 28
    → 2 < mtu
    → receive_all r (packetize_h264 (header ∷ body) mtu)
      ≡ record { partial = none; units = r.units ++ (header ∷ body) ∷ [] }
unfolding packetize_h264 receive_all chunks
receive-packetize r header body mtu hb ht hm = elim (Bool-cases (leb (suc (length body)) mtu)) [
  | inl fits ↦
      let wide : leb mtu 2 ≡ false = ground arith in
      rw (wide, fits) (receive_single r header body ht)
  | inr long ↦
      let wide : leb mtu 2 ≡ false = ground arith in
      rw (wide, long)
        (rw (indicator_bits header hb, nal_bits header hb)
          (receive_fragments (header / 32) (header % 32) (omega arith) (mtu - 2) (length body)
              r.units (length body) r.partial body (ground arith) (omega arith) (omega arith) refl
            ∙ ap (λ (h : ℕ). record { partial = none; units = r.units ++ (h ∷ body) ∷ [] })
                (omega arith)))
]

abbrev pub IsUnit : List ℕ → Type 0
IsUnit [] = ⊥
IsUnit (header ∷ body) = (header < 256) × (header % 32 ≢ 28)

-- The payloads of a list of NAL units, one unit after the other.
unfoldable pub packetize_all : List (List ℕ) → ℕ → List (List ℕ)
packetize_all [] mtu = []
packetize_all (nal ∷ nals) mtu = packetize_h264 nal mtu ++ packetize_all nals mtu

-- The payloads of an access unit give the receiver its NAL units, in their order, for an MTU above 2
-- and units that are not empty, whose header is a byte and no fragment's.
pub receive-packetize_all :
    (r : Receiver) (nals : List (List ℕ)) (mtu : ℕ)
    → All IsUnit nals
    → 2 < mtu
    → (receive_all r (packetize_all nals mtu)).units ≡ r.units ++ nals
unfolding packetize_all receive_all
receive-packetize_all r [] mtu h hm = sym (append-nil r.units)
receive-packetize_all r ([] ∷ nals) mtu h hm = absurd h.0
receive-packetize_all r ((header ∷ body) ∷ nals) mtu h hm =
    ap (λ s. s.units)
      (receive_all-append r (packetize_h264 (header ∷ body) mtu) (packetize_all nals mtu)
        ∙ ap (λ s. receive_all s (packetize_all nals mtu))
            (receive-packetize r header body mtu h.0.0 h.0.1 hm))
    ∙ receive-packetize_all _ nals mtu h.1 hm
    ∙ append_assoc r.units ((header ∷ body) ∷ []) nals
