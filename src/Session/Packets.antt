-- ===== src/Session/Packets.antt =====
-- The packets of an access unit: their payloads, and which of them has the marker.
use camrtsp.Common.{
  ℕ, suc, ◌≡◌, ◌≢◌, refl, sym, ap, ◌∙◌, Bool, true, false, List, [], ◌∷◌, ◌++◌, append-nil, All,
  arith,
}
use camrtsp.Rtp.{packetize_h264}
use camrtsp.Rtp.Bounds.{packetize_h264-cons}
use camrtsp.Rtp.Reassembly.{Receiver, receive_all, packetize_all, IsUnit, receive-packetize_all}
use camrtsp.Session.Media.{rtp_mtu, mark_last, marked_payloads}

-- The payloads without their markers.
unfoldable pub payloads : List (List ℕ × Bool) → List (List ℕ)
payloads [] = []
payloads ((p, m) ∷ rest) = p ∷ payloads rest

payloads-mark_last : (last : Bool) (ps : List (List ℕ)) → payloads (mark_last last ps) ≡ ps
unfolding payloads mark_last
payloads-mark_last last [] = refl
payloads-mark_last last (p ∷ []) = refl
payloads-mark_last last (p ∷ q ∷ ps) = ap (λ l. p ∷ l) (payloads-mark_last last (q ∷ ps))

payloads-append : (xs ys : List (List ℕ × Bool)) → payloads (xs ++ ys) ≡ payloads xs ++ payloads ys
unfolding payloads
payloads-append [] ys = refl
payloads-append ((p, m) ∷ xs) ys = ap (λ l. p ∷ l) (payloads-append xs ys)

payloads-marked_payloads :
    (nals : List (List ℕ)) → payloads (marked_payloads nals) ≡ packetize_all nals 1400
unfolding marked_payloads packetize_all
payloads-marked_payloads [] = unfold payloads in refl
payloads-marked_payloads (nal ∷ []) =
    payloads-mark_last true (packetize_h264 nal rtp_mtu)
    ∙ sym (append-nil (packetize_h264 nal 1400))
payloads-marked_payloads (nal ∷ next ∷ nals) =
    payloads-append (mark_last false (packetize_h264 nal rtp_mtu)) (marked_payloads (next ∷ nals))
    ∙ ap (λ l. l ++ payloads (marked_payloads (next ∷ nals)))
        (payloads-mark_last false (packetize_h264 nal rtp_mtu))
    ∙ ap (λ l. packetize_h264 nal 1400 ++ l) (payloads-marked_payloads (next ∷ nals))

-- The payloads that a session sends for an access unit give a receiver its NAL units, in order, for
-- units that are not empty, whose header is a byte and no fragment's.
pub receive-marked_payloads :
    (r : Receiver) (nals : List (List ℕ))
    → All IsUnit nals
    → (receive_all r (payloads (marked_payloads nals))).units ≡ r.units ++ nals
receive-marked_payloads r nals h =
    ap (λ ps. (receive_all r ps).units) (payloads-marked_payloads nals)
    ∙ receive-packetize_all r nals 1400 h (omega arith)

-- No marker but on the last payload, which has one.
pub data OneMarker : List (List ℕ × Bool) → Type 0 where
  marked : (p : List ℕ) → OneMarker ((p, true) ∷ [])
  unmarked :
      (p : List ℕ) {rest : List (List ℕ × Bool)} → OneMarker rest → OneMarker ((p, false) ∷ rest)

mark_last-OneMarker : (p : List ℕ) (ps : List (List ℕ)) → OneMarker (mark_last true (p ∷ ps))
unfolding mark_last
mark_last-OneMarker p [] = marked p
mark_last-OneMarker p (q ∷ ps) = unmarked p (mark_last-OneMarker q ps)

before-OneMarker :
    (ps : List (List ℕ)) (rest : List (List ℕ × Bool))
    → OneMarker rest
    → OneMarker (mark_last false ps ++ rest)
unfolding mark_last
before-OneMarker [] rest h = h
before-OneMarker (p ∷ []) rest h = unmarked p h
before-OneMarker (p ∷ q ∷ ps) rest h = unmarked p (before-OneMarker (q ∷ ps) rest h)

-- The last NAL unit of a list, which has one.
abbrev pub LastFilled : List (List ℕ) → Type 0
LastFilled [] = ⊥
LastFilled (nal ∷ []) = nal ≢ []
LastFilled (nal ∷ next ∷ nals) = LastFilled (next ∷ nals)

-- The marker ends an access unit: of the payloads of a list of NAL units whose last one is not empty,
-- the last has it and no other.
pub marked_payloads-OneMarker :
    (nals : List (List ℕ)) → LastFilled nals → OneMarker (marked_payloads nals)
unfolding marked_payloads
marked_payloads-OneMarker [] h = absurd h
marked_payloads-OneMarker ([] ∷ []) h = absurd (h refl)
marked_payloads-OneMarker ((header ∷ body) ∷ []) h =
    let (p, ps, e) = packetize_h264-cons header body rtp_mtu (omega arith) in
    rw e (mark_last-OneMarker p ps)
marked_payloads-OneMarker (nal ∷ next ∷ nals) h =
    before-OneMarker (packetize_h264 nal rtp_mtu) (marked_payloads (next ∷ nals))
      (marked_payloads-OneMarker (next ∷ nals) h)

-- The number of payloads with a marker.
pub markers : List (List ℕ × Bool) → ℕ
markers [] = 0
markers ((p, true) ∷ rest) = suc (markers rest)
markers ((p, false) ∷ rest) = markers rest

markers-mark_last :
    (ps : List (List ℕ)) (rest : List (List ℕ × Bool))
    → markers (mark_last false ps ++ rest) ≡ markers rest
unfolding markers mark_last
markers-mark_last [] rest = refl
markers-mark_last (p ∷ []) rest = refl
markers-mark_last (p ∷ q ∷ ps) rest = markers-mark_last (q ∷ ps) rest

-- An access unit whose last NAL unit is empty goes out with no marker at all.
pub empty_unit_takes_marker :
    (nals : List (List ℕ)) → markers (marked_payloads (nals ++ [] ∷ [])) ≡ 0
unfolding marked_payloads
empty_unit_takes_marker [] = unfold mark_last packetize_h264 markers in refl
empty_unit_takes_marker (nal ∷ []) =
    markers-mark_last (packetize_h264 nal rtp_mtu) _ ∙ empty_unit_takes_marker []
empty_unit_takes_marker (nal ∷ next ∷ nals) =
    markers-mark_last (packetize_h264 nal rtp_mtu) (marked_payloads ((next ∷ nals) ++ [] ∷ []))
    ∙ empty_unit_takes_marker (next ∷ nals)
