-- ===== src/Request/Interleaved.antt =====
-- Interleaved binary frames, which the client may send between its requests.
use camrtsp.Common.{
  ℕ, zero, suc, ◌+◌, ◌/◌, ◌%◌, ◌≤◌, ◌<◌, ◌≡◌, refl, subst, ◌∙◌, List, ◌∷◌, ◌++◌, length,
  length-append, drop, length-drop, drop-length, arith, from_be16, be16,
}
use camrtsp.Request.{
  Taken, Front, text, short, frame, front, at_front, take_loop, take_request, max_request_bytes,
}
use camrtsp.Request.Buffer.{frame-length}

-- Any fuel above the length gives the same answer.
at_front_same :
    (next next' : List ℕ → Taken × List ℕ) (f : Front) (input : List ℕ)
    → front input ≡ f
    → ((tail : List ℕ) → length tail < length input → next tail ≡ next' tail)
    → at_front next f input ≡ at_front next' f input
unfolding at_front
at_front_same next next' text input e ih = refl
at_front_same next next' short input e ih = refl
at_front_same next next' (frame end) input e ih =
    ground (arith, frame-length input end e, length-drop end input, ih (drop end input))

take_loop_fuel :
    (f g : ℕ) (input : List ℕ)
    → length input < f
    → length input < g
    → take_loop f input ≡ take_loop g input
unfolding take_loop
take_loop_fuel zero g input hf hg = absurd (omega arith)
take_loop_fuel (suc f) zero input hf hg = absurd (omega arith)
take_loop_fuel (suc f) (suc g) input hf hg =
    at_front_same (take_loop f) (take_loop g) (front input) input refl
      λ tail lt. take_loop_fuel f g tail (omega arith) (omega arith)

at_front-skip :
    (next : List ℕ → Taken × List ℕ) (end : ℕ) (input tail : List ℕ)
    → end ≤ max_request_bytes
    → end ≤ length input
    → drop end input ≡ tail
    → at_front next (frame end) input ≡ next tail
unfolding at_front
at_front-skip next end input tail small inside e = ground arith

whole : (n : ℕ) → n < 65536 → suc (suc (suc (suc n))) ≡ 4 + from_be16 (n / 256 % 256) (n % 256)
whole n h = omega arith

-- An interleaved frame, as both sides write it: `$`, the channel, the length and the payload.
abbrev pub interleaved : ℕ → List ℕ → List ℕ
interleaved channel payload = b'$' ∷ channel ∷ (be16 (length payload) ++ payload)

-- Binary frames from the client, such as RTCP, are skipped whole: what follows one is read as if it
-- stood alone. The frame is at most 65536 bytes long.
pub take_request-interleaved :
    (channel : ℕ) (payload rest : List ℕ)
    → length payload ≤ 65532
    → take_request (interleaved channel payload ++ rest) ≡ take_request rest
unfolding take_request take_loop front
take_request-interleaved channel payload rest h =
    at_front-skip (take_loop (length (interleaved channel payload ++ rest)))
      (4 + from_be16 (length payload / 256 % 256) (length payload % 256))
      (interleaved channel payload ++ rest) rest (omega arith)
      (omega (arith, length-append payload rest))
      (subst (λ n. drop n (interleaved channel payload ++ rest) ≡ rest)
        (whole (length payload) (omega arith)) (drop-length payload rest))
    ∙ take_loop_fuel (length (interleaved channel payload ++ rest)) (suc (length rest)) rest
        (omega (arith, length-append payload rest)) (omega arith)
