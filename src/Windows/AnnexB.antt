-- ===== src/Windows/AnnexB.antt =====
-- NAL units behind start codes, and how `split_h264` of Windows reads them.
use camrtsp.Common.{
  ℕ, ◌+◌, ◌-◌, ◌<◌, ◌≡◌, refl, sym, ap, ◌∙◌, ◌==◌, Bool, true, false, ◌||◌, List, [], ◌∷◌, ◌++◌,
  length, length-append, drop, take-length, drop-length, ltb, All, arith, append-nil, drop-drop,
}
use camrtsp.Text.{starts_with}
use camrtsp.Windows.H264.{
  is_start, starts_from, unit_between, end_of, units_at, split_at, avcc, split_h264,
}

-- A start code of four bytes, or of three.
abbrev pub start_code : Bool → List ℕ
start_code true = 0 ∷ 0 ∷ 0 ∷ 1 ∷ []
start_code false = 0 ∷ 0 ∷ 1 ∷ []

-- Each unit behind its start code, and the units alone.
unfoldable pub with_starts : List (Bool × List ℕ) → List ℕ
with_starts [] = []
with_starts ((long, nal) ∷ nals) = start_code long ++ (nal ++ with_starts nals)

abbrev pub units_of : List (Bool × List ℕ) → List (List ℕ)
units_of [] = []
units_of ((long, nal) ∷ nals) = nal ∷ units_of nals

-- Whether a start code stands somewhere in the bytes.
unfoldable pub has_start : List ℕ → Bool
unfolding starts_with
has_start [] = false
has_start (b ∷ bs) = is_start (b ∷ bs) || has_start bs

abbrev pub ends_in_zero : List ℕ → Bool
ends_in_zero [] = false
ends_in_zero (b ∷ []) = b == 0
ends_in_zero (b ∷ c ∷ bs) = ends_in_zero (c ∷ bs)

-- A unit that can stand behind a start code: not empty, without a start code, and without a zero at its
-- end, which would be read as a part of the next start code.
abbrev pub IsUnit : Bool × List ℕ → Type 0
IsUnit (long, nal) = (0 < length nal) × (has_start nal ≡ false) × (ends_in_zero nal ≡ false)

or_false : (a b : Bool) → (a || b) ≡ false → (a ≡ false) × (b ≡ false)
or_false false false e = (refl, refl)
or_false false true e = cc
or_false true b e = cc

tail_end : (b : ℕ) (bs : List ℕ) → ends_in_zero (b ∷ bs) ≡ false → ends_in_zero bs ≡ false
tail_end b [] e = refl
tail_end b (c ∷ bs) e = e

is_start_before_long :
    (b : ℕ) (bs more : List ℕ)
    → is_start (b ∷ bs) ≡ false
    → is_start (b ∷ (bs ++ (0 ∷ 0 ∷ 0 ∷ 1 ∷ more))) ≡ false
unfolding starts_with
is_start_before_long b [] more h = ground arith
is_start_before_long b (c ∷ []) more h = ground arith
is_start_before_long b (c ∷ d ∷ []) more h = ground arith
is_start_before_long b (c ∷ d ∷ e ∷ bs) more h = h

is_start_before_short :
    (b : ℕ) (bs more : List ℕ)
    → is_start (b ∷ bs) ≡ false
    → ends_in_zero (b ∷ bs) ≡ false
    → is_start (b ∷ (bs ++ (0 ∷ 0 ∷ 1 ∷ more))) ≡ false
unfolding starts_with
is_start_before_short b [] more h z = ground arith
is_start_before_short b (c ∷ []) more h z = ground arith
is_start_before_short b (c ∷ d ∷ []) more h z = ground arith
is_start_before_short b (c ∷ d ∷ e ∷ bs) more h z = h

is_start-with_starts :
    (b : ℕ) (bs : List ℕ) (nals : List (Bool × List ℕ))
    → is_start (b ∷ bs) ≡ false
    → ends_in_zero (b ∷ bs) ≡ false
    → is_start (b ∷ (bs ++ with_starts nals)) ≡ false
unfolding with_starts
is_start-with_starts b bs [] h z = rw (append-nil bs) h
is_start-with_starts b bs ((true, nal) ∷ nals) h z =
    is_start_before_long b bs (nal ++ with_starts nals) h
is_start-with_starts b bs ((false, nal) ∷ nals) h z =
    is_start_before_short b bs (nal ++ with_starts nals) h z

starts_from-append :
    (i : ℕ) (nal : List ℕ) (nals : List (Bool × List ℕ))
    → has_start nal ≡ false
    → ends_in_zero nal ≡ false
    → starts_from i (nal ++ with_starts nals) ≡ starts_from (i + length nal) (with_starts nals)
unfolding has_start starts_from
starts_from-append i [] nals h z = ap (λ j. starts_from j (with_starts nals)) (omega arith)
starts_from-append i (b ∷ bs) nals h z =
    let (here, later) = or_false (is_start (b ∷ bs)) (has_start bs) h in
    rw (is_start-with_starts b bs nals here z) (
      starts_from-append (i + 1) bs nals later (tail_end b bs z)
      ∙ ap (λ j. starts_from j (with_starts nals)) (omega arith))

starts_from-long :
    (i : ℕ) (nal : List ℕ) (nals : List (Bool × List ℕ))
    → IsUnit (true, nal)
    → starts_from i (with_starts ((true, nal) ∷ nals))
      ≡ i ∷ (i + 1) ∷ starts_from (i + 4 + length nal) (with_starts nals)
unfolding starts_from with_starts starts_with
starts_from-long i nal nals (_, h, z) =
    ap (λ later. i ∷ (i + 1) ∷ later)
      (ap (λ j. starts_from j (nal ++ with_starts nals)) (omega arith)
        ∙ starts_from-append (i + 4) nal nals h z)

starts_from-short :
    (i : ℕ) (nal : List ℕ) (nals : List (Bool × List ℕ))
    → IsUnit (false, nal)
    → starts_from i (with_starts ((false, nal) ∷ nals))
      ≡ i ∷ starts_from (i + 3 + length nal) (with_starts nals)
unfolding starts_from with_starts starts_with
starts_from-short i nal nals (_, h, z) =
    ap (λ later. i ∷ later)
      (ap (λ j. starts_from j (nal ++ with_starts nals)) (omega arith)
        ∙ starts_from-append (i + 3) nal nals h z)

-- Where the unit behind a start code ends: at the next start code, or at the end of the bytes.
end_of-with_starts :
    (bytes : List ℕ) (i : ℕ) (nals : List (Bool × List ℕ))
    → length bytes ≡ i + length (with_starts nals)
    → end_of bytes (starts_from i (with_starts nals)) ≡ i
unfolding with_starts starts_from
end_of-with_starts bytes i [] e = omega (arith, e)
end_of-with_starts bytes i ((true, nal) ∷ nals) e = unfold starts_with in refl
end_of-with_starts bytes i ((false, nal) ∷ nals) e = unfold starts_with in refl

-- The unit behind a start code of three bytes, and of four.
short_unit :
    (bytes nal rest : List ℕ) (i end : ℕ) (later : List (List ℕ))
    → drop i bytes ≡ 0 ∷ 0 ∷ 1 ∷ (nal ++ rest)
    → 0 < length nal
    → end ≡ i + 3 + length nal
    → unit_between bytes i end later ≡ nal ∷ later
unfolding starts_with
short_unit bytes nal rest i end later e long e' =
    let behind : drop (i + 3) bytes ≡ nal ++ rest = drop-drop i 3 bytes ∙ ap (drop 3) e in
    let not_empty : ltb (i + 3) end ≡ true = ground arith in
    let size : end - (i + 3) ≡ length nal = omega arith in
    rw (e, not_empty, size, behind, take-length nal rest) refl

long_unit :
    (bytes nal rest : List ℕ) (i end : ℕ) (later : List (List ℕ))
    → drop i bytes ≡ 0 ∷ 0 ∷ 0 ∷ 1 ∷ (nal ++ rest)
    → 0 < length nal
    → end ≡ i + 4 + length nal
    → unit_between bytes i (i + 1) (unit_between bytes (i + 1) end later) ≡ nal ∷ later
unfolding starts_with
long_unit bytes nal rest i end later e long e' =
    let empty : ltb (i + 4) (i + 1) ≡ false = ground arith in
    let second : drop (i + 1) bytes ≡ 0 ∷ 0 ∷ 1 ∷ (nal ++ rest) =
      drop-drop i 1 bytes ∙ ap (drop 1) e in
    rw (e, empty) (short_unit bytes nal rest (i + 1) end later second long (omega arith))

-- The bytes behind a unit and its start code.
behind_unit :
    (bytes nal rest : List ℕ) (code : List ℕ) (i : ℕ)
    → drop i bytes ≡ code ++ (nal ++ rest)
    → drop (i + length code + length nal) bytes ≡ rest
behind_unit bytes nal rest code i e =
    drop-drop (i + length code) (length nal) bytes
    ∙ (ap (drop (length nal)) (
          drop-drop i (length code) bytes
          ∙ (ap (drop (length code)) e ∙ drop-length code (nal ++ rest)))
        ∙ drop-length nal rest)

units_at-with_starts :
    (bytes : List ℕ) (i : ℕ) (nals : List (Bool × List ℕ))
    → All IsUnit nals
    → drop i bytes ≡ with_starts nals
    → length bytes ≡ i + length (with_starts nals)
    → units_at bytes (starts_from i (with_starts nals)) ≡ units_of nals
unfolding units_at with_starts
units_at-with_starts bytes i [] h e e' = unfold with_starts starts_from in refl
units_at-with_starts bytes i ((true, nal) ∷ nals) h e e' =
    let i' = i + 4 + length nal in
    let long : length bytes ≡ i' + length (with_starts nals) =
      omega (arith, e', length-append nal (with_starts nals)) in
    let at_next = behind_unit bytes nal (with_starts nals) (start_code true) i e in
    let starts = starts_from i' (with_starts nals) in
    rw (starts_from-long i nal nals h.0) (
      long_unit bytes nal (with_starts nals) i (end_of bytes starts) (units_at bytes starts) e h.0.0
        (end_of-with_starts bytes i' nals long)
      ∙ ap (λ units. nal ∷ units) (units_at-with_starts bytes i' nals h.1 at_next long))
units_at-with_starts bytes i ((false, nal) ∷ nals) h e e' =
    let i' = i + 3 + length nal in
    let long : length bytes ≡ i' + length (with_starts nals) =
      omega (arith, e', length-append nal (with_starts nals)) in
    let at_next = behind_unit bytes nal (with_starts nals) (start_code false) i e in
    let starts = starts_from i' (with_starts nals) in
    rw (starts_from-short i nal nals h.0) (
      short_unit bytes nal (with_starts nals) i (end_of bytes starts) (units_at bytes starts) e
        h.0.0 (end_of-with_starts bytes i' nals long)
      ∙ ap (λ units. nal ∷ units) (units_at-with_starts bytes i' nals h.1 at_next long))

-- Bytes with a start code are split at the start codes.
split_at_starts :
    (bytes : List ℕ) (start : ℕ) (starts : List ℕ)
    → starts_from 0 bytes ≡ start ∷ starts
    → split_at bytes (starts_from 0 bytes) ≡ units_at bytes (starts_from 0 bytes)
split_at_starts bytes start starts e = ap (split_at bytes) e ∙ sym (ap (units_at bytes) e)

-- NAL units behind start codes of three or four bytes, in any mixture, are split as they were, if none
-- is empty, has a start code in it or ends in a zero byte.
pub split_h264-with_starts :
    (nals : List (Bool × List ℕ)) → All IsUnit nals → split_h264 (with_starts nals) ≡ units_of nals
unfolding split_h264
split_h264-with_starts [] h = unfold with_starts starts_from avcc in refl
split_h264-with_starts ((true, nal) ∷ nals) h =
    split_at_starts (with_starts ((true, nal) ∷ nals)) _ _ (starts_from-long 0 nal nals h.0)
    ∙ units_at-with_starts (with_starts ((true, nal) ∷ nals)) 0 ((true, nal) ∷ nals) h refl
        (omega arith)
split_h264-with_starts ((false, nal) ∷ nals) h =
    split_at_starts (with_starts ((false, nal) ∷ nals)) _ _ (starts_from-short 0 nal nals h.0)
    ∙ units_at-with_starts (with_starts ((false, nal) ∷ nals)) 0 ((false, nal) ∷ nals) h refl
        (omega arith)
