-- ===== src/Macos/AvccRecord.antt =====
-- What VideoToolbox writes and the callback of the encoder reads: the length-prefixed units of an
-- access unit, and the `avcC` record of a configuration.
use camrtsp.Common.{
  ℕ, zero, suc, ◌+◌, ◌/◌, ◌%◌, ◌≤◌, ◌<◌, ◌≡◌, refl, true, false, none, some, List, [], ◌∷◌, ◌++◌,
  length, length-append, take-length, drop-length, get_elem?, slice, Bool, ℤ, pos, as_u32, scaled,
  leb, ltb, All, arith, be16, u32_round, u16_round, ap, sym, ◌∙◌, append_assoc,
}
use camrtsp.Sink.{published, configured}
use camrtsp.Split.Avcc.{with_lengths}
use camrtsp.Macos.Encoder.{SampleBuf, codec_config, unit_calls, encoded_frame}
use camrtsp.Macos.Avcc.{byte_at, u16_at, parse_pps, parse_avcc_config, split_fuel, split_avcc}

-- The length fits the four bytes before the unit.
abbrev pub FitsU32 : List ℕ → Type 0
FitsU32 nal = length nal < 4294967296

split_fuel-with_lengths :
    (fuel : ℕ) (nals : List (List ℕ))
    → All FitsU32 nals
    → length (with_lengths nals) ≤ fuel
    → split_fuel fuel (with_lengths nals) ≡ nals
unfolding split_fuel with_lengths
split_fuel-with_lengths zero [] h f = refl
split_fuel-with_lengths (suc fuel) [] h f = refl
split_fuel-with_lengths zero (nal ∷ nals) h f = absurd (omega arith)
split_fuel-with_lengths (suc fuel) (nal ∷ nals) h f =
    let enough : length (with_lengths nals) ≤ fuel =
      omega (arith, f, length-append nal (with_lengths nals)) in
    let not_longer : ltb (length (nal ++ with_lengths nals)) (length nal) ≡ false =
      ground (arith, length-append nal (with_lengths nals)) in
    rw
      (
        u32_round (length nal) h.0,
        not_longer,
        take-length nal (with_lengths nals),
        drop-length nal (with_lengths nals),
        split_fuel-with_lengths fuel nals h.1 enough,
      )
      refl

-- Units with a length of four bytes before each are read back as they were, the empty ones too.
pub split_avcc-with_lengths :
    (nals : List (List ℕ)) → All FitsU32 nals → split_avcc (with_lengths nals) ≡ nals
unfolding split_avcc
split_avcc-with_lengths nals h =
    split_fuel-with_lengths (length (with_lengths nals)) nals h (omega arith)

-- Reading behind a front part, at an index that is known to stand there.
pub get_elem?_at :
    (front back : List ℕ) (i k : ℕ)
    → k ≡ length front + i
    → get_elem? (front ++ back) k ≡ get_elem? back i
get_elem?_at [] back i k e = ap (get_elem? back) (omega arith)
get_elem?_at (x ∷ front) back i zero e = absurd (omega arith)
get_elem?_at (x ∷ front) back i (suc k) e = get_elem?_at front back i k (omega arith)

pub slice_at :
    (bytes front part back : List ℕ) (start size : ℕ)
    → bytes ≡ front ++ (part ++ back)
    → start ≡ length front
    → size ≡ length part
    → slice bytes start size ≡ some part
slice_at bytes front part back start size whole e e' =
    let within : leb (length front + length part) (length (front ++ (part ++ back))) ≡ true =
      ground (arith, length-append front (part ++ back), length-append part back) in
    rw (whole, e, e', within, drop-length front (part ++ back), take-length part back) refl

byte_at_lem : (bytes : List ℕ) (i b : ℕ) → get_elem? bytes i ≡ some b → byte_at bytes i ≡ b
byte_at_lem bytes i b e = ap (λ found. elim found [ none ↦ 0 | some b ↦ b ]) e

u16_at_lem :
    (bytes : List ℕ) (cursor n : ℕ)
    → n < 65536
    → get_elem? bytes cursor ≡ some (n / 256 % 256)
    → get_elem? bytes (cursor + 1) ≡ some (n % 256)
    → u16_at bytes cursor ≡ n
u16_at_lem bytes cursor n h e e' =
    rw (byte_at_lem bytes cursor _ e, byte_at_lem bytes (cursor + 1) _ e') (u16_round n h)

-- A parameter set with a length of two bytes before it.
abbrev pub counted : List ℕ → List ℕ → List ℕ
counted set rest = be16 (length set) ++ (set ++ rest)

-- The record of one sequence and one picture parameter set.
abbrev pub avcc_record : ℕ → ℕ → ℕ → List ℕ → List ℕ → List ℕ → List ℕ
avcc_record profile compatibility level sps pps rest =
    1 ∷ profile ∷ compatibility ∷ level ∷ 0xff ∷ 0xe1 ∷ counted sps (1 ∷ counted pps rest)

-- The record up to its sequence parameter set.
abbrev front_of : ℕ → ℕ → ℕ → List ℕ → List ℕ
front_of p c l sps =
    1 ∷ p ∷ c ∷ l ∷ 0xff ∷ 0xe1 ∷ (length sps / 256 % 256) ∷ (length sps % 256) ∷ sps

-- `parse_pps` and `parse_avcc_config` on any bytes that answer their questions this way.
parse_pps_lem :
    (bytes sps pps : List ℕ) (cursor : ℕ)
    → get_elem? bytes cursor ≡ some 1
    → cursor + 3 ≤ length bytes
    → slice bytes (cursor + 3) (u16_at bytes (cursor + 1)) ≡ some pps
    → parse_pps bytes sps cursor
      ≡ some (record {
        sps = sps;
        pps = pps;
        profile_level_id = byte_at bytes 1 ∷ byte_at bytes 2 ∷ byte_at bytes 3 ∷ [];
      })
unfolding parse_pps
parse_pps_lem bytes sps pps cursor e long e' =
    let long' : ltb (length bytes) (cursor + 1 + 2) ≡ false = ground arith in rw (e, long', e') refl

-- The part of the record behind its sequence parameter set, read at these indices.
module _ (p c l : ℕ) (sps pps rest : List ℕ) where
  abbrev pub whole : List ℕ
  whole = avcc_record p c l sps pps rest

  pub behind_sps :
      (i k : ℕ) → k ≡ 8 + length sps + i → get_elem? whole k ≡ get_elem? (1 ∷ counted pps rest) i
  behind_sps i k e = get_elem?_at (front_of p c l sps) (1 ∷ counted pps rest) i k (omega arith)

  pub slice_sps : slice whole 8 (length sps) ≡ some sps
  slice_sps =
      slice_at whole (1 ∷ p ∷ c ∷ l ∷ 0xff ∷ 0xe1 ∷ be16 (length sps)) sps (1 ∷ counted pps rest) 8
        (length sps) refl refl refl

  pub slice_pps : (start : ℕ) → start ≡ 11 + length sps → slice whole start (length pps) ≡ some pps
  slice_pps start e =
      let middle = 1 ∷ be16 (length pps) in
      let front = front_of p c l sps in
      slice_at whole (front ++ middle) pps rest start (length pps)
        (sym (append_assoc front middle (pps ++ rest))) (omega (arith, length-append front middle))
        refl

  pps_at :
      length pps < 65536
      → parse_pps whole sps (8 + length sps)
        ≡ some (record { sps = sps; pps = pps; profile_level_id = p ∷ c ∷ l ∷ [] })
  pps_at h =
      let size : u16_at whole (8 + length sps + 1) ≡ length pps =
        u16_at_lem whole (8 + length sps + 1) (length pps) h
          (behind_sps 1 (8 + length sps + 1) (omega arith))
          (behind_sps 2 (8 + length sps + 1 + 1) (omega arith)) in
      parse_pps_lem whole sps pps (8 + length sps) (behind_sps 0 (8 + length sps) (omega arith))
        (omega (arith, length-append sps (1 ∷ counted pps rest)))
        (ap (slice whole (8 + length sps + 3)) size ∙ slice_pps (8 + length sps + 3) (omega arith))

parse_avcc_config_lem :
    (bytes sps : List ℕ) (size : ℕ)
    → 8 ≤ length bytes
    → byte_at bytes 0 ≡ 1
    → byte_at bytes 5 ≡ 0xe1
    → u16_at bytes 6 ≡ size
    → slice bytes 8 size ≡ some sps
    → parse_avcc_config bytes ≡ parse_pps bytes sps (8 + size)
unfolding parse_avcc_config
parse_avcc_config_lem bytes sps size long one count e e' =
    let long' : ltb (length bytes) 7 ≡ false = ground arith in
    let long'' : ltb (length bytes) (6 + 2) ≡ false = ground arith in
    rw (long', one, count, long'', e, e') refl

-- A record with one parameter set of each kind is read back: the two sets, and the profile.
pub parse_avcc_config-avcc_record :
    (p c l : ℕ) (sps pps rest : List ℕ)
    → length sps < 65536
    → length pps < 65536
    → parse_avcc_config (avcc_record p c l sps pps rest)
      ≡ some (record { sps = sps; pps = pps; profile_level_id = p ∷ c ∷ l ∷ [] })
parse_avcc_config-avcc_record p c l sps pps rest h h' =
    parse_avcc_config_lem (avcc_record p c l sps pps rest) sps (length sps) (omega arith) refl refl
      (u16_round (length sps) h) (slice_sps p c l sps pps rest)
    ∙ (pps_at p c l sps pps rest h')

-- A sample of the encoder whose description is such a record and whose data is these units.
abbrev pub written_sample :
    Bool → ℕ → ℕ → ℕ → List ℕ → List ℕ → List ℕ → List (List ℕ) → ℤ → ℤ → SampleBuf
written_sample key p c l sps pps rest nals value scale = record {
  is_key_frame = key;
  format_desc = some (some (avcc_record p c l sps pps rest));
  data_buf = some (some (with_lengths nals));
  pts_value = value;
  pts_scale = scale;
}

-- What the callback does with a keyframe that the encoder wrote: it tells the sink the parameter sets
-- of the record, and then hands it the units, at the time in ticks of 90 kHz.
pub encoded_frame-written_sample :
    (duration p c l : ℕ) (sps pps rest nal : List ℕ) (nals : List (List ℕ)) (value : ℤ) (scale : ℕ)
    → length sps < 65536
    → length pps < 65536
    → All FitsU32 (nal ∷ nals)
    → 0 < scale
    → encoded_frame false
        (some duration)
        (some (written_sample true p c l sps pps rest (nal ∷ nals) value (pos scale)))
      ≡ configured (record { sps = sps; pps = pps; profile_level_id = p ∷ c ∷ l ∷ [] })
        ∷ published (record {
          nal_units = nal ∷ nals;
          pts_90khz = as_u32 (scaled 90000 scale value);
          duration_90khz = duration;
          keyframe = true;
        })
        ∷ []
unfolding encoded_frame codec_config unit_calls
encoded_frame-written_sample duration p c l sps pps rest nal nals value scale h h' fit positive =
    let positive' : ltb 0 scale ≡ true = ground arith in
    rw
      (
        parse_avcc_config-avcc_record p c l sps pps rest h h',
        split_avcc-with_lengths (nal ∷ nals) fit,
        positive',
      )
      refl
