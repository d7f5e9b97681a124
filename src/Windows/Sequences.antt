-- ===== src/Windows/Sequences.antt =====
-- The two readers of an `avcC` record agree: the one of Windows and the one of macOS.
use camrtsp.Common.{
  ℕ, ◌+◌, ◌/◌, ◌%◌, ◌<◌, ◌≡◌, refl, sym, ◌∙◌, true, false, none, some, List, ◌∷◌, length, get_elem?,
  slice, ltb, arith, u16_round,
}
use camrtsp.Broadcaster.{has_type}
use camrtsp.Macos.Avcc.{parse_avcc_config}
use camrtsp.Macos.AvccRecord.{
  avcc_record, behind_sps, slice_sps, slice_pps, parse_avcc_config-avcc_record,
}
use camrtsp.Windows.H264.{config_of, sets, codec_config_from_avcc}

-- One set of the type, with its length before it.
sets_one :
    (t : ℕ) (bytes set : List ℕ) (offset : ℕ)
    → length set < 65536
    → get_elem? bytes offset ≡ some (length set / 256 % 256)
    → get_elem? bytes (offset + 1) ≡ some (length set % 256)
    → slice bytes (offset + 2) (length set) ≡ some set
    → has_type t set ≡ true
    → sets t 1 bytes offset none ≡ some (offset + 2 + length set, some set)
unfolding sets
sets_one t bytes set offset h high low cut typed =
    rw (high, low, u16_round (length set) h, cut, typed) refl

codec_config_from_avcc_lem :
    (bytes sps pps : List ℕ) (at_pps behind : ℕ)
    → ltb (length bytes) 7 ≡ false
    → get_elem? bytes 0 ≡ some 1
    → get_elem? bytes 5 ≡ some 0xe1
    → sets 7 1 bytes 6 none ≡ some (at_pps, some sps)
    → get_elem? bytes at_pps ≡ some 1
    → sets 8 1 bytes (at_pps + 1) none ≡ some (behind, some pps)
    → codec_config_from_avcc bytes ≡ config_of sps pps
unfolding codec_config_from_avcc
codec_config_from_avcc_lem bytes sps pps at_pps behind long one count first one' second =
    rw (long, one, count, first, one', second) refl

-- On a record with one sequence parameter set, of type 7 and at least four bytes, and one picture
-- parameter set, of type 8, whose profile is the one of the sequence parameter set, the reader of
-- Windows and the reader of macOS find the same configuration.
pub codec_config_from_avcc_agrees :
    (h p c l : ℕ) (more pps rest : List ℕ)
    → length (h ∷ p ∷ c ∷ l ∷ more) < 65536
    → length pps < 65536
    → has_type 7 (h ∷ p ∷ c ∷ l ∷ more) ≡ true
    → has_type 8 pps ≡ true
    → codec_config_from_avcc (avcc_record p c l (h ∷ p ∷ c ∷ l ∷ more) pps rest)
      ≡ parse_avcc_config (avcc_record p c l (h ∷ p ∷ c ∷ l ∷ more) pps rest)
codec_config_from_avcc_agrees h p c l more pps rest short short' seven eight =
    let sps = h ∷ p ∷ c ∷ l ∷ more in
    let bytes = avcc_record p c l sps pps rest in
    codec_config_from_avcc_lem bytes sps pps (6 + 2 + length sps)
      (6 + 2 + length sps + 1 + 2 + length pps) (ground arith) refl refl
      (sets_one 7 bytes sps 6 short refl refl (slice_sps p c l sps pps rest) seven)
      (behind_sps p c l sps pps rest 0 (6 + 2 + length sps) (omega arith))
      (sets_one 8 bytes pps (6 + 2 + length sps + 1) short'
        (behind_sps p c l sps pps rest 1 _ (omega arith))
        (behind_sps p c l sps pps rest 2 _ (omega arith))
        (slice_pps p c l sps pps rest _ (omega arith)) eight)
    ∙ sym (parse_avcc_config-avcc_record p c l sps pps rest short short')
