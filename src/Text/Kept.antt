-- ===== src/Text/Kept.antt =====
-- What holds of every character of a text holds of the parts that are cut from it.
use camrtsp.Common.{
  ℕ, ◌≡◌, subst, some, List, [], ◌∷◌, All, ◌==◌, if◌then◌else◌, if_either, Bool-cases, inl, inr,
}
use camrtsp.Text.{before, strip_prefix, trim_end_matches}

module _ {ℓ} (P : ℕ → Type ℓ) where
  pub before-All : (ch : ℕ) (s : List ℕ) → All P s → All P (before ch s)
  unfolding before
  before-All ch [] h = tt
  before-All ch (c ∷ s) h = if_either (All P) (c == ch) tt (h.0, before-All ch s h.1)

  pub strip_prefix-All : (p s rest : List ℕ) → All P s → strip_prefix p s ≡ some rest → All P rest
  unfolding strip_prefix
  strip_prefix-All [] s rest h e = let same : s ≡ rest = cc in subst (All P) same h
  strip_prefix-All (q ∷ p) [] rest h e = cc
  strip_prefix-All (q ∷ p) (c ∷ s) rest h e = elim (Bool-cases (c == q)) [
    | inl same ↦ strip_prefix-All p s rest h.1 (rw same at e)
    | inr other ↦ cc (rw other at e)
  ]

  trimmed-All :
      (ch c : ℕ) (rest : List ℕ)
      → P c
      → All P rest
      → All P (elim rest [ [] ↦ if c == ch then [] else c ∷ [] | d ∷ ds ↦ c ∷ d ∷ ds ])
  trimmed-All ch c [] h hs = if_either (All P) (c == ch) tt (h, tt)
  trimmed-All ch c (d ∷ ds) h hs = (h, hs)

  pub trim_end_matches-All : (ch : ℕ) (s : List ℕ) → All P s → All P (trim_end_matches ch s)
  unfolding trim_end_matches
  trim_end_matches-All ch [] h = tt
  trim_end_matches-All ch (c ∷ s) h =
      trimmed-All ch c (trim_end_matches ch s) h.0 (trim_end_matches-All ch s h.1)
