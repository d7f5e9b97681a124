-- ===== src/Text/Words.antt =====
-- White space: `trim` and `split_whitespace` on texts of graphic ASCII characters.
use camrtsp.Common.{
  ℕ, ◌≤◌, ◌≡◌, ◌≢◌, refl, ap, ◌∙◌, false, some, List, [], ◌∷◌, ◌++◌, append-nil, append_assoc, All,
  arith, if◌then◌else◌,
}
use camrtsp.Text.{
  is_whitespace, trim_start, trim_end, trim, finish_word, words_from, split_whitespace, split_once,
}

abbrev pub IsGraphic : ℕ → Type 0
IsGraphic c = (33 ≤ c) × (c ≤ 126)

graphic_not_space : (c : ℕ) → IsGraphic c → is_whitespace c ≡ false
unfolding is_whitespace
graphic_not_space c h = ground arith

words_from-append :
    (word w more : List ℕ)
    → All IsGraphic w
    → words_from word (w ++ 32 ∷ more) ≡ finish_word (word ++ w) (words_from [] more)
unfolding words_from
words_from-append word [] more h = rw (append-nil word) (unfold is_whitespace in refl)
words_from-append word (c ∷ w) more h =
    rw (graphic_not_space c h.0, words_from)
      (words_from-append (word ++ c ∷ []) w more h.1
        ∙ ap (λ l. finish_word l (words_from [] more)) (append_assoc word (c ∷ []) w))

words_from_last :
    (word w : List ℕ) → All IsGraphic w → words_from word w ≡ finish_word (word ++ w) []
unfolding words_from
words_from_last word [] h = rw (append-nil word) refl
words_from_last word (c ∷ w) h =
    rw (graphic_not_space c h.0, words_from)
      (words_from_last (word ++ c ∷ []) w h.1
        ∙ ap (λ l. finish_word l []) (append_assoc word (c ∷ []) w))

-- Three words with a space between them.
pub split_whitespace_three :
    (a b c : ℕ) (xs ys zs : List ℕ)
    → All IsGraphic (a ∷ xs)
    → All IsGraphic (b ∷ ys)
    → All IsGraphic (c ∷ zs)
    → split_whitespace ((a ∷ xs) ++ 32 ∷ ((b ∷ ys) ++ 32 ∷ (c ∷ zs)))
      ≡ (a ∷ xs) ∷ (b ∷ ys) ∷ (c ∷ zs) ∷ []
unfolding split_whitespace
split_whitespace_three a b c xs ys zs ha hb hc =
    words_from-append [] (a ∷ xs) ((b ∷ ys) ++ 32 ∷ (c ∷ zs)) ha
    ∙ ap (λ l. (a ∷ xs) ∷ l)
        (words_from-append [] (b ∷ ys) (c ∷ zs) hb
          ∙ ap (λ l. (b ∷ ys) ∷ l) (words_from_last [] (c ∷ zs) hc))

trim_end-graphic : (w : List ℕ) → All IsGraphic w → trim_end w ≡ w
unfolding trim_end
trim_end-graphic [] h = refl
trim_end-graphic (c ∷ []) h = rw (graphic_not_space c h.0) refl
trim_end-graphic (c ∷ d ∷ w) h = rw (trim_end-graphic (d ∷ w) h.1) refl

-- A text without white space is trimmed already.
pub trim-graphic : (w : List ℕ) → All IsGraphic w → trim w ≡ w
unfolding trim trim_start
trim-graphic [] h = unfold trim_end in refl
trim-graphic (c ∷ w) h = rw (graphic_not_space c h.0) (trim_end-graphic (c ∷ w) h)

kept_head :
    (c : ℕ) (rest : List ℕ)
    → IsGraphic c
    → (l : List ℕ) × ((elim rest [
      | [] ↦ if is_whitespace c then [] else c ∷ []
      | d ∷ ds ↦ c ∷ d ∷ ds
    ])
        ≡ c ∷ l)
kept_head c [] h = ([], rw (graphic_not_space c h) refl)
kept_head c (d ∷ ds) h = (d ∷ ds, refl)

trim_end-cons : (c : ℕ) (w : List ℕ) → IsGraphic c → (l : List ℕ) × (trim_end (c ∷ w) ≡ c ∷ l)
unfolding trim_end
trim_end-cons c w h = kept_head c (trim_end w) h

-- The first character stays, if it is graphic.
pub trim-cons : (c : ℕ) (w : List ℕ) → IsGraphic c → (l : List ℕ) × (trim (c ∷ w) ≡ c ∷ l)
unfolding trim trim_start
trim-cons c w h = rw (graphic_not_space c h) (trim_end-cons c w h)

pub trim_space : (w : List ℕ) → trim (32 ∷ w) ≡ trim w
unfolding trim trim_start is_whitespace
trim_space w = refl

-- `split_once` at the first separator.
pub split_once-append :
    (ch : ℕ) (key value : List ℕ)
    → All (λ c. c ≢ ch) key
    → split_once ch (key ++ ch ∷ value) ≡ some (key, value)
unfolding split_once
split_once-append ch [] value h = ground arith
split_once-append ch (c ∷ key) value h = ground (arith, split_once-append ch key value h.1)
