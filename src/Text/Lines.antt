-- ===== src/Text/Lines.antt =====
-- Lines that end in CRLF, and `split("\r\n")`.
use camrtsp.Common.{ℕ, ◌≡◌, ◌≢◌, refl, ap, ◌∙◌, false, ◌&&◌, List, [], ◌∷◌, ◌++◌, All, arith, ◌==◌}
use camrtsp.Text.{onto_head, split_lines}

-- Lines, each with its CRLF, and the empty one that ends them.
unfoldable pub join_lines : List (List ℕ) → List ℕ
join_lines [] = 13 ∷ 10 ∷ []
join_lines (l ∷ ls) = l ++ 13 ∷ 10 ∷ join_lines ls

abbrev pub NoReturn : List ℕ → Type 0
NoReturn = All (λ c. c ≢ 13)

split_lines-line :
    (l rest : List ℕ) → NoReturn l → split_lines (l ++ 13 ∷ 10 ∷ rest) ≡ l ∷ split_lines rest
unfolding split_lines
split_lines-line [] rest h = refl
split_lines-line (c ∷ []) rest h = ground arith
split_lines-line (c ∷ d ∷ l) rest h =
    let other : (c == 13 && d == 10) ≡ false = ground arith in
    rw (other, split_lines) (ap (onto_head c) (split_lines-line (d ∷ l) rest h.1))

-- The lines are got back, with two empty ones behind them.
pub split_lines-join_lines :
    (ls : List (List ℕ)) → All NoReturn ls → split_lines (join_lines ls) ≡ ls ++ [] ∷ [] ∷ []
unfolding join_lines
split_lines-join_lines [] h = unfold split_lines in refl
split_lines-join_lines (l ∷ ls) h =
    split_lines-line l (join_lines ls) h.0 ∙ ap (λ r. l ∷ r) (split_lines-join_lines ls h.1)
