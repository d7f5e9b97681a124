-- ===== src/Request/Terminator.antt =====
-- Where `take_request` finds the end of the headers of lines that were joined.
use camrtsp.Common.{
  ℕ, suc, ◌+◌, ◌≡◌, ◌≢◌, refl, ap, ◌∙◌, false, some, List, [], ◌∷◌, ◌++◌, length, length-append,
  append_assoc, All, arith,
}
use camrtsp.Text.{starts_with}
use camrtsp.Text.Lines.{NoReturn, join_lines}
use camrtsp.Request.{terminator, find_terminator}

find_terminator-next :
    (c : ℕ) (more : List ℕ) (n : ℕ)
    → starts_with terminator (c ∷ more) ≡ false
    → find_terminator more ≡ some n
    → find_terminator (c ∷ more) ≡ some (suc n)
unfolding find_terminator
find_terminator-next c more n other e = rw (find_terminator, other, e) refl

find_terminator-skip :
    (c : ℕ) (more : List ℕ) (n : ℕ)
    → c ≢ 13
    → find_terminator more ≡ some n
    → find_terminator (c ∷ more) ≡ some (suc n)
find_terminator-skip c more n ne e =
    find_terminator-next c more n (unfold starts_with in ground arith) e

find_terminator-line :
    (l more : List ℕ) (n : ℕ)
    → NoReturn l
    → find_terminator more ≡ some n
    → find_terminator (l ++ more) ≡ some (length l + n)
find_terminator-line [] more n h e = e ∙ ap some (omega arith)
find_terminator-line (c ∷ l) more n h e =
    find_terminator-skip c (l ++ more) (length l + n) h.0 (find_terminator-line l more n h.1 e)
    ∙ ap some (omega arith)

-- A line's end that is not followed by another.
find_terminator-crlf :
    (c : ℕ) (more : List ℕ) (n : ℕ)
    → c ≢ 13
    → find_terminator (c ∷ more) ≡ some n
    → find_terminator (13 ∷ 10 ∷ c ∷ more) ≡ some (n + 2)
find_terminator-crlf c more n ne e =
    let later : find_terminator (10 ∷ c ∷ more) ≡ some (suc n) =
      find_terminator-skip 10 (c ∷ more) n (omega arith) e in
    find_terminator-next 13 (10 ∷ c ∷ more) (suc n) (unfold starts_with in ground arith) later
    ∙ ap some (omega arith)

abbrev pub IsFilled : List ℕ → Type 0
IsFilled [] = ⊥
IsFilled (c ∷ l) = Unit {0}

-- The terminator is at the end of the lines, if none of them is empty.
find_terminator-joined :
    (ls : List (List ℕ)) (rest : List ℕ)
    → All NoReturn ls
    → All IsFilled ls
    → (n : ℕ) × (find_terminator (13 ∷ 10 ∷ (join_lines ls ++ rest)) ≡ some n)
      × (n + 2 ≡ length (join_lines ls))
unfolding join_lines
find_terminator-joined [] rest h f = (0, (unfold find_terminator starts_with in refl), omega arith)
find_terminator-joined ([] ∷ ls) rest h f = absurd f.0
find_terminator-joined ((c ∷ l) ∷ ls) rest h f =
    let (n, found, sized) = find_terminator-joined ls rest h.1 f.1 in
    let line = find_terminator-line (c ∷ l) (13 ∷ 10 ∷ (join_lines ls ++ rest)) n h.0 found in
    (
      length (c ∷ l) + n + 2,
      ap (λ r. find_terminator (13 ∷ 10 ∷ r)) (append_assoc (c ∷ l) (13 ∷ 10 ∷ join_lines ls) rest)
          ∙ find_terminator-crlf c (l ++ 13 ∷ 10 ∷ (join_lines ls ++ rest)) _ h.0.0 line,
      omega (arith, sized, length-append l (13 ∷ 10 ∷ join_lines ls)),
    )

-- It ends the lines, whatever follows.
pub find_terminator-lines :
    (l : List ℕ) (ls : List (List ℕ)) (rest : List ℕ)
    → All NoReturn (l ∷ ls)
    → All IsFilled ls
    → (n : ℕ) × (find_terminator (join_lines (l ∷ ls) ++ rest) ≡ some n)
      × (n + 4 ≡ length (join_lines (l ∷ ls)))
unfolding join_lines
find_terminator-lines l ls rest clean filled =
    let (n, found, end) = find_terminator-joined ls rest clean.1 filled in
    (
      length l + n,
      ap find_terminator (append_assoc l (13 ∷ 10 ∷ join_lines ls) rest)
          ∙ find_terminator-line l (13 ∷ 10 ∷ (join_lines ls ++ rest)) n clean.0 found,
      omega (arith, end, length-append l (13 ∷ 10 ∷ join_lines ls)),
    )
