-- ===== src/Text.antt =====
-- Rust's text functions as the server uses them. A `&str` is the list of its characters' code
-- points; bytes that come from the network become text through `from_utf8`.
pub mod Utf8
pub mod Numbers
pub mod Decimal
pub mod Words
pub mod Lines
pub mod Kept
use camrtsp.Common.{
  ℕ, zero, suc, ◌+◌, ◌-◌, ◌*◌, Bool, true, false, ◌&&◌, ◌||◌, not, Option, none, some, List, [],
  ◌∷◌, ◌++◌, String, ltb, leb, ◌==◌, in_range, same, if◌then◌else◌, length, ◌≤◌, ◌≡◌, refl, ap,
  arith,
}
use Prim.Native.Char.{code}

-- The characters of a literal.
abbrev pub chars : String → List ℕ
chars String.[] = []
chars (String.◌∷◌ c s) = code c ∷ chars s

-- `char::is_whitespace`: the code points with the property White_Space
unfoldable pub is_whitespace : ℕ → Bool
is_whitespace c =
    in_range 9 13 c
    || c == 32
    || c == 0x85
    || c == 0xa0
    || c == 0x1680
    || in_range 0x2000 0x200a c
    || c == 0x2028
    || c == 0x2029
    || c == 0x202f
    || c == 0x205f
    || c == 0x3000

unfoldable pub trim_start : List ℕ → List ℕ
unfolding is_whitespace
trim_start [] = []
trim_start (c ∷ cs) = if is_whitespace c then trim_start cs else c ∷ cs

unfoldable pub trim_end : List ℕ → List ℕ
unfolding is_whitespace
trim_end [] = []
trim_end (c ∷ cs) =
    let rest = trim_end cs in
    elim rest [ [] ↦ if is_whitespace c then [] else c ∷ [] | d ∷ ds ↦ c ∷ d ∷ ds ]

unfoldable pub trim : List ℕ → List ℕ
unfolding trim_start trim_end
trim s = trim_end (trim_start s)

-- `trim_matches(ch)` and `trim_end_matches(ch)`
unfoldable pub drop_leading : ℕ → List ℕ → List ℕ
drop_leading ch [] = []
drop_leading ch (c ∷ cs) = if c == ch then drop_leading ch cs else c ∷ cs

unfoldable pub trim_end_matches : ℕ → List ℕ → List ℕ
trim_end_matches ch [] = []
trim_end_matches ch (c ∷ cs) =
    let rest = trim_end_matches ch cs in
    elim rest [ [] ↦ if c == ch then [] else c ∷ [] | d ∷ ds ↦ c ∷ d ∷ ds ]

unfoldable pub trim_matches : ℕ → List ℕ → List ℕ
unfolding drop_leading trim_end_matches
trim_matches ch s = trim_end_matches ch (drop_leading ch s)

unfoldable pub to_lower : ℕ → ℕ
to_lower c = if in_range b'A' b'Z' c then c + 32 else c

unfoldable pub to_upper : ℕ → ℕ
to_upper c = if in_range b'a' b'z' c then c - 32 else c

unfoldable pub to_ascii_lowercase : List ℕ → List ℕ
unfolding to_lower
to_ascii_lowercase [] = []
to_ascii_lowercase (c ∷ cs) = to_lower c ∷ to_ascii_lowercase cs

unfoldable pub to_ascii_uppercase : List ℕ → List ℕ
unfolding to_upper
to_ascii_uppercase [] = []
to_ascii_uppercase (c ∷ cs) = to_upper c ∷ to_ascii_uppercase cs

unfoldable pub eq_ignore_ascii_case : List ℕ → List ℕ → Bool
unfolding to_ascii_lowercase same
eq_ignore_ascii_case a b = same (to_ascii_lowercase a) (to_ascii_lowercase b)

-- One more character in front of the first part.
abbrev pub onto_head : ℕ → List (List ℕ) → List (List ℕ)
onto_head c [] = (c ∷ []) ∷ []
onto_head c (part ∷ parts) = (c ∷ part) ∷ parts

-- `split(ch)`, which gives at least one part
unfoldable pub split : ℕ → List ℕ → List (List ℕ)
split ch [] = [] ∷ []
split ch (c ∷ cs) = let rest = split ch cs in if c == ch then [] ∷ rest else onto_head c rest

-- `split("\r\n")`
unfoldable pub split_lines : List ℕ → List (List ℕ)
split_lines [] = [] ∷ []
split_lines (c ∷ []) = (c ∷ []) ∷ []
split_lines (c ∷ d ∷ cs) = elim (c == 13 && d == 10) [
  | true ↦ [] ∷ split_lines cs
  | false ↦ onto_head c (split_lines (d ∷ cs))
]

-- `split(ch).next().unwrap_or(…)`: what stands before the first `ch`
unfoldable pub before : ℕ → List ℕ → List ℕ
before ch [] = []
before ch (c ∷ cs) = if c == ch then [] else c ∷ before ch cs

-- `split_once(ch)`
abbrev pub onto_first : ℕ → Option (List ℕ × List ℕ) → Option (List ℕ × List ℕ)
onto_first c none = none
onto_first c (some (a, b)) = some (c ∷ a, b)

unfoldable pub split_once : ℕ → List ℕ → Option (List ℕ × List ℕ)
split_once ch [] = none
split_once ch (c ∷ cs) =
    let rest = split_once ch cs in if c == ch then some ([], cs) else onto_first c rest

-- `split_whitespace`: the words between white space; `word` is the one being read.
abbrev pub finish_word : List ℕ → List (List ℕ) → List (List ℕ)
finish_word [] words = words
finish_word (c ∷ cs) words = (c ∷ cs) ∷ words

unfoldable pub words_from : List ℕ → List ℕ → List (List ℕ)
unfolding is_whitespace
words_from word [] = finish_word word []
words_from word (c ∷ cs) = elim (is_whitespace c) [
  | true ↦ finish_word word (words_from [] cs)
  | false ↦ words_from (word ++ c ∷ []) cs
]

unfoldable pub split_whitespace : List ℕ → List (List ℕ)
unfolding words_from
split_whitespace s = words_from [] s

unfoldable pub strip_prefix : List ℕ → List ℕ → Option (List ℕ)
strip_prefix [] s = some s
strip_prefix (p ∷ ps) [] = none
strip_prefix (p ∷ ps) (c ∷ cs) = if c == p then strip_prefix ps cs else none

-- `starts_with`, on texts and on bytes
unfoldable pub starts_with : List ℕ → List ℕ → Bool
starts_with [] s = true
starts_with (p ∷ ps) [] = false
starts_with (p ∷ ps) (c ∷ cs) = c == p && starts_with ps cs

pub starts_with-length : (p s : List ℕ) → starts_with p s ≡ true → length p ≤ length s
unfolding starts_with
starts_with-length [] s h = omega arith
starts_with-length (p ∷ ps) [] h = cc
starts_with-length (p ∷ ps) (c ∷ cs) h = ground (arith, starts_with-length ps cs)

pub starts_with_append :
    (p s more : List ℕ) → length p ≤ length s → starts_with p (s ++ more) ≡ starts_with p s
unfolding starts_with
starts_with_append [] s more h = refl
starts_with_append (p ∷ ps) [] more h = absurd (omega arith)
starts_with_append (p ∷ ps) (c ∷ cs) more h =
    ap (λ b. (c == p) && b) (starts_with_append ps cs more (omega arith))

-- `u32::from_str_radix`, `parse::<uN>()`: one leading `+` is allowed, no other sign; the number must
-- have a digit and stay at or below `limit`. Each step checks for overflow.
unfoldable pub digit_value : ℕ → ℕ → Option ℕ
digit_value radix c =
    let value =
      if in_range b'0' b'9' c
      then c - b'0'
      else if in_range b'a' b'z' c
      then c - b'a' + 10
      else if in_range b'A' b'Z' c
      then c - b'A' + 10
      else radix in
    if ltb value radix then some value else none

unfoldable pub parse_digits : ℕ → ℕ → ℕ → List ℕ → Option ℕ
unfolding digit_value
parse_digits radix limit n [] = some n
parse_digits radix limit n (c ∷ cs) = elim (digit_value radix c) [
  | none ↦ none
  | some d ↦ elim (leb (n * radix + d) limit) [
    | true ↦ parse_digits radix limit (n * radix + d) cs
    | false ↦ none
  ]
]

abbrev pub parse_unsigned : ℕ → ℕ → List ℕ → Option ℕ
parse_unsigned radix limit [] = none
parse_unsigned radix limit (c ∷ cs) = parse_digits radix limit 0 (c ∷ cs)

unfoldable pub from_str_radix : ℕ → ℕ → List ℕ → Option ℕ
unfolding parse_digits
from_str_radix radix limit [] = none
from_str_radix radix limit (c ∷ cs) =
    if c == b'+' then parse_unsigned radix limit cs else parse_unsigned radix limit (c ∷ cs)

unfoldable pub parse_u16 : List ℕ → Option ℕ
unfolding from_str_radix
parse_u16 = from_str_radix 10 65535

unfoldable pub parse_u32 : List ℕ → Option ℕ
unfolding from_str_radix
parse_u32 = from_str_radix 10 4294967295

unfoldable pub parse_usize : List ℕ → Option ℕ
unfolding from_str_radix
parse_usize = from_str_radix 10 18446744073709551615
