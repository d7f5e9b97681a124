-- ===== src/Text/Decimal.antt =====
-- A number that is printed is parsed back.
use camrtsp.Common.{
  ℕ, zero, suc, ◌+◌, ◌*◌, ◌/◌, ◌%◌, ◌≤◌, ◌<◌, ◌≡◌, ◌≢◌, refl, ap, ◌∙◌, false, some, List, [], ◌∷◌,
  ◌++◌, All, All-append, arith, ltb, leb, ◌==◌, Bool-cases, Option-cases, inl, inr,
}
use camrtsp.Text.{digit_value, parse_digits, from_str_radix, parse_usize}
use camrtsp.Text.Numbers.{show_fuel, show}

abbrev pow10 : ℕ → ℕ
pow10 zero = 1
pow10 (suc f) = 10 * pow10 f

abbrev pub IsDigit : ℕ → Type 0
IsDigit c = (48 ≤ c) × (c ≤ 57)

digit_value_lem : (d : ℕ) → d < 10 → digit_value 10 (b'0' + d) ≡ some d
unfolding digit_value
digit_value_lem d h = ground arith

-- One more digit behind a number that is parsed.
parse_digits-digit :
    (limit acc : ℕ) (xs : List ℕ) (q d : ℕ)
    → parse_digits 10 limit acc xs ≡ some q
    → d < 10
    → q * 10 + d ≤ limit
    → parse_digits 10 limit acc (xs ++ (b'0' + d) ∷ []) ≡ some (q * 10 + d)
unfolding parse_digits
parse_digits-digit limit acc [] q d e h fits = ground (arith, digit_value_lem d h)
parse_digits-digit limit acc (x ∷ xs) q d e h fits = elim (Option-cases (digit_value 10 x)) [
  | inl no_digit ↦ cc (rw (no_digit, parse_digits) at e)
  | inr (v, digit) ↦ elim (Bool-cases (leb (acc * 10 + v) limit)) [
    | inl fine ↦
        rw (digit, fine, parse_digits)
          (parse_digits-digit limit (acc * 10 + v) xs q d (rw (digit, fine, parse_digits) at e) h
            fits)
    | inr over ↦ cc (rw (digit, over, parse_digits) at e)
  ]
]

show_fuel-IsDigit : (f n : ℕ) → All IsDigit (show_fuel f n)
unfolding show_fuel
show_fuel-IsDigit zero n = tt
show_fuel-IsDigit (suc f) n = elim (Bool-cases (ltb n 10)) [
  | inl one ↦ rw one (ground arith)
  | inr more ↦ rw more (
      All-append IsDigit (show_fuel f (n / 10)) ((b'0' + n % 10) ∷ [])
        (show_fuel-IsDigit f (n / 10)) (omega arith))
]

parse_digits-show_fuel :
    (limit f n : ℕ) → n < pow10 f → n ≤ limit → parse_digits 10 limit 0 (show_fuel f n) ≡ some n
unfolding show_fuel
parse_digits-show_fuel limit zero n h fits = unfold parse_digits in ap some (omega arith)
parse_digits-show_fuel limit (suc f) n h fits = elim (Bool-cases (ltb n 10)) [
  | inl one ↦ rw one (
      parse_digits-digit limit 0 [] 0 n (unfold parse_digits in refl) (ground arith) (omega arith)
      ∙ ap some (omega arith))
  | inr more ↦ rw more (
      parse_digits-digit limit 0 (show_fuel f (n / 10)) (n / 10) (n % 10)
        (parse_digits-show_fuel limit f (n / 10) (omega arith) (omega arith)) (omega arith)
        (omega arith)
      ∙ ap some (omega arith))
]

from_str_radix-digits :
    (limit : ℕ) (s : List ℕ)
    → All IsDigit s
    → s ≢ []
    → from_str_radix 10 limit s ≡ parse_digits 10 limit 0 s
unfolding from_str_radix
from_str_radix-digits limit [] h ne = absurd (ne refl)
from_str_radix-digits limit (c ∷ cs) h ne =
    let unsigned : (c == b'+') ≡ false = ground arith in rw unsigned refl

append_one : (xs : List ℕ) (d : ℕ) → xs ++ d ∷ [] ≢ []
append_one [] d e = cc
append_one (x ∷ xs) d e = cc

show-ne-nil : (n : ℕ) → show n ≢ []
unfolding show show_fuel
show-ne-nil n e = elim (Bool-cases (ltb n 10)) [
  | inl one ↦ cc (rw one at e)
  | inr more ↦ append_one _ _ (rw more at e)
]

pub show-IsDigit : (n : ℕ) → All IsDigit (show n)
unfolding show
show-IsDigit n = show_fuel-IsDigit 20 n

-- A `usize` is parsed back from its digits.
pub parse_usize-show : (n : ℕ) → n ≤ 18446744073709551615 → parse_usize (show n) ≡ some n
unfolding parse_usize
parse_usize-show n h =
    from_str_radix-digits 18446744073709551615 (show n) (show-IsDigit n) (show-ne-nil n)
    ∙ unfold show in parse_digits-show_fuel 18446744073709551615 20 n (omega arith) h
