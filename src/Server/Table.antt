-- ===== src/Server/Table.antt =====
-- The accept loop on a table whose order is forgotten: the description that `run_until` implements.
use mathlib.Core.List.{Permᴰ}
use mathlib.Core.List.Permᴰ
use mathlib.Core.Quot
use mathlib.Core.Quot.{Quot, Quot-set}
use camrtsp.Common.{
  ℕ, zero, suc, ◌≤◌, ◌≡◌, refl, ap, ◌∙◌, Bool, not, List, [], ◌∷◌, length, filter, arith,
  Bool-cases, inl, inr,
}
use camrtsp.Server.{swap_into, reap_fuel, reap}
use camrtsp.Server.Limits.{length-swap_into}

pub length-Permᴰ : {xs ys : List ℕ} → Permᴰ xs ys → length xs ≡ length ys
length-Permᴰ Permᴰ.nil = refl
length-Permᴰ (Permᴰ.cons e d) = ap suc (length-Permᴰ d)
length-Permᴰ (Permᴰ.swap e e') = refl
length-Permᴰ (Permᴰ.trans d d') = length-Permᴰ d ∙ length-Permᴰ d'

pub filter-Permᴰ :
    (keeps : ℕ → Bool) {xs ys : List ℕ} → Permᴰ xs ys → Permᴰ (filter keeps xs) (filter keeps ys)
unfolding filter
filter-Permᴰ keeps Permᴰ.nil = Permᴰ.nil
filter-Permᴰ keeps (Permᴰ.cons {a} {b} e d) = elim (Bool-cases (keeps b)) [
  | inl t ↦ rw (e, t) (Permᴰ.cons refl (filter-Permᴰ keeps d))
  | inr f ↦ rw (e, f) (filter-Permᴰ keeps d)
]
filter-Permᴰ keeps (Permᴰ.swap {a} {b} {a'} {b'} {l} e e') = elim (Bool-cases (keeps a')) [
  | inl t ↦ elim (Bool-cases (keeps b')) [
    | inl t' ↦ rw (e, e', t, t') (Permᴰ.swap refl refl)
    | inr f' ↦ rw (e, e', t, f') (Permᴰ.refl (a' ∷ filter keeps l))
  ]
  | inr f ↦ elim (Bool-cases (keeps b')) [
    | inl t' ↦ rw (e, e', f, t') (Permᴰ.refl (b' ∷ filter keeps l))
    | inr f' ↦ rw (e, e', f, f') (Permᴰ.refl (filter keeps l))
  ]
]
filter-Permᴰ keeps (Permᴰ.trans d d') = Permᴰ.trans (filter-Permᴰ keeps d) (filter-Permᴰ keeps d')

-- A table of threads: a list up to its order.
abbrev pub Table : Type 0
Table = Quot (λ (xs ys : List ℕ). Permᴰ xs ys)

abbrev pub of_list : List ℕ → Table
of_list = Quot.mk

unfoldable pub size : Table → ℕ
size = Quot.lift (hlevel) length λ xs ys d. length-Permᴰ d

unfoldable pub without : (ℕ → Bool) → Table → Table
without leaves =
    Quot.lift Quot-set (λ ws. of_list (filter (λ w. not (leaves w)) ws))
      λ xs ys d. Quot.sound (filter-Permᴰ (λ w. not (leaves w)) d)

unfoldable pub with_thread : ℕ → Table → Table
with_thread worker =
    Quot.lift Quot-set (λ ws. of_list (worker ∷ ws)) λ xs ys d. Quot.sound (Permᴰ.cons refl d)

swap_into-Permᴰ : (ws : List ℕ) → Permᴰ (swap_into ws) ws
unfolding swap_into
swap_into-Permᴰ [] = Permᴰ.nil
swap_into-Permᴰ (w ∷ []) = Permᴰ.refl (w ∷ [])
swap_into-Permᴰ (w ∷ v ∷ ws) = swapped (swap_into (v ∷ ws)) (swap_into-Permᴰ (v ∷ ws))
  where
    swapped :
        (zs : List ℕ)
        → Permᴰ zs (v ∷ ws)
        → Permᴰ (elim zs [ [] ↦ w ∷ [] | last ∷ rest ↦ last ∷ w ∷ rest ]) (w ∷ v ∷ ws)
    swapped [] d = absurd (omega (arith, length-Permᴰ d))
    swapped (z ∷ zs) d = Permᴰ.trans (Permᴰ.swap refl refl) (Permᴰ.cons refl d)

reap_fuel-Permᴰ :
    (fuel : ℕ) (is_finished : ℕ → Bool) (ws : List ℕ)
    → length ws ≤ fuel
    → Permᴰ (reap_fuel fuel is_finished ws) (filter (λ w. not (is_finished w)) ws)
unfolding reap_fuel filter
reap_fuel-Permᴰ zero is_finished [] h = Permᴰ.nil
reap_fuel-Permᴰ zero is_finished (w ∷ ws) h = absurd (omega arith)
reap_fuel-Permᴰ (suc fuel) is_finished [] h = Permᴰ.nil
reap_fuel-Permᴰ (suc fuel) is_finished (w ∷ ws) h = elim (Bool-cases (is_finished w)) [
  | inl done ↦ rw done (
      Permᴰ.trans
        (reap_fuel-Permᴰ fuel is_finished (swap_into ws) (omega (arith, length-swap_into ws)))
        (filter-Permᴰ (λ w. not (is_finished w)) (swap_into-Permᴰ ws)))
  | inr not_done ↦ rw not_done (Permᴰ.cons refl (reap_fuel-Permᴰ fuel is_finished ws (omega arith)))
]

pub of_list-reap :
    (is_finished : ℕ → Bool) (ws : List ℕ)
    → of_list (reap is_finished ws) ≡ without is_finished (of_list ws)
unfolding reap without
of_list-reap is_finished ws = Quot.sound (reap_fuel-Permᴰ (length ws) is_finished ws (omega arith))
