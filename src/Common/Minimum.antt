-- ===== src/Common/Minimum.antt =====
-- `min_by`: the first of the least elements.
use Prim.Native.Nat.{ℕ, ◌+◌, ◌-◌}
use mathlib.Core.Path.{◌≡◌, refl, subst}
use mathlib.Core.Bool.{Bool, true, false}
use mathlib.Core.Option.{Option, none, some}
use mathlib.Core.List.{List, [], ◌∷◌, Memᴰ}
use mathlib.Core.Logic.{inl, inr}
use camrtsp.Common.Tests.{if◌then◌else◌, if_either, Bool-cases}
use camrtsp.Common.Lists.{All, All-Memᴰ}

abbrev pub abs_diff : ℕ → ℕ → ℕ
abs_diff a b = (a - b) + (b - a)

some_inj {ℓ} : {A : Type ℓ} {x y : A} → some x ≡ some y → x ≡ y
some_inj e = cc

module _ {ℓ} {A : Type ℓ} (less : A → A → Bool) where
  unfoldable pub smaller : A → A → A
  smaller best x = if less x best then x else best

  unfoldable pub min_from : A → List A → A
  unfolding smaller
  min_from best [] = best
  min_from best (x ∷ xs) = min_from (smaller best x) xs

  unfoldable pub min_by : List A → Option A
  unfolding min_from
  min_by [] = none
  min_by (x ∷ xs) = some (min_from x xs)

  min_from-All {κ} :
      (P : A → Type κ) (best : A) (xs : List A) → P best → All P xs → P (min_from best xs)
  unfolding min_from smaller
  min_from-All P best [] h hs = h
  min_from-All P best (x ∷ xs) h hs =
      min_from-All P (smaller best x) xs (if_either P (less x best) hs.0 h) hs.1

  -- What holds of every element holds of the least.
  pub min_by-All {κ} : (P : A → Type κ) (xs : List A) (m : A) → All P xs → min_by xs ≡ some m → P m
  unfolding min_by
  min_by-All P [] m hs e = cc
  min_by-All P (x ∷ xs) m hs e = subst P (some_inj e) (min_from-All P x xs hs.0 hs.1)

  min_from-Memᴰ : (best : A) (xs : List A) → Memᴰ (min_from best xs) (best ∷ xs)
  unfolding min_from smaller
  min_from-Memᴰ best [] = Memᴰ.head refl
  min_from-Memᴰ best (x ∷ xs) = elim (Bool-cases (less x best)) [
    | inl below ↦ rw below (Memᴰ.tail (min_from-Memᴰ x xs))
    | inr other ↦ rw other (elim (min_from-Memᴰ best xs) [
      | Memᴰ.head e ↦ Memᴰ.head e
      | Memᴰ.tail m ↦ Memᴰ.tail (Memᴰ.tail m)
    ])
  ]

  -- No element is below it, for a test whose negation is an order.
  module _ (connected : (x y z : A) → less x y ≡ false → less y z ≡ false → less x z ≡ false)
      (asymmetric : (x y : A) → less x y ≡ true → less y x ≡ false) where
    smaller-not_less : (best x y : A) → less y best ≡ false → less y (smaller best x) ≡ false
    unfolding smaller
    smaller-not_less best x y h = elim (Bool-cases (less x best)) [
      | inl below ↦ rw below (connected y best x h (asymmetric x best below))
      | inr other ↦ rw other h
    ]

    not_less_self : (x : A) → less x x ≡ false
    not_less_self x = elim (Bool-cases (less x x)) [ inl t ↦ asymmetric x x t | inr f ↦ f ]

    smaller-not_less_new : (best x : A) → less x (smaller best x) ≡ false
    unfolding smaller
    smaller-not_less_new best x = elim (Bool-cases (less x best)) [
      | inl below ↦ rw below (not_less_self x)
      | inr other ↦ rw other other
    ]

    pub min_from-not_less :
        (best y : A) (xs : List A) → less y best ≡ false → less y (min_from best xs) ≡ false
    unfolding min_from
    min_from-not_less best y [] h = h
    min_from-not_less best y (x ∷ xs) h =
        min_from-not_less (smaller best x) y xs (smaller-not_less best x y h)

    min_from_least : (best : A) (xs : List A) → All (λ y. less y (min_from best xs) ≡ false) xs
    unfolding min_from
    min_from_least best [] = tt
    min_from_least best (x ∷ xs) = (
      min_from-not_less (smaller best x) x xs (smaller-not_less_new best x),
      min_from_least (smaller best x) xs,
    )

    -- The least element of a list: no element is below it.
    pub min_by_least : (xs : List A) (m : A) → min_by xs ≡ some m → All (λ y. less y m ≡ false) xs
    unfolding min_by
    min_by_least [] m e = cc
    min_by_least (x ∷ xs) m e =
        subst (λ n. All (λ y. less y n ≡ false) (x ∷ xs)) (some_inj e)
          (min_from-not_less x x xs (not_less_self x), min_from_least x xs)

    -- A list that has an element has a least one, which is in it and which that element is not below.
    pub min_by-Memᴰ :
        (x : A) (xs : List A)
        → Memᴰ x xs
        → (m : A) × (min_by xs ≡ some m) × Memᴰ m xs × (less x m ≡ false)
    unfolding min_by
    min_by-Memᴰ x [] member = elim member [ ]
    min_by-Memᴰ x (y ∷ ys) member = (
      min_from y ys,
      refl,
      min_from-Memᴰ y ys,
      All-Memᴰ (λ z. less z (min_from y ys) ≡ false) x (y ∷ ys)
          (min_by_least (y ∷ ys) (min_from y ys) refl) member,
    )
