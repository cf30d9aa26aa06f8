-- ===== src/Base/Lists.antt =====
-- Lists: length over the native numbers, and predicates by recursion.
use Prim.Native.Nat.{ℕ, zero, suc, ◌+◌, ◌≤◌, ◌<◌}
use mathlib.Core.Path.{◌≡◌, refl, ap}
use mathlib.Core.List.{List, [], ◌∷◌, ◌++◌}
use native.Mathlib.Omega.{arith}

module _ {ℓ} {A : Type ℓ} where
  abbrev pub length : List A → ℕ
  length [] = 0
  length (x ∷ xs) = suc (length xs)

  pub length-append : (xs ys : List A) → length (xs ++ ys) ≡ length xs + length ys
  length-append [] ys = omega arith
  length-append (x ∷ xs) ys = omega (arith, length-append xs ys)

module _ {ℓ κ} {A : Type ℓ} (P : A → Type κ) where
  abbrev pub All : List A → Type κ
  All [] = Unit
  All (x ∷ xs) = P x × All xs

  pub All-append : (xs ys : List A) → All xs → All ys → All (xs ++ ys)
  All-append [] ys _ hy = hy
  All-append (x ∷ xs) ys hx hy = (hx.0, All-append xs ys hx.1 hy)

module _ {ℓ} {A : Type ℓ} where
  -- The first `n` elements, and the others.
  unfoldable pub taken : ℕ → List A → List A
  taken zero xs = []
  taken (suc n) [] = []
  taken (suc n) (x ∷ xs) = x ∷ taken n xs

  unfoldable pub left_of : ℕ → List A → List A
  left_of zero xs = xs
  left_of (suc n) [] = []
  left_of (suc n) (x ∷ xs) = left_of n xs

  pub taken-left_of : (n : ℕ) (xs : List A) → taken n xs ++ left_of n xs ≡ xs
  unfolding taken left_of
  taken-left_of zero xs = refl
  taken-left_of (suc n) [] = refl
  taken-left_of (suc n) (x ∷ xs) = ap (λ t. x ∷ t) (taken-left_of n xs)

  length-left_of : (n : ℕ) (xs : List A) → length (left_of n xs) ≤ length xs
  unfolding left_of
  length-left_of zero xs = omega arith
  length-left_of (suc n) [] = omega arith
  length-left_of (suc n) (x ∷ xs) = omega (arith, length-left_of n xs)

  pub left_shorter : (n : ℕ) (x : A) (xs : List A) → 0 < n → length (left_of n (x ∷ xs)) ≤ length xs
  unfolding left_of
  left_shorter zero x xs h = absurd (omega (arith, h))
  left_shorter (suc n) x xs h = length-left_of n xs
