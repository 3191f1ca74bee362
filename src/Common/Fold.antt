-- ===== src/Common/Fold.antt =====
-- Predicates on all the elements of a list, sums of numbers, and what the loops use of both.
use Prim.Native.Nat.{ℕ, ◌+◌, ◌≤◌}
use mathlib.Core.Path.{◌≡◌}
use mathlib.Core.List.{List, [], ◌∷◌, ◌++◌}
use native.Mathlib.Omega.{arith}

module _ {ℓ κ} {A : Type ℓ} (P : A → Type κ) where
  abbrev pub All : List A → Type κ
  All [] = Unit
  All (x ∷ xs) = P x × All xs

  pub All-append : (xs ys : List A) → All xs → All ys → All (xs ++ ys)
  All-append [] ys _ hy = hy
  All-append (x ∷ xs) ys (px, hx) hy = (px, All-append xs ys hx hy)

pub All-imp {ℓ κ} :
    {A : Type ℓ} {P Q : A → Type κ} → ((a : A) → P a → Q a) → (xs : List A) → All P xs → All Q xs
All-imp f [] h = tt
All-imp f (x ∷ xs) (p, h) = (f x p, All-imp f xs h)

module _ {ℓ} {A : Type ℓ} (w : A → ℕ) where
  -- The sum of a weight over a list.
  abbrev pub sum_of : List A → ℕ
  sum_of [] = 0
  sum_of (x ∷ xs) = w x + sum_of xs

  pub sum_of-append : (xs ys : List A) → sum_of (xs ++ ys) ≡ sum_of xs + sum_of ys
  sum_of-append [] ys = omega arith
  sum_of-append (x ∷ xs) ys = omega (arith, sum_of-append xs ys)

pub sum_of_le {ℓ} :
    {A : Type ℓ} (v w : A → ℕ) → ((a : A) → v a ≤ w a) → (xs : List A) → sum_of v xs ≤ sum_of w xs
sum_of_le v w h [] = omega arith
sum_of_le v w h (x ∷ xs) = omega (arith, h x, sum_of_le v w h xs)
