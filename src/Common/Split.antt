-- ===== src/Common/Split.antt =====
-- A prefix of a list and what stands behind it.
use Prim.Native.Nat.{ℕ, zero, suc, ◌+◌, ◌-◌, ◌≤◌}
use mathlib.Core.Path.{◌≡◌, ◌∙◌, refl, sym, ap}
use mathlib.Core.List.{List, [], ◌∷◌, ◌++◌}
use native.Mathlib.Omega.{arith}
use metrics.Common.Lists.{length, take, drop}

module _ {ℓ} {A : Type ℓ} where
  -- A prefix of at most `want` elements, and then the rest of `want` elements.
  pub take-front :
      (want n : ℕ) (front rest : List A)
      → n ≤ want
      → n ≤ length front
      → take want (front ++ rest) ≡ take n front ++ take (want - n) (drop n front ++ rest)
  take-front want zero front rest h k =
      let all : want ≡ want - 0 = omega arith in ap (λ w. take w (front ++ rest)) all
  take-front want (suc n) [] rest h k = absurd (omega arith)
  take-front zero (suc n) (x ∷ front) rest h k = absurd (omega arith)
  take-front (suc want) (suc n) (x ∷ front) rest h k =
      let less : want - n ≡ suc want - suc n = omega arith in
      ap (λ xs. x ∷ xs) (take-front want n front rest (omega arith) (omega arith))
      ∙ ap (λ w. x ∷ (take n front ++ take w (drop n front ++ rest))) less

  pub drop-front :
      (want n : ℕ) (front rest : List A)
      → n ≤ want
      → n ≤ length front
      → drop want (front ++ rest) ≡ drop (want - n) (drop n front ++ rest)
  drop-front want zero front rest h k =
      let all : want ≡ want - 0 = omega arith in ap (λ w. drop w (front ++ rest)) all
  drop-front want (suc n) [] rest h k = absurd (omega arith)
  drop-front zero (suc n) (x ∷ front) rest h k = absurd (omega arith)
  drop-front (suc want) (suc n) (x ∷ front) rest h k =
      let less : want - n ≡ suc want - suc n = omega arith in
      drop-front want n front rest (omega arith) (omega arith)
      ∙ ap (λ w. drop w (drop n front ++ rest)) less

  pub drop-drop : (n m : ℕ) (xs : List A) → drop n (drop m xs) ≡ drop (m + n) xs
  drop-drop n zero xs = let e : n ≡ 0 + n = omega arith in ap (λ k. drop k xs) e
  drop-drop zero (suc m) [] = let e : suc m ≡ suc m + 0 = omega arith in ap (λ k. drop k []) e
  drop-drop (suc n) (suc m) [] =
      let e : suc (suc m + n) ≡ suc m + suc n = omega arith in ap (λ k. drop k []) e
  drop-drop n (suc m) (x ∷ xs) =
      let e : suc (m + n) ≡ suc m + n = omega arith in
      drop-drop n m xs ∙ ap (λ k. drop k (x ∷ xs)) e

module _ {ℓ} {A : Type ℓ} where
  pub take_empty : (n : ℕ) → take {A = A} n [] ≡ []
  take_empty zero = refl
  take_empty (suc n) = refl

  pub drop_empty : (n : ℕ) → drop {A = A} n [] ≡ []
  drop_empty zero = refl
  drop_empty (suc n) = refl

  pub take-take : (n m : ℕ) (xs : List A) → take n xs ++ take m (drop n xs) ≡ take (n + m) xs
  take-take zero m xs = let e : m ≡ 0 + m = omega arith in ap (λ k. take k xs) e
  take-take (suc n) m [] = take_empty m ∙ sym (take_empty (suc n + m))
  take-take (suc n) m (x ∷ xs) =
      let e : suc (n + m) ≡ suc n + m = omega arith in
      ap (λ t. x ∷ t) (take-take n m xs) ∙ ap (λ k. take k (x ∷ xs)) e
