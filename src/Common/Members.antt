-- ===== src/Common/Members.antt =====
-- What holds of all elements of a list, and which elements it has.
use mathlib.Core.Path.{refl, sym, ap, subst}
use mathlib.Core.Logic.{◌⊎◌, inl, inr}
use mathlib.Core.List.{List, [], ◌∷◌, ◌++◌, map, Memᴰ}
use metrics.Common.Fold.{All}

module _ {A : Type 0} where
  pub Mem-append : (x : A) (xs ys : List A) → Memᴰ x (xs ++ ys) → Memᴰ x xs ⊎ Memᴰ x ys
  Mem-append x [] ys i = inr i
  Mem-append x (y ∷ xs) ys (Memᴰ.head e) = inl (Memᴰ.head e)
  Mem-append x (y ∷ xs) ys (Memᴰ.tail i) = elim (Mem-append x xs ys i) [
    | inl l ↦ inl (Memᴰ.tail l)
    | inr r ↦ inr r
  ]

  pub Mem-map : {B : Type 0} (f : B → A) (y : B) (ys : List B) → Memᴰ y ys → Memᴰ (f y) (map f ys)
  Mem-map f y [] i = elim i [ ]
  Mem-map f y (z ∷ ys) (Memᴰ.head e) = Memᴰ.head (ap f e)
  Mem-map f y (z ∷ ys) (Memᴰ.tail i) = Memᴰ.tail (Mem-map f y ys i)

  pub All-Mem : (P : A → Type 0) (xs : List A) (x : A) → All P xs → Memᴰ x xs → P x
  All-Mem P [] x h i = elim i [ ]
  All-Mem P (y ∷ xs) x (p, h) (Memᴰ.head e) = subst P (sym e) p
  All-Mem P (y ∷ xs) x (p, h) (Memᴰ.tail i) = All-Mem P xs x h i

  pub Mem-All : (P : A → Type 0) (xs : List A) → ((x : A) → Memᴰ x xs → P x) → All P xs
  Mem-All P [] h = tt
  Mem-All P (x ∷ xs) h = (h x (Memᴰ.head refl), Mem-All P xs (λ y i. h y (Memᴰ.tail i)))

  pub All-map :
      {B : Type 0} (P : A → Type 0) (f : B → A) (ys : List B)
      → All (λ y. P (f y)) ys
      → All P (map f ys)
  All-map P f [] h = tt
  All-map P f (y ∷ ys) (p, h) = (p, All-map P f ys h)
