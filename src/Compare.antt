-- ===== src/Compare.antt =====
-- Total orders as the derived `Ord` of Rust gives them, and sorting by them: `sort_unstable`,
-- `sort_unstable_by` and `dedup` of the standard library, by their documented results.
pub mod Orders
pub mod Sort
pub mod SortOn
pub mod Tests
use Prim.Native.Nat.{compare, Ordering, lt, eq, gt}
use metrics.Common.{ℕ, ◌≡◌, List, [], ◌∷◌, Option, none, some, Bool, true, false}

-- `Ordering::then_with`, and `Ordering::reverse`
abbrev pub and_then : Ordering → Ordering → Ordering
and_then lt o = lt
and_then eq o = o
and_then gt o = gt

abbrev pub reversed : Ordering → Ordering
reversed lt = gt
reversed eq = eq
reversed gt = lt

abbrev pub Cmp : Type 0 → Type 0
Cmp A = A → A → Ordering

-- A comparison that is a total order.
pub record IsOrder {A : Type 0} (cmp : Cmp A) : Type 0 where
  pub same : (a : A) → cmp a a ≡ eq
  pub equal : (a b : A) → cmp a b ≡ eq → a ≡ b
  pub flip : (a b : A) → cmp b a ≡ reversed (cmp a b)
  pub trans : (a b c : A) → cmp a b ≡ lt → cmp b c ≡ lt → cmp a c ≡ lt

-- Numbers, sequences, options and pairs, as `Ord` orders them.
abbrev pub cmp_nat : Cmp ℕ
cmp_nat = compare

unfoldable pub cmp_list : {A : Type 0} → Cmp A → Cmp (List A)
cmp_list cmp [] [] = eq
cmp_list cmp [] (y ∷ ys) = lt
cmp_list cmp (x ∷ xs) [] = gt
cmp_list cmp (x ∷ xs) (y ∷ ys) = and_then (cmp x y) (cmp_list cmp xs ys)

unfoldable pub cmp_option : {A : Type 0} → Cmp A → Cmp (Option A)
cmp_option cmp none none = eq
cmp_option cmp none (some y) = lt
cmp_option cmp (some x) none = gt
cmp_option cmp (some x) (some y) = cmp x y

unfoldable pub cmp_pair : {A B : Type 0} → Cmp A → Cmp B → Cmp (A × B)
cmp_pair cmpA cmpB p q = and_then (cmpA p.0 q.0) (cmpB p.1 q.1)

-- Text, by its bytes.
abbrev pub cmp_bytes : Cmp (List ℕ)
cmp_bytes = cmp_list cmp_nat

-- Records and enums, by their fields and the positions of their variants.
unfoldable pub cmp_on : {A B : Type 0} → (A → B) → Cmp B → Cmp A
cmp_on f cmp a b = cmp (f a) (f b)

abbrev pub is_gt : Ordering → Bool
is_gt gt = true
is_gt _ = false

abbrev pub is_eq : Ordering → Bool
is_eq eq = true
is_eq _ = false

module _ {A : Type 0} (cmp : Cmp A) where
  -- Insertion before the first element that is not smaller.
  unfoldable pub insert_sorted : A → List A → List A
  insert_sorted a [] = a ∷ []
  insert_sorted a (x ∷ xs) = elim (is_gt (cmp a x)) [
    | true ↦ x ∷ insert_sorted a xs
    | false ↦ a ∷ x ∷ xs
  ]

  -- `sort_unstable`
  unfoldable pub sort : List A → List A
  unfolding insert_sorted
  sort [] = []
  sort (x ∷ xs) = insert_sorted x (sort xs)

  -- `dedup` behind an element that stays: drops what equals its predecessor.
  unfoldable pub dedup_from : A → List A → List A
  dedup_from a [] = []
  dedup_from a (x ∷ xs) = elim (is_eq (cmp a x)) [
    | true ↦ dedup_from a xs
    | false ↦ x ∷ dedup_from x xs
  ]

  -- `dedup`
  unfoldable pub dedup : List A → List A
  unfolding dedup_from
  dedup [] = []
  dedup (x ∷ xs) = x ∷ dedup_from x xs
