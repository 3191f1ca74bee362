-- ===== src/Compare/Orders.antt =====
-- The comparisons are total orders.
use Prim.Native.Nat.{Ordering, lt, eq, gt}
use metrics.Common.{◌⊎◌, inl, inr, ◌≡◌, refl, ap, List, [], ◌∷◌, Option, none, some, arith}
use metrics.Compare.{
  Cmp, IsOrder, and_then, reversed, cmp_nat, cmp_list, cmp_option, cmp_pair, cmp_on, cmp_bytes,
}

pub cmp_nat-IsOrder : IsOrder cmp_nat
cmp_nat-IsOrder = record {
  same = λ a. ground arith;
  equal = λ a b h. ground arith;
  flip = λ a b. ground arith;
  trans = λ a b c h k. ground arith;
}

pub cmp_on-IsOrder :
    {A B : Type 0} (f : A → B) (cmp : Cmp B)
    → ((a b : A) → f a ≡ f b → a ≡ b)
    → IsOrder cmp
    → IsOrder (cmp_on f cmp)
unfolding cmp_on
cmp_on-IsOrder f cmp injective o = record {
  same = λ a. o.same (f a);
  equal = λ a b h. injective a b (o.equal (f a) (f b) h);
  flip = λ a b. o.flip (f a) (f b);
  trans = λ a b c. o.trans (f a) (f b) (f c);
}

module _ {A : Type 0} (cmp : Cmp A) (o : IsOrder cmp) where
  option_flip : (a b : Option A) → cmp_option cmp b a ≡ reversed (cmp_option cmp a b)
  unfolding cmp_option
  option_flip none none = refl
  option_flip none (some b) = refl
  option_flip (some a) none = refl
  option_flip (some a) (some b) = o.flip a b

  option_equal : (a b : Option A) → cmp_option cmp a b ≡ eq → a ≡ b
  unfolding cmp_option
  option_equal none none h = refl
  option_equal none (some b) h = cc h
  option_equal (some a) none h = cc h
  option_equal (some a) (some b) h = ap some (o.equal a b h)

  option_same : (a : Option A) → cmp_option cmp a a ≡ eq
  unfolding cmp_option
  option_same none = refl
  option_same (some a) = o.same a

  option_trans :
      (a b c : Option A)
      → cmp_option cmp a b ≡ lt
      → cmp_option cmp b c ≡ lt
      → cmp_option cmp a c ≡ lt
  unfolding cmp_option
  option_trans none none c h k = absurd (ground arith)
  option_trans none (some b) none h k = cc k
  option_trans none (some b) (some c) h k = refl
  option_trans (some a) none c h k = cc h
  option_trans (some a) (some b) none h k = cc k
  option_trans (some a) (some b) (some c) h k = o.trans a b c h k

  pub cmp_option-IsOrder : IsOrder (cmp_option cmp)
  cmp_option-IsOrder = record {
    same = option_same;
    equal = option_equal;
    flip = option_flip;
    trans = option_trans;
  }

-- How a comparison of two parts is put together.
then_flip :
    (p p' q q' : Ordering)
    → p' ≡ reversed p
    → q' ≡ reversed q
    → and_then p' q' ≡ reversed (and_then p q)
then_flip p p' q q' h k = ground arith

then_eq : (p q : Ordering) → and_then p q ≡ eq → (p ≡ eq) × (q ≡ eq)
then_eq p q h = ground arith

pub then_lt : (p q : Ordering) → and_then p q ≡ lt → (p ≡ lt) ⊎ ((p ≡ eq) × (q ≡ lt))
then_lt lt q h = inl refl
then_lt eq q h = inr (refl, h)
then_lt gt q h = cc h

-- The part of a comparison behind the first elements, for transitivity.
abbrev Through : Ordering → Ordering → Ordering → Type 0
Through p q r = p ≡ lt → q ≡ lt → r ≡ lt

module _ {A : Type 0} (cmpA : Cmp A) (oA : IsOrder cmpA) where
  -- Transitivity of one part in front of another.
  then_trans :
      (a b c : A) (p q r : Ordering)
      → Through p q r
      → and_then (cmpA a b) p ≡ lt
      → and_then (cmpA b c) q ≡ lt
      → and_then (cmpA a c) r ≡ lt
  then_trans a b c p q r next h k = elim (then_lt (cmpA a b) p h) [
    | inl ab ↦ elim (then_lt (cmpA b c) q k) [
      | inl bc ↦ rw (oA.trans a b c ab bc) refl
      | inr (bc, _) ↦ rw (← oA.equal b c bc, ab) refl
    ]
    | inr (ab, hp) ↦ elim (then_lt (cmpA b c) q k) [
      | inl bc ↦ rw (oA.equal a b ab, bc) refl
      | inr (bc, hq) ↦ rw (oA.equal a b ab, oA.equal b c bc, oA.same c) (next hp hq)
    ]
  ]

  list_same : (a : List A) → cmp_list cmpA a a ≡ eq
  unfolding cmp_list
  list_same [] = refl
  list_same (x ∷ xs) = rw (oA.same x) (list_same xs)

  list_equal : (a b : List A) → cmp_list cmpA a b ≡ eq → a ≡ b
  unfolding cmp_list
  list_equal [] [] h = refl
  list_equal [] (y ∷ ys) h = cc h
  list_equal (x ∷ xs) [] h = cc h
  list_equal (x ∷ xs) (y ∷ ys) h =
      let (first, rest) = then_eq (cmpA x y) (cmp_list cmpA xs ys) h in
      cc (oA.equal x y first, list_equal xs ys rest)

  list_flip : (a b : List A) → cmp_list cmpA b a ≡ reversed (cmp_list cmpA a b)
  unfolding cmp_list
  list_flip [] [] = refl
  list_flip [] (y ∷ ys) = refl
  list_flip (x ∷ xs) [] = refl
  list_flip (x ∷ xs) (y ∷ ys) =
      then_flip (cmpA x y) (cmpA y x) (cmp_list cmpA xs ys) (cmp_list cmpA ys xs) (oA.flip x y)
        (list_flip xs ys)

  list_trans :
      (a b c : List A) → cmp_list cmpA a b ≡ lt → cmp_list cmpA b c ≡ lt → cmp_list cmpA a c ≡ lt
  unfolding cmp_list
  list_trans [] [] c h k = absurd (ground arith)
  list_trans [] (y ∷ ys) [] h k = cc k
  list_trans [] (y ∷ ys) (z ∷ zs) h k = refl
  list_trans (x ∷ xs) [] c h k = cc h
  list_trans (x ∷ xs) (y ∷ ys) [] h k = cc k
  list_trans (x ∷ xs) (y ∷ ys) (z ∷ zs) h k =
      then_trans x y z (cmp_list cmpA xs ys) (cmp_list cmpA ys zs) (cmp_list cmpA xs zs)
        (list_trans xs ys zs) h k

  pub cmp_list-IsOrder : IsOrder (cmp_list cmpA)
  cmp_list-IsOrder = record {
    same = list_same;
    equal = list_equal;
    flip = list_flip;
    trans = list_trans;
  }

  module _ {B : Type 0} (cmpB : Cmp B) (oB : IsOrder cmpB) where
    pub cmp_pair-IsOrder : IsOrder (cmp_pair cmpA cmpB)
    unfolding cmp_pair
    cmp_pair-IsOrder = record {
      same = λ a. rw (oA.same a.0) (oB.same a.1);
      equal = λ a b h.
          let (first, second) = then_eq (cmpA a.0 b.0) (cmpB a.1 b.1) h in
          (λ i. (oA.equal a.0 b.0 first i, oB.equal a.1 b.1 second i));
      flip = λ a b.
          then_flip (cmpA a.0 b.0) (cmpA b.0 a.0) (cmpB a.1 b.1) (cmpB b.1 a.1) (oA.flip a.0 b.0)
            (oB.flip a.1 b.1);
      trans = λ a b c.
          then_trans a.0 b.0 c.0 (cmpB a.1 b.1) (cmpB b.1 c.1) (cmpB a.1 c.1)
            (oB.trans a.1 b.1 c.1);
    }

pub cmp_bytes-IsOrder : IsOrder cmp_bytes
cmp_bytes-IsOrder = cmp_list-IsOrder cmp_nat cmp_nat-IsOrder
