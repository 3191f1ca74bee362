-- ===== src/Compare/Sort.antt =====
-- What `sort_unstable` and `dedup` promise: the result ascends strictly and has the same elements.
use Prim.Native.Nat.{Ordering, lt, eq, gt}
use metrics.Common.{
  inl, inr, ◌≡◌, refl, subst, ◌↔◌, List, [], ◌∷◌, arith, All, All-imp, true, false, Bool-cases,
}
use metrics.Compare.{Cmp, IsOrder, is_gt, is_eq, insert_sorted, sort, dedup_from, dedup}

pub is_gt-true : (p : Ordering) → is_gt p ≡ true → p ≡ gt
is_gt-true p h = ground arith

pub is_gt-false : (p : Ordering) → is_gt p ≡ false → is_eq p ≡ false → p ≡ lt
is_gt-false p h k = ground arith

pub is_eq-true : (p : Ordering) → is_eq p ≡ true → p ≡ eq
is_eq-true p h = ground arith

module _ {A : Type 0} (cmp : Cmp A) where
  -- `x` does not stand after `y`.
  abbrev NotAfter : A → A → Type 0
  NotAfter x y = is_gt (cmp x y) ≡ false

  abbrev Sorted : List A → Type 0
  Sorted [] = Unit
  Sorted (x ∷ xs) = All (NotAfter x) xs × Sorted xs

  -- Every element is less than all behind it.
  abbrev pub Ascending : List A → Type 0
  Ascending [] = Unit
  Ascending (x ∷ xs) = All (λ y. cmp x y ≡ lt) xs × Ascending xs

  pub insert_sorted-All :
      (P : A → Type 0) (a : A) (xs : List A) → All P (insert_sorted cmp a xs) ↔ (P a × All P xs)
  unfolding insert_sorted
  insert_sorted-All P a [] = (λ h. h, λ h. h)
  insert_sorted-All P a (x ∷ xs) = elim (Bool-cases (is_gt (cmp a x))) [
    | inl e ↦
        let (forth, back) = insert_sorted-All P a xs in
        rw (e, All) (λ h. ((forth h.1).0, (h.0, (forth h.1).1)), λ h. (h.1.0, back (h.0, h.1.1)))
    | inr e ↦ rw (e, All) (λ h. h, λ h. h)
  ]

  pub sort-All : (P : A → Type 0) (xs : List A) → All P (sort cmp xs) ↔ All P xs
  unfolding sort
  sort-All P [] = (λ h. h, λ h. h)
  sort-All P (x ∷ xs) =
      let (forth, back) = insert_sorted-All P x (sort cmp xs) in
      let (forth', back') = sort-All P xs in
      (λ h. ((forth h).0, forth' (forth h).1), λ h. back (h.0, back' h.1))

  module _ (o : IsOrder cmp) where
    NotAfter-trans : (x y z : A) → NotAfter x y → NotAfter y z → NotAfter x z
    NotAfter-trans x y z h k = elim (Bool-cases (is_eq (cmp x y))) [
      | inl e ↦ rw (o.equal x y (is_eq-true (cmp x y) e)) k
      | inr e ↦ elim (Bool-cases (is_eq (cmp y z))) [
        | inl f ↦ rw (← o.equal y z (is_eq-true (cmp y z) f)) h
        | inr f ↦ rw (o.trans x y z (is_gt-false (cmp x y) h e) (is_gt-false (cmp y z) k f)) refl
      ]
    ]

    insert_sorted-Sorted : (a : A) (xs : List A) → Sorted xs → Sorted (insert_sorted cmp a xs)
    unfolding insert_sorted
    insert_sorted-Sorted a [] h = (tt, tt)
    insert_sorted-Sorted a (x ∷ xs) (first, rest) = elim (Bool-cases (is_gt (cmp a x))) [
      | inl e ↦
          let before : NotAfter x a = rw (o.flip a x, is_gt-true (cmp a x) e) refl in
          rw (e, Sorted)
            (
              (insert_sorted-All (NotAfter x) a xs).1 (before, first),
              insert_sorted-Sorted a xs rest,
            )
      | inr e ↦ rw (e, Sorted) ((e, All-imp (λ y. NotAfter-trans a x y e) xs first), (first, rest))
    ]

    sort-Sorted : (xs : List A) → Sorted (sort cmp xs)
    unfolding sort
    sort-Sorted [] = tt
    sort-Sorted (x ∷ xs) = insert_sorted-Sorted x (sort cmp xs) (sort-Sorted xs)

    dedup_from-Ascending :
        (a : A) (xs : List A)
        → Sorted (a ∷ xs)
        → All (λ y. cmp a y ≡ lt) (dedup_from cmp a xs) × Ascending (dedup_from cmp a xs)
    unfolding dedup_from
    dedup_from-Ascending a [] h = (tt, tt)
    dedup_from-Ascending a (x ∷ xs) ((ax, far), (near, rest)) =
        elim (Bool-cases (is_eq (cmp a x))) [
          | inl e ↦ rw (e, All, Ascending) (dedup_from-Ascending a xs (far, rest))
          | inr e ↦
              let less : cmp a x ≡ lt = is_gt-false (cmp a x) ax e in
              let (behind, ascending) = dedup_from-Ascending x xs (near, rest) in
              rw (e, All, Ascending)
                (
                  (less, All-imp (λ y. o.trans a x y less) (dedup_from cmp x xs) behind),
                  (behind, ascending),
                )
        ]

    dedup_from-All :
        (P : A → Type 0) (a : A) (xs : List A) → P a → All P (dedup_from cmp a xs) → All P xs
    unfolding dedup_from
    dedup_from-All P a [] pa h = tt
    dedup_from-All P a (x ∷ xs) pa h = elim (Bool-cases (is_eq (cmp a x))) [
      | inl e ↦ (
        subst P (o.equal a x (is_eq-true (cmp a x) e)) pa,
        dedup_from-All P a xs pa (rw (e, All) at h),
      )
      | inr e ↦
          let kept : P x × All P (dedup_from cmp x xs) = rw (e, All) at h in
          (kept.0, dedup_from-All P x xs kept.0 kept.1)
    ]

    dedup_from-All_back :
        (P : A → Type 0) (a : A) (xs : List A) → All P xs → All P (dedup_from cmp a xs)
    unfolding dedup_from
    dedup_from-All_back P a [] h = tt
    dedup_from-All_back P a (x ∷ xs) (px, h) = elim (Bool-cases (is_eq (cmp a x))) [
      | inl e ↦ rw (e, All) (dedup_from-All_back P a xs h)
      | inr e ↦ rw (e, All) (px, dedup_from-All_back P x xs h)
    ]

    dedup-Ascending : (xs : List A) → Sorted xs → Ascending (dedup cmp xs)
    unfolding dedup
    dedup-Ascending [] h = tt
    dedup-Ascending (x ∷ xs) h = dedup_from-Ascending x xs h

    dedup-All : (P : A → Type 0) (xs : List A) → All P (dedup cmp xs) ↔ All P xs
    unfolding dedup
    dedup-All P [] = (λ h. h, λ h. h)
    dedup-All P (x ∷ xs) =
        (λ h. (h.0, dedup_from-All P x xs h.0 h.1), λ h. (h.0, dedup_from-All_back P x xs h.1))

    -- Sorting and removing neighbours that are equal leaves the same elements, each of them once, in
    -- strictly ascending order: whatever holds of all of the one list holds of all of the other.
    pub dedup-sort :
        (xs : List A)
        → Ascending (dedup cmp (sort cmp xs))
          × ((P : A → Type 0) → All P (dedup cmp (sort cmp xs)) ↔ All P xs)
    dedup-sort xs = (
      dedup-Ascending (sort cmp xs) (sort-Sorted xs),
      λ P. (
        λ h. (sort-All P xs).0 ((dedup-All P (sort cmp xs)).0 h),
        λ h. (dedup-All P (sort cmp xs)).1 ((sort-All P xs).1 h),
      ),
    )
