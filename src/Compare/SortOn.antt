-- ===== src/Compare/SortOn.antt =====
-- Sorting by a key: what `sort_unstable_by` leaves when no two elements have one key.
use Prim.Native.Nat.{lt}
use metrics.Common.{
  inl, inr, ◌≡◌, ◌≢◌, ◌∙◌, refl, ap, List, [], ◌∷◌, map, arith, All, All-imp, true, false,
  Bool-cases,
}
use metrics.Common.Assoc
use metrics.Compare.{Cmp, IsOrder, is_gt, is_eq, insert_sorted, sort, cmp_on}
use metrics.Compare.Sort.{
  Ascending, insert_sorted-All, sort-All, is_gt-true, is_gt-false, is_eq-true,
}

-- No two elements have one key.
abbrev pub DistinctBy : {A K : Type 0} → (A → K) → List A → Type 0
DistinctBy key [] = Unit
DistinctBy key (x ∷ xs) = All (λ y. key x ≢ key y) xs × DistinctBy key xs

module _ {A K : Type 0} (key : A → K) (cmp : Cmp K) (o : IsOrder cmp) where
  insert_sorted-Ascending :
      (a : A) (xs : List A)
      → All (λ x. key a ≢ key x) xs
      → Ascending (cmp_on key cmp) xs
      → Ascending (cmp_on key cmp) (insert_sorted (cmp_on key cmp) a xs)
  unfolding insert_sorted cmp_on
  insert_sorted-Ascending a [] apart h = (tt, tt)
  insert_sorted-Ascending a (x ∷ xs) (other, apart) (first, rest) =
      elim (Bool-cases (is_gt (cmp (key a) (key x)))) [
        | inl e ↦
            let before : cmp (key x) (key a) ≡ lt =
              rw (o.flip (key a) (key x), is_gt-true (cmp (key a) (key x)) e) refl in
            rw (e, Ascending)
              (
                (insert_sorted-All (cmp_on key cmp) (λ y. cmp (key x) (key y) ≡ lt) a xs).1
                    (before, first),
                insert_sorted-Ascending a xs apart rest,
              )
        | inr e ↦ elim (Bool-cases (is_eq (cmp (key a) (key x)))) [
          | inl same ↦
              absurd (other (o.equal (key a) (key x) (is_eq-true (cmp (key a) (key x)) same)))
          | inr differ ↦
              let less = is_gt-false (cmp (key a) (key x)) e differ in
              rw (e, Ascending)
                (
                  (less, All-imp (λ y. o.trans (key a) (key x) (key y) less) xs first),
                  (first, rest),
                )
        ]
      ]

  -- Sorting by a key that no two elements share gives a strictly ascending list.
  pub sort-Ascending :
      (xs : List A) → DistinctBy key xs → Ascending (cmp_on key cmp) (sort (cmp_on key cmp) xs)
  unfolding sort
  sort-Ascending [] h = tt
  sort-Ascending (x ∷ xs) (apart, h) =
      insert_sorted-Ascending x (sort (cmp_on key cmp) xs)
        ((sort-All (cmp_on key cmp) (λ y. key x ≢ key y) xs).1 apart) (sort-Ascending xs h)

module _ {A K V : Type 0} (dec : Discrete K) (key : A → K) (value : A → V) (cmp : Cmp A) where
  abbrev pub pairs : List A → Assoc.HashMap K V
  pairs xs = map (λ a. (key a, value a)) xs

  insert_sorted_gt :
      (a x : A) (xs : List A)
      → is_gt (cmp a x) ≡ true
      → insert_sorted cmp a (x ∷ xs) ≡ x ∷ insert_sorted cmp a xs
  unfolding insert_sorted
  insert_sorted_gt a x xs e = rw (e, insert_sorted)

  insert_sorted_le :
      (a x : A) (xs : List A) → is_gt (cmp a x) ≡ false → insert_sorted cmp a (x ∷ xs) ≡ a ∷ x ∷ xs
  unfolding insert_sorted
  insert_sorted_le a x xs e = rw (e, insert_sorted)

  get-insert_sorted :
      (q : K) (a : A) (xs : List A)
      → All (λ x. key a ≢ key x) xs
      → Assoc.get dec q (pairs (insert_sorted cmp a xs)) ≡ Assoc.get dec q (pairs (a ∷ xs))
  unfolding insert_sorted Assoc.get
  get-insert_sorted q a [] apart = refl
  get-insert_sorted q a (x ∷ xs) (other, apart) = elim (Bool-cases (is_gt (cmp a x))) [
    | inr e ↦ ap (λ l. Assoc.get dec q (pairs l)) (insert_sorted_le a x xs e)
    | inl e ↦
        let behind = get-insert_sorted q a xs apart in
        ap (λ l. Assoc.get dec q (pairs l)) (insert_sorted_gt a x xs e) ∙ ground (arith, behind)
  ]

  -- And what is looked up in it is what was there.
  pub get-sort :
      (q : K) (xs : List A)
      → DistinctBy key xs
      → Assoc.get dec q (pairs (sort cmp xs)) ≡ Assoc.get dec q (pairs xs)
  unfolding sort Assoc.get
  get-sort q [] h = refl
  get-sort q (x ∷ xs) (apart, h) =
      get-insert_sorted q x (sort cmp xs) ((sort-All cmp (λ y. key x ≢ key y) xs).1 apart)
      ∙ ground (arith, get-sort q xs h)
