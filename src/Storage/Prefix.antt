-- ===== src/Storage/Prefix.antt =====
-- Lists that are the front of another.
use metrics.Common.{
  ℕ, zero, suc, ◌+◌, ◌*◌, ◌≤◌, ◌≡◌, ◌<◌, refl, sym, ap, List, [], ◌∷◌, ◌++◌, arith, length,
  get_elem?, some, ◌∙◌, length-append, append_assoc, take, drop, append-nil, min, ◌-◌, length-drop,
}
use metrics.Storage.Lists.{length-take-min}
use metrics.Storage.{chunk_size}
use metrics.Storage.Holds.{row_of}

abbrev pub IsPrefix {ℓ} : {A : Type ℓ} → List A → List A → Type ℓ
IsPrefix xs ys = (zs : List _) × (ys ≡ xs ++ zs)

module _ {ℓ} {A : Type ℓ} where
  pub IsPrefix-refl : (xs : List A) → IsPrefix xs xs
  IsPrefix-refl xs = ([], sym (append-nil xs))

  pub IsPrefix-trans : (xs ys zs : List A) → IsPrefix xs ys → IsPrefix ys zs → IsPrefix xs zs
  IsPrefix-trans xs ys zs (us, e) (vs, f) =
      (us ++ vs, f ∙ ap (λ l. l ++ vs) e ∙ append_assoc xs us vs)

  pub length-IsPrefix : (xs ys : List A) → IsPrefix xs ys → length xs ≤ length ys
  length-IsPrefix xs ys (zs, e) = omega (arith, length-append xs zs, ap length e)

  -- Of two prefixes of one list, the shorter is a prefix of the longer.
  pub IsPrefix-shorter :
      (xs ys zs : List A) → IsPrefix xs zs → IsPrefix ys zs → length xs ≤ length ys → IsPrefix xs ys
  IsPrefix-shorter [] ys zs p q h = (ys, refl)
  IsPrefix-shorter (x ∷ xs) [] zs p q h = absurd (omega arith)
  IsPrefix-shorter (x ∷ xs) (y ∷ ys) [] (ws, e) q h = absurd (ground arith)
  IsPrefix-shorter (x ∷ xs) (y ∷ ys) (z ∷ zs) (us, e) (vs, f) h =
      let (ws, g) = IsPrefix-shorter xs ys zs (us, cc e) (vs, cc f) (omega arith) in
      (ws, cc (e, f, g))

  -- A prefix grows by the element behind it.
  pub IsPrefix-next :
      (xs ys : List A) (a : A)
      → IsPrefix xs ys
      → get_elem? ys (length xs) ≡ some a
      → IsPrefix (xs ++ a ∷ []) ys
  IsPrefix-next [] [] a p h = absurd (ground arith)
  IsPrefix-next [] (y ∷ ys) a p h = (ys, cc h)
  IsPrefix-next (x ∷ xs) [] a p h = absurd (ground arith)
  IsPrefix-next (x ∷ xs) (y ∷ ys) a (zs, e) h =
      let (ws, g) = IsPrefix-next xs ys a (zs, cc e) h in (ws, cc (e, g))

  get_elem?-take : (n : ℕ) (xs : List A) (i : ℕ) → i < n → get_elem? (take n xs) i ≡ get_elem? xs i
  get_elem?-take zero xs i h = absurd (omega arith)
  get_elem?-take (suc n) [] i h = refl
  get_elem?-take (suc n) (x ∷ xs) zero h = refl
  get_elem?-take (suc n) (x ∷ xs) (suc i) h = get_elem?-take n xs i (omega arith)

  get_elem?-drop : (n : ℕ) (xs : List A) (i : ℕ) → get_elem? (drop n xs) i ≡ get_elem? xs (n + i)
  get_elem?-drop zero xs i = ap (get_elem? xs) (omega arith)
  get_elem?-drop (suc n) [] i = refl
  get_elem?-drop (suc n) (x ∷ xs) i =
      get_elem?-drop n xs i ∙ ap (get_elem? (x ∷ xs)) {x = suc (n + i)} (omega arith)

  pub get_elem?-row_of :
      (ps : List A) (i offset k : ℕ)
      → offset < chunk_size
      → k ≡ i * chunk_size + offset
      → get_elem? ps k ≡ get_elem? (row_of i ps) offset
  get_elem?-row_of ps i offset k h e =
      ap (get_elem? ps) e
      ∙ sym (get_elem?-drop (i * chunk_size) ps offset)
      ∙ sym (get_elem?-take chunk_size (drop (i * chunk_size) ps) offset h)

  pub length-row_of :
      (ms : List A) (i : ℕ) → length (row_of i ms) ≡ min chunk_size (length ms - i * chunk_size)
  length-row_of ms i =
      length-take-min chunk_size (drop (i * chunk_size) ms)
      ∙ ap (min chunk_size) (length-drop (i * chunk_size) ms)
