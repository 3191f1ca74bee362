-- ===== src/Storage/Lists.antt =====
-- Windows of a list: `take` and `drop` at multiples of the chunk size, and counting.
use metrics.Common.{
  ℕ, zero, suc, ◌+◌, ◌≤◌, ◌≡◌, ◌≢◌, ◌⊎◌, inl, inr, ◌∙◌, min, refl, sym, ap, List, [], ◌∷◌, ◌++◌,
  map, arith, length, take, drop, replicate, set, get_elem?, some, some, drop_all, ◌<◌,
  length-replicate, get_elem?-replicate,
}
use metrics.Storage.{chunk_size, count_up, new_box}

module _ {ℓ} {A : Type ℓ} where
  pub drop-drop : (m n : ℕ) (xs : List A) → drop m (drop n xs) ≡ drop (n + m) xs
  drop-drop m zero xs = ap (λ k. drop k xs) (omega arith)
  drop-drop m (suc n) [] = drop_all m [] (omega arith) ∙ sym (drop_all (suc n + m) [] (omega arith))
  drop-drop m (suc n) (x ∷ xs) =
      drop-drop m n xs ∙ ap (λ k. drop k (x ∷ xs)) {x = suc (n + m)} (omega arith)

  pub take_all : (n : ℕ) (xs : List A) → length xs ≤ n → take n xs ≡ xs
  take_all zero [] h = refl
  take_all zero (x ∷ xs) h = absurd (omega arith)
  take_all (suc n) [] h = refl
  take_all (suc n) (x ∷ xs) h = ap (◌∷◌ x) (take_all n xs (omega arith))

  pub length-take-min : (n : ℕ) (xs : List A) → length (take n xs) ≡ min n (length xs)
  length-take-min zero xs = omega arith
  length-take-min (suc n) [] = omega arith
  length-take-min (suc n) (x ∷ xs) = omega (arith, length-take-min n xs)

  pub take-append_left : (n : ℕ) (xs ys : List A) → n ≤ length xs → take n (xs ++ ys) ≡ take n xs
  take-append_left zero xs ys h = refl
  take-append_left (suc n) [] ys h = absurd (omega arith)
  take-append_left (suc n) (x ∷ xs) ys h = ap (◌∷◌ x) (take-append_left n xs ys (omega arith))

  pub drop-append_left :
      (n : ℕ) (xs ys : List A) → n ≤ length xs → drop n (xs ++ ys) ≡ drop n xs ++ ys
  drop-append_left zero xs ys h = refl
  drop-append_left (suc n) [] ys h = absurd (omega arith)
  drop-append_left (suc n) (x ∷ xs) ys h = drop-append_left n xs ys (omega arith)

  pub drop-get_elem? :
      (xs : List A) (i : ℕ) {x : A} → get_elem? xs i ≡ some x → drop i xs ≡ x ∷ drop (i + 1) xs
  drop-get_elem? [] i h = absurd (ground arith)
  drop-get_elem? (y ∷ xs) zero h = ground arith
  drop-get_elem? (y ∷ xs) (suc i) {x} h =
      let e : suc (i + 1) ≡ suc i + 1 = omega arith in
      drop-get_elem? xs i h ∙ ap (λ k. x ∷ drop k (y ∷ xs)) e

  -- An element of a list with one more at its end, and of a list that was written to.
  pub get_elem?-append_cases :
      (xs : List A) (a : A) (i : ℕ) {b : A}
      → get_elem? (xs ++ a ∷ []) i ≡ some b
      → (get_elem? xs i ≡ some b) ⊎ ((i ≡ length xs) × (a ≡ b))
  get_elem?-append_cases [] a zero h = inr (refl, ground arith)
  get_elem?-append_cases [] a (suc i) h = absurd (ground arith)
  get_elem?-append_cases (x ∷ xs) a zero h = inl h
  get_elem?-append_cases (x ∷ xs) a (suc i) h = elim (get_elem?-append_cases xs a i h) [
    | inl old ↦ inl old
    | inr (e, f) ↦ inr (ap suc e, f)
  ]

  pub get_elem?-set_cases :
      (xs : List A) (n : ℕ) (a : A) (i : ℕ) {b : A}
      → get_elem? (set xs n a) i ≡ some b
      → ((i ≢ n) × (get_elem? xs i ≡ some b)) ⊎ ((i ≡ n) × (a ≡ b))
  get_elem?-set_cases [] n a i h = absurd (ground arith)
  get_elem?-set_cases (x ∷ xs) zero a zero h = inr (refl, ground arith)
  get_elem?-set_cases (x ∷ xs) zero a (suc i) h = inl (omega arith, h)
  get_elem?-set_cases (x ∷ xs) (suc n) a zero h = inl (omega arith, h)
  get_elem?-set_cases (x ∷ xs) (suc n) a (suc i) h = elim (get_elem?-set_cases xs n a i h) [
    | inl (e, f) ↦ inl (omega arith, f)
    | inr (e, f) ↦ inr (ap suc e, f)
  ]

  -- Writing behind what was written of a half-filled array.
  pub set-filled :
      {B : Type ℓ} (f : A → B) (xs : List A) (x : A) (b : B) (k n : ℕ)
      → n ≡ suc k
      → set (map f xs ++ replicate n b) (length xs) (f x) ≡ map f (xs ++ x ∷ []) ++ replicate k b
  set-filled f [] x b k zero h = absurd (omega arith)
  set-filled f [] x b k (suc n) h = ap (λ m. f x ∷ replicate m b) (omega arith)
  set-filled f (y ∷ xs) x b k n h = ap (◌∷◌ (f y)) (set-filled f xs x b k n h)

  pub get_elem?-filled :
      {B : Type ℓ} (f : A → B) (xs : List A) (ys : List B) (b : B) (y : A)
      → get_elem? (map f (xs ++ y ∷ []) ++ ys) (length xs) ≡ some (f y)
  get_elem?-filled f [] ys b y = refl
  get_elem?-filled f (x ∷ xs) ys b y = get_elem?-filled f xs ys b y

pub length-count_up : (i n : ℕ) → length (count_up i n) ≡ n
length-count_up i zero = refl
length-count_up i (suc n) = ap suc (length-count_up (i + 1) n)

-- What a function gives on successive numbers.
pub get_elem?-map-count_up {ℓ} :
    {A : Type ℓ} (f : ℕ → A) (k n i : ℕ) {a : A}
    → get_elem? (map f (count_up k n)) i ≡ some a
    → a ≡ f (k + i)
get_elem?-map-count_up f k zero i h = absurd (ground arith)
get_elem?-map-count_up f k (suc n) zero h = let e : k + 0 ≡ k = omega arith in cc (h, e)
get_elem?-map-count_up f k (suc n) (suc i) h =
    get_elem?-map-count_up f (k + 1) n i h ∙ ap f {x = k + 1 + i} {y = k + suc i} (omega arith)

pub length-map-count_up {ℓ} : {A : Type ℓ} (f : ℕ → A) (k n : ℕ) → length (map f (count_up k n)) ≡ n
length-map-count_up f k zero = refl
length-map-count_up f k (suc n) = ap suc (length-map-count_up f (k + 1) n)

pub length-new_box : {A : Type 0} (a : A) → length (new_box a) ≡ chunk_size
unfolding new_box
length-new_box a = length-replicate chunk_size a

pub get_elem?-new_box :
    {A : Type 0} (a : A) (i : ℕ) → i < chunk_size → get_elem? (new_box a) i ≡ some a
unfolding new_box
get_elem?-new_box a i h = get_elem?-replicate chunk_size a i h
