-- ===== src/Keyed/Find.antt =====
-- The place of the item that was registered under a key, in the order of registration.
use metrics.Common.{
  ℕ, zero, suc, ◌<◌, ◌≡◌, ◌≢◌, refl, sym, ap, ◌∙◌, List, [], ◌∷◌, ◌++◌, Option, none, some, arith,
  ite, length, get_elem?,
}

abbrev pub shift : Option ℕ → Option ℕ
shift none = none
shift (some n) = some (suc n)

module _ {T K : Type 0} (dec : Discrete K) (key : T → K) where
  -- The place of the first item that was registered under a key.
  unfoldable pub find_by : K → List T → Option ℕ
  find_by k [] = none
  find_by k (m ∷ ms) = ite (dec (key m) k) (some 0) (shift (find_by k ms))

  pub find_by_lt : (k : K) (ms : List T) {n : ℕ} → find_by k ms ≡ some n → n < length ms
  unfolding find_by
  find_by_lt k [] h = absurd (ground arith)
  find_by_lt k (m ∷ ms) {n = zero} h = omega arith
  find_by_lt k (m ∷ ms) {n = suc n} h = elim (dec (key m) k) [
    | yes p ↦ absurd (ground arith)
    | no p ↦ omega (arith, find_by_lt k ms {n = n} (ground arith))
  ]

  -- One more item at the end is found if its key was not there before.
  pub find_by-append_old :
      (k : K) (ms : List T) (m : T) {n : ℕ}
      → find_by k ms ≡ some n
      → find_by k (ms ++ m ∷ []) ≡ some n
  unfolding find_by
  find_by-append_old k [] m h = absurd (ground arith)
  find_by-append_old k (x ∷ ms) m {n = zero} h = elim (dec (key x) k) [
    | yes p ↦ ground arith
    | no p ↦ absurd (ground arith)
  ]
  find_by-append_old k (x ∷ ms) m {n = suc n} h = elim (dec (key x) k) [
    | yes p ↦ absurd (ground arith)
    | no p ↦ ground (arith, find_by-append_old k ms m {n = n} (ground arith))
  ]

  pub find_by-append_self :
      (k : K) (ms : List T) (m : T)
      → find_by k ms ≡ none
      → key m ≡ k
      → find_by k (ms ++ m ∷ []) ≡ some (length ms)
  unfolding find_by
  find_by-append_self k [] m h e = ground arith
  find_by-append_self k (x ∷ ms) m h e = elim (dec (key x) k) [
    | yes p ↦ absurd (ground arith)
    | no p ↦ ground (arith, find_by-append_self k ms m)
  ]

  pub find_by-append_ne :
      (k : K) (ms : List T) (m : T) → key m ≢ k → find_by k (ms ++ m ∷ []) ≡ find_by k ms
  unfolding find_by
  find_by-append_ne k [] m e = ground arith
  find_by-append_ne k (x ∷ ms) m e = ground (arith, find_by-append_ne k ms m)

  -- What is found was registered under the key that was looked for.
  pub find_by-meta :
      (k : K) (ms : List T) {n : ℕ}
      → find_by k ms ≡ some n
      → (m : T) × (get_elem? ms n ≡ some m) × (key m ≡ k)
  unfolding find_by
  find_by-meta k [] h = absurd (ground arith)
  find_by-meta k (x ∷ ms) {n = zero} h = elim (dec (key x) k) [
    | yes p ↦ (x, refl, p)
    | no p ↦ absurd (ground arith)
  ]
  find_by-meta k (x ∷ ms) {n = suc n} h = elim (dec (key x) k) [
    | yes p ↦ absurd (ground arith)
    | no p ↦ find_by-meta k ms {n = n} (ground arith)
  ]

  -- Different keys are found at different places.
  pub find_by-injective :
      (k k' : K) (ms : List T) {n n' : ℕ}
      → find_by k ms ≡ some n
      → find_by k' ms ≡ some n'
      → n ≡ n'
      → k ≡ k'
  find_by-injective k k' ms {n} h h' same =
      let (m, at_n, under) = find_by-meta k ms h in
      let (m', at_n', under') = find_by-meta k' ms h' in
      let e : some m ≡ some m' = sym at_n ∙ ap (get_elem? ms) same ∙ at_n' in
      let f : m ≡ m' = cc e in sym under ∙ ap key f ∙ under'
