-- ===== src/Prometheus/Reader/Skip.antt =====
-- The inner loop of `next_sample` of src/prometheus.rs that passes over sources of other families.
use metrics.Common.{
  ℕ, zero, suc, ◌+◌, ◌≤◌, ◌≡◌, refl, ap, sym, ◌∙◌, true, List, [], ◌∷◌, none, some, arith, length,
  get_elem?, drop, get_elem?_beyond, Option-cases, inl, inr, Bool-cases, subst, false,
}
use metrics.Prometheus.Source.{Source, supports}
use metrics.Prometheus.Reader.{skip}

-- The indices only grow.
pub skip_le : (family i : ℕ) (rest : List Source) → i ≤ skip family i rest
unfolding skip
skip_le family i [] = omega arith
skip_le family i (s ∷ rest) = elim (Bool-cases (supports s.kind family)) [
  | inl e ↦ rw e (omega arith)
  | inr e ↦ rw e (omega (arith, skip_le family (i + 1) rest))
]

pub drop_get :
    {A : Type 0} (xs : List A) (i : ℕ) (a : A)
    → get_elem? xs i ≡ some a
    → drop i xs ≡ a ∷ drop (suc i) xs
drop_get [] i a h = absurd (ground arith)
drop_get (x ∷ xs) zero a h = ground arith
drop_get (x ∷ xs) (suc i) a h = drop_get xs i a h

pub drop-none : {A : Type 0} (xs : List A) (i : ℕ) → get_elem? xs i ≡ none → drop i xs ≡ []
drop-none [] zero h = refl
drop-none [] (suc i) h = refl
drop-none (x ∷ xs) zero h = absurd (ground arith)
drop-none (x ∷ xs) (suc i) h = drop-none xs i h

module _ (sources : List Source) (family : ℕ) where
  -- The first source from an index on that the family is of, as the loop finds it.
  abbrev pub found_from : ℕ → ℕ
  found_from i = skip family i (drop i sources)

  pub skip-none : (i : ℕ) → get_elem? sources i ≡ none → found_from i ≡ i
  unfolding skip
  skip-none i h = rw (drop-none sources i h) refl

  pub skip-here :
      (i : ℕ) (first : Source)
      → get_elem? sources i ≡ some first
      → supports first.kind family ≡ true
      → found_from i ≡ i
  unfolding skip
  skip-here i first h e = rw (drop_get sources i first h, e) refl

  pub skip-next :
      (i : ℕ) (first : Source)
      → get_elem? sources i ≡ some first
      → supports first.kind family ≡ false
      → found_from i ≡ found_from (i + 1)
  unfolding skip
  skip-next i first h e =
      let one : suc i ≡ i + 1 = omega arith in
      ap (skip family i) (drop_get sources i first h)
      ∙ rw e (ap (λ (g : ℕ). skip family (i + 1) (drop g sources)) one)

  pub skip-supports :
      (k i : ℕ) (first : Source)
      → length sources ≤ i + k
      → get_elem? sources (found_from i) ≡ some first
      → supports first.kind family ≡ true
  skip-supports zero i first room h =
      let beyond = get_elem?_beyond sources i (omega arith) in
      let same : none ≡ some first =
        sym beyond ∙ sym (ap (get_elem? sources) (skip-none i beyond)) ∙ h in
      absurd (ground arith)
  skip-supports (suc k) i first room h = elim (Option-cases (get_elem? sources i)) [
    | inl none_left ↦
        let same : none ≡ some first =
          sym none_left ∙ sym (ap (get_elem? sources) (skip-none i none_left)) ∙ h in
        absurd (ground arith)
    | inr (s, here) ↦ elim (Bool-cases (supports s.kind family)) [
      | inl e ↦
          let same : some s ≡ some first =
            sym here ∙ sym (ap (get_elem? sources) (skip-here i s here e)) ∙ h in
          let eq : s ≡ first = cc same in subst (λ (x : Source). supports x.kind family ≡ true) eq e
      | inr e ↦
          skip-supports k (i + 1) first (omega arith)
            (sym (ap (get_elem? sources) (skip-next i s here e)) ∙ h)
    ]
  ]
