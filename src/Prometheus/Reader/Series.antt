-- ===== src/Prometheus/Reader/Series.antt =====
-- The samples of a family are of different series: a group takes all the sources of its series.
use Prim.Native.Nat.{lt, eq}
use metrics.Common.{
  ℕ, zero, suc, ◌+◌, ◌<◌, ◌≡◌, ◌∙◌, refl, sym, ap, subst, ◌↔◌, ◌⊎◌, inl, inr, true, false, Bytes,
  List, [], ◌∷◌, All, All-imp, Option, some, arith, get_elem?, drop, Bool-cases,
}
use metrics.Common.Int.{pos}
use metrics.Plan.{ProfileOutput}
use metrics.Storage.{ItemPtr}
use metrics.Compare.{Cmp, IsOrder, cmp_pair, cmp_on}
use metrics.Compare.Orders.{then_lt, cmp_pair-IsOrder}
use metrics.Compare.Sort.{Ascending}
use metrics.Prometheus.Source.{Source, SourceKind, cmp_source, cmp_output, cmp_kind}
use metrics.Prometheus.Source.Ordered.{cmp_output-IsOrder, cmp_kind-IsOrder}
use metrics.Prometheus.Sample.{Memory, Group, same_series}
use metrics.Prometheus.Reader.Text.{group_at}
use metrics.Prometheus.Reader.Values.{run_length, group-run_sum}

-- What the sources of one series have in common.
abbrev Series : Type 0
Series = ProfileOutput × SourceKind

abbrev series : Source → Series
series s = (s.output, s.kind)

abbrev cmp_series : Cmp Series
cmp_series = cmp_pair cmp_output cmp_kind

cmp_series-IsOrder : IsOrder cmp_series
cmp_series-IsOrder = cmp_pair-IsOrder cmp_output cmp_output-IsOrder cmp_kind cmp_kind-IsOrder

same_series-series : (a b : Source) → same_series a b ≡ true → series a ≡ series b
unfolding same_series
same_series-series a b h = ground arith

same_series-not : (a b : Source) → same_series a b ≡ false → ¬ (series a ≡ series b)
unfolding same_series
same_series-not a b h e = ground (arith, ap (λ p. p.0) e, ap (λ p. p.1) e)

-- A series stands before another or is it.
abbrev UpTo : Series → Series → Type 0
UpTo p q = (cmp_series p q ≡ lt) ⊎ (p ≡ q)

UpTo-trans : (p q r : Series) → UpTo p q → UpTo q r → UpTo p r
UpTo-trans p q r (inl h) (inl k) = inl (cmp_series-IsOrder.trans p q r h k)
UpTo-trans p q r (inl h) (inr k) = inl (subst (λ t. cmp_series p t ≡ lt) k h)
UpTo-trans p q r (inr h) k = subst (λ t. UpTo t r) (sym h) k

no_less : (p : Series) → ¬ (cmp_series p p ≡ lt)
no_less p h = let both : lt ≡ eq = sym h ∙ cmp_series-IsOrder.same p in absurd (ground arith)

-- What stands behind another series is not the first one.
apart : (p q r : Series) → UpTo p q → ¬ (p ≡ q) → UpTo q r → ¬ (p ≡ r)
apart p q r (inr h) n k e = n h
apart p q r (inl h) n (inl k) e =
    no_less r (subst (λ t. cmp_series t r ≡ lt) e (cmp_series-IsOrder.trans p q r h k))
apart p q r (inl h) n (inr k) e = n (e ∙ sym k)

module _ (address : ItemPtr → ℕ) where
  cmp_source-UpTo : (a b : Source) → cmp_source address a b ≡ lt → UpTo (series a) (series b)
  unfolding cmp_source cmp_on cmp_pair
  cmp_source-UpTo a b h = elim (then_lt (cmp_series (series a) (series b)) _ h) [
    | inl first ↦ inl first
    | inr (same, _) ↦ inr (cmp_series-IsOrder.equal (series a) (series b) same)
  ]

All-at :
    (P : Source → Type 0) (xs : List Source) (n : ℕ) (s : Source)
    → All P xs
    → get_elem? xs n ≡ some s
    → P s
All-at P [] n s h e = absurd (ground arith)
All-at P (x ∷ xs) zero s (px, h) e = let same : x ≡ s = cc e in subst P same px
All-at P (x ∷ xs) (suc n) s (px, h) e = All-at P xs n s h e

module _ (memory : ℕ → ℕ → Memory) (finite_text : Bytes → Option Bytes)
    (address : ItemPtr → ℕ) where
  -- In an ascending list that begins no earlier than a series, its run holds all its sources.
  run_covers :
      (first : Source) (list : List Source) (j : ℕ) (s : Source)
      → All (λ x. UpTo (series first) (series x)) list
      → Ascending (cmp_source address) list
      → get_elem? list j ≡ some s
      → (same_series first s ≡ true) ↔ (j < run_length memory finite_text first list)
  unfolding run_length
  run_covers first [] j s behind up e = absurd (ground arith)
  run_covers first (x ∷ rest) zero s (near, behind) (less, up) e =
      let here : x ≡ s = cc e in
      elim (Bool-cases (same_series first x)) [
        | inl with_it ↦
            rw with_it (λ h. omega arith, λ h. subst (λ t. same_series first t ≡ true) here with_it)
        | inr without ↦ rw without (
          λ h.
              let t : same_series first x ≡ true =
                subst (λ t. same_series first t ≡ true) (sym here) h in
              absurd (ground arith),
          λ h. absurd (omega arith),
        )
      ]
  run_covers first (x ∷ rest) (suc j) s (near, behind) (less, up) e =
      let (forth, back) = run_covers first rest j s behind up e in
      elim (Bool-cases (same_series first x)) [
        | inl with_it ↦ rw with_it (λ h. omega (arith, forth h), λ h. back (omega arith))
        | inr without ↦ rw without (
          λ h. absurd (
              apart (series first) (series x) (series s) near (same_series-not first x without)
                (cmp_source-UpTo address x s
                  (All-at (λ y. cmp_source address x y ≡ lt) rest j s less e))
                (same_series-series first s h)),
          λ h. absurd (omega arith),
        )
      ]

  Ascending-drop :
      (list : List Source) (i : ℕ)
      → Ascending (cmp_source address) list
      → Ascending (cmp_source address) (drop i list)
  Ascending-drop list zero h = h
  Ascending-drop [] (suc i) h = tt
  Ascending-drop (x ∷ list) (suc i) (less, h) = Ascending-drop list i h

  behind_first :
      (list : List Source) (i : ℕ) (first : Source)
      → Ascending (cmp_source address) list
      → get_elem? list i ≡ some first
      → All (λ x. UpTo (series first) (series x)) (drop i list)
  behind_first [] i first h e = absurd (ground arith)
  behind_first (x ∷ list) zero first (less, h) e =
      let here : x ≡ first = cc e in
      subst (λ t. All (λ y. UpTo (series t) (series y)) (x ∷ list)) here
        (inr refl, All-imp (λ y. cmp_source-UpTo address x y) list less)
  behind_first (x ∷ list) (suc i) first (less, h) e = behind_first list i first h e

  get_elem?-drop :
      (list : List Source) (i j : ℕ) → get_elem? (drop i list) j ≡ get_elem? list (i + j)
  get_elem?-drop list zero j = let e : j ≡ 0 + j = omega arith in ap (get_elem? list) e
  get_elem?-drop [] (suc i) j = let e : suc (i + j) ≡ suc i + j = omega arith in ap (get_elem? []) e
  get_elem?-drop (x ∷ list) (suc i) j =
      let e : suc (i + j) ≡ suc i + j = omega arith in
      get_elem?-drop list i j ∙ ap (get_elem? (x ∷ list)) e

  -- If the sources ascend, the group that begins at a source takes exactly those behind it that are of
  -- its series, so no later sample of the family can be of that series.
  pub group_at-series :
      (sources : List Source) (family i j : ℕ) (first s : Source)
      → Ascending (cmp_source address) sources
      → get_elem? sources i ≡ some first
      → get_elem? sources (i + j) ≡ some s
      → (same_series first s ≡ true)
        ↔ (i + j < (group_at memory finite_text sources family i first).next)
  group_at-series sources family i j first s up e e' =
      let g : Group = record { value = 0; gauge = pos 0; next = i } in
      let length =
        (group-run_sum memory finite_text family first g (drop i sources) (omega arith)).1 in
      let (forth, back) =
        run_covers first (drop i sources) j s (behind_first sources i first up e)
          (Ascending-drop sources i up) (get_elem?-drop sources i j ∙ e') in
      (λ h. omega (arith, length, forth h), λ h. back (omega (arith, length)))
