-- ===== src/Prometheus/Reader/Values.antt =====
-- The value of a sample: the sum over the sources of one series.
use metrics.Common.{
  ℕ, ◌-◌, ◌^◌, ◌∙◌, ltb, sym, subst, ◌+◌, ◌≤◌, ◌≡◌, refl, ap, if◌then◌else◌, Bytes, List, [], ◌∷◌,
  arith, min, Bool-cases, inl, inr, Option,
}
use metrics.Common.Int.{ℤ, pos, negsuc, ◌+ℤ◌, pos_part, neg_part, +ℤ_parts, eq_of_parts}
use metrics.Scalar.Value.{IsI64, gauge_get, to_i64}
use metrics.Slot.{Counter, read, u64_max}
use metrics.Prometheus.Source.{Source, SourceItem, timing, counter, gauge}
use metrics.Prometheus.Reader.{group}
use metrics.Prometheus.Sample.{
  Memory, Group, family_row, same_series, add_item, clamp, saturating_add_i64,
}

-- What a source adds to a value.
unfoldable pub load : Memory → Counter → SourceItem → ℕ
load memory c (timing item) = read c (memory.slot item)
load memory c (counter item) = memory.scalar item
load memory c (gauge item) = 0

add_item-value :
    (memory : Memory) (c : Counter) (item : SourceItem) (g : Group)
    → g.value ≤ u64_max
    → (add_item memory c item g).value ≡ min (g.value + load memory c item) u64_max
unfolding add_item load
add_item-value memory c (timing item) g h = refl
add_item-value memory c (counter item) g h = refl
add_item-value memory c (gauge item) g h = omega arith

add_item-next :
    (memory : Memory) (c : Counter) (item : SourceItem) (g : Group)
    → (add_item memory c item g).next ≡ g.next + 1
unfolding add_item
add_item-next memory c item g = ground arith

-- What a source adds to a gauge.
unfoldable pub gauge_load : Memory → SourceItem → ℤ
gauge_load memory (timing item) = pos 0
gauge_load memory (counter item) = pos 0
gauge_load memory (gauge item) = gauge_get (memory.scalar item)

-- The `i64` that is nearest to an integer.
unfoldable pub nearest_i64 : ℤ → ℤ
nearest_i64 z =
    if ltb (2 ^ 63 - 1) (pos_part z)
    then pos (2 ^ 63 - 1)
    else if ltb (2 ^ 63) (neg_part z)
    then negsuc (2 ^ 63 - 1)
    else z

nearest_i64_self : (z : ℤ) → IsI64 z → nearest_i64 z ≡ z
unfolding nearest_i64
nearest_i64_self (pos n) h = ground arith
nearest_i64_self (negsuc n) h = ground arith

pub nearest_i64-IsI64 : (z : ℤ) → IsI64 (nearest_i64 z)
unfolding nearest_i64
nearest_i64-IsI64 (pos n) = ground arith
nearest_i64-IsI64 (negsuc n) = ground arith

saturating_add_i64-nearest_i64 : (a b : ℤ) → saturating_add_i64 a b ≡ nearest_i64 (a +ℤ b)
unfolding saturating_add_i64 nearest_i64
saturating_add_i64-nearest_i64 a b = clamped (a +ℤ b)
  where
    clamped : (z : ℤ) → clamp z ≡ nearest_i64 z
    clamped (pos n) = ground arith
    clamped (negsuc n) = ground arith

+ℤ_zero : (z : ℤ) → z +ℤ pos 0 ≡ z
+ℤ_zero z = eq_of_parts (z +ℤ pos 0) z (omega (arith, +ℤ_parts z (pos 0)))

add_item-gauge :
    (memory : Memory) (c : Counter) (item : SourceItem) (g : Group)
    → IsI64 g.gauge
    → (add_item memory c item g).gauge ≡ nearest_i64 (g.gauge +ℤ gauge_load memory item)
unfolding add_item gauge_load gauge_get
add_item-gauge memory c (timing item) g h =
    sym (ap nearest_i64 (+ℤ_zero g.gauge) ∙ nearest_i64_self g.gauge h)
add_item-gauge memory c (counter item) g h =
    sym (ap nearest_i64 (+ℤ_zero g.gauge) ∙ nearest_i64_self g.gauge h)
add_item-gauge memory c (gauge item) g h =
    saturating_add_i64-nearest_i64 g.gauge (to_i64 (memory.scalar item))

module _ (memory : ℕ → ℕ → Memory) (finite_text : Bytes → Option Bytes) where
  -- The exact sum over the sources of the series from an index on, and how many they are.
  unfoldable pub run_sum : ℕ → Source → ℕ → List Source → ℕ
  run_sum family first i [] = 0
  run_sum family first i (s ∷ rest) =
      let more = run_sum family first (i + 1) rest in
      if same_series first s then load (memory family i) (family_row family).1 s.item + more else 0

  -- The gauges of the series added up from a value on, each sum taken to the nearest `i64`.
  unfoldable pub run_gauge : ℕ → Source → ℕ → ℤ → List Source → ℤ
  run_gauge family first i z [] = z
  run_gauge family first i z (s ∷ rest) =
      let more =
        run_gauge family first (i + 1) (nearest_i64 (z +ℤ gauge_load (memory family i) s.item))
          rest in
      if same_series first s then more else z

  unfoldable pub run_length : Source → List Source → ℕ
  run_length first [] = 0
  run_length first (s ∷ rest) =
      let more = run_length first rest in if same_series first s then 1 + more else 0

  -- The counters of a group, and where it ends.
  pub group-run_sum :
      (family : ℕ) (first : Source) (g : Group) (rest : List Source)
      → g.value ≤ u64_max
      → ((group memory finite_text family first g rest).value
          ≡ min (g.value + run_sum family first g.next rest) u64_max)
        × ((group memory finite_text family first g rest).next ≡ g.next + run_length first rest)
  unfolding group run_sum run_length
  group-run_sum family first g [] h = (omega arith, omega arith)
  group-run_sum family first g (s ∷ rest) h =
      let m = memory family g.next in
      let c = (family_row family).1 in
      let added = add_item m c s.item g in
      let value = add_item-value m c s.item g h in
      let next = add_item-next m c s.item g in
      let ih = group-run_sum family first added rest (omega (arith, value)) in
      let moved = ap (λ i. run_sum family first i rest) next in
      elim (Bool-cases (same_series first s)) [
        | inl e ↦
            rw e (omega (arith, ih, value, next, moved), omega (arith, ih, value, next, moved))
        | inr e ↦ rw e (omega arith, omega arith)
      ]

  -- The gauges of a group.
  pub group-run_gauge :
      (family : ℕ) (first : Source) (g : Group) (rest : List Source)
      → IsI64 g.gauge
      → ((group memory finite_text family first g rest).gauge
          ≡ run_gauge family first g.next g.gauge rest)
        × IsI64 (run_gauge family first g.next g.gauge rest)
  unfolding group run_gauge
  group-run_gauge family first g [] h = (refl, h)
  group-run_gauge family first g (s ∷ rest) h =
      let m = memory family g.next in
      let c = (family_row family).1 in
      let added = add_item m c s.item g in
      let sum = nearest_i64 (g.gauge +ℤ gauge_load m s.item) in
      let own = add_item-gauge m c s.item g h in
      let next = add_item-next m c s.item g in
      let (ih, bound) =
        group-run_gauge family first added rest
          (subst IsI64 (sym own) (nearest_i64-IsI64 (g.gauge +ℤ gauge_load m s.item))) in
      let moved : run_gauge family first added.next added.gauge rest
          ≡ run_gauge family first (g.next + 1) sum rest =
        ap (λ i. run_gauge family first i added.gauge rest) next
        ∙ ap (λ z. run_gauge family first (g.next + 1) z rest) own in
      elim (Bool-cases (same_series first s)) [
        | inl e ↦ rw e (ih ∙ moved, subst IsI64 moved bound)
        | inr e ↦ rw e (refl, h)
      ]

  -- From a `u64` and an `i64` on, the inner loop adds up exactly the sources of one series that stand
  -- next to each other, and stops right behind them: its value is the sum of the counters, or the
  -- largest `u64` if that is less, and its gauge that of the gauges, each sum taken to the nearest `i64`.
  pub group-sums :
      (family : ℕ) (first : Source) (g : Group) (rest : List Source)
      → g.value ≤ u64_max
      → IsI64 g.gauge
      → ((group memory finite_text family first g rest).value
          ≡ min (g.value + run_sum family first g.next rest) u64_max)
        × ((group memory finite_text family first g rest).gauge
            ≡ run_gauge family first g.next g.gauge rest)
        × ((group memory finite_text family first g rest).next ≡ g.next + run_length first rest)
  group-sums family first g rest h bound =
      let (value, next) = group-run_sum family first g rest h in
      (value, (group-run_gauge family first g rest bound).0, next)
