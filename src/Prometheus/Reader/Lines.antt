-- ===== src/Prometheus/Reader/Lines.antt =====
-- Where the lines of `next_sample` of src/prometheus.rs stand in the text of a family.
use metrics.Common.{
  ℕ, zero, suc, ◌+◌, ◌≤◌, ◌<◌, ◌≡◌, refl, ap, sym, ◌∙◌, true, Bytes, List, [], ◌∷◌, ◌++◌, Option,
  none, some, arith, length, get_elem?, drop, get_elem?_beyond, Option-cases, inl, inr, Bool-cases,
  lt_of_get_elem?,
}
use metrics.Common.Int.{pos}
use metrics.Slot.{Counter}
use metrics.Prometheus.Source.{Source, supports}
use metrics.Prometheus.Reader.{skip, group}
use metrics.Prometheus.Sample.{Memory, Group, family_row, same_series, add_item, sample_text}
use metrics.Prometheus.Reader.Text.{group_at, lines, lines_at}
use metrics.Prometheus.Reader.Skip.{
  skip_le, drop_get, skip-none, skip-here, skip-next, skip-supports,
}

module _ (memory : ℕ → ℕ → Memory) (finite_text : Bytes → Option Bytes) where
  add_item-next :
      (m : Memory) (c : Counter) (s : Source) (g : Group)
      → (add_item m c s.item g).next ≡ g.next + 1
  unfolding add_item
  add_item-next m c s g = ground arith

  group_le :
      (family : ℕ) (first : Source) (g : Group) (rest : List Source)
      → g.next ≤ (group memory finite_text family first g rest).next
  unfolding group
  group_le family first g [] = omega arith
  group_le family first g (s ∷ rest) = elim (Bool-cases (same_series first s)) [
    | inr e ↦ rw e (omega arith)
    | inl e ↦
        let added = add_item (memory family g.next) (family_row family).1 s.item g in
        rw e (
          omega (
            arith,
            add_item-next (memory family g.next) (family_row family).1 s g,
            group_le family first added rest,
          ))
  ]

  same_series_self : (s : Source) → same_series s s ≡ true
  unfolding same_series
  same_series_self s = ground arith

  pub group_at_lt :
      (sources : List Source) (family i : ℕ) (first : Source)
      → get_elem? sources i ≡ some first
      → i < (group_at memory finite_text sources family i first).next
  unfolding group
  group_at_lt sources family i first h =
      let g : Group = record { value = 0; gauge = pos 0; next = i } in
      let added = add_item (memory family i) (family_row family).1 first.item g in
      rw (drop_get sources i first h, same_series_self first)
        (omega (
          arith,
          add_item-next (memory family i) (family_row family).1 first g,
          group_le family first added (drop (suc i) sources),
        ))

  -- More room than there are sources changes nothing.
  lines_enough :
      (sources : List Source) (family k k' i : ℕ)
      → length sources ≤ i + k
      → length sources ≤ i + k'
      → lines memory finite_text sources family k i ≡ lines memory finite_text sources family k' i
  unfolding lines
  lines_enough sources family zero zero i h h' = refl
  lines_enough sources family zero (suc k') i h h' = sym (
      ap (lines_at memory finite_text sources family i (lines memory finite_text sources family k'))
        (get_elem?_beyond sources i (omega arith)))
  lines_enough sources family (suc k) zero i h h' =
      ap (lines_at memory finite_text sources family i (lines memory finite_text sources family k))
        (get_elem?_beyond sources i (omega arith))
  lines_enough sources family (suc k) (suc k') i h h' = elim (Option-cases (get_elem? sources i)) [
    | inl none_left ↦ rw none_left refl
    | inr (first, found) ↦
        let further = group_at_lt sources family i first found in
        elim (Bool-cases (supports first.kind family)) [
          | inl e ↦
              rw (found, e)
                (ap
                  (λ more.
                    sample_text family first (group_at memory finite_text sources family i first)
                    ++ more)
                  (lines_enough sources family k k'
                    (group_at memory finite_text sources family i first).next (omega arith)
                    (omega arith)))
          | inr e ↦
              rw (found, e) (lines_enough sources family k k' (i + 1) (omega arith) (omega arith))
        ]
  ]

  -- What `skip` passes over has no line.
  lines-skip :
      (sources : List Source) (family k i : ℕ)
      → length sources ≤ i + k
      → lines memory finite_text sources family k i
        ≡ lines memory finite_text sources family k (skip family i (drop i sources))
  unfolding lines
  lines-skip sources family zero i h =
      ap (lines memory finite_text sources family zero)
        (sym (skip-none sources family i (get_elem?_beyond sources i (omega arith))))
  lines-skip sources family (suc k) i h = elim (Option-cases (get_elem? sources i)) [
    | inl none_left ↦
        ap (lines memory finite_text sources family (suc k))
          (sym (skip-none sources family i none_left))
    | inr (first, found) ↦ elim (Bool-cases (supports first.kind family)) [
      | inl e ↦
          ap (lines memory finite_text sources family (suc k))
            (sym (skip-here sources family i first found e))
      | inr e ↦
          let behind = skip family (i + 1) (drop (i + 1) sources) in
          let far = skip_le family (i + 1) (drop (i + 1) sources) in
          let stays : lines memory finite_text sources family (suc k) i
              ≡ lines memory finite_text sources family k (i + 1) =
            rw (found, e) refl in
          stays
          ∙ lines-skip sources family k (i + 1) (omega arith)
          ∙ lines_enough sources family k (suc k) behind (omega arith) (omega arith)
          ∙ ap (lines memory finite_text sources family (suc k))
              (sym (skip-next sources family i first found e))
    ]
  ]

  pub lines-none :
      (sources : List Source) (family k i : ℕ)
      → length sources ≤ i + k
      → get_elem? sources (skip family i (drop i sources)) ≡ none
      → lines memory finite_text sources family k i ≡ []
  unfolding lines
  lines-none sources family zero i room h = refl
  lines-none sources family (suc k) i room h =
      let j = skip family i (drop i sources) in
      lines-skip sources family (suc k) i room
      ∙ ap
          (lines_at memory finite_text sources family j (lines memory finite_text sources family k))
          h

  pub lines-some :
      (sources : List Source) (family k k' i : ℕ) (first : Source)
      → let j = skip family i (drop i sources) in
        let g = group_at memory finite_text sources family j first in
        length sources ≤ i + k
        → length sources ≤ g.next + k'
        → get_elem? sources j ≡ some first
        → lines memory finite_text sources family k i
          ≡ sample_text family first g ++ lines memory finite_text sources family k' g.next
  unfolding lines
  lines-some sources family zero k' i first room room' h =
      let far = skip_le family i (drop i sources) in
      let there = lt_of_get_elem? sources (skip family i (drop i sources)) h in absurd (omega arith)
  lines-some sources family (suc k) k' i first room room' h =
      let j = skip family i (drop i sources) in
      let g = group_at memory finite_text sources family j first in
      let far = skip_le family i (drop i sources) in
      let further = group_at_lt sources family j first h in
      let shown = skip-supports sources family (suc k) i first room h in
      lines-skip sources family (suc k) i room
      ∙ ap
          (lines_at memory finite_text sources family j (lines memory finite_text sources family k))
          h
      ∙ rw shown (
          ap (λ more. sample_text family first g ++ more)
            (lines_enough sources family k k' g.next (omega arith) room'))
