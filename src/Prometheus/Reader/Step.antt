-- ===== src/Prometheus/Reader/Step.antt =====
-- A call of `next_sample` takes the first line off what is left.
use metrics.Common.{
  ℕ, zero, suc, ◌+◌, ◌-◌, ◌≡◌, ◌∙◌, refl, ap, sym, subst, Bool, true, false, Bytes, [], ◌++◌,
  Option, some, arith, length, get_elem?, drop, Option-cases, Bool-cases, inl, inr, append_assoc,
  if◌then◌else◌,
}
use metrics.Prometheus.Source.{Source}
use metrics.Prometheus.Reader.{PrometheusReader, skip, sample_at, family_loop, next_sample}
use metrics.Prometheus.Sample.{Memory, type_line, sample_text, state_header}
use metrics.Prometheus.Reader.Text.{
  group_at, lines, families_text, states_from, unless, left_text, text,
}
use metrics.Prometheus.Reader.Lines.{lines-none, lines-some}
use metrics.Prometheus.Reader.States.{Steps, sample_text_some, type_line_some, state_part-Steps}

module _ (memory : ℕ → ℕ → Memory) (finite_text : Bytes → Option Bytes) where
  -- What stands behind the families.
  abbrev pub tail_text : PrometheusReader → Bytes
  tail_text r = state_header ++ states_from memory finite_text r.state_field (drop r.state r.states)

  -- A reader at the head of a family, or behind all of them.
  pub left_text-head :
      (left : ℕ) (r : PrometheusReader)
      → r.header ≡ false
      → r.source ≡ 0
      → left_text memory finite_text left r
        ≡ families_text memory finite_text r.sources left r.family ++ tail_text r
  unfolding left_text families_text
  left_text-head zero r h s = rw h refl
  left_text-head (suc left) r h e =
      let families = families_text memory finite_text r.sources left (r.family + 1) in
      let samples = lines memory finite_text r.sources r.family (length r.sources) 0 in
      let start : lines memory finite_text r.sources r.family (length r.sources - r.source) r.source
          ≡ samples =
        let all : length r.sources - r.source ≡ length r.sources = omega (arith, e) in
        rw (e, rw e at all) refl in
      ap
        (λ done.
          unless done (type_line r.family)
          ++ (lines memory finite_text r.sources r.family (length r.sources - r.source) r.source
              ++ (families ++ tail_text r)))
        h
      ∙ ap (λ l. type_line r.family ++ (l ++ (families ++ tail_text r))) start
      ∙ ap (λ l. type_line r.family ++ l) (sym (append_assoc samples families (tail_text r)))
      ∙ sym (append_assoc (type_line r.family) (samples ++ families) (tail_text r))

  -- The text behind the head line of the family that the reader is at.
  abbrev family_rest : ℕ → PrometheusReader → Bytes
  family_rest left r =
      lines memory finite_text r.sources r.family (length r.sources - r.source) r.source
      ++ (families_text memory finite_text r.sources left (r.family + 1) ++ tail_text r)

  text-family :
      (left : ℕ) (r : PrometheusReader)
      → suc left ≡ 10 - r.family
      → r.header ≡ true
      → text memory finite_text r ≡ family_rest left r
  unfolding left_text
  text-family left r n h =
      ap (λ k. left_text memory finite_text k r) (sym n)
      ∙ ap (λ done. unless done (type_line r.family) ++ family_rest left r) h

  -- A group gives its sample, and leaves the reader behind it.
  sample_at-Steps :
      (left : ℕ) (r : PrometheusReader) (later : Bool × PrometheusReader) (first : Source)
      → suc left ≡ 10 - r.family
      → r.header ≡ true
      → r.offset ≡ 0
      → let i = skip r.family r.source (drop r.source r.sources) in
        get_elem? r.sources i ≡ some first
        → Steps memory finite_text
            (family_rest left r)
            (sample_at memory finite_text i r later (some first))
  unfolding sample_at
  sample_at-Steps left r later first n h o found =
      let i = skip r.family r.source (drop r.source r.sources) in
      let g = group_at memory finite_text r.sources r.family i first in
      let r' : PrometheusReader = record r {
        source = g.next;
        buffer = sample_text r.family first g;
      } in
      let all = length r.sources in
      let behind = families_text memory finite_text r.sources left (r.family + 1) ++ tail_text r in
      let rest = lines memory finite_text r.sources r.family (all - g.next) g.next in
      let samples =
        lines-some memory finite_text r.sources r.family (all - r.source) (all - g.next) r.source
          first (omega arith) (omega arith) found in
      (
        ap (λ l. l ++ behind) samples
            ∙ append_assoc (sample_text r.family first g) rest behind
            ∙ ap (λ l. sample_text r.family first g ++ l) (sym (text-family left r' n h)),
        sample_text_some r.family first g,
        o,
      )

  family_loop-Steps :
      (left : ℕ) (r : PrometheusReader)
      → left ≡ 10 - r.family
      → r.buffer ≡ []
      → r.offset ≡ 0
      → Steps memory finite_text
          (left_text memory finite_text left r)
          (family_loop memory finite_text left r)
  unfolding family_loop left_text
  family_loop-Steps zero r n e o = state_part-Steps memory finite_text r (omega arith) e o
  family_loop-Steps (suc left) r n e o =
      let i = skip r.family r.source (drop r.source r.sources) in
      let next : PrometheusReader = record r {
        family = r.family + 1;
        source = 0;
        header = false;
      } in
      let later = family_loop memory finite_text left next in
      let found = sample_at memory finite_text i r later (get_elem? r.sources i) in
      let r' : PrometheusReader = record r { header = true; buffer = type_line r.family } in
      elim (Bool-cases r.header) [
        | inr h ↦
            subst
              (λ done.
                Steps memory finite_text (unless done (type_line r.family) ++ family_rest left r)
                  (if done then found else (true, r')))
              (sym h)
              (
                ap (λ t. type_line r.family ++ t) (sym (text-family left r' n refl)),
                type_line_some r.family,
                o,
              )
        | inl h ↦
            subst
              (λ done.
                Steps memory finite_text (unless done (type_line r.family) ++ family_rest left r)
                  (if done then found else (true, r')))
              (sym h)
              (elim (Option-cases (get_elem? r.sources i)) [
                | inr (first, at_i) ↦
                    subst
                      (λ s.
                        Steps memory finite_text (family_rest left r)
                          (sample_at memory finite_text i r later s))
                      (sym at_i) (sample_at-Steps left r later first n h o at_i)
                | inl none_left ↦
                    let none_more : family_rest left r ≡ left_text memory finite_text left next =
                      ap
                        (λ l.
                          l
                          ++ (families_text memory finite_text r.sources left (r.family + 1)
                              ++ tail_text r))
                        (lines-none memory finite_text r.sources r.family
                          (length r.sources - r.source) r.source (omega arith) none_left)
                      ∙ sym (left_text-head left next refl refl) in
                    subst
                      (λ s.
                        Steps memory finite_text (family_rest left r)
                          (sample_at memory finite_text i r later s))
                      (sym none_left)
                      (unfold sample_at in
                        subst (λ t. Steps memory finite_text t later) (sym none_more)
                          (family_loop-Steps left next (omega arith) e o))
              ])
      ]

  pub left_text-offset :
      (left : ℕ) (r : PrometheusReader) (n : ℕ)
      → left_text memory finite_text left (record r { offset = n })
        ≡ left_text memory finite_text left r
  unfolding left_text
  left_text-offset zero r n = refl
  left_text-offset (suc left) r n = refl

  left_text-buffer :
      (left : ℕ) (r : PrometheusReader)
      → left_text memory finite_text left r
        ≡ left_text memory finite_text left (record r { buffer = []; offset = 0 })
  unfolding left_text
  left_text-buffer zero r = refl
  left_text-buffer (suc left) r = refl

  -- `next_sample` either takes a line that is not empty off the front of the text that is left, or
  -- says that none is left.
  pub next_sample-Steps :
      (r : PrometheusReader)
      → Steps memory finite_text (text memory finite_text r) (next_sample memory finite_text r)
  unfolding next_sample
  next_sample-Steps r =
      let cleared : PrometheusReader = record r { buffer = []; offset = 0 } in
      subst
        (λ t. Steps memory finite_text t (family_loop memory finite_text (10 - r.family) cleared))
        (sym (left_text-buffer (10 - r.family) r))
        (family_loop-Steps (10 - r.family) cleared refl refl refl)
